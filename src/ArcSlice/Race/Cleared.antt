-- ===== src/ArcSlice/Race/Cleared.antt =====
-- Which slots stay cleared when one of them is swapped in.
use mathlib.Core.Path.{subst, subst₂}
use futures_buffered.Base.{
  ne_of_has, true, ◌>>=◌, ap, Distinct, ℕ, zero, suc, ◌+◌, ◌<◌, ◌≡◌, refl, false, some, List, [],
  ◌∷◌, arith, has,
}
use futures_buffered.ArcSlice.{Option, none, load_next, ArcSlotInner}
use futures_buffered.ArcSlice.Race.{select}
use futures_buffered.ArcSlice.Race.Order.{AllCleared}

-- A cleared slot of the list, and the others.
pub record SelectedSlot (n : ℕ) (s : List ArcSlotInner) (queued is : List ℕ) (k i : ℕ)
    (others : List ℕ) : Type 0 where
  pub in_range : i < n
  pub absent : has i queued ≡ false
  pub cleared : load_next s i ≡ some (n + 1)
  pub rest : AllCleared n s queued others
  pub apart : Distinct others
  pub alone : has i others ≡ false
  pub chosen_in : has i is ≡ true
  pub within : (j : ℕ) → has j is ≡ false → has j others ≡ false

nothing_selected :
    (i : ℕ) (others : List ℕ) → ◌≡◌ {A = Option (ℕ × List ℕ)} none (some (i, others)) → ⊥
nothing_selected i others e = ground arith

abbrev behind_first : ℕ → Option (ℕ × List ℕ) → Option (ℕ × List ℕ)
behind_first j o = do selected ← o; some (selected.0, j ∷ selected.1)

-- The parts of a selection.
abbrev slot_of : ℕ → Option (ℕ × List ℕ) → ℕ
slot_of j none = j
slot_of j (some p) = p.0

abbrev others_of : Option (ℕ × List ℕ) → List ℕ
others_of none = []
others_of (some p) = p.1

-- A slot behind the first one is selected among those behind it.
selected_later :
    (n : ℕ) (s : List ArcSlotInner) (queued : List ℕ) (j : ℕ) (is : List ℕ) (k i : ℕ)
    (others : List ℕ)
    → AllCleared n s queued (j ∷ is)
    → Distinct (j ∷ is)
    → (o : Option (ℕ × List ℕ)) → select is k ≡ o
    → ((x : ℕ) (l : List ℕ) → select is k ≡ some (x, l) → SelectedSlot n s queued is k x l)
    → behind_first j o ≡ some (i, others)
    → SelectedSlot n s queued (j ∷ is) (suc k) i others
selected_later n s queued j is k i others c d none chosen find e =
    absurd (nothing_selected i others e)
selected_later n s queued j is k i others c d (some (x, l)) chosen find e =
    let found = find x l chosen in
    subst₂ (SelectedSlot n s queued (j ∷ is) (suc k)) (ap (slot_of j) e) (ap others_of e) (record {
      in_range = found.in_range;
      absent = found.absent;
      cleared = found.cleared;
      rest = (c.0, c.1, c.2, found.rest);
      apart = (found.within j d.0, found.apart);
      alone = ground (arith, found.alone, ne_of_has x j is found.chosen_in d.0);
      chosen_in = ground (arith, found.chosen_in);
      within = λ y out. ground (arith, found.within y (ground arith));
    })

pub select_cleared :
    (n : ℕ) (s : List ArcSlotInner) (queued is : List ℕ) (k i : ℕ) (others : List ℕ)
    → AllCleared n s queued is
    → Distinct is
    → select is k ≡ some (i, others)
    → SelectedSlot n s queued is k i others
unfolding select
select_cleared n s queued [] k i others c d e = absurd (nothing_selected i others e)
select_cleared n s queued (j ∷ is) zero i others c d e =
    let first : j ≡ i = ap (slot_of j) e in
    let behind : is ≡ others = ap others_of e in
    record {
      in_range = subst (λ x. x < n) first c.0;
      absent = subst (λ x. has x queued ≡ false) first c.1;
      cleared = subst (λ x. load_next s x ≡ some (n + 1)) first c.2;
      rest = subst (AllCleared n s queued) behind c.3;
      apart = subst Distinct behind d.1;
      alone = subst₂ (λ x l. has x l ≡ false) first behind d.0;
      chosen_in = subst (λ x. has x (j ∷ is) ≡ true) first (ground arith);
      within = λ x out. subst (λ l. has x l ≡ false) behind (ground arith);
    }
select_cleared n s queued (j ∷ is) (suc k) i others c d e =
    selected_later n s queued j is k i others c d (select is k) refl
      (λ x l chosen. select_cleared n s queued is k x l c.3 d.1 chosen) e
