-- ===== src/Unordered/Groups.antt =====
-- Lists of groups: what holds of every group, and how many futures they hold.
use futures_buffered.Base.{
  refl, length, set, get_elem?, ℕ, zero, suc, ◌+◌, ◌≤◌, ◌<◌, ◌≡◌, some, List, [], ◌∷◌, ◌++◌, arith,
  ap, usize_mod, sub_usize,
}
use mathlib.Core.Path.{subst}
use mathlib.Core.Option.{some-injective}
use futures_buffered.ArcSlice.{isize_max}
use futures_buffered.ArcSlice.Fifo.{Front}
use futures_buffered.UnorderedBounded.{FuturesUnorderedBounded, len}
use futures_buffered.UnorderedBounded.Valid.{IsValid}
use futures_buffered.Unordered.{remove_elem}

module _ {W F : Type 0} where
  -- A valid group whose reference count has room for `n` more.
  abbrev pub Sound : ℕ → FuturesUnorderedBounded W F → Type 0
  Sound n g =
      (front : Front) × (xs : List ℕ) × (free : List ℕ) × IsValid g front xs free
      × (g.shared.strong + n ≤ isize_max)

  abbrev pub AllSound : ℕ → List (FuturesUnorderedBounded W F) → Type 0
  AllSound n [] = Unit
  AllSound n (g ∷ gs) = Sound n g × AllSound n gs

  -- The futures of all groups.
  abbrev pub total : List (FuturesUnorderedBounded W F) → ℕ
  total [] = 0
  total (g ∷ gs) = len g + total gs

  pub Sound-le : (n k : ℕ) (g : FuturesUnorderedBounded W F) → k ≤ n → Sound n g → Sound k g
  Sound-le n k g h (front, xs, free, v, b) = (front, xs, free, v, omega arith)

  pub AllSound-le :
      (n k : ℕ) (gs : List (FuturesUnorderedBounded W F)) → k ≤ n → AllSound n gs → AllSound k gs
  AllSound-le n k [] h s = tt
  AllSound-le n k (g ∷ gs) h s = (Sound-le n k g h s.0, AllSound-le n k gs h s.1)

  pub Sound-at :
      (n : ℕ) (gs : List (FuturesUnorderedBounded W F)) (i : ℕ) {g : FuturesUnorderedBounded W F}
      → AllSound n gs
      → get_elem? gs i ≡ some g
      → Sound n g
  Sound-at n [] i s e = absurd (ground arith)
  Sound-at n (h ∷ gs) zero {g} s e = subst (Sound n) (some-injective h g e) s.0
  Sound-at n (h ∷ gs) (suc i) s e = Sound-at n gs i s.1 e

  pub AllSound-set :
      (n : ℕ) (gs : List (FuturesUnorderedBounded W F)) (i : ℕ) (g : FuturesUnorderedBounded W F)
      → AllSound n gs
      → Sound n g
      → AllSound n (set gs i g)
  AllSound-set n [] i g s v = tt
  AllSound-set n (h ∷ gs) zero g s v = (v, s.1)
  AllSound-set n (h ∷ gs) (suc i) g s v = (s.0, AllSound-set n gs i g s.1 v)

  pub AllSound-remove :
      (n : ℕ) (gs : List (FuturesUnorderedBounded W F)) (i : ℕ)
      → AllSound n gs
      → AllSound n (remove_elem gs i)
  AllSound-remove n [] i s = tt
  AllSound-remove n (h ∷ gs) zero s = s.1
  AllSound-remove n (h ∷ gs) (suc i) s = (s.0, AllSound-remove n gs i s.1)

  pub AllSound-snoc :
      (n : ℕ) (gs : List (FuturesUnorderedBounded W F)) (g : FuturesUnorderedBounded W F)
      → AllSound n gs
      → Sound n g
      → AllSound n (gs ++ g ∷ [])
  AllSound-snoc n [] g s v = (v, tt)
  AllSound-snoc n (h ∷ gs) g s v = (s.0, AllSound-snoc n gs g s.1 v)

  pub total-set :
      (gs : List (FuturesUnorderedBounded W F)) (i : ℕ) (g' : FuturesUnorderedBounded W F)
      {g : FuturesUnorderedBounded W F}
      → get_elem? gs i ≡ some g
      → total (set gs i g') + len g ≡ total gs + len g'
  total-set [] i g' e = absurd (ground arith)
  total-set (h ∷ gs) zero g' {g} e = omega (arith, ap len (some-injective h g e))
  total-set (h ∷ gs) (suc i) g' e = omega (arith, total-set gs i g' e)

  pub total-remove :
      (gs : List (FuturesUnorderedBounded W F)) (i : ℕ) {g : FuturesUnorderedBounded W F}
      → get_elem? gs i ≡ some g
      → (total (remove_elem gs i) + len g ≡ total gs) × (length (remove_elem gs i) + 1 ≡ length gs)
  total-remove [] i e = absurd (ground arith)
  total-remove (h ∷ gs) zero {g} e = (omega (arith, ap len (some-injective h g e)), omega arith)
  total-remove (h ∷ gs) (suc i) e = let (t, l) = total-remove gs i e in (omega arith, omega arith)

  pub total-snoc :
      (gs : List (FuturesUnorderedBounded W F)) (g : FuturesUnorderedBounded W F)
      → total (gs ++ g ∷ []) ≡ total gs + len g
  total-snoc [] g = omega arith
  total-snoc (h ∷ gs) g = omega (arith, total-snoc gs g)

pub total_of_no_group :
    {W F : Type 0} (gs : List (FuturesUnorderedBounded W F)) → length gs ≡ 0 → total gs ≡ 0
total_of_no_group [] e = refl
total_of_no_group (g ∷ gs) e = absurd (omega arith)

-- A counter of usize that is not 0 goes down by one.
pub sub_usize_one : (n k : ℕ) → k + 1 ≡ n → n < usize_mod → sub_usize n 1 ≡ k
sub_usize_one n k e h = ground arith
