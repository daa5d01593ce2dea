-- ===== src/ArcSlice/Race/Refine.antt =====
-- Runs of producers and the consumer: the slots come out in the order of the swaps.
use mathlib.Core.List.{append_assoc, append-nil}
use mathlib.Core.Option.{some-injective}
use mathlib.Core.Path.{subst}
use futures_buffered.Base.{
  inl, inr, Bool-cases, ltb, false, has, count, count-append, ℕ, zero, suc, ◌≤◌, ◌<◌, ◌≡◌, refl,
  sym, ap, ◌∙◌, none, some, List, [], ◌∷◌, ◌++◌, length, arith,
}
use futures_buffered.ArcSlice.{ReadySlot, ready, inconsistent, empty}
use futures_buffered.ArcSlice.Race.{
  swap_in, swapped_in, Machine, select, start_push, finish_push, take, Reached, begun, started,
  finished, gave, gave_up, found_none,
}
use futures_buffered.ArcSlice.Race.Order.{Order, contents, Racing, contents-swap}
use futures_buffered.ArcSlice.Race.Producers.{grown, start_push_lem, swap_in_lem, finish_push_lem}
use futures_buffered.ArcSlice.Race.Consumer.{Popped, take_lem}

-- A number that does not occur in a list is not in it.
has_of_count : (i : ℕ) (xs : List ℕ) → count i xs ≡ 0 → has i xs ≡ false
has_of_count i [] e = refl
has_of_count i (x ∷ xs) e = ground (arith, has_of_count i xs)

select_bound : {A : Type 0} (ps : List A) (k : ℕ) → length ps ≤ k → select ps k ≡ none
unfolding select
select_bound [] k h = refl
select_bound (p ∷ ps) zero h = absurd (omega arith)
select_bound (p ∷ ps) (suc k) h = rw (select_bound ps k (omega arith)) refl

module _ {W : Type 0} where
  lt_of_finish :
      (k : ℕ) (m : Machine W) {m' : Machine W} → finish_push k m ≡ some m' → k < length m.producers
  unfolding finish_push
  lt_of_finish k m {m'} e = elim (Bool-cases (ltb k (length m.producers))) [
    | inl lt ↦ ground arith
    | inr ge ↦
        let out = select_bound m.producers k (ground arith) in
        absurd (none_some (sym (rw out refl) ∙ e))
  ]
    where
      none_some : none ≡ some m' → ⊥
      none_some e = ground arith

  -- The slots that were queued, those that producers started to push since, and those that the
  -- consumer took.
  abbrev pub InSwapOrder : List ℕ → List ℕ → List ℕ → Machine W → Type 0
  InSwapOrder xs pushed popped m =
      (order : Order) × (xs ++ pushed ≡ popped ++ contents order) × Racing m order

  after_take :
      (xs pushed popped : List ℕ) (m : Machine W) (out' : Machine W × ReadySlot ℕ)
      → InSwapOrder xs pushed popped m
      → take m ≡ some out'
      → (order : Order) × (xs ++ pushed ≡ popped ++ contents order) × Popped (contents order) out'
  after_take xs pushed popped m out' (order, e, v) runs =
      let (seen, runs', told) = take_lem m order v in
      (order, e, subst (Popped (contents order)) (some-injective seen out' (sym runs' ∙ runs)) told)

  given :
      (xs pushed popped : List ℕ) (m m' : Machine W) (x : ℕ)
      → InSwapOrder xs pushed popped m
      → take m ≡ some (m', ready x)
      → InSwapOrder xs pushed (popped ++ x ∷ []) m'
  given xs pushed popped m m' x held runs =
      let (order, e, (rest, first, order', same, v)) =
        after_take xs pushed popped m (m', ready x) held runs in
      (order', e ∙ rw (first, append_assoc, same) refl, v)

  given_up :
      (xs pushed popped : List ℕ) (m m' : Machine W)
      → InSwapOrder xs pushed popped m
      → take m ≡ some (m', inconsistent)
      → InSwapOrder xs pushed popped m'
  given_up xs pushed popped m m' held runs =
      let (order, e, (waiting, order', same, v)) =
        after_take xs pushed popped m (m', inconsistent) held runs in
      (order', e ∙ rw same refl, v)

  none_found :
      (xs pushed popped : List ℕ) (m m' : Machine W)
      → InSwapOrder xs pushed popped m
      → take m ≡ some (m', empty)
      → InSwapOrder xs pushed popped m'
  none_found xs pushed popped m m' held runs =
      let (order, e, (why, order', same, v)) =
        after_take xs pushed popped m (m', empty) held runs in
      (order', e ∙ rw same refl, v)

  push_started :
      (xs pushed popped : List ℕ) (m m' : Machine W) (i : ℕ)
      → InSwapOrder xs pushed popped m
      → i < m.queue.len
      → has i m.clearing ≡ false
      → count i (xs ++ pushed) ≡ count i popped
      → start_push i m ≡ some m'
      → InSwapOrder xs pushed popped m'
  push_started xs pushed popped m m' i (order, e, v) lt free balanced runs =
      let all : count i (popped ++ contents order) ≡ count i popped =
        ap (count i) (sym e) ∙ balanced in
      let absent =
        has_of_count i (contents order)
          (omega (arith, all, count-append i popped (contents order))) in
      let (starts, v') = start_push_lem m order i v lt absent free in
      (order, e, subst (λ out. Racing out order) (some-injective _ m' (sym starts ∙ runs)) v')

  slot_swapped :
      (xs pushed popped others : List ℕ) (m m' : Machine W) (k i : ℕ)
      → InSwapOrder xs pushed popped m
      → select m.clearing k ≡ some (i, others)
      → swap_in k m ≡ some m'
      → InSwapOrder xs (pushed ++ i ∷ []) popped m'
  slot_swapped xs pushed popped others m m' k i (order, e, v) chosen runs =
      let (swaps, v') = swap_in_lem m order k i others v chosen in
      (
        grown m order i,
        sym (append_assoc xs pushed (i ∷ []))
            ∙ ap (λ l. l ++ i ∷ []) e
            ∙ append_assoc popped (contents order) (i ∷ [])
            ∙ ap (λ l. popped ++ l) (sym (contents-swap order i)),
        subst (λ out. Racing out (grown m order i)) (some-injective _ m' (sym swaps ∙ runs)) v',
      )

  push_finished :
      (xs pushed popped : List ℕ) (m m' : Machine W) (k : ℕ)
      → InSwapOrder xs pushed popped m
      → finish_push k m ≡ some m'
      → InSwapOrder xs pushed popped m'
  push_finished xs pushed popped m m' k (order, e, v) runs =
      let done = finish_push_lem m order k v (lt_of_finish k m runs) in
      (
        done.links,
        e ∙ rw done.same refl,
        subst (λ out. Racing out done.links) (some-injective done.after m' (sym done.ends ∙ runs))
            done.racing,
      )

  -- Start with a queue that holds the slots `xs` in order. Let producers push and the consumer pop in any
  -- order, where each push is three accesses to shared memory between which others may come: the store
  -- to the slot's own link, the swap of the head, and the store to the link of the former head. Let a
  -- push of a slot start only when no other push of it is before its swap, and the slot was returned as
  -- often as it was swapped in. Then the pops return the slots in the order of their swaps: the slots of
  -- `xs` and those swapped in since are, in order, those returned and those that are still queued. No
  -- slot is lost, and none returned twice.
  pub reached_lem :
      (m₀ : Machine W) (order₀ : Order) (pushed popped : List ℕ) (m : Machine W)
      → Racing m₀ order₀
      → Reached m₀ (contents order₀) pushed popped m
      → InSwapOrder (contents order₀) pushed popped m
  reached_lem m₀ order₀ pushed popped m v begun = (order₀, append-nil (contents order₀), v)
  reached_lem m₀ order₀ pushed popped m v (started {m = m₁} i run lt free balanced runs) =
      push_started (contents order₀) pushed popped m₁ m i
        (reached_lem m₀ order₀ pushed popped m₁ v run) lt free balanced runs
  reached_lem m₀ order₀ pushed popped m v
        (swapped_in {pushed = ps} {others = others} {m = m₁} k i run chosen runs) =
      slot_swapped (contents order₀) ps popped others m₁ m k i
        (reached_lem m₀ order₀ ps popped m₁ v run) chosen runs
  reached_lem m₀ order₀ pushed popped m v (finished {m = m₁} k run runs) =
      push_finished (contents order₀) pushed popped m₁ m k
        (reached_lem m₀ order₀ pushed popped m₁ v run) runs
  reached_lem m₀ order₀ pushed popped m v (gave {popped = ts} {m = m₁} {x = x} run runs) =
      given (contents order₀) pushed ts m₁ m x (reached_lem m₀ order₀ pushed ts m₁ v run) runs
  reached_lem m₀ order₀ pushed popped m v (gave_up {m = m₁} run runs) =
      given_up (contents order₀) pushed popped m₁ m (reached_lem m₀ order₀ pushed popped m₁ v run)
        runs
  reached_lem m₀ order₀ pushed popped m v (found_none {m = m₁} run runs) =
      none_found (contents order₀) pushed popped m₁ m (reached_lem m₀ order₀ pushed popped m₁ v run)
        runs
