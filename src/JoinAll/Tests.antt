-- ===== src/JoinAll/Tests.antt =====
-- A `JoinAll` of two futures, and the theorems at it.
use futures_buffered.UnorderedBounded.Sample.{
  waker_cell, countdown, countdown_settles, two, two-IsValid,
}
use futures_buffered.ArcSlice.Fifo.{stub, Front}
use futures_buffered.ArcSlice.{Waker}
use futures_buffered.UnorderedBounded
use futures_buffered.UnorderedBounded.{PollFn, FuturesUnorderedBounded}
use futures_buffered.UnorderedBounded.Trace.{Keeps}
use futures_buffered.SlotMap
use futures_buffered.Task.{ready}
use futures_buffered.Base.{
  get_elem?, ◌≤◌, arith, refl, zero, suc, ◌∷◌, some, Option, none, [], ◌<◌, ◌≡◌, ℕ, length,
}
use futures_buffered.JoinAll.{JoinAll, JoinOutcome, poll, join_all}
use futures_buffered.JoinAll.Buffer.{WrittenAt}
use futures_buffered.JoinAll.Filling.{IsFilling}
use futures_buffered.JoinAll.Loop.{Joined, poll_lem, join_all-IsFilling}

abbrev join_two : JoinAll (Option ℕ) ℕ ℕ
join_two = record { queue = two; output = none ∷ none ∷ [] }

-- A future counts down from one at most; the output is 42.
abbrev Low : ℕ → ℕ → Type 0
Low i n = n ≤ 1

abbrev Is42 : ℕ → ℕ → Type 0
Is42 i x = x ≡ 42

two_low : Keeps Low two.tasks
unfolding SlotMap.get SlotMap.get_slot SlotMap.value
two_low zero f e = ground arith
two_low (suc zero) f e = ground arith
two_low (suc (suc i)) f e = ground arith

join_two-IsFilling : IsFilling Low Is42 two (none ∷ none ∷ []) stub (0 ∷ 1 ∷ []) []
unfolding SlotMap.get SlotMap.get_slot SlotMap.value SlotMap.capacity UnorderedBounded.capacity
join_two-IsFilling = record {
  valid = two-IsValid;
  sized = refl;
  kept = two_low;
  written = none_vacant;
}
  where
    none_vacant :
        (i : ℕ) → i < 2 → SlotMap.get two.tasks i ≡ none → WrittenAt Is42 (none ∷ none ∷ []) i
    none_vacant zero h e = absurd (ground arith)
    none_vacant (suc zero) h e = absurd (ground arith)
    none_vacant (suc (suc i)) h e = absurd (omega arith)

countdown_low : (i f : ℕ) (w : Waker) → Low i f → Low i (countdown f w).fut
countdown_low i zero w h = omega arith
countdown_low i (suc n) w h = omega arith

countdown_42 : (i f : ℕ) (w : Waker) (x : ℕ) → Low i f → (countdown f w).result ≡ ready x → Is42 i x
countdown_42 i zero w x h e = ground arith
countdown_42 i (suc n) w x h e = ground arith

poll_lem_example :
    (out : JoinOutcome (Option ℕ) ℕ ℕ) × (poll 9 countdown join_two [] ≡ some out)
    × Joined Low Is42 9 countdown countdown_settles countdown_low countdown_42 2 out
unfolding UnorderedBounded.len SlotMap.len
poll_lem_example =
    poll_lem Low Is42 9 countdown countdown_settles countdown_low countdown_42 join_two [] stub
      (0 ∷ 1 ∷ []) [] join_two-IsFilling (omega arith)

low_list : (i f : ℕ) → get_elem? (1 ∷ 0 ∷ []) i ≡ some f → Low i f
low_list zero f e = ground arith
low_list (suc zero) f e = ground arith
low_list (suc (suc i)) f e = ground arith

join_all-IsFilling_example :
    (j : JoinAll (Option ℕ) ℕ ℕ) × (front : Front) × (join_all none (1 ∷ 0 ∷ []) ≡ some j)
    × IsFilling Low Is42 j.queue j.output front (0 ∷ 1 ∷ []) []
    × (length j.output ≡ 2)
join_all-IsFilling_example = join_all-IsFilling Low Is42 none (1 ∷ 0 ∷ []) (omega arith) low_list
