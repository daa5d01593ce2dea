-- ===== src/ForEachConcurrent/Tests.antt =====
-- A `ForEachConcurrent` over the numbers below three, and the theorems at it.
use futures_buffered.Base.{ℕ, zero, suc, ◌≡◌, refl, inr, Option, none, some, [], ◌∷◌, arith}
use futures_buffered.Task.{ready, pending}
use futures_buffered.ArcSlice
use futures_buffered.ArcSlice.{Waker, woken_by_ref}
use futures_buffered.ArcSlice.Fifo.{stub, unwritten}
use futures_buffered.UnorderedBounded
use futures_buffered.UnorderedBounded.{PollFn, len, capacity}
use futures_buffered.UnorderedBounded.Step.{Settles}
use futures_buffered.UnorderedBounded.Valid.{new_set-IsValid}
use futures_buffered.UnorderedBounded.Sample.{waker_cell, pair, pair-IsValid}
use futures_buffered.SlotMap
use futures_buffered.Stream.{StreamFn}
use futures_buffered.ForEachConcurrent.{ForEachConcurrent, ForEachOutcome, CallFn, poll}
use futures_buffered.ForEachConcurrent.Round.{Shrinks}
use futures_buffered.ForEachConcurrent.Loop.{Runs, Verdict, for_each-poll_lem}
use futures_buffered.ForEachConcurrent.Limit.{for_each-poll_stuck}

-- The numbers below `n`, down to 0.
abbrev below : StreamFn ℕ ℕ
below zero cx = (0, [], ready none)
below (suc n) cx = (n, [], ready (some n))

below-Shrinks : (n : ℕ) → Shrinks (λ (s : ℕ). s) n (below n 9)
below-Shrinks zero = tt
below-Shrinks (suc n) = omega arith

-- The closure counts its calls, and its future is done after as many polls as the element says.
abbrev count_calls : CallFn ℕ ℕ ℕ
count_calls calls elem = (elem, suc calls)

abbrev wait : PollFn ℕ (Unit {0})
wait zero w = record { fut = 0; events = []; result = ready tt }
wait (suc n) w = record { fut = n; events = woken_by_ref w ∷ []; result = pending }

wait_settles : (n : ℕ) (w : Waker) → Settles w (wait n w).result (wait n w).events
wait_settles zero w = refl
wait_settles (suc n) w = inr (inr refl)

abbrev three : ForEachConcurrent (Option ℕ) ℕ ℕ ℕ
three = record { stream = some 3; f = 0; futures = pair 1 0 }

for_each-poll_lem_example :
    (out : ForEachOutcome (Option ℕ) ℕ ℕ ℕ) × (poll 9 9 below count_calls wait three [] ≡ some out)
    × (capacity out.0.futures ≡ capacity three.futures)
    × Verdict (Option ℕ) 9 below out
    × Runs 9 below count_calls wait three [] out.0 out.1
for_each-poll_lem_example =
    for_each-poll_lem 9 below count_calls wait (λ s. s) below-Shrinks wait_settles 9 three []
      (stub, 0 ∷ 1 ∷ [], [], pair-IsValid 1 0, omega arith) (unfold len SlotMap.len in omega arith)

abbrev limit_0 : ForEachConcurrent (Option ℕ) ℕ ℕ ℕ
limit_0 = record { stream = some 3; f = 0; futures = UnorderedBounded.new none 0 }

for_each-poll_stuck_example :
    poll 5 9 below count_calls wait limit_0 [] ≡ some (limit_0, [], pending)
unfolding UnorderedBounded.new ArcSlice.new SlotMap.new capacity SlotMap.capacity
for_each-poll_stuck_example =
    for_each-poll_stuck 9 below count_calls wait wait_settles limit_0 [] 3 4
      (unwritten, [], [], new_set-IsValid none 0 (omega arith), omega arith) refl refl
