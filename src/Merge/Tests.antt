-- ===== src/Merge/Tests.antt =====
-- A `Merge` of two streams, and the theorem at it.
use futures_buffered.UnorderedBounded.Sample.{waker_cell, two, two-IsValid}
use futures_buffered.ArcSlice.Fifo.{stub}
use futures_buffered.ArcSlice.{Waker}
use futures_buffered.UnorderedBounded
use futures_buffered.UnorderedBounded.{PollFn, FuturesUnorderedBounded}
use futures_buffered.UnorderedBounded.Step.{Settles}
use futures_buffered.SlotMap
use futures_buffered.Task.{ready}
use futures_buffered.Base.{arith, refl, zero, suc, ◌∷◌, some, Option, none, [], ◌≡◌, ℕ}
use futures_buffered.Merge.{Merge, MergeOutcome, poll_next}
use futures_buffered.Merge.Loop.{Merged, poll_next_lem}

-- A stream that gives the numbers below `n`, down to 0, and then ends.
abbrev numbers : PollFn ℕ (Option ℕ)
numbers zero w = record { fut = 0; events = []; result = ready none }
numbers (suc n) w = record { fut = n; events = []; result = ready (some n) }

numbers_settles : (n : ℕ) (w : Waker) → Settles w (numbers n w).result (numbers n w).events
numbers_settles zero w = refl
numbers_settles (suc n) w = refl

abbrev merge_two : Merge (Option ℕ) ℕ
merge_two = record { streams = two }

poll_next_lem_example :
    (out : MergeOutcome (Option ℕ) ℕ ℕ) × (poll_next 9 numbers merge_two [] ≡ some out)
    × Merged 9 numbers numbers_settles 2 out
unfolding UnorderedBounded.len SlotMap.len
poll_next_lem_example =
    poll_next_lem 9 numbers numbers_settles merge_two [] stub (0 ∷ 1 ∷ []) [] two-IsValid
      (omega arith)
