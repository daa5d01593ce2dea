-- ===== src/BufferUnordered/Tests.antt =====
-- A `BufferUnordered` with a stream of numbers, whose queue has two free slots, and the theorem at it.
use futures_buffered.UnorderedBounded.Valid.{new_set-IsValid}
use futures_buffered.Unordered.Groups.{Sound}
use futures_buffered.Stream.Served.{Served, push_each}
use futures_buffered.Base.{length, ◌+◌, List, [], ◌∷◌, ◌≡◌, arith, ℕ, zero, suc, Option, none, some}
use futures_buffered.Task.{Poll, ready, Log}
use futures_buffered.ArcSlice.Fifo.{unwritten}
use futures_buffered.UnorderedBounded
use futures_buffered.ArcSlice
use futures_buffered.UnorderedBounded.Sample.{waker_cell, countdown, countdown_settles}
use futures_buffered.Stream.{Took, StreamFn}
use futures_buffered.BufferUnordered.{FuturesUnorderedBounded, BufferUnordered, poll_next}
use futures_buffered.BufferUnordered.Fill.{poll_buffered_lem}

-- The numbers below `n`, down to 0.
abbrev below : StreamFn ℕ ℕ
below zero cx = (0, [], ready none)
below (suc n) cx = (n, [], ready (some n))

abbrev buffer : BufferUnordered (Option ℕ) ℕ ℕ
buffer = record { stream = some 3; in_progress_queue = UnorderedBounded.new none 2 }

poll_buffered_lem_example :
    (out : BufferUnordered (Option ℕ) ℕ ℕ × Log × Poll (Option ℕ)) × (poll_next 9 below countdown
        buffer []
      ≡ some out)
    × (futs : List ℕ) × Took 9 below (some 3) futs out.0.stream
    × (filled : FuturesUnorderedBounded (Option ℕ) ℕ) × (push_each futs buffer.in_progress_queue
        ≡ some filled)
    × (UnorderedBounded.len filled ≡ UnorderedBounded.len buffer.in_progress_queue + length futs)
    × Sound 100 out.0.in_progress_queue
    × (UnorderedBounded.capacity out.0.in_progress_queue
        ≡ UnorderedBounded.capacity buffer.in_progress_queue)
    × Served 9 countdown out.2 out.0.stream filled out.0.in_progress_queue out.1
unfolding UnorderedBounded.new ArcSlice.new
poll_buffered_lem_example =
    poll_buffered_lem 9 below countdown countdown_settles 100 buffer []
      (unwritten, [], 0 ∷ 1 ∷ [], new_set-IsValid none 2 (omega arith), omega arith)
