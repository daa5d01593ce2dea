-- ===== src/BufferedOrdered/Tests.antt =====
-- A `BufferedOrdered` over two timers and a stream of timers, and the theorem at it.
use futures_buffered.Base.{ℕ, zero, suc, ◌≡◌, refl, Option, none, some, List, [], ◌∷◌, map, arith}
use futures_buffered.Task.{ready}
use futures_buffered.ArcSlice.Fifo.{stub}
use futures_buffered.UnorderedBounded.{capacity}
use futures_buffered.UnorderedBounded.Sample.{
  waker_cell, Timer, timer, timer_settles, timer_preserves, timer_gives, Outputs, Gives,
}
use futures_buffered.SlotMap
use futures_buffered.OrderWrapper.{OrderWrapper}
use futures_buffered.OrderWrapper.ListHeap.{list_heap}
use futures_buffered.OrderedBounded.Sample.{timers, timers-InOrder}
use futures_buffered.OrderedBounded.Emitted.{Emitted}
use futures_buffered.Stream.{StreamFn, Took}
use futures_buffered.BufferedOrdered.{BufferedOrdered, AdaptorOutcome, poll_next}
use futures_buffered.BufferedOrdered.Refine.{poll_buffered_ordered_lem}

-- Timers with the outputs below `n`, down to 0.
abbrev timers_below : StreamFn ℕ Timer
timers_below zero cx = (0, [], ready none)
timers_below (suc n) cx = (n, [], ready (some (record { left = n; output = n })))

abbrev label : Timer → ℕ
label f = f.output

abbrev buffer : BufferedOrdered (Option ℕ) (List (OrderWrapper ℕ)) ℕ Timer
buffer = record { stream = some 3; in_progress_queue = timers ℕ }

poll_buffered_ordered_lem_example :
    (out : AdaptorOutcome (Option ℕ) (List (OrderWrapper ℕ)) ℕ Timer ℕ) × (poll_next
        (list_heap ℕ)
        9
        timers_below
        timer
        buffer
        []
      ≡ some out)
    × (futs : List Timer) × Took 9 timers_below (some 3) futs out.0.stream
    × Emitted
        (list_heap ℕ)
        Outputs
        Gives
        (10 ∷ 20 ∷ map label futs)
        out.0.stream
        out.0.in_progress_queue
        out.2
unfolding capacity SlotMap.capacity
poll_buffered_ordered_lem_example =
    poll_buffered_ordered_lem (list_heap ℕ) Outputs Gives 9 timer timer_settles timer_preserves
      timer_gives label (λ f. refl) timers_below buffer (10 ∷ 20 ∷ []) [] stub (0 ∷ 1 ∷ []) []
      (timers-InOrder Gives) (omega arith) (omega arith)
