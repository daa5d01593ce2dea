-- ===== src/BufferedOrdered/Refine.antt =====
-- A whole poll of a `BufferedOrdered`.
use futures_buffered.Base.{
  ℕ, suc, ◌+◌, ◌*◌, ◌≤◌, ◌≡◌, refl, Option, none, some, List, ◌++◌, length, map, arith,
}
use futures_buffered.Task.{ready, pending, AtomicWaker, Log}
use futures_buffered.ArcSlice.{Waker, isize_max}
use futures_buffered.ArcSlice.Fifo.{Front}
use futures_buffered.UnorderedBounded.{PollFn, capacity, max_polls}
use futures_buffered.UnorderedBounded.Step.{Settles}
use futures_buffered.OrderWrapper.{OrderWrapper, BinaryHeap, cmp, msb}
use futures_buffered.JoinAll.Buffer.{capacity_of}
use futures_buffered.OrderedBounded.{OrderedOutcome}
use futures_buffered.OrderedBounded.InOrder.{InOrder}
use futures_buffered.OrderedBounded.Emitted.{Emitted, ended-Emitted}
use futures_buffered.OrderedBounded.Output.{Delivered}
use futures_buffered.OrderedBounded.Refine.{poll_ordered_lem}
use futures_buffered.Stream.{StreamFn, Took}
use futures_buffered.Stream.Ending.{Told-pending}
use futures_buffered.BufferedOrdered.{BufferedOrdered, AdaptorOutcome, after_queue, poll_next}
use futures_buffered.BufferedOrdered.Fill.{fill_lem}

module _ {W H S F O : Type 0} where
  after_queue-stream :
      (stream : Option S) (out : OrderedOutcome W H F O)
      → (after_queue stream out).0.stream ≡ stream
  unfolding after_queue
  after_queue-stream stream (q, log, ready (some x)) = refl
  after_queue-stream stream (q, log, ready none) = refl
  after_queue-stream stream (q, log, pending) = refl

module _ ⦃aw : AtomicWaker⦄ {S F O G : Type 0} (bh : BinaryHeap (OrderWrapper O) cmp)
    (P : G → F → Type 0) (R : G → O → Type 0) (cx : ℕ) (poll_fn : PollFn F O)
    (settles : (f : F) (w : Waker) → Settles w (poll_fn f w).result (poll_fn f w).events)
    (preserves : (g : G) (f : F) (w : Waker) → P g f → P g (poll_fn f w).fut)
    (gives : (g : G) (f : F) (w : Waker) (x : O)
      → P g f
      → (poll_fn f w).result ≡ ready x
      → R g x) where
  open aw use {Cell}

  after_queue_lem :
      (hs : List G) (stream : Option S) (out : OrderedOutcome Cell bh.Heap F O)
      → Delivered bh P R cx poll_fn settles preserves gives hs out
      → Emitted bh P R hs stream
          (after_queue stream out).0.in_progress_queue
          (after_queue stream out).2
  unfolding after_queue
  after_queue_lem hs stream (q, log, ready (some x)) (g, rest, e, r, front, xs, free, v) =
      (g, rest, e, r, (front, xs, free, v))
  after_queue_lem hs stream (q, log, ready none) (e, front, xs, free, v) =
      ended-Emitted bh P R hs stream q e (front, xs, free, v)
  after_queue_lem hs stream (q, log, pending) (some_left, front, xs, free, v, told) =
      (Told-pending O stream (length hs) some_left, (front, xs, free, v))

  -- Let the futures settle and have labels, which polling preserves and the output answers to. A
  -- poll of a `BufferedOrdered` whose valid queue holds the labels `gs` never faults. It takes some
  -- futures from the stream, polling it again only after it gave one, and puts their labels behind
  -- `gs`; it panics in no push. Of the labels then held, an output satisfies `R` with the first,
  -- and the others are left in their order: the outputs come in the order of the stream. The end
  -- comes only when no label is left and the stream has ended; pending without a stream, a label is
  -- left. There must be room for 2^63 labels and for the wakers of one round more than there are
  -- slots.
  pub poll_buffered_ordered_lem :
      (label : F → G) (starts : (f : F) → P (label f) f) (next : StreamFn S F)
      (b : BufferedOrdered Cell bh.Heap S F) (gs : List G) (log : Log) (front : Front)
      (xs free : List ℕ)
      → InOrder bh P R b.in_progress_queue gs front xs free
      → length gs + capacity b.in_progress_queue.in_progress_queue ≤ msb
      → b.in_progress_queue.in_progress_queue.shared.strong
          + suc (capacity b.in_progress_queue.in_progress_queue) * max_polls
        ≤ isize_max
      → (out : AdaptorOutcome Cell bh.Heap S F O) × (poll_next bh cx next poll_fn b log ≡ some out)
        × (futs : List F) × Took cx next b.stream futs out.0.stream
        × Emitted bh P R (gs ++ map label futs) out.0.stream out.0.in_progress_queue out.2
  unfolding poll_next
  poll_buffered_ordered_lem label starts next b gs log front xs free v few room =
      let slots = capacity b.in_progress_queue.in_progress_queue in
      let (filled, fills, (futs, from_stream, (front', xs', free', v', size, same))) =
        fill_lem Cell bh P R label starts cx next (suc slots) b gs log front xs free v (omega arith)
          (omega arith) in
      let queue = filled.0.in_progress_queue in
      let (out, runs, told) =
        poll_ordered_lem bh P R cx poll_fn settles preserves gives queue (gs ++ map label futs)
          filled.1 front' xs' free' v'
          (omega (arith, capacity_of queue.in_progress_queue v'.valid)) in
      (
        after_queue filled.0.stream out,
        rw (fills, runs) refl,
        futs,
        rw (after_queue-stream filled.0.stream out) from_stream,
        rw (after_queue-stream filled.0.stream out)
            (after_queue_lem (gs ++ map label futs) filled.0.stream out told),
      )
