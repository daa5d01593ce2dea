-- ===== src/BufferedOrdered.antt =====
-- src/buffered/ordered.rs: `BufferedOrdered`, which gives the outputs of a stream of futures in the
-- order of the stream. `none` is a panic.
pub mod Fill
pub mod Refine
mod Tests
use futures_buffered.Base.{if◌then◌else◌, ltb, ℕ, zero, suc, Option, none, some, ◌++◌, ◌>>=◌}
use futures_buffered.Task.{Poll, ready, pending, AtomicWaker, Log}
use futures_buffered.Stream.{StreamFn, stream_hint, ended}
use futures_buffered.UnorderedBounded
use futures_buffered.UnorderedBounded.{PollFn}
use futures_buffered.OrderWrapper.{OrderWrapper, BinaryHeap, cmp}
use futures_buffered.OrderedBounded
use futures_buffered.OrderedBounded.{FuturesOrderedBounded, OrderedOutcome}

pub record BufferedOrdered (W H S F : Type 0) : Type 0 where
  pub stream : Option S
  pub in_progress_queue : FuturesOrderedBounded W H F

-- The adaptor, the task wakers called so far, and what a poll returns.
abbrev pub AdaptorOutcome : Type 0 → Type 0 → Type 0 → Type 0 → Type 0 → Type 0
AdaptorOutcome W H S F O = BufferedOrdered W H S F × Log × Poll (Option O)

module _ {W H S F : Type 0} where
  -- What a round of the filling loop does once the stream has been polled.
  unfoldable pub after_stream :
      (BufferedOrdered W H S F → Log → Option (BufferedOrdered W H S F × Log))
      → FuturesOrderedBounded W H F
      → Log
      → S × Log × Poll (Option F)
      → Option (BufferedOrdered W H S F × Log)
  after_stream rest ordered log (s, called, ready (some fut)) = do
    pushed ← OrderedBounded.push_back ordered fut
    rest (record { stream = some s; in_progress_queue = pushed }) (log ++ called)
  after_stream rest ordered log (s, called, ready none) =
      some (record { stream = none; in_progress_queue = ordered }, log ++ called)
  after_stream rest ordered log (s, called, pending) =
      some (record { stream = some s; in_progress_queue = ordered }, log ++ called)

  unfoldable pub poll_stream :
      (BufferedOrdered W H S F → Log → Option (BufferedOrdered W H S F × Log))
      → ℕ
      → StreamFn S F
      → FuturesOrderedBounded W H F
      → Log
      → Option S
      → Option (BufferedOrdered W H S F × Log)
  poll_stream rest cx next ordered log none =
      some (record { stream = none; in_progress_queue = ordered }, log)
  poll_stream rest cx next ordered log (some s) = after_stream rest ordered log (next s cx)

  -- The loop that fills the queue, with the number of rounds left. It counts the futures in progress,
  -- not the outputs that wait.
  unfoldable pub fill :
      ℕ → ℕ → StreamFn S F → BufferedOrdered W H S F → Log → Option (BufferedOrdered W H S F × Log)
  fill zero cx next b log = none
  fill (suc left) cx next b log =
      let tasks = b.in_progress_queue.in_progress_queue in
      if ltb (UnorderedBounded.len tasks) (UnorderedBounded.capacity tasks)
      then poll_stream (fill left cx next) cx next b.in_progress_queue log b.stream
      else some (b, log)

module _ {W H S F O : Type 0} where
  -- The end of `poll_next`, once the queue has been polled.
  unfoldable pub after_queue : Option S → OrderedOutcome W H F O → AdaptorOutcome W H S F O
  after_queue stream (ordered, log, ready (some val)) =
      (record { stream = stream; in_progress_queue = ordered }, log, ready (some val))
  after_queue stream (ordered, log, pending) =
      (record { stream = stream; in_progress_queue = ordered }, log, pending)
  after_queue stream (ordered, log, ready none) =
      (record { stream = stream; in_progress_queue = ordered }, log, ended stream)

module _ {W S F O : Type 0} (bh : BinaryHeap (OrderWrapper O) cmp) where
  -- The method of the extension trait that makes it.
  unfoldable pub buffered_ordered : W → S → ℕ → Option (BufferedOrdered W bh.Heap S F)
  buffered_ordered cell stream n = do
    queue ← OrderedBounded.new bh cell n
    some (record { stream = some stream; in_progress_queue = queue })

  unfoldable pub size_hint : (S → ℕ × Option ℕ) → BufferedOrdered W bh.Heap S F → ℕ × Option ℕ
  size_hint hint b = stream_hint hint (OrderedBounded.len bh b.in_progress_queue) b.stream

module _ ⦃aw : AtomicWaker⦄ {S F O : Type 0} (bh : BinaryHeap (OrderWrapper O) cmp) where
  open aw use {Cell}

  -- Each round of the filling loop but the last takes a free slot.
  unfoldable pub poll_next :
      ℕ
      → StreamFn S F
      → PollFn F O
      → BufferedOrdered Cell bh.Heap S F
      → Log
      → Option (AdaptorOutcome Cell bh.Heap S F O)
  poll_next cx next poll_fn b log = do
    (filled, log) ←
        fill (suc (UnorderedBounded.capacity b.in_progress_queue.in_progress_queue)) cx next b log
    polled ← OrderedBounded.poll_next bh cx poll_fn filled.in_progress_queue log
    some (after_queue filled.stream polled)
