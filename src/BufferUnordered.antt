-- ===== src/BufferUnordered.antt =====
-- src/buffered/unordered.rs: `BufferUnordered`, which polls the futures that a stream gives, as many at
-- a time as its queue has slots.
pub mod Fill
mod Tests
use futures_buffered.Base.{
  if◌then◌else◌, ltb, ℕ, zero, suc, ◌+◌, Option, none, some, List, ◌++◌, ◌>>=◌, usize_mod, ◌-◌,
}
use futures_buffered.Task.{Poll, ready, pending, AtomicWaker, Log}
use futures_buffered.Stream.{StreamFn, stream_hint, ended}
use futures_buffered.UnorderedBounded
use futures_buffered.UnorderedBounded.{FuturesUnorderedBounded, PollFn}

pub record BufferUnordered (W S F : Type 0) : Type 0 where
  pub stream : Option S
  pub in_progress_queue : FuturesUnorderedBounded W F

module _ {W S F : Type 0} where
  -- What a round of the filling loop does once the stream has been polled.
  unfoldable pub after_stream :
      (BufferUnordered W S F → Log → Option (BufferUnordered W S F × Log))
      → FuturesUnorderedBounded W F
      → Log
      → S × Log × Poll (Option F)
      → Option (BufferUnordered W S F × Log)
  after_stream rest queue log (s, called, ready (some fut)) = do
    pushed ← UnorderedBounded.push queue fut
    rest (record { stream = some s; in_progress_queue = pushed }) (log ++ called)
  after_stream rest queue log (s, called, ready none) =
      some (record { stream = none; in_progress_queue = queue }, log ++ called)
  after_stream rest queue log (s, called, pending) =
      some (record { stream = some s; in_progress_queue = queue }, log ++ called)

  unfoldable pub poll_stream :
      (BufferUnordered W S F → Log → Option (BufferUnordered W S F × Log))
      → ℕ
      → StreamFn S F
      → FuturesUnorderedBounded W F
      → Log
      → Option S
      → Option (BufferUnordered W S F × Log)
  poll_stream rest cx next queue log none =
      some (record { stream = none; in_progress_queue = queue }, log)
  poll_stream rest cx next queue log (some s) = after_stream rest queue log (next s cx)

  -- The loop that fills the queue, with the number of rounds left.
  unfoldable pub fill :
      ℕ → ℕ → StreamFn S F → BufferUnordered W S F → Log → Option (BufferUnordered W S F × Log)
  fill zero cx next b log = none
  fill (suc left) cx next b log =
      if ltb (UnorderedBounded.len b.in_progress_queue)
        (UnorderedBounded.capacity b.in_progress_queue)
      then poll_stream (fill left cx next) cx next b.in_progress_queue log b.stream
      else some (b, log)

unfoldable pub size_hint :
    {W S F : Type 0} → (S → ℕ × Option ℕ) → BufferUnordered W S F → ℕ × Option ℕ
size_hint hint b = stream_hint hint (UnorderedBounded.len b.in_progress_queue) b.stream

module _ {W S F O : Type 0} where
  -- The end of `poll_next`, once the queue has been polled.
  unfoldable pub after_queue :
      Option S
      → FuturesUnorderedBounded W F × Log × Poll (Option O)
      → BufferUnordered W S F × Log × Poll (Option O)
  after_queue stream (queue, log, ready (some x)) =
      (record { stream = stream; in_progress_queue = queue }, log, ready (some x))
  after_queue stream (queue, log, pending) =
      (record { stream = stream; in_progress_queue = queue }, log, pending)
  after_queue stream (queue, log, ready none) =
      (record { stream = stream; in_progress_queue = queue }, log, ended stream)

-- The method of the extension trait that makes it.
unfoldable pub buffered_unordered : {W S F : Type 0} → W → S → ℕ → BufferUnordered W S F
buffered_unordered cell stream n = record {
  stream = some stream;
  in_progress_queue = UnorderedBounded.new cell n;
}

module _ ⦃aw : AtomicWaker⦄ {S F O : Type 0} where
  open aw use {Cell}

  -- Each round of the filling loop but the last takes a free slot.
  unfoldable pub poll_next :
      ℕ
      → StreamFn S F
      → PollFn F O
      → BufferUnordered Cell S F
      → Log
      → Option (BufferUnordered Cell S F × Log × Poll (Option O))
  poll_next cx next poll_fn b log = do
    (filled, log) ← fill (suc (UnorderedBounded.capacity b.in_progress_queue)) cx next b log
    polled ← UnorderedBounded.poll_next cx poll_fn filled.in_progress_queue log
    some (after_queue filled.stream polled)
