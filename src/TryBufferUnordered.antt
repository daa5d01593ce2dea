-- ===== src/TryBufferUnordered.antt =====
-- src/try_buffered.rs: `TryBufferUnordered`, which gives the outputs of a stream of futures as
-- they come, and an error of the stream at once. `none` is a panic.
pub mod Fill
pub mod Counted
mod Tests
use futures_buffered.Base.{if◌then◌else◌, ltb, ℕ, zero, suc, Option, none, some, ◌++◌, ◌>>=◌}
use futures_buffered.Task.{Poll, ready, pending, AtomicWaker, Log}
use futures_buffered.SlotMap.{Result, ok, err}
use futures_buffered.Stream.{StreamFn, stream_hint, ended}
use futures_buffered.UnorderedBounded
use futures_buffered.UnorderedBounded.{FuturesUnorderedBounded, PollFn}

pub record TryBufferUnordered (W S F : Type 0) : Type 0 where
  pub stream : Option S
  pub in_progress_queue : FuturesUnorderedBounded W F

-- The adaptor, the task wakers called so far, and the error that ends the loop early, if any.
abbrev pub FillOutcome : Type 0 → Type 0 → Type 0 → Type 0 → Type 0
FillOutcome W S F E = TryBufferUnordered W S F × Log × Option E

-- The adaptor, the task wakers called so far, and what a poll returns.
abbrev pub AdaptorOutcome : Type 0 → Type 0 → Type 0 → Type 0 → Type 0
AdaptorOutcome W S F O = TryBufferUnordered W S F × Log × Poll (Option O)

module _ {W S F E : Type 0} where
  -- What a round of the filling loop does once the stream has been polled. An error leaves the loop.
  unfoldable pub after_stream :
      (TryBufferUnordered W S F → Log → Option (FillOutcome W S F E))
      → FuturesUnorderedBounded W F
      → Log
      → S × Log × Poll (Option (Result F E))
      → Option (FillOutcome W S F E)
  after_stream rest unordered log (s, called, ready (some (ok fut))) = do
    pushed ← UnorderedBounded.push unordered fut
    rest (record { stream = some s; in_progress_queue = pushed }) (log ++ called)
  after_stream rest unordered log (s, called, ready (some (err e))) =
      some (record { stream = some s; in_progress_queue = unordered }, log ++ called, some e)
  after_stream rest unordered log (s, called, ready none) =
      some (record { stream = none; in_progress_queue = unordered }, log ++ called, none)
  after_stream rest unordered log (s, called, pending) =
      some (record { stream = some s; in_progress_queue = unordered }, log ++ called, none)

  unfoldable pub poll_stream :
      (TryBufferUnordered W S F → Log → Option (FillOutcome W S F E))
      → ℕ
      → StreamFn S (Result F E)
      → FuturesUnorderedBounded W F
      → Log
      → Option S
      → Option (FillOutcome W S F E)
  poll_stream rest cx next unordered log none =
      some (record { stream = none; in_progress_queue = unordered }, log, none)
  poll_stream rest cx next unordered log (some s) = after_stream rest unordered log (next s cx)

  -- The loop that fills the queue, with the number of rounds left.
  unfoldable pub fill :
      ℕ
      → ℕ
      → StreamFn S (Result F E)
      → TryBufferUnordered W S F
      → Log
      → Option (FillOutcome W S F E)
  fill zero cx next b log = none
  fill (suc left) cx next b log =
      if ltb (UnorderedBounded.len b.in_progress_queue)
        (UnorderedBounded.capacity b.in_progress_queue)
      then poll_stream (fill left cx next) cx next b.in_progress_queue log b.stream
      else some (b, log, none)

module _ {W S F O : Type 0} where
  -- The end of `poll_next`, once the queue has been polled.
  unfoldable pub after_queue :
      Option S → FuturesUnorderedBounded W F × Log × Poll (Option O) → AdaptorOutcome W S F O
  after_queue stream (unordered, log, ready (some val)) =
      (record { stream = stream; in_progress_queue = unordered }, log, ready (some val))
  after_queue stream (unordered, log, pending) =
      (record { stream = stream; in_progress_queue = unordered }, log, pending)
  after_queue stream (unordered, log, ready none) =
      (record { stream = stream; in_progress_queue = unordered }, log, ended stream)

module _ {W S F : Type 0} where
  -- The method of the extension trait that makes it.
  unfoldable pub try_buffered_unordered : W → S → ℕ → TryBufferUnordered W S F
  try_buffered_unordered cell stream n = record {
    stream = some stream;
    in_progress_queue = UnorderedBounded.new cell n;
  }

  unfoldable pub size_hint : (S → ℕ × Option ℕ) → TryBufferUnordered W S F → ℕ × Option ℕ
  size_hint hint b = stream_hint hint (UnorderedBounded.len b.in_progress_queue) b.stream

module _ ⦃aw : AtomicWaker⦄ {S F T E : Type 0} where
  open aw use {Cell}

  -- The second part of `poll_next`: an error of the stream is returned at once.
  unfoldable pub unless_error :
      ℕ
      → PollFn F (Result T E)
      → FillOutcome Cell S F E
      → Option (AdaptorOutcome Cell S F (Result T E))
  unless_error cx poll_fn (b, log, some e) = some (b, log, ready (some (err e)))
  unless_error cx poll_fn (b, log, none) = do
    polled ← UnorderedBounded.poll_next cx poll_fn b.in_progress_queue log
    some (after_queue b.stream polled)

  -- Each round of the filling loop but the last takes a free slot.
  unfoldable pub poll_next :
      ℕ
      → StreamFn S (Result F E)
      → PollFn F (Result T E)
      → TryBufferUnordered Cell S F
      → Log
      → Option (AdaptorOutcome Cell S F (Result T E))
  poll_next cx next poll_fn b log = do
    filled ← fill (suc (UnorderedBounded.capacity b.in_progress_queue)) cx next b log
    unless_error cx poll_fn filled
