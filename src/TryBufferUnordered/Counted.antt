-- ===== src/TryBufferUnordered/Counted.antt =====
-- A whole poll of a `TryBufferUnordered`.
use futures_buffered.Stream.Served.{Served-ended, Served-pending, Served, push_each}
use futures_buffered.UnorderedBounded.Inner.{poll_inner_lem, PolledInner}
use futures_buffered.Base.{
  ◌∷◌, ap, length, List, ℕ, suc, ◌+◌, ◌≤◌, ◌≡◌, refl, some, none, Option, arith, ◌∙◌,
}
use futures_buffered.ArcSlice.{Waker}
use futures_buffered.Task.{Poll, ready, pending, AtomicWaker, Log}
use futures_buffered.UnorderedBounded.{
  FuturesUnorderedBounded, PollFn, Outcome, capacity, len, max_polls, output_only,
}
use futures_buffered.UnorderedBounded.Step.{Settles}
use futures_buffered.Unordered.Groups.{Sound, Sound-le}
use futures_buffered.JoinAll.Buffer.{capacity_of}
use futures_buffered.Stream.{StreamFn, TryTook}
use futures_buffered.TryBufferUnordered.{
  TryBufferUnordered, FillOutcome, AdaptorOutcome, unless_error, poll_next, after_queue,
}
use futures_buffered.SlotMap.{Result, err}
use futures_buffered.UnorderedBounded
use futures_buffered.TryBufferUnordered.Fill.{fill_lem}

module _ ⦃aw : AtomicWaker⦄ {S F T E : Type 0} (cx : ℕ) (next : StreamFn S (Result F E))
    (poll_fn : PollFn F (Result T E))
    (settles : (f : F) (w : Waker) → Settles w (poll_fn f w).result (poll_fn f w).events)
    (spare : ℕ) where
  open aw use {Cell}

  -- What a poll with the stream and the queue `filled` returns and leaves when there is no error.
  abbrev Polls :
      Option S → FuturesUnorderedBounded Cell F → AdaptorOutcome Cell S F (Result T E) → Type 0
  Polls stream filled (b, log, r) =
      (b.stream ≡ stream)
      × Sound spare b.in_progress_queue
      × (capacity b.in_progress_queue ≡ capacity filled)
      × Served cx poll_fn r stream filled b.in_progress_queue log

  -- What is returned, and left of the queue `filled`: an error of the stream at once, and the whole
  -- queue as it is.
  abbrev pub TryServed :
      Option E
      → Poll (Option (Result T E))
      → Option S
      → FuturesUnorderedBounded Cell F
      → FuturesUnorderedBounded Cell F
      → Log
      → Type 0
  TryServed (some e) r stream filled q log = (r ≡ ready (some (err e))) × (q ≡ filled)
  TryServed none r stream filled q log = Served cx poll_fn r stream filled q log

  after_queue_lem :
      (q : FuturesUnorderedBounded Cell F) (log : Log) (free : List ℕ) (stream : Option S)
      (inner : Outcome Cell F (Result T E))
      → UnorderedBounded.poll_next cx poll_fn q log ≡ some (output_only inner)
      → Sound (spare + max_polls) q
      → len q + length free ≡ capacity q
      → PolledInner cx poll_fn settles q log free inner
      → inner.0.shared.strong ≤ q.shared.strong + max_polls
      → Polls stream q (after_queue stream (output_only inner))
  unfolding after_queue output_only
  after_queue_lem q log free stream (q', log', pending) runs (front, xs, old, v, room) size p b = (
    refl,
    (p.3, p.4, free, p.5, omega arith),
    omega (arith, capacity_of q' p.5, p.1),
    Served-pending cx poll_fn stream q q' log' p.1 p.0 (log, runs),
  )
  after_queue_lem q log free stream (q', log', ready none) runs (front, xs, old, v, room) size p b =
      (
        refl,
        rw p.1 (front, xs, old, v, omega arith),
        ap capacity p.1,
        Served-ended cx poll_fn stream q q' log' p.0 (ap len p.1 ∙ p.0) (log, runs),
      )
  after_queue_lem q log free stream (q', log', ready (some (i, x))) runs (front, xs, old, v, room)
        size p b =
      (
        refl,
        (p.5, p.6, i ∷ free, p.7, omega arith),
        omega (arith, capacity_of q' p.7, p.3),
        (p.3, (log, runs)),
      )

  unless_error_lem :
      (filled : FillOutcome Cell S F E)
      → Sound (spare + max_polls) filled.0.in_progress_queue
      → (out : AdaptorOutcome Cell S F (Result T E)) × (unless_error cx poll_fn filled ≡ some out)
        × Sound spare out.0.in_progress_queue
        × (capacity out.0.in_progress_queue ≡ capacity filled.0.in_progress_queue)
        × (out.0.stream ≡ filled.0.stream)
        × TryServed filled.2 out.2 filled.0.stream filled.0.in_progress_queue
            out.0.in_progress_queue out.1
  unfolding unless_error UnorderedBounded.poll_next
  unless_error_lem (b, log, some e) sound = (
    (b, log, ready (some (err e))),
    refl,
    Sound-le (spare + max_polls) spare b.in_progress_queue (omega arith) sound,
    refl,
    refl,
    (refl, refl),
  )
  unless_error_lem (b, log, none) (front, xs, free, v, room) =
      let q = b.in_progress_queue in
      let (inner, runs, polled, strong) =
        poll_inner_lem cx poll_fn settles q log free front xs v (omega arith) in
      let (kept, sound, size, served) =
        after_queue_lem q log free b.stream inner (rw runs refl) (front, xs, free, v, room)
          (capacity_of q v) polled strong in
      (after_queue b.stream (output_only inner), rw runs refl, sound, size, kept, served)

  -- A poll of a `TryBufferUnordered` whose queue is valid and whose futures settle never faults. It
  -- takes some futures from the stream, while a slot is free, and pushes each of them to the queue, in
  -- order. If the stream then gives an error, that is returned at once: the queue is left as it was
  -- filled, so that no future held is polled or lost, and the stream stays. Otherwise the filled queue
  -- is polled once: its output is what is returned, and takes one from the futures held; pending, all
  -- of them stay, and at least one if the stream has ended; the end comes only when none is held and
  -- the stream has ended. The queue stays valid, with its slots. The reference count needs room for 61
  -- wakers, and `spare` of it is left for more.
  pub poll_try_unordered_lem :
      (b : TryBufferUnordered Cell S F) (log : Log)
      → Sound (spare + max_polls) b.in_progress_queue
      → (out : AdaptorOutcome Cell S F (Result T E)) × (poll_next cx next poll_fn b log ≡ some out)
        × (futs : List F) × (error : Option E) × TryTook cx next b.stream futs out.0.stream error
        × (filled : FuturesUnorderedBounded Cell F) × (push_each futs b.in_progress_queue
            ≡ some filled)
        × (len filled ≡ len b.in_progress_queue + length futs)
        × Sound spare out.0.in_progress_queue
        × (capacity out.0.in_progress_queue ≡ capacity b.in_progress_queue)
        × TryServed error out.2 out.0.stream filled out.0.in_progress_queue out.1
  unfolding poll_next
  poll_try_unordered_lem b log sound =
      let (filled, fills, (futs, from_stream, pushes, sound', size, count)) =
        fill_lem Cell cx next (spare + max_polls) (suc (capacity b.in_progress_queue)) b log sound
          (omega arith) in
      let (out, runs, kept_sound, same_size, kept, told) = unless_error_lem filled sound' in
      (
        out,
        rw (fills, runs) refl,
        futs,
        filled.2,
        rw kept from_stream,
        filled.0.in_progress_queue,
        pushes,
        count,
        kept_sound,
        same_size ∙ size,
        rw kept told,
      )
