-- ===== src/BufferUnordered/Fill.antt =====
-- The filling loop, and what a poll of a `BufferUnordered` returns.
use futures_buffered.Stream.Served.{Served-ended, push_each, Served-pending, Served}
use futures_buffered.UnorderedBounded.Inner.{poll_inner_lem, PolledInner}
use futures_buffered.Base.{
  [], ◌∷◌, ap, length, List, inl, inr, Bool-cases, ltb, ℕ, zero, suc, ◌+◌, ◌≤◌, ◌<◌, ◌≡◌, refl,
  some, none, Option, ◌++◌, arith, ◌∙◌,
}
use futures_buffered.ArcSlice.{Waker}
use futures_buffered.Task.{Poll, ready, pending, AtomicWaker, Log}
use futures_buffered.UnorderedBounded.{
  FuturesUnorderedBounded, PollFn, Outcome, capacity, len, max_polls, output_only,
}
use futures_buffered.UnorderedBounded.Step.{Settles}
use futures_buffered.UnorderedBounded.Push.{push_lem, count_of_Inserted}
use futures_buffered.Unordered.Groups.{Sound}
use futures_buffered.JoinAll.Buffer.{capacity_of}
use futures_buffered.Stream.{took, finished, waited, left_alone, Took, StreamFn}
use futures_buffered.BufferUnordered.{
  poll_next, after_queue, BufferUnordered, after_stream, poll_stream, fill,
}
use futures_buffered.UnorderedBounded

module _ (W : Type 0) {S F : Type 0} (cx : ℕ) (next : StreamFn S F) (n : ℕ) where
  -- The loop took these futures from the stream and pushed them in order. The queue is sound, of the
  -- same capacity, and holds them besides its own.
  abbrev Filled : Option S → FuturesUnorderedBounded W F → BufferUnordered W S F × Log → Type 0
  Filled stream q (b, log) =
      (futs : List F) × Took cx next stream futs b.stream
      × (push_each futs q ≡ some b.in_progress_queue)
      × Sound n b.in_progress_queue
      × (capacity b.in_progress_queue ≡ capacity q)
      × (len b.in_progress_queue ≡ len q + length futs)

  abbrev Fills : ℕ → Type 0
  Fills left =
      (b : BufferUnordered W S F) (log : Log)
      → Sound n b.in_progress_queue
      → capacity b.in_progress_queue < left + len b.in_progress_queue
      → (out : BufferUnordered W S F × Log) × (fill left cx next b log ≡ some out)
        × Filled b.stream b.in_progress_queue out

  after_stream_lem :
      (left : ℕ) (q : FuturesUnorderedBounded W F) (log : Log) (s : S)
      (polled : S × Log × Poll (Option F))
      → Fills left
      → next s cx ≡ polled
      → Sound n q
      → capacity q < suc left + len q
      → len q < capacity q
      → (out : BufferUnordered W S F × Log) × (after_stream (fill left cx next) q log polled
          ≡ some out)
        × Filled (some s) q out
  unfolding after_stream
  after_stream_lem left q log s (s', called, pending) fills e sound h room = (
    (record { stream = some s'; in_progress_queue = q }, log ++ called),
    refl,
    ([], waited e, refl, sound, refl, omega arith),
  )
  after_stream_lem left q log s (s', called, ready none) fills e sound h room = (
    (record { stream = none; in_progress_queue = q }, log ++ called),
    refl,
    ([], finished e, refl, sound, refl, omega arith),
  )
  after_stream_lem left q log s (s', called, ready (some fut)) fills e (front, xs, free, v, b) h
        room =
      elim (push_lem q fut front xs free v) [
        | inl (bad, full) ↦ absurd (omega arith)
        | inr (q', runs, (key, free', v', ins, same)) ↦
            let (more, size) = count_of_Inserted q q' fut key ins in
            let (out, ends, (futs, from_stream, pushes, sound, cap, kept)) =
              fills (record { stream = some s'; in_progress_queue = q' }) (log ++ called)
                (_, _, free', v', omega arith) (omega arith) in
            (
              out,
              rw runs ends,
              (fut ∷ futs, took e from_stream, rw runs pushes, sound, cap ∙ size, omega arith),
            )
      ]

  poll_stream_lem :
      (left : ℕ) (q : FuturesUnorderedBounded W F) (log : Log) (stream : Option S)
      → Fills left
      → Sound n q
      → capacity q < suc left + len q
      → len q < capacity q
      → (out : BufferUnordered W S F × Log) × (poll_stream (fill left cx next) cx next q log stream
          ≡ some out)
        × Filled stream q out
  unfolding poll_stream
  poll_stream_lem left q log none fills sound h room = (
    (record { stream = none; in_progress_queue = q }, log),
    refl,
    ([], left_alone, refl, sound, refl, omega arith),
  )
  poll_stream_lem left q log (some s) fills sound h room =
      after_stream_lem left q log s (next s cx) fills refl sound h room

  fill_lem : (left : ℕ) → Fills left
  unfolding fill
  fill_lem zero b log sound h =
      let (front, xs, free, v, room) = sound in
      absurd (omega (arith, capacity_of b.in_progress_queue v))
  fill_lem (suc left) b log sound h =
      elim (Bool-cases (ltb (len b.in_progress_queue) (capacity b.in_progress_queue))) [
        | inl room ↦
            let (out, runs, filled) =
              poll_stream_lem left b.in_progress_queue log b.stream (fill_lem left) sound h
                (ground arith) in
            (out, rw room runs, filled)
        | inr full ↦ ((b, log), rw full refl, ([], left_alone, refl, sound, refl, omega arith))
      ]

module _ ⦃aw : AtomicWaker⦄ {S F O : Type 0} (cx : ℕ) (next : StreamFn S F) (poll_fn : PollFn F O)
    (settles : (f : F) (w : Waker) → Settles w (poll_fn f w).result (poll_fn f w).events)
    (spare : ℕ) where
  open aw use {Cell}

  -- What a poll with the stream and the queue `filled` returns and leaves.
  abbrev pub Buffered :
      Option S
      → FuturesUnorderedBounded Cell F
      → BufferUnordered Cell S F × Log × Poll (Option O)
      → Type 0
  Buffered stream filled (b, log, r) =
      (b.stream ≡ stream)
      × Sound spare b.in_progress_queue
      × (capacity b.in_progress_queue ≡ capacity filled)
      × Served cx poll_fn r b.stream filled b.in_progress_queue log

  after_queue_lem :
      (q : FuturesUnorderedBounded Cell F) (log : Log) (free : List ℕ) (stream : Option S)
      (inner : Outcome Cell F O)
      → UnorderedBounded.poll_next cx poll_fn q log ≡ some (output_only inner)
      → Sound (spare + max_polls) q
      → len q + length free ≡ capacity q
      → PolledInner cx poll_fn settles q log free inner
      → inner.0.shared.strong ≤ q.shared.strong + max_polls
      → Buffered stream q (after_queue stream (output_only inner))
  unfolding after_queue output_only
  after_queue_lem q log free stream (q', log', pending) runs (front, xs, old, v, room) size p b = (
    refl,
    (p.3, p.4, free, p.5, omega arith),
    omega (arith, capacity_of q' p.5, p.1),
    Served-pending cx poll_fn stream q q' log' p.1 p.0 (log, runs),
  )
  after_queue_lem q log free stream (q', log', ready none) runs (front, xs, old, v, room) size p b =
      (
        refl,
        rw p.1 (front, xs, old, v, omega arith),
        ap capacity p.1,
        Served-ended cx poll_fn stream q q' log' p.0 (ap len p.1 ∙ p.0) (log, runs),
      )
  after_queue_lem q log free stream (q', log', ready (some (i, x))) runs (front, xs, old, v, room)
        size p b =
      (
        refl,
        (p.5, p.6, i ∷ free, p.7, omega arith),
        omega (arith, capacity_of q' p.7, p.3),
        (p.3, (log, runs)),
      )

  -- A poll of a `BufferUnordered` whose queue is valid and whose futures settle never faults. The
  -- filling loop takes some futures from the stream, only while a slot is free, and pushes each of
  -- them to the queue, in order; it ends within one round more than there are slots. The stream stays
  -- until it has given its end. The filled queue is then polled once: its output is what is returned,
  -- and takes one from the futures held; pending, all of them stay, and at least one if the stream has
  -- ended; the end comes only when the stream has given its end and no future is held. The queue stays
  -- valid, with its slots. The reference count needs room for 61 wakers and `spare` more, which is left.
  pub poll_buffered_lem :
      (b : BufferUnordered Cell S F) (log : Log)
      → Sound (spare + max_polls) b.in_progress_queue
      → (out : BufferUnordered Cell S F × Log × Poll (Option O)) × (poll_next cx next poll_fn b log
          ≡ some out)
        × (futs : List F) × Took cx next b.stream futs out.0.stream
        × (filled : FuturesUnorderedBounded Cell F) × (push_each futs b.in_progress_queue
            ≡ some filled)
        × (len filled ≡ len b.in_progress_queue + length futs)
        × Sound spare out.0.in_progress_queue
        × (capacity out.0.in_progress_queue ≡ capacity b.in_progress_queue)
        × Served cx poll_fn out.2 out.0.stream filled out.0.in_progress_queue out.1
  unfolding poll_next UnorderedBounded.poll_next
  poll_buffered_lem b log sound =
      let (filled, fills, (futs, from_stream, pushes, (front, xs, free, v, room), size, more)) =
        fill_lem Cell cx next (spare + max_polls) (suc (capacity b.in_progress_queue)) b log sound
          (omega arith) in
      let q = filled.0.in_progress_queue in
      let (inner, runs, polled, strong) =
        poll_inner_lem cx poll_fn settles q filled.1 free front xs v (omega arith) in
      let (kept, sound', slots, served) =
        after_queue_lem q filled.1 free filled.0.stream inner (rw runs refl)
          (front, xs, free, v, room) (capacity_of q v) polled strong in
      (
        after_queue filled.0.stream (output_only inner),
        rw (fills, runs) refl,
        futs,
        rw kept from_stream,
        q,
        pushes,
        more,
        sound',
        slots ∙ size,
        served,
      )
