-- ===== src/TryBufferUnordered/Fill.antt =====
-- The filling loop of a `TryBufferUnordered`.
use futures_buffered.Stream.Served.{push_each}
use futures_buffered.Base.{
  [], ◌∷◌, length, List, inl, inr, Bool-cases, ltb, ℕ, zero, suc, ◌+◌, ◌<◌, ◌≡◌, refl, some, none,
  Option, ◌++◌, arith, ◌∙◌,
}
use futures_buffered.Task.{Poll, ready, pending, Log}
use futures_buffered.UnorderedBounded.{FuturesUnorderedBounded, capacity, len}
use futures_buffered.UnorderedBounded.Push.{push_lem, count_of_Inserted}
use futures_buffered.Unordered.Groups.{Sound}
use futures_buffered.JoinAll.Buffer.{capacity_of}
use futures_buffered.Stream.{
  StreamFn, TryTook, try_left_alone, try_waited, try_finished, failed, try_took,
}
use futures_buffered.TryBufferUnordered.{TryBufferUnordered, after_stream, poll_stream, fill}
use futures_buffered.SlotMap.{Result, ok, err}

module _ (W : Type 0) {S F E : Type 0} (cx : ℕ) (next : StreamFn S (Result F E)) (n : ℕ) where
  -- The loop took these futures from the stream and pushed them in order. The queue is sound, of the
  -- same capacity, and holds them besides its own.
  abbrev pub Filled :
      Option S → FuturesUnorderedBounded W F → TryBufferUnordered W S F × Log × Option E → Type 0
  Filled stream q (b, log, error) =
      (futs : List F) × TryTook cx next stream futs b.stream error
      × (push_each futs q ≡ some b.in_progress_queue)
      × Sound n b.in_progress_queue
      × (capacity b.in_progress_queue ≡ capacity q)
      × (len b.in_progress_queue ≡ len q + length futs)

  abbrev Fills : ℕ → Type 0
  Fills left =
      (b : TryBufferUnordered W S F) (log : Log)
      → Sound n b.in_progress_queue
      → capacity b.in_progress_queue < left + len b.in_progress_queue
      → (out : TryBufferUnordered W S F × Log × Option E) × (fill left cx next b log ≡ some out)
        × Filled b.stream b.in_progress_queue out

  after_stream_lem :
      (left : ℕ) (q : FuturesUnorderedBounded W F) (log : Log) (s : S)
      (polled : S × Log × Poll (Option (Result F E)))
      → Fills left
      → next s cx ≡ polled
      → Sound n q
      → capacity q < suc left + len q
      → len q < capacity q
      → (out : TryBufferUnordered W S F × Log × Option E) × (after_stream
            (fill left cx next)
            q
            log
            polled
          ≡ some out)
        × Filled (some s) q out
  unfolding after_stream
  after_stream_lem left q log s (s', called, pending) fills e sound h room = (
    (record { stream = some s'; in_progress_queue = q }, log ++ called, none),
    refl,
    ([], try_waited e, refl, sound, refl, omega arith),
  )
  after_stream_lem left q log s (s', called, ready none) fills e sound h room = (
    (record { stream = none; in_progress_queue = q }, log ++ called, none),
    refl,
    ([], try_finished e, refl, sound, refl, omega arith),
  )
  after_stream_lem left q log s (s', called, ready (some (err x))) fills e sound h room = (
    (record { stream = some s'; in_progress_queue = q }, log ++ called, some x),
    refl,
    ([], failed e, refl, sound, refl, omega arith),
  )
  after_stream_lem left q log s (s', called, ready (some (ok fut))) fills e (front, xs, free, v, b)
        h room =
      elim (push_lem q fut front xs free v) [
        | inl (bad, full) ↦ absurd (omega arith)
        | inr (q', runs, (key, free', v', ins, same)) ↦
            let (more, size) = count_of_Inserted q q' fut key ins in
            let (out, ends, (futs, from_stream, pushes, sound, cap, kept)) =
              fills (record { stream = some s'; in_progress_queue = q' }) (log ++ called)
                (_, _, free', v', omega arith) (omega arith) in
            (
              out,
              rw runs ends,
              (fut ∷ futs, try_took e from_stream, rw runs pushes, sound, cap ∙ size, omega arith),
            )
      ]

  poll_stream_lem :
      (left : ℕ) (q : FuturesUnorderedBounded W F) (log : Log) (stream : Option S)
      → Fills left
      → Sound n q
      → capacity q < suc left + len q
      → len q < capacity q
      → (out : TryBufferUnordered W S F × Log × Option E) × (poll_stream
            (fill left cx next)
            cx
            next
            q
            log
            stream
          ≡ some out)
        × Filled stream q out
  unfolding poll_stream
  poll_stream_lem left q log none fills sound h room = (
    (record { stream = none; in_progress_queue = q }, log, none),
    refl,
    ([], try_left_alone, refl, sound, refl, omega arith),
  )
  poll_stream_lem left q log (some s) fills sound h room =
      after_stream_lem left q log s (next s cx) fills refl sound h room

  pub fill_lem : (left : ℕ) → Fills left
  unfolding fill
  fill_lem zero b log sound h =
      let (front, xs, free, v, room) = sound in
      absurd (omega (arith, capacity_of b.in_progress_queue v))
  fill_lem (suc left) b log sound h =
      elim (Bool-cases (ltb (len b.in_progress_queue) (capacity b.in_progress_queue))) [
        | inl room ↦
            let (out, runs, filled) =
              poll_stream_lem left b.in_progress_queue log b.stream (fill_lem left) sound h
                (ground arith) in
            (out, rw room runs, filled)
        | inr full ↦
            ((b, log, none), rw full refl, ([], try_left_alone, refl, sound, refl, omega arith))
      ]
