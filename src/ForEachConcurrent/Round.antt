-- ===== src/ForEachConcurrent/Round.antt =====
-- The first part of a round of `ForEachConcurrent`, which may take an element of the stream.
use futures_buffered.Base.{
  inl, inr, ◌⊎◌, Bool-cases, ltb, true, false, ℕ, ◌+◌, ◌≤◌, ◌<◌, ◌≡◌, refl, Option, none, some,
  ◌++◌, arith, Bool,
}
use futures_buffered.Task.{Poll, ready, pending, Log}
use futures_buffered.UnorderedBounded
use futures_buffered.UnorderedBounded.{capacity, len}
use futures_buffered.UnorderedBounded.Push.{push_lem, count_of_Inserted}
use futures_buffered.JoinAll.Buffer.{capacity_of}
use futures_buffered.Unordered.Groups.{Sound}
use futures_buffered.Stream.{StreamFn}
use futures_buffered.ForEachConcurrent.{
  FuturesUnorderedBounded, ForEachConcurrent, CallFn, after_stream, poll_stream, take_one,
}

module _ {S Item : Type 0} (measure : S → ℕ) where
  -- A stream that gives an element has fewer left; pending, it has no more than before.
  abbrev pub Shrinks : S → S × Log × Poll (Option Item) → Type 0
  Shrinks s (s', called, ready (some elem)) = measure s' < measure s
  Shrinks s (s', called, ready none) = Unit
  Shrinks s (s', called, pending) = measure s' ≤ measure s

abbrev pub remaining : {S : Type 0} → (S → ℕ) → Option S → ℕ
remaining measure none = 0
remaining measure (some s) = measure s

module _ {S Item : Type 0} (cx : ℕ) (next : StreamFn S Item) where
  -- Why no element was taken: the stream has ended, or no slot is free, or the stream is pending.
  abbrev pub Idle : Option S → ℕ → ℕ → Type 0
  Idle none held slots = Unit
  Idle (some s') held slots =
      (held ≡ slots) ⊎ ((s : S) × (called : Log) × (next s cx ≡ (s', called, pending)))

module _ (W : Type 0) {S C Item Fut : Type 0} (cx : ℕ) (next : StreamFn S Item)
    (call : CallFn C Item Fut) where
  -- What is done with the stream: it is left alone; or it is polled, and gives an element, on which the
  -- closure is called and whose future is pushed; or it has given its end, and is dropped; or it is
  -- pending, and kept.
  pub data Takes
      : ForEachConcurrent W S C Fut → Log → ForEachConcurrent W S C Fut → Log → Type 0 where
    not_polled : {p : ForEachConcurrent W S C Fut} {log : Log} → Takes p log p log
    gave :
        {p : ForEachConcurrent W S C Fut} {log called : Log} {s s' : S} {elem : Item}
        {pushed : FuturesUnorderedBounded W Fut}
        → p.stream ≡ some s
        → next s cx ≡ (s', called, ready (some elem))
        → UnorderedBounded.push p.futures (call p.f elem).0 ≡ some pushed
        → Takes p log
            (record { stream = some s'; f = (call p.f elem).1; futures = pushed })
            (log ++ called)
    gave_end :
        {p : ForEachConcurrent W S C Fut} {log called : Log} {s s' : S}
        → p.stream ≡ some s
        → next s cx ≡ (s', called, ready none)
        → Takes p log (record p { stream = none }) (log ++ called)
    waited :
        {p : ForEachConcurrent W S C Fut} {log called : Log} {s s' : S}
        → p.stream ≡ some s
        → next s cx ≡ (s', called, pending)
        → Takes p log (record p { stream = some s' }) (log ++ called)

module _ (W : Type 0) {S C Item Fut : Type 0} (cx : ℕ) (next : StreamFn S Item)
    (call : CallFn C Item Fut) (measure : S → ℕ) (shrinks : (s : S) → Shrinks measure s (next s cx))
    (n : ℕ) where
  -- What this part leaves: an element was taken and its future stored, or the stream is idle.
  abbrev pub Taken : ForEachConcurrent W S C Fut → ForEachConcurrent W S C Fut × Log × Bool → Type 0
  Taken p (p', log, true) =
      Sound n p'.futures
      × (capacity p'.futures ≡ capacity p.futures)
      × (len p'.futures ≡ len p.futures + 1)
      × (remaining measure p'.stream < remaining measure p.stream)
  Taken p (p', log, false) =
      Sound n p'.futures
      × (capacity p'.futures ≡ capacity p.futures)
      × (len p'.futures ≡ len p.futures)
      × (remaining measure p'.stream ≤ remaining measure p.stream)
      × Idle cx next p'.stream (len p'.futures) (capacity p'.futures)

  after_stream_lem :
      (p : ForEachConcurrent W S C Fut) (log : Log) (s : S) (polled : S × Log × Poll (Option Item))
      → p.stream ≡ some s
      → next s cx ≡ polled
      → Shrinks measure s polled
      → Sound n p.futures
      → len p.futures < capacity p.futures
      → (out : ForEachConcurrent W S C Fut × Log × Bool) × (after_stream call p log polled
          ≡ some out)
        × Taken p out
        × Takes W cx next call p log out.0 out.1
  unfolding after_stream
  after_stream_lem p log s (s', called, pending) has e less sound room = (
    (record p { stream = some s' }, log ++ called, false),
    refl,
    (sound, refl, refl, rw has less, inr (s, called, e)),
    waited has e,
  )
  after_stream_lem p log s (s', called, ready none) has e less sound room = (
    (record p { stream = none }, log ++ called, false),
    refl,
    (sound, refl, refl, omega arith, tt),
    gave_end has e,
  )
  after_stream_lem p log s (s', called, ready (some elem)) has e less (front, xs, free, v, b) room =
      elim (push_lem p.futures (call p.f elem).0 front xs free v) [
        | inl (bad, full) ↦ absurd (omega arith)
        | inr (pushed, runs, (key, free', v', ins, same)) ↦
            let (more, size) = count_of_Inserted p.futures pushed (call p.f elem).0 key ins in
            (
              (
                record { stream = some s'; f = (call p.f elem).1; futures = pushed },
                log ++ called,
                true,
              ),
              rw runs refl,
              ((_, _, free', v', omega arith), size, more, rw has less),
              gave has e runs,
            )
      ]

  take_one_of :
      (p : ForEachConcurrent W S C Fut) (log : Log) (stream : Option S)
      → p.stream ≡ stream
      → Sound n p.futures
      → len p.futures < capacity p.futures
      → (out : ForEachConcurrent W S C Fut × Log × Bool) × (poll_stream call cx next p log stream
          ≡ some out)
        × Taken p out
        × Takes W cx next call p log out.0 out.1
  unfolding poll_stream
  take_one_of p log none has sound room =
      ((p, log, false), refl, (sound, refl, refl, omega arith, rw has tt), not_polled)
  take_one_of p log (some s) has sound room =
      after_stream_lem p log s (next s cx) has refl (shrinks s) sound room

  -- A round takes an element only while a slot is free, so that its push does not panic.
  pub take_one_lem :
      (p : ForEachConcurrent W S C Fut) (log : Log)
      → Sound n p.futures
      → (out : ForEachConcurrent W S C Fut × Log × Bool) × (take_one call cx next p log ≡ some out)
        × Taken p out
        × Takes W cx next call p log out.0 out.1
  unfolding take_one
  take_one_lem p log sound = elim (Bool-cases (ltb (len p.futures) (capacity p.futures))) [
    | inl room ↦
        let (out, runs, taken, takes) = take_one_of p log p.stream refl sound (ground arith) in
        (out, rw room runs, taken, takes)
    | inr full ↦
        let (front, xs, free, v, b) = sound in
        let all : len p.futures ≡ capacity p.futures = ground (arith, capacity_of p.futures v) in
        (
          (p, log, false),
          rw full refl,
          (sound, refl, refl, omega arith, idle_full p.stream all),
          not_polled,
        )
  ]
    where
      idle_full :
          (stream : Option S)
          → len p.futures ≡ capacity p.futures
          → Idle cx next stream (len p.futures) (capacity p.futures)
      idle_full none all = tt
      idle_full (some s) all = inl all
