-- ===== src/ForEachConcurrent/Loop.antt =====
-- The loop of `ForEachConcurrent` ends, and what it returns.
use futures_buffered.JoinAll.Buffer.{capacity_of}
use futures_buffered.UnorderedBounded.Inner.{poll_inner_lem, PolledInner}
use futures_buffered.Base.{
  zero, inr, refl, ◌≤◌, inl, false, ◌⊎◌, true, ℕ, suc, ◌+◌, ◌*◌, ◌<◌, ◌≡◌, ◌∙◌, Option, none, some,
  List, [], ◌∷◌, ◌++◌, arith, Bool,
}
use futures_buffered.Task.{ready, pending, AtomicWaker, Log}
use futures_buffered.ArcSlice.{Waker, isize_max}
use futures_buffered.ArcSlice.Fifo.{Front}
use futures_buffered.UnorderedBounded
use futures_buffered.UnorderedBounded.{
  Outcome, output_only, FuturesUnorderedBounded, PollFn, capacity, len, max_polls,
}
use futures_buffered.UnorderedBounded.Valid.{IsValid}
use futures_buffered.UnorderedBounded.Step.{Settles}
use futures_buffered.Unordered.Groups.{Sound}
use futures_buffered.Stream.{StreamFn}
use futures_buffered.Stream.Ending.{Told-pending, Told}
use futures_buffered.ForEachConcurrent.{
  Poll, unless_taken, when_empty, after_queue, ForEachConcurrent, ForEachOutcome, CallFn, poll,
}
use futures_buffered.ForEachConcurrent.Round.{Takes, take_one_lem, Shrinks, remaining, Idle, Taken}

module _ (W : Type 0) {S C Item Fut : Type 0} (cx : ℕ) (next : StreamFn S Item) where
  -- What `poll` returns and leaves. Done: the stream has ended and every future is done. Pending: an
  -- element or a future may be left, the stream is idle, and the futures are: there is none, or no slot
  -- is queued, or the task has been woken.
  abbrev pub Verdict : ForEachOutcome W S C Fut → Type 0
  Verdict (p, log, ready u) =
      (p.stream ≡ none)
      × (len p.futures ≡ 0)
      × (front : Front) × (queued : List ℕ) × (free : List ℕ) × IsValid p.futures front queued free
  Verdict (p, log, pending) =
      Told {O = Unit {0}} pending p.stream (len p.futures)
      × Idle cx next p.stream (len p.futures) (capacity p.futures)
      × (front : Front) × (queued : List ℕ) × (free : List ℕ) × IsValid p.futures front queued free
      × ((len p.futures ≡ 0) ⊎ ((queued ≡ []) ⊎ ((before : Log) × (log ≡ before ++ cx ∷ []))))

module _ ⦃aw : AtomicWaker⦄ {S C Item Fut : Type 0} (cx : ℕ) (next : StreamFn S Item)
    (call : CallFn C Item Fut) (poll_fn : PollFn Fut (Unit {0})) where
  open aw use {Cell}

  -- From one state to another by elements taken from the stream and polls of the queue, nothing else.
  pub data Runs
      : ForEachConcurrent Cell S C Fut → Log → ForEachConcurrent Cell S C Fut → Log → Type 0 where
    done : {p : ForEachConcurrent Cell S C Fut} {log : Log} → Runs p log p log
    takes :
        {p p₁ p₂ : ForEachConcurrent Cell S C Fut} {log log₁ log₂ : Log}
        → Takes Cell cx next call p log p₁ log₁
        → Runs p₁ log₁ p₂ log₂
        → Runs p log p₂ log₂
    polls :
        {p p₂ : ForEachConcurrent Cell S C Fut} {futures : FuturesUnorderedBounded Cell Fut}
        {log log₁ log₂ : Log} {r : Poll (Option (Unit {0}))}
        → UnorderedBounded.poll_next cx poll_fn p.futures log ≡ some (futures, log₁, r)
        → Runs (record p { futures = futures }) log₁ p₂ log₂
        → Runs p log p₂ log₂

module _ ⦃aw : AtomicWaker⦄ {S C Item Fut : Type 0} (cx : ℕ) (next : StreamFn S Item)
    (call : CallFn C Item Fut) (poll_fn : PollFn Fut (Unit {0})) (measure : S → ℕ)
    (shrinks : (s : S) → Shrinks measure s (next s cx))
    (settles : (f : Fut) (w : Waker) → Settles w (poll_fn f w).result (poll_fn f w).events) where
  open aw use {Cell}

  abbrev Looped : Type 0
  Looped = ForEachConcurrent Cell S C Fut

  -- Twice the elements left and the futures held.
  abbrev pub work : Looped → ℕ
  work p = 2 * remaining measure p.stream + len p.futures

  abbrev Ends : ℕ → Type 0
  Ends left =
      (p : Looped) (log : Log)
      → Sound (left * max_polls) p.futures
      → work p < left
      → (out : ForEachOutcome Cell S C Fut) × (poll left cx next call poll_fn p log ≡ some out)
        × (capacity out.0.futures ≡ capacity p.futures)
        × Verdict Cell cx next out
        × Runs cx next call poll_fn p log out.0 out.1

  -- That the loop ends, with the slots of `p`.
  abbrev EndsWell : Looped → Log → Option (ForEachOutcome Cell S C Fut) → Type 0
  EndsWell p log result =
      (out : ForEachOutcome Cell S C Fut) × (result ≡ some out)
      × (capacity out.0.futures ≡ capacity p.futures)
      × Verdict Cell cx next out
      × Runs cx next call poll_fn p log out.0 out.1

  abbrev Took : ℕ → Looped → Looped × Log × Bool → Type 0
  Took left = Taken Cell cx next call measure shrinks (suc left * max_polls)

  -- A further round, once the queue has been polled and there is less work left.
  again_lem :
      (left : ℕ) (p : Looped) (before log : Log) (queue : FuturesUnorderedBounded Cell Fut)
      {r : Poll (Option (Unit {0}))}
      → UnorderedBounded.poll_next cx poll_fn p.futures before ≡ some (queue, log, r)
      → Ends left
      → Sound (left * max_polls) queue
      → capacity queue ≡ capacity p.futures
      → work (record p { futures = queue }) < left
      → EndsWell p before (poll left cx next call poll_fn (record p { futures = queue }) log)
  again_lem left p before log queue e ends sound size w =
      let (out, runs, cap, verdict, steps) = ends (record p { futures = queue }) log sound w in
      (out, runs, cap ∙ size, verdict, polls e steps)

  -- No future is left, and no element was taken.
  empty_lem :
      (left : ℕ) (p : Looped) (log : Log) (stream : Option S) (front : Front) (xs free : List ℕ)
      → p.stream ≡ stream
      → len p.futures ≡ 0
      → Idle cx next stream (len p.futures) (capacity p.futures)
      → IsValid p.futures front xs free
      → EndsWell p log (when_empty (poll left cx next call poll_fn) false p log stream)
  unfolding when_empty unless_taken
  empty_lem left p log none front xs free has gone idle v =
      ((p, log, ready tt), refl, refl, (has, gone, front, xs, free, v), done)
  empty_lem left p log (some s) front xs free has gone idle v =
      ((p, log, pending), refl, refl, (rw has tt, rw has idle, front, xs, free, v, inl gone), done)

  after_queue_lem :
      (left : ℕ) (p0 p : Looped) (log : Log) (should : Bool) (front : Front) (xs free : List ℕ)
      (inner : Outcome Cell Fut (Unit {0}))
      → UnorderedBounded.poll_next cx poll_fn p.futures log ≡ some (output_only inner)
      → Ends left
      → Took left p0 (p, log, should)
      → work p0 < suc left
      → IsValid p.futures front xs free
      → p.futures.shared.strong + suc left * max_polls ≤ isize_max
      → PolledInner cx poll_fn settles p.futures log free inner
      → inner.0.shared.strong ≤ p.futures.shared.strong + max_polls
      → EndsWell p log (after_queue (poll left cx next call poll_fn) should p (output_only inner))
  unfolding after_queue output_only unless_taken
  after_queue_lem left p0 p log true front xs free (q, log', pending) e ends t w v b polled s =
      again_lem left p log log' q e ends (polled.3, polled.4, free, polled.5, omega arith)
        (omega (arith, capacity_of q polled.5, capacity_of p.futures v, polled.1))
        (omega (arith, polled.1, t.2, t.3))
  after_queue_lem left p0 p log false front xs free (q, log', pending) e ends t w v b polled s =
      let size : capacity q ≡ capacity p.futures =
        omega (arith, capacity_of q polled.5, capacity_of p.futures v, polled.1) in
      (
        (record p { futures = q }, log', pending),
        refl,
        size,
        (
          Told-pending (Unit {0}) p.stream (len q) (omega (arith, polled.0, polled.1)),
          rw (polled.1, size) t.4,
          polled.3,
          polled.4,
          free,
          polled.5,
          inr polled.6,
        ),
        polls e done,
      )
  after_queue_lem left p0 p log true front xs free (q, log', ready none) e ends t w v b polled s =
      absurd (omega (arith, t.2, polled.0))
  after_queue_lem left p0 p log false front xs free (q, log', ready none) e ends t w v b polled s =
      rw (polled.1, polled.2) (empty_lem left p log p.stream front xs free refl polled.0 t.4 v)
  after_queue_lem left p0 p log should front xs free (q, log', ready (some (i, u))) e ends t w v b
        polled s =
      again_lem left p log log' q e ends (polled.5, polled.6, i ∷ free, polled.7, omega arith)
        (omega (arith, capacity_of q polled.7, capacity_of p.futures v, polled.3))
        (less_work should t)
    where
      less_work :
          (should : Bool) → Took left p0 (p, log, should) → work (record p { futures = q }) < left
      less_work true t = omega (arith, t.2, t.3, polled.3)
      less_work false t = omega (arith, t.2, t.3, polled.3)

  round_lem :
      (left : ℕ) (p0 : Looped) (out : Looped × Log × Bool)
      → Ends left
      → work p0 < suc left
      → Took left p0 out
      → Sound (suc left * max_polls) out.0.futures × (capacity out.0.futures ≡ capacity p0.futures)
  round_lem left p0 (p, log, true) ends w t = (t.0, t.1)
  round_lem left p0 (p, log, false) ends w t = (t.0, t.1)

  -- Let the futures settle and the queue be valid, and let the stream have fewer elements left
  -- after each one that it gives, and no more after a pending poll: `measure` bounds them. `poll`
  -- then ends, within one round more than twice the elements left and the futures held, and never
  -- faults. It does nothing but take elements, each given to the closure, whose future is pushed to the
  -- queue, and poll the queue; the stream is dropped only when it has given its end. It is done only when the stream has ended and every future is done. When it is pending,
  -- nothing is lost: the stream has ended, or no slot is free, or the stream was polled and is
  -- pending; and no future is held, or no slot is queued, or the task has been woken; and if the
  -- stream has ended, a future is left. The queue stays valid, with its slots; the reference count
  -- needs room for 61 wakers a round.
  pub for_each-poll_lem : (left : ℕ) → Ends left
  unfolding poll UnorderedBounded.poll_next
  for_each-poll_lem zero p log sound w = absurd (omega arith)
  for_each-poll_lem (suc left) p log sound w =
      let (out, taken, t, first) =
        take_one_lem Cell cx next call measure shrinks (suc left * max_polls) p log sound in
      let ((front, xs, free, v, b), size) = round_lem left p out (for_each-poll_lem left) w t in
      let (inner, runs, polled, s) =
        poll_inner_lem cx poll_fn settles out.0.futures out.1 free front xs v (omega arith) in
      let (ended, ends, cap, verdict, steps) =
        after_queue_lem left p out.0 out.1 out.2 front xs free inner (rw runs refl)
          (for_each-poll_lem left) t w v b polled s in
      (ended, rw (taken, runs) ends, cap ∙ size, verdict, takes first steps)
