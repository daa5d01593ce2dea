-- ===== src/TryJoinAll/Loop.antt =====
-- What a poll of a `TryJoinAll` returns.
use futures_buffered.Base.{
  suc, zero, arith, none, some, ℕ, ◌+◌, ◌*◌, ◌<◌, ◌≤◌, ◌≡◌, refl, ap, ◌⊎◌, List, [], ◌∷◌, ◌++◌,
  length, set, length-set, ◌∙◌,
}
use mathlib.Core.Path.{subst}
use futures_buffered.ArcSlice.Fifo.{Front}
use futures_buffered.ArcSlice.{Waker, isize_max}
use futures_buffered.Task.{ready, pending, AtomicWaker, Log}
use futures_buffered.UnorderedBounded.{PollFn, Outcome, len, max_polls}
use futures_buffered.UnorderedBounded.Step.{Settles}
use futures_buffered.UnorderedBounded.Inner.{PolledInner, poll_inner_lem}
use futures_buffered.UnorderedBounded.Trace.{Traced, poll_inner-Traced}
use futures_buffered.SlotMap.{Result, ok, err}
use futures_buffered.TryJoinAll.{TryJoinAll, TryOutcome, poll_loop, poll, after_inner}
use futures_buffered.JoinAll.Buffer.{AllAt, write_lem, assume_init_lem}
use futures_buffered.JoinAll.Filling.{IsFilling, set-IsFilling, pending-IsFilling, written_of_empty}

-- `R` of the value of a success.
abbrev pub OkAt : {T E : Type 0} → (ℕ → Result T E → Type 0) → ℕ → T → Type 0
OkAt R i t = R i (ok t)

module _ ⦃aw : AtomicWaker⦄ {F T E : Type 0} (P : ℕ → F → Type 0) (R : ℕ → Result T E → Type 0)
    (cx : ℕ) (poll_fn : PollFn F (Result T E))
    (settles : (f : F) (w : Waker) → Settles w (poll_fn f w).result (poll_fn f w).events)
    (preserves : (i : ℕ) (f : F) (w : Waker) → P i f → P i (poll_fn f w).fut)
    (gives : (i : ℕ) (f : F) (w : Waker) (x : Result T E)
      → P i f
      → (poll_fn f w).result ≡ ready x
      → R i x) where
  open aw use {Cell}

  -- What a poll of a `TryJoinAll` with `n` entries returns and leaves. Ready: `n` outputs, each the
  -- one of the future in its position, and nothing is left. Pending: some future is left, and either
  -- no slot is queued or the task's waker was called.
  abbrev pub Joined : ℕ → TryOutcome Cell F T E → Type 0
  Joined n (j, log, ready (err e)) = (i : ℕ) × R i (err e)
  Joined n (j, log, ready (ok v)) =
      (length v ≡ n) × AllAt (OkAt R) v × (len j.queue ≡ 0) × (j.output ≡ [])
  Joined n (j, log, pending) =
      (0 < len j.queue)
      × (length j.output ≡ n)
      × (front : Front) × (queued : List ℕ) × (free : List ℕ) × IsFilling P (OkAt R) j.queue
          j.output front queued free
      × ((queued ≡ []) ⊎ ((before : Log) × (log ≡ before ++ cx ∷ [])))

  -- The loop ends, within `left` rounds, in a `Joined` outcome.
  abbrev Ends : ℕ → Type 0
  Ends left =
      (j : TryJoinAll Cell F T) (log : Log) (front : Front) (xs free : List ℕ)
      → IsFilling P (OkAt R) j.queue j.output front xs free
      → len j.queue < left
      → j.queue.shared.strong + left * max_polls ≤ isize_max
      → (out : TryOutcome Cell F T E) × (poll_loop left cx poll_fn j log ≡ some out)
        × Joined (length j.output) out

  after_inner_lem :
      (left : ℕ) (j : TryJoinAll Cell F T) (log : Log) (front : Front) (xs free : List ℕ)
      (inner : Outcome Cell F (Result T E))
      → Ends left
      → IsFilling P (OkAt R) j.queue j.output front xs free
      → len j.queue < suc left
      → j.queue.shared.strong + suc left * max_polls ≤ isize_max
      → PolledInner cx poll_fn settles j.queue log free inner
      → inner.0.shared.strong ≤ j.queue.shared.strong + max_polls
      → Traced P R poll_fn preserves gives inner
      → (out : TryOutcome Cell F T E) × (after_inner (poll_loop left cx poll_fn) j.output inner
          ≡ some out)
        × Joined (length j.output) out
  unfolding after_inner
  after_inner_lem left j log front xs free (q, log', pending) ends v h b p s t =
      let (more, same, others, front', queued, valid, told) = p in
      (
        (record { queue = q; output = j.output }, log', pending),
        refl,
        (
          omega arith,
          refl,
          front',
          queued,
          free,
          pending-IsFilling P (OkAt R) cx poll_fn settles j.queue log free j.output front xs q
              front' queued v same valid t.0 others.0,
          told,
        ),
      )
  after_inner_lem left j log front xs free (q, log', ready none) ends v h b p s t =
      let (boxed, runs, long, all) =
        assume_init_lem (OkAt R) j.output
          (written_of_empty P (OkAt R) j.queue j.output front xs free v p.0) in
      (
        (record { queue = q; output = [] }, log', ready (ok boxed)),
        rw runs,
        (long, all, ap len p.1 ∙ p.0, refl),
      )
  after_inner_lem left j log front xs free (q, log', ready (some (i, ok y))) ends v h b p s t =
      let (range, front', queued, v') =
        set-IsFilling P (OkAt R) cx poll_fn settles j.queue log free j.output front xs q log' i
          (ok y) y v p t.0 t.1 in
      let (out, runs, joined) =
        ends (record { queue = q; output = set j.output i (some y) }) log' front' queued (i ∷ free)
          v' (omega (arith, p.3)) (omega arith) in
      (
        out,
        rw (write_lem j.output i y range, runs),
        subst (λ n. Joined n out) (length-set j.output i (some y)) joined,
      )
  after_inner_lem left j log front xs free (q, log', ready (some (i, err e))) ends v h b p s t =
      ((record { queue = q; output = j.output }, log', ready (err e)), refl, (i, t.1))

  poll_loop_lem : (left : ℕ) → Ends left
  unfolding poll_loop
  poll_loop_lem zero j log front xs free v h b = absurd (omega arith)
  poll_loop_lem (suc left) j log front xs free v h b =
      let (inner, runs, polled, s) =
        poll_inner_lem cx poll_fn settles j.queue log free front xs v.valid (omega arith) in
      let traced = poll_inner-Traced P R poll_fn preserves gives cx j.queue log v.kept runs in
      let (out, done, joined) =
        after_inner_lem left j log front xs free inner (poll_loop_lem left) v h b polled s traced in
      (out, rw (runs, done), joined)

  -- Let a property of the futures, each with its position, be kept by their polls, and let `R` hold
  -- of every result that such a future gives. A poll of a `TryJoinAll` in which it holds then never
  -- faults and never reads an unwritten entry, within one round more than there are futures left, if
  -- the reference count has room for 61 wakers in each. A success has as many values as there were
  -- entries, the i-th is one of which `R i` holds, and nothing is left; an error is one of which `R i`
  -- holds for some i. When it is pending, a future is left, the invariant holds again, and no slot is
  -- queued or the task's waker was called.
  pub try_poll_lem :
      (j : TryJoinAll Cell F T) (log : Log) (front : Front) (xs free : List ℕ)
      → IsFilling P (OkAt R) j.queue j.output front xs free
      → j.queue.shared.strong + suc (len j.queue) * max_polls ≤ isize_max
      → (out : TryOutcome Cell F T E) × (poll cx poll_fn j log ≡ some out)
        × Joined (length j.output) out
  unfolding poll
  try_poll_lem j log front xs free v b =
      poll_loop_lem (suc (len j.queue)) j log front xs free v (omega arith) b
