-- ===== src/JoinAll/Loop.antt =====
-- What a poll of a `JoinAll` returns.
use futures_buffered.Base.{
  range_from, usize_mod, suc, zero, arith, none, some, ℕ, ◌+◌, ◌*◌, ◌<◌, ◌≤◌, ◌≡◌, refl, ap, ◌⊎◌,
  List, [], ◌∷◌, ◌++◌, length, set, length-set, sym, ◌∙◌, get_elem?,
}
use mathlib.Core.Path.{subst}
use mathlib.Core.Option.{none-ne-some}
use futures_buffered.JoinAll.Buffer.{capacity_of}
use futures_buffered.Base.{get_elem?_total}
use futures_buffered.ArcSlice.Fifo.{Front}
use futures_buffered.ArcSlice.{Waker, isize_max}
use futures_buffered.Task.{ready, pending, AtomicWaker, Log}
use futures_buffered.UnorderedBounded.{PollFn, Outcome, capacity, len, max_polls}
use futures_buffered.UnorderedBounded.Step.{Settles}
use futures_buffered.UnorderedBounded.Inner.{PolledInner, poll_inner_lem}
use futures_buffered.UnorderedBounded.Trace.{Traced, poll_inner-Traced}
use futures_buffered.UnorderedBounded.FromIter.{from_iter_lem}
use futures_buffered.JoinAll.{JoinAll, JoinOutcome, poll_loop, poll, after_inner, uninit, join_all}
use futures_buffered.JoinAll.Buffer.{AllAt, write_lem, assume_init_lem, length-uninit}
use futures_buffered.JoinAll.Filling.{IsFilling, set-IsFilling, pending-IsFilling, written_of_empty}

module _ ⦃aw : AtomicWaker⦄ {F O : Type 0} (P : ℕ → F → Type 0) (R : ℕ → O → Type 0) (cx : ℕ)
    (poll_fn : PollFn F O)
    (settles : (f : F) (w : Waker) → Settles w (poll_fn f w).result (poll_fn f w).events)
    (preserves : (i : ℕ) (f : F) (w : Waker) → P i f → P i (poll_fn f w).fut)
    (gives : (i : ℕ) (f : F) (w : Waker) (x : O)
      → P i f
      → (poll_fn f w).result ≡ ready x
      → R i x) where
  open aw use {Cell}

  -- What a poll of a `JoinAll` with `n` entries returns and leaves. Ready: `n` outputs, each the
  -- one of the future in its position, and nothing is left. Pending: some future is left, and either
  -- no slot is queued or the task's waker was called.
  abbrev pub Joined : ℕ → JoinOutcome Cell F O → Type 0
  Joined n (j, log, ready v) = (length v ≡ n) × AllAt R v × (len j.queue ≡ 0) × (j.output ≡ [])
  Joined n (j, log, pending) =
      (0 < len j.queue)
      × (length j.output ≡ n)
      × (front : Front) × (queued : List ℕ) × (free : List ℕ) × IsFilling P R j.queue j.output front
          queued free
      × ((queued ≡ []) ⊎ ((before : Log) × (log ≡ before ++ cx ∷ [])))

  -- The loop ends, within `left` rounds, in a `Joined` outcome.
  abbrev Ends : ℕ → Type 0
  Ends left =
      (j : JoinAll Cell F O) (log : Log) (front : Front) (xs free : List ℕ)
      → IsFilling P R j.queue j.output front xs free
      → len j.queue < left
      → j.queue.shared.strong + left * max_polls ≤ isize_max
      → (out : JoinOutcome Cell F O) × (poll_loop left cx poll_fn j log ≡ some out)
        × Joined (length j.output) out

  after_inner_lem :
      (left : ℕ) (j : JoinAll Cell F O) (log : Log) (front : Front) (xs free : List ℕ)
      (inner : Outcome Cell F O)
      → Ends left
      → IsFilling P R j.queue j.output front xs free
      → len j.queue < suc left
      → j.queue.shared.strong + suc left * max_polls ≤ isize_max
      → PolledInner cx poll_fn settles j.queue log free inner
      → inner.0.shared.strong ≤ j.queue.shared.strong + max_polls
      → Traced P R poll_fn preserves gives inner
      → (out : JoinOutcome Cell F O) × (after_inner (poll_loop left cx poll_fn) j.output inner
          ≡ some out)
        × Joined (length j.output) out
  unfolding after_inner
  after_inner_lem left j log front xs free (q, log', pending) ends v h b p s t =
      let (more, same, others, front', queued, valid, told) = p in
      (
        (record { queue = q; output = j.output }, log', pending),
        refl,
        (
          omega arith,
          refl,
          front',
          queued,
          free,
          pending-IsFilling P R cx poll_fn settles j.queue log free j.output front xs q front'
              queued v same valid t.0 others.0,
          told,
        ),
      )
  after_inner_lem left j log front xs free (q, log', ready none) ends v h b p s t =
      let (boxed, runs, long, all) =
        assume_init_lem R j.output (written_of_empty P R j.queue j.output front xs free v p.0) in
      (
        (record { queue = q; output = [] }, log', ready boxed),
        rw runs,
        (long, all, ap len p.1 ∙ p.0, refl),
      )
  after_inner_lem left j log front xs free (q, log', ready (some (i, x))) ends v h b p s t =
      let (range, front', queued, v') =
        set-IsFilling P R cx poll_fn settles j.queue log free j.output front xs q log' i x x v p t.0
          t.1 in
      let (out, runs, joined) =
        ends (record { queue = q; output = set j.output i (some x) }) log' front' queued (i ∷ free)
          v' (omega (arith, p.3)) (omega arith) in
      (
        out,
        rw (write_lem j.output i x range, runs),
        subst (λ n. Joined n out) (length-set j.output i (some x)) joined,
      )

  poll_loop_lem : (left : ℕ) → Ends left
  unfolding poll_loop
  poll_loop_lem zero j log front xs free v h b = absurd (omega arith)
  poll_loop_lem (suc left) j log front xs free v h b =
      let (inner, runs, polled, s) =
        poll_inner_lem cx poll_fn settles j.queue log free front xs v.valid (omega arith) in
      let traced = poll_inner-Traced P R poll_fn preserves gives cx j.queue log v.kept runs in
      let (out, done, joined) =
        after_inner_lem left j log front xs free inner (poll_loop_lem left) v h b polled s traced in
      (out, rw (runs, done), joined)

  -- Let a property of the futures, each with its position, be kept by their polls, and let `R` hold
  -- of every output that such a future gives. A poll of a `JoinAll` in which it holds then never
  -- faults and never reads an unwritten entry, within one round more than there are futures left, if
  -- the reference count has room for 61 wakers in each. When it is ready, it gives as many outputs
  -- as there were entries, the i-th satisfies `R i`, and nothing is left. When it is pending, a future
  -- is left, the invariant holds again, and no slot is queued or the task's waker was called.
  pub poll_lem :
      (j : JoinAll Cell F O) (log : Log) (front : Front) (xs free : List ℕ)
      → IsFilling P R j.queue j.output front xs free
      → j.queue.shared.strong + suc (len j.queue) * max_polls ≤ isize_max
      → (out : JoinOutcome Cell F O) × (poll cx poll_fn j log ≡ some out)
        × Joined (length j.output) out
  unfolding poll
  poll_lem j log front xs free v b =
      poll_loop_lem (suc (len j.queue)) j log front xs free v (omega arith) b

-- `join_all` of fewer than 2^64 futures never faults. It establishes the invariant of `JoinAll`
-- for any `P` that holds of the futures with their positions, with an entry for each of them.
pub join_all-IsFilling :
    {W F O : Type 0} (P : ℕ → F → Type 0) (R : ℕ → O → Type 0) (cell : W) (iter : List F)
    → length iter < usize_mod
    → ((i : ℕ) (f : F) → get_elem? iter i ≡ some f → P i f)
    → (j : JoinAll W F O) × (front : Front) × (join_all cell iter ≡ some j)
      × IsFilling P R j.queue j.output front (range_from 0 (length iter)) []
      × (length j.output ≡ length iter)
unfolding join_all capacity
join_all-IsFilling {O = O} P R cell iter h p =
    let (q, front, runs, valid, count, lookup) = from_iter_lem cell iter h in
    (
      record { queue = q; output = uninit (capacity q) },
      front,
      rw runs,
      record {
        valid = valid;
        sized = length-uninit O (capacity q);
        kept = λ i f e. p i f (sym (lookup i) ∙ e);
        written = λ i lt e.
            let room : i < length iter =
              omega (arith, length-uninit O (capacity q), capacity_of q valid, count) in
            let (f, stored) = get_elem?_total iter i room in
            absurd (none-ne-some f (sym e ∙ lookup i ∙ stored));
      },
      omega (arith, length-uninit O (capacity q), capacity_of q valid, count),
    )
