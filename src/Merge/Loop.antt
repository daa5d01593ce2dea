-- ===== src/Merge/Loop.antt =====
-- What a poll of a `Merge` returns.
use futures_buffered.Base.{
  inr, suc, zero, inl, arith, none, some, Option, ℕ, ◌+◌, ◌*◌, ◌<◌, ◌≤◌, ◌≡◌, refl, ◌⊎◌, List, [],
  ◌∷◌, ◌++◌, false, ◌∙◌, has,
}
use futures_buffered.ArcSlice
use futures_buffered.ArcSlice.Fifo.{Front}
use futures_buffered.ArcSlice.Push.{pushed, front_pushed, push-Holds, pushed-Indexed}
use futures_buffered.ArcSlice.{Waker, isize_max}
use futures_buffered.Task.{ready, pending, AtomicWaker, Log}
use futures_buffered.SlotMap
use futures_buffered.SlotMap.Lookup.{len-remove}
use futures_buffered.UnorderedBounded.{
  FuturesUnorderedBounded, PollFn, Outcome, capacity, len, max_polls,
}
use futures_buffered.UnorderedBounded.Valid.{IsValid}
use futures_buffered.UnorderedBounded.Push.{AllIn-snoc}
use futures_buffered.UnorderedBounded.Step.{Settles}
use futures_buffered.UnorderedBounded.Outcomes.{Ended}
use futures_buffered.UnorderedBounded.Inner.{
  registered, len_registered, no_remove_lem, freed-IsValid, IsUsed-pushed,
}
use futures_buffered.JoinAll.Buffer.{lt_of_get}
use futures_buffered.Merge.{Merge, MergeOutcome, poll_loop, poll_next, after_inner}

module _ {W F : Type 0} where
  -- Queueing the slot of a future that is not queued keeps the set valid.
  requeued-IsValid :
      (q : FuturesUnorderedBounded W F) (front : Front) (xs free : List ℕ) (i : ℕ) {f : F}
      → IsValid q front xs free
      → SlotMap.get q.tasks i ≡ some f
      → has i xs ≡ false
      → (ArcSlice.push q.shared i ≡ some (pushed q.shared i))
        × IsValid (record q { shared = pushed q.shared i }) (front_pushed front) (xs ++ i ∷ []) free
  unfolding capacity
  requeued-IsValid q front xs free i {f} v e out =
      let range = lt_of_get q.tasks i (ground arith) in
      let (runs, queue) =
        push-Holds q.shared front xs i v.queue (omega (arith, range, v.same_len)) out in
      (
        runs,
        record {
          slots = v.slots;
          same_len = v.same_len;
          queue = queue;
          indexed = pushed-Indexed q.shared i v.indexed;
          occupied = AllIn-snoc q.tasks q.tasks xs i f (λ j. ground (arith, e)) v.occupied;
          used = IsUsed-pushed front q.tasks;
          referenced = v.referenced;
        },
      )

module _ ⦃aw : AtomicWaker⦄ {S I : Type 0} (cx : ℕ) (poll_fn : PollFn S (Option I))
    (settles : (s : S) (w : Waker) → Settles w (poll_fn s w).result (poll_fn s w).events) where
  open aw use {Cell}

  -- What a poll of a `Merge` of `n` streams returns and leaves. An item: a stream in some slot gave
  -- it, is held there in its new state, and is queued last. The end: no stream is left. Pending: a
  -- stream is left, and no slot is queued or the task's waker was called.
  abbrev pub Merged : ℕ → MergeOutcome Cell S I → Type 0
  Merged n (m, log, ready (some x)) =
      (len m.streams ≤ n)
      × (i : ℕ) × (s : S) × ((poll_fn s i).result ≡ ready (some x))
      × (SlotMap.get m.streams.tasks i ≡ some (poll_fn s i).fut)
      × (front : Front) × (queued : List ℕ) × (free : List ℕ) × IsValid m.streams front
          (queued ++ i ∷ []) free
  Merged n (m, log, ready none) =
      (len m.streams ≡ 0)
      × (front : Front) × (queued : List ℕ) × (free : List ℕ) × IsValid m.streams front queued free
  Merged n (m, log, pending) =
      (0 < len m.streams)
      × (len m.streams ≤ n)
      × (front : Front) × (queued : List ℕ) × (free : List ℕ) × IsValid m.streams front queued free
      × ((queued ≡ []) ⊎ ((before : Log) × (log ≡ before ++ cx ∷ [])))

  Merged-le : (n k : ℕ) (out : MergeOutcome Cell S I) → n ≤ k → Merged n out → Merged k out
  Merged-le n k (m, log, ready (some x)) h (l, i, s, done, stored, front, queued, free, v) =
      (omega arith, i, s, done, stored, front, queued, free, v)
  Merged-le n k (m, log, ready none) h p = p
  Merged-le n k (m, log, pending) h (more, l, front, queued, free, v, told) =
      (more, omega arith, front, queued, free, v, told)

  -- The loop ends, within `left` rounds, in a `Merged` outcome.
  abbrev Ends : ℕ → Type 0
  Ends left =
      (m : Merge Cell S) (log : Log) (front : Front) (xs free : List ℕ)
      → IsValid m.streams front xs free
      → len m.streams < left
      → m.streams.shared.strong + left * max_polls ≤ isize_max
      → (out : MergeOutcome Cell S I) × (poll_loop left cx poll_fn m log ≡ some out)
        × Merged (len m.streams) out

  after_inner_lem :
      (left : ℕ) (m : Merge Cell S) (log : Log) (free : List ℕ) (inner : Outcome Cell S (Option I))
      → Ends left
      → 0 < len m.streams
      → len m.streams < suc left
      → m.streams.shared.strong + suc left * max_polls ≤ isize_max
      → Ended cx poll_fn settles
          (registered cx poll_fn settles m.streams log free)
          log
          free
          (m.streams.shared.strong + max_polls)
          inner
      → (out : MergeOutcome Cell S I) × (after_inner (poll_loop left cx poll_fn) inner ≡ some out)
        × Merged (len m.streams) out
  unfolding after_inner len
  after_inner_lem left m log free (q, log', pending) ends more h b e =
      let same = e.same_count ∙ len_registered cx poll_fn settles m.streams log free in
      (
        (record { streams = q }, log', pending),
        refl,
        (omega arith, omega arith, e.front, e.queued, free, e.valid, e.verdict),
      )
  after_inner_lem left m log free (q, log', ready none) ends more h b e = absurd e.verdict
  after_inner_lem left m log free (q, log', ready (some (i, some x))) ends more h b e =
      let same = e.same_count ∙ len_registered cx poll_fn settles m.streams log free in
      let (out, s, stored, done, was) = e.verdict in
      let (runs, valid) = requeued-IsValid q e.front e.queued free i e.valid stored out in
      (
        (record { streams = record q { shared = pushed q.shared i } }, log', ready (some x)),
        rw runs,
        (
          unfold len in omega arith,
          i,
          s,
          done,
          stored,
          front_pushed e.front,
          e.queued,
          free,
          valid,
        ),
      )
  after_inner_lem left m log free (q, log', ready (some (i, none))) ends more h b e =
      let same = e.same_count ∙ len_registered cx poll_fn settles m.streams log free in
      let (out, s, stored, done, was) = e.verdict in
      let valid = freed-IsValid q e.front e.queued free i e.valid e.written stored out in
      let fewer : SlotMap.len (SlotMap.remove q.tasks i) + 1 ≡ len m.streams =
        (len-remove q.tasks free i e.valid.slots stored).0 ∙ same in
      let (last, runs, merged) =
        ends (record { streams = record q { tasks = SlotMap.remove q.tasks i } }) log' e.front
          e.queued (i ∷ free) valid (omega (arith, fewer)) (omega (arith, e.strong_high)) in
      (last, runs, Merged-le _ _ last (omega (arith, fewer)) merged)

  poll_loop_lem : (left : ℕ) → Ends left
  unfolding poll_loop after_inner
  poll_loop_lem zero m log front xs free v h b = absurd (omega arith)
  poll_loop_lem (suc left) m log front xs free v h b =
      elim (no_remove_lem cx poll_fn settles m.streams log free front xs v (omega arith)) [
        | inl (gone, runs) ↦
            ((record { streams = m.streams }, log, ready none), rw runs, (gone, front, xs, free, v))
        | inr (more, inner, runs, ended) ↦
            let (out, done, merged) =
              after_inner_lem left m log free inner (poll_loop_lem left) more h b ended in
            (out, rw (runs, done), merged)
      ]

  -- A poll of a valid `Merge` whose streams settle never faults, within one round more than there are
  -- streams, if the reference count has room for 61 wakers in each. An item is one that a stream gave
  -- in its slot; that stream is kept in its new state, and its slot is queued behind all others. The
  -- stream ends only when no stream is left. When it is pending, a stream is left, and no slot is
  -- queued or the task's waker was called. The set stays valid and never grows.
  pub poll_next_lem :
      (m : Merge Cell S) (log : Log) (front : Front) (xs free : List ℕ)
      → IsValid m.streams front xs free
      → m.streams.shared.strong + suc (len m.streams) * max_polls ≤ isize_max
      → (out : MergeOutcome Cell S I) × (poll_next cx poll_fn m log ≡ some out)
        × Merged (len m.streams) out
  unfolding poll_next
  poll_next_lem m log front xs free v b =
      poll_loop_lem (suc (len m.streams)) m log front xs free v (omega arith) b
