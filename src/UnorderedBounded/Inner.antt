-- ===== src/UnorderedBounded/Inner.antt =====
-- `poll_inner`: an output leaves its slot free.
use futures_buffered.Base.{
  ℕ, ◌+◌, ◌<◌, ◌≤◌, ◌≡◌, refl, sym, ap, ◌∙◌, true, false, none, some, List, [], ◌∷◌, ◌++◌, arith,
  has, ◌==◌, inl, inr, ◌⊎◌, Bool-cases,
}
use futures_buffered.Task.{ready, pending, AtomicWaker, Log}
use futures_buffered.SlotMap
use futures_buffered.SlotMap.{SlotMap}
use futures_buffered.SlotMap.Lookup.{get-remove, len-remove, occupied_of_get}
use futures_buffered.SlotMap.Valid.{remove-occupied, removed-IsValid}
use futures_buffered.ArcSlice.{Waker, isize_max, register}
use futures_buffered.ArcSlice.Fifo.{Front, unwritten, stub, inline}
use futures_buffered.UnorderedBounded.{
  FuturesUnorderedBounded, PollFn, Outcome, capacity, len, is_empty, poll_inner_no_remove,
  poll_inner, remove_output, max_polls,
}
use futures_buffered.UnorderedBounded.Valid.{IsValid, AllIn, is_some, IsUsed}
use futures_buffered.ArcSlice.Push.{front_pushed}
use futures_buffered.UnorderedBounded.Step.{written_pushed, Settles, IsWritten, meta-Holds}
use futures_buffered.UnorderedBounded.Outcomes.{Calls, Held, Ended, poll_loop_lem}

module _ {F : Type 0} where
  -- A set that holds a future has a queue that was written to.
  written_of_used :
      (front : Front) (m : SlotMap F) → IsUsed front m → 0 < SlotMap.len m → IsWritten front
  written_of_used unwritten m u h = omega arith
  written_of_used stub m u h = tt
  written_of_used inline m u h = tt

  AllIn-remove :
      (m : SlotMap F) (i : ℕ) (xs : List ℕ)
      → has i xs ≡ false
      → AllIn m xs
      → AllIn (SlotMap.remove m i) xs
  AllIn-remove m i [] out o = tt
  AllIn-remove m i (x ∷ xs) out o =
      (ground (arith, get-remove m i x), AllIn-remove m i xs (ground arith) o.1)

  IsUsed-written : (front : Front) (m : SlotMap F) → IsWritten front → IsUsed front m
  IsUsed-written unwritten m w = absurd w
  IsUsed-written stub m w = tt
  IsUsed-written inline m w = tt

  pub IsUsed-pushed : (front : Front) (m : SlotMap F) → IsUsed (front_pushed front) m
  IsUsed-pushed front m = IsUsed-written (front_pushed front) m (written_pushed front)

module _ {W F : Type 0} where
  -- Freeing a slot that is not queued keeps the set valid.
  pub freed-IsValid :
      (q : FuturesUnorderedBounded W F) (front : Front) (xs free : List ℕ) (i : ℕ) {f : F}
      → IsValid q front xs free
      → IsWritten front
      → SlotMap.get q.tasks i ≡ some f
      → has i xs ≡ false
      → IsValid (record q { tasks = SlotMap.remove q.tasks i }) front xs (i ∷ free)
  unfolding capacity
  freed-IsValid q front xs free i v w e out =
      let o = occupied_of_get q.tasks i e in
      record {
        slots = rw (remove-occupied q.tasks i o) (removed-IsValid q.tasks free i _ v.slots o);
        same_len = v.same_len ∙ sym (len-remove q.tasks free i v.slots e).1;
        queue = v.queue;
        indexed = v.indexed;
        occupied = AllIn-remove q.tasks i xs out v.occupied;
        used = IsUsed-written front (SlotMap.remove q.tasks i) w;
        referenced = v.referenced;
      }

module _ ⦃aw : AtomicWaker⦄ {F O : Type 0} (cx : ℕ) (poll_fn : PollFn F O)
    (settles : (f : F) (w : Waker) → Settles w (poll_fn f w).result (poll_fn f w).events)
    (q : FuturesUnorderedBounded aw.Cell F) (log : Log) (free : List ℕ) where
  open aw use {Cell}

  -- What `poll_inner` leaves of `q`, told apart by what it returns.
  abbrev pub PolledInner : Outcome Cell F O → Type 0
  PolledInner (q', log', pending) =
      (0 < len q)
      × (len q' ≡ len q)
      × (((j : ℕ) → is_some (SlotMap.get q'.tasks j) ≡ is_some (SlotMap.get q.tasks j))
          × ((j : ℕ) (g : F) → SlotMap.get q'.tasks j ≡ some g → Held poll_fn q.tasks j g)
          × Calls cx (aw.register q.shared.waker cx) log q'.shared.waker log')
      × (front : Front) × (queued : List ℕ) × IsValid q' front queued free
      × ((queued ≡ []) ⊎ ((before : Log) × (log' ≡ before ++ cx ∷ [])))
  PolledInner (q', log', ready none) = (len q ≡ 0) × (q' ≡ q) × (log' ≡ log)
  PolledInner (q', log', ready (some (i, x))) =
      (is_some (SlotMap.get q.tasks i) ≡ true)
      × (SlotMap.get q'.tasks i ≡ none)
      × (((j : ℕ)
            → (i == j) ≡ false
            → is_some (SlotMap.get q'.tasks j) ≡ is_some (SlotMap.get q.tasks j))
          × ((j : ℕ) (g : F) → SlotMap.get q'.tasks j ≡ some g → Held poll_fn q.tasks j g)
          × Calls cx (aw.register q.shared.waker cx) log q'.shared.waker log')
      × (len q' + 1 ≡ len q)
      × ((f : F) × ((poll_fn f i).result ≡ ready x) × Held poll_fn q.tasks i f)
      × (front : Front) × (queued : List ℕ) × IsValid q' front queued (i ∷ free)

  len_of_empty : is_empty q ≡ true → len q ≡ 0
  unfolding is_empty len SlotMap.is_empty SlotMap.len
  len_of_empty e = ground arith

  len_of_not_empty : is_empty q ≡ false → 0 < len q
  unfolding is_empty len SlotMap.is_empty SlotMap.len
  len_of_not_empty e = ground arith

  -- The set once the task's waker is registered.
  unfoldable pub registered : FuturesUnorderedBounded Cell F
  registered = record q { shared = register q.shared cx }

  registered-IsValid :
      (front : Front) (xs : List ℕ) → IsValid q front xs free → IsValid registered front xs free
  unfolding registered register capacity
  registered-IsValid front xs v = record {
    slots = v.slots;
    same_len = v.same_len;
    queue = meta-Holds q.shared front xs q.shared.strong (aw.register q.shared.waker cx) v.queue;
    indexed = v.indexed;
    occupied = v.occupied;
    used = v.used;
    referenced = v.referenced;
  }

  same_registered : (registered.tasks ≡ q.tasks) × (registered.shared.strong ≡ q.shared.strong)
  unfolding registered register
  same_registered = (refl, refl)

  pub len_registered : len registered ≡ len q
  unfolding registered len
  len_registered = refl

  -- `poll_inner_no_remove` of a valid set: `Ready(None)` exactly when the set is empty, which then
  -- stays as it is; otherwise what the loop makes of it.
  pub no_remove_lem :
      (front : Front) (xs : List ℕ)
      → IsValid q front xs free
      → q.shared.strong + max_polls ≤ isize_max
      → ((len q ≡ 0) × (poll_inner_no_remove cx poll_fn q log ≡ some (q, log, ready none)))
        ⊎ ((0 < len q)
            × (out : Outcome Cell F O) × (poll_inner_no_remove cx poll_fn q log ≡ some out)
            × Ended cx poll_fn settles registered log free (q.shared.strong + max_polls) out)
  unfolding poll_inner_no_remove registered register
  no_remove_lem front xs v h = elim (Bool-cases (is_empty q)) [
    | inl none_left ↦ inl (len_of_empty none_left, rw none_left refl)
    | inr some_left ↦
        let more = len_of_not_empty some_left in
        let (out, runs, ended) =
          poll_loop_lem cx poll_fn settles max_polls registered log front xs free
            (registered-IsValid front xs v)
            (written_of_used front q.tasks v.used (unfold len in more))
            (omega (arith, same_registered.1)) in
        inr (more, out, rw some_left runs, ended)
  ]

  nothing_held : (g : F) → none ≡ some g → ⊥
  nothing_held g e = ground arith

  output_removed :
      (out : Outcome Cell F O)
      → 0 < len q
      → Ended cx poll_fn settles registered log free (q.shared.strong + max_polls) out
      → PolledInner (remove_output out)
        × ((remove_output out).0.shared.strong ≤ q.shared.strong + max_polls)
  unfolding remove_output registered len register
  output_removed (q', log', pending) h e = (
    (
      h,
      e.same_count ∙ len_registered,
      (e.same, λ j g s. e.held j g (tt {0}) s, e.calls),
      e.front,
      e.queued,
      e.valid,
      e.verdict,
    ),
    omega (arith, e.strong_high, same_registered.1),
  )
  output_removed (q', log', ready none) h e = absurd e.verdict
  output_removed (q', log', ready (some (i, x))) h e =
      let (out, f, stored, done, was) = e.verdict in
      (
        (
          sym (e.same i) ∙ ap is_some stored,
          ground (arith, get-remove q'.tasks i i),
          (
            λ j ne. ground (arith, get-remove q'.tasks i j, e.same j),
            λ j g s. elim (Bool-cases (i == j)) [
              | inl same ↦ absurd (nothing_held g (ground (arith, get-remove q'.tasks i j)))
              | inr other ↦ e.held j g other (ground (arith, get-remove q'.tasks i j))
            ],
            e.calls,
          ),
          omega (arith, (len-remove q'.tasks free i e.valid.slots stored).0, e.same_count),
          (f, done, was),
          e.front,
          e.queued,
          freed-IsValid q' e.front e.queued free i e.valid e.written stored out,
        ),
        omega (arith, e.strong_high, same_registered.1),
      )

  pub poll_inner_lem :
      (front : Front) (xs : List ℕ)
      → IsValid q front xs free
      → q.shared.strong + max_polls ≤ isize_max
      → (out : Outcome Cell F O) × (poll_inner cx poll_fn q log ≡ some out)
        × PolledInner out
        × (out.0.shared.strong ≤ q.shared.strong + max_polls)
  unfolding poll_inner remove_output
  poll_inner_lem front xs v h = elim (no_remove_lem front xs v h) [
    | inl (none_left, runs) ↦ ((q, log, ready none), rw runs, (none_left, refl, refl), omega arith)
    | inr (more, out, runs, ended) ↦
        let (polled, strong) = output_removed out more ended in
        (remove_output out, rw runs, polled, strong)
  ]
