-- ===== src/OrderWrapper/Held.antt =====
-- The indices of the futures in a `FuturesUnorderedBounded` of wrapped futures, and what a poll makes
-- of them.
use futures_buffered.UnorderedBounded.Inner.{PolledInner}
use mathlib.Core.Option.{some-injective}
use futures_buffered.Base.{
  occurrences-change, true, occurrences-none, occurrences-same, one_at, ◌+◌, List, ℕ, ◌<◌, ◌≡◌,
  refl, sym, ap, ◌∙◌, Option, none, some, arith, occurrences, occurrences_pos,
}
use futures_buffered.Task.{Poll, ready, pending, AtomicWaker, Log}
use futures_buffered.SlotMap
use futures_buffered.SlotMap.{SlotMap}
use futures_buffered.ArcSlice.{Waker}
use futures_buffered.UnorderedBounded.{FuturesUnorderedBounded, PollFn, Outcome, poll_inner}
use futures_buffered.UnorderedBounded.Valid.{IsValid, is_some}
use futures_buffered.UnorderedBounded.Step.{Settles}
use futures_buffered.UnorderedBounded.Trace.{Traced, poll_inner-Traced}
use futures_buffered.OrderWrapper.{OrderWrapper, poll_wrapped, with_index}
use futures_buffered.JoinAll.Buffer.{lt_of_get, get_of_no_value, capacity_of}
use futures_buffered.ArcSlice.Fifo.{Front}
use futures_buffered.Base.{length}
use futures_buffered.UnorderedBounded.{capacity, len}

module _ {T : Type 0} where
  abbrev pub index_of : Option (OrderWrapper T) → Option ℕ
  index_of none = none
  index_of (some t) = some t.index

  abbrev pub task_index : SlotMap (OrderWrapper T) → ℕ → Option ℕ
  task_index m j = index_of (SlotMap.get m j)

  -- How many futures have the index `i`.
  abbrev pub held : SlotMap (OrderWrapper T) → ℕ → ℕ
  held m i = occurrences (SlotMap.capacity m) (task_index m) i

  index_of-same :
      (o o' : Option (OrderWrapper T))
      → is_some o' ≡ is_some o
      → ((t : OrderWrapper T)
          → o' ≡ some t
          → (t₀ : OrderWrapper T) → o ≡ some t₀
          → t.index ≡ t₀.index)
      → index_of o' ≡ index_of o
  index_of-same none none s h = refl
  index_of-same none (some t) s h = absurd (ground arith)
  index_of-same (some t) none s h = absurd (ground arith)
  index_of-same (some t) (some t') s h = ap some (h t' refl t refl)

  pub held_pos :
      (m : SlotMap (OrderWrapper T)) (j : ℕ) {t : OrderWrapper T}
      → SlotMap.get m j ≡ some t
      → 0 < held m t.index
  held_pos m j {t} e =
      occurrences_pos (SlotMap.capacity m) (task_index m) j (lt_of_get m j (ground arith)) (rw e)

module _ {T O : Type 0} (poll_fn : PollFn T O) where
  -- A wrapped future behaves to its waker as the future in it.
  pub wrapped-Settles :
      ((f : T) (w : Waker) → Settles w (poll_fn f w).result (poll_fn f w).events)
      → (t : OrderWrapper T) (w : Waker)
      → Settles w (poll_wrapped poll_fn t w).result (poll_wrapped poll_fn t w).events
  unfolding poll_wrapped with_index
  wrapped-Settles settles t w =
      with_result t.index (poll_fn t.payload w).result (settles t.payload w)
    where
      with_result :
          (i : ℕ) (r : Poll O)
          → Settles w r (poll_fn t.payload w).events
          → Settles w (with_index i r) (poll_fn t.payload w).events
      with_result i (ready x) s = s
      with_result i pending s = s

  pub wrapped_index :
      (t : OrderWrapper T) (w : Waker) → (poll_wrapped poll_fn t w).fut.index ≡ t.index
  unfolding poll_wrapped
  wrapped_index t w = refl

  -- The output of a wrapped future is that of the future in it, with its index.
  pub wrapped_output :
      (t : OrderWrapper T) (w : Waker) (o : OrderWrapper O)
      → (poll_wrapped poll_fn t w).result ≡ ready o
      → (o.index ≡ t.index) × ((poll_fn t.payload w).result ≡ ready o.payload)
  unfolding poll_wrapped with_index
  wrapped_output t w o = of_result (poll_fn t.payload w).result
    where
      of_result :
          (r : Poll O)
          → with_index t.index r ≡ ready o
          → (o.index ≡ t.index) × (r ≡ ready o.payload)
      of_result (ready x) e = (ground arith, ground arith)
      of_result pending e = absurd (ground arith)

module _ ⦃aw : AtomicWaker⦄ {T O : Type 0} (cx : ℕ) (poll_fn : PollFn T O)
    (settles : (t : OrderWrapper T) (w : Waker)
      → Settles w (poll_wrapped poll_fn t w).result (poll_wrapped poll_fn t w).events)
    (q : FuturesUnorderedBounded aw.Cell (OrderWrapper T)) (log : Log) where
  open aw use {Cell}

  -- Of the index that the future in slot `j` had in `q`.
  abbrev HasIndexOf : ℕ → ℕ → Type 0
  HasIndexOf j i = (t : OrderWrapper T) → SlotMap.get q.tasks j ≡ some t → i ≡ t.index

  abbrev pub IndexTraced : Outcome Cell (OrderWrapper T) (OrderWrapper O) → Type 0
  IndexTraced =
      Traced (λ j t. HasIndexOf j t.index) (λ j o. HasIndexOf j o.index) (poll_wrapped poll_fn)
        (λ j t w h s e. wrapped_index poll_fn t w ∙ h s e)
        (λ j t w o h r s e. (wrapped_output poll_fn t w o r).0 ∙ h s e)

  pub index_traced :
      {out : Outcome Cell (OrderWrapper T) (OrderWrapper O)}
      → poll_inner cx (poll_wrapped poll_fn) q log ≡ some out
      → IndexTraced out
  index_traced runs =
      poll_inner-Traced (λ j t. HasIndexOf j t.index) (λ j o. HasIndexOf j o.index)
        (poll_wrapped poll_fn) (λ j t w h s e. wrapped_index poll_fn t w ∙ h s e)
        (λ j t w o h r s e. (wrapped_output poll_fn t w o r).0 ∙ h s e) cx q log
        (λ j t e s f. ap (λ (r : OrderWrapper T). r.index) (some-injective t s (sym e ∙ f))) runs

  -- How a poll changes the number of futures with an index: an output takes one away.
  abbrev pub HeldAfter : Outcome Cell (OrderWrapper T) (OrderWrapper O) → Type 0
  HeldAfter (q', log', pending) = (i : ℕ) → held q'.tasks i ≡ held q.tasks i
  HeldAfter (q', log', ready none) = (i : ℕ) → held q.tasks i ≡ 0
  HeldAfter (q', log', ready (some (j, o))) =
      (i : ℕ) → held q'.tasks i + one_at (some o.index) i ≡ held q.tasks i

  same_size :
      {front front' : Front} {xs xs' free free' : List ℕ}
      (q' : FuturesUnorderedBounded Cell (OrderWrapper T))
      → IsValid q front xs free
      → IsValid q' front' xs' free'
      → len q' + length free' ≡ len q + length free
      → SlotMap.capacity q'.tasks ≡ SlotMap.capacity q.tasks
  unfolding capacity
  same_size q' v v' e = omega (arith, capacity_of q v, capacity_of q' v')

  pub held_after :
      (front : Front) (xs free : List ℕ) (out : Outcome Cell (OrderWrapper T) (OrderWrapper O))
      → IsValid q front xs free
      → PolledInner cx (poll_wrapped poll_fn) settles q log free out
      → IndexTraced out
      → HeldAfter out
  held_after front xs free (q', log', pending) v p t =
      let size = same_size q' v p.5 (omega (arith, p.1)) in
      λ i. rw size (
        occurrences-same (SlotMap.capacity q.tasks) (task_index q.tasks) (task_index q'.tasks) i
          (λ j. index_of-same (SlotMap.get q.tasks j) (SlotMap.get q'.tasks j) (p.2.0 j) (t.0 j)))
  held_after front xs free (q', log', ready none) v p t = λ i.
      occurrences-none (SlotMap.capacity q.tasks) (task_index q.tasks) i
        (λ j. ap index_of (get_of_no_value q.tasks free j v.slots (unfold len in p.0)))
  held_after front xs free (q', log', ready (some (j, o))) v p t =
      let size = same_size q' v p.7 (omega (arith, p.3)) in
      let range = lt_of_get q.tasks j p.0 in
      let change = λ (i : ℕ).
        occurrences-change (SlotMap.capacity q.tasks) (task_index q.tasks) (task_index q'.tasks) i j
          range
          (λ j' other.
            index_of-same (SlotMap.get q.tasks j') (SlotMap.get q'.tasks j') (p.2.0 j' other)
              (t.0 j')) in
      let freed : task_index q'.tasks j ≡ none = ap index_of p.1 in
      let was : task_index q.tasks j ≡ some o.index = was_held (SlotMap.get q.tasks j) refl p.0 in
      λ i. rw size (omega (arith, change i, ap (λ r. one_at r i) freed, ap (λ r. one_at r i) was))
    where
      was_held :
          (r : Option (OrderWrapper T))
          → SlotMap.get q.tasks j ≡ r
          → is_some r ≡ true
          → index_of r ≡ some o.index
      was_held none e s = absurd (ground arith)
      was_held (some s₀) e s = ap some (sym (t.1 s₀ e))
