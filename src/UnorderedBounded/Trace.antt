-- ===== src/UnorderedBounded/Trace.antt =====
-- What a poll preserves of the futures that are in the set, slot by slot.
use futures_buffered.SlotMap.Lookup.{get-put, get-remove}
use futures_buffered.ArcSlice.{ReadySlot, run_events, drop_handle, ArcSliceInner, alive, Waker}
use futures_buffered.Base.{
  inr, Option-cases, suc, zero, inl, ◌==◌, arith, Bool-cases, none, some, Option, ℕ, ◌>>=◌, ◌≡◌,
  refl, ap,
}
use futures_buffered.SlotMap.{SlotMap}
use futures_buffered.SlotMap
use futures_buffered.ArcSlice
use mathlib.Core.Path.{subst, subst₂}
use futures_buffered.Task.{Poll, ready, pending, Log, AtomicWaker}
use futures_buffered.UnorderedBounded.{
  max_polls, after_pop, remove_output, poll_inner, poll_loop, after_poll, poll_inner_no_remove,
  poll_task, FuturesUnorderedBounded, PollFn, is_empty, Outcome,
}

module _ {A : Type 0} where
  -- `P` of the value of a run that does not fault.
  abbrev pub IfSome : (A → Type 0) → Option A → Type 0
  IfSome P none = Unit
  IfSome P (some a) = P a

  pub of_IfSome : (P : A → Type 0) (o : Option A) {a : A} → IfSome P o → o ≡ some a → P a
  of_IfSome P o h e = subst (IfSome P) e h

  pub IfSome-bind :
      {B : Type 0} (P : A → Type 0) (o : Option B) (f : B → Option A)
      → ((b : B) → IfSome P (f b))
      → IfSome P (o >>= f)
  IfSome-bind P none f h = tt
  IfSome-bind P (some b) f h = h b

module _ {F : Type 0} (P : ℕ → F → Type 0) where
  -- Every future of the set satisfies `P` with its slot.
  abbrev pub Keeps : SlotMap F → Type 0
  Keeps m = (i : ℕ) (f : F) → SlotMap.get m i ≡ some f → P i f

  Keeps-put :
      (m : SlotMap F) (i : ℕ) {f : F} (g : F)
      → Keeps m
      → SlotMap.get m i ≡ some f
      → P i g
      → Keeps (SlotMap.put m i g)
  Keeps-put m i g k e p j h s = elim (Bool-cases (i == j)) [
    | inl same ↦
        let there : i ≡ j = ground arith in
        let stored : some g ≡ some h = ground (arith, get-put m i g j e) in
        subst₂ P there (ap (λ o. elim o [ none ↦ g | some v ↦ v ]) stored) p
    | inr other ↦ k j h (ground (arith, get-put m i g j e))
  ]

  pub Keeps-remove : (m : SlotMap F) (i : ℕ) → Keeps m → Keeps (SlotMap.remove m i)
  Keeps-remove m i k j h s = k j h (ground (arith, get-remove m i j))

module _ ⦃aw : AtomicWaker⦄ {F O : Type 0} (P : ℕ → F → Type 0) (R : ℕ → O → Type 0)
    (poll_fn : PollFn F O) (preserves : (i : ℕ) (f : F) (w : Waker) → P i f → P i (poll_fn f w).fut)
    (gives : (i : ℕ) (f : F) (w : Waker) (x : O)
      → P i f
      → (poll_fn f w).result ≡ ready x
      → R i x) where
  open aw use {Cell}

  abbrev pub Gives : Poll (Option (ℕ × O)) → Type 0
  Gives pending = Unit
  Gives (ready none) = Unit
  Gives (ready (some (i, x))) = R i x

  abbrev pub Traced : Outcome Cell F O → Type 0
  Traced (q, log, r) = Keeps P q.tasks × Gives r

  abbrev Continues : (FuturesUnorderedBounded Cell F → Log → Option (Outcome Cell F O)) → Type 0
  Continues rest =
      (q : FuturesUnorderedBounded Cell F) (log : Log)
      → Keeps P q.tasks
      → IfSome Traced (rest q log)

  after_poll-Traced :
      (rest : FuturesUnorderedBounded Cell F → Log → Option (Outcome Cell F O)) (i : ℕ)
      (q : FuturesUnorderedBounded Cell F) (log : Log) (r : Poll O)
      → Continues rest
      → Keeps P q.tasks
      → ((x : O) → r ≡ ready x → R i x)
      → IfSome Traced (after_poll rest i q log r)
  unfolding after_poll
  after_poll-Traced rest i q log (ready x) c k g = (k, g x refl)
  after_poll-Traced rest i q log pending c k g = c q log k

  poll_task-Traced :
      (rest : FuturesUnorderedBounded Cell F → Log → Option (Outcome Cell F O)) (i : ℕ) (w : Waker)
      (q : FuturesUnorderedBounded Cell F) (log : Log) (o : Option F)
      → Continues rest
      → Keeps P q.tasks
      → SlotMap.get q.tasks i ≡ o
      → IfSome Traced (poll_task poll_fn rest i w q log o)
  unfolding poll_task
  poll_task-Traced rest i w q log none c k e =
      IfSome-bind Traced (alive (drop_handle q.shared, log)) _ (λ s. c _ _ k)
  poll_task-Traced rest i w q log (some f) c k e =
      let polled = poll_fn f w in
      let kept = Keeps-put P q.tasks i polled.fut k e (preserves i f w (k i f e)) in
      IfSome-bind Traced (run_events polled.events (q.shared, log)) _ (λ s.
        IfSome-bind Traced (alive (drop_handle s.0, s.1)) _
          (λ t. after_poll-Traced rest i _ t.1 polled.result c kept (λ x. gives i f w x (k i f e))))

  after_pop-Traced :
      (rest : FuturesUnorderedBounded Cell F → Log → Option (Outcome Cell F O)) (cx : ℕ)
      (q : FuturesUnorderedBounded Cell F) (log : Log) (slot : ReadySlot (ℕ × Waker))
      → Continues rest
      → Keeps P q.tasks
      → IfSome Traced (after_pop cx poll_fn rest q log slot)
  unfolding after_pop
  after_pop-Traced rest cx q log ReadySlot.empty c k = (k, tt)
  after_pop-Traced rest cx q log ReadySlot.inconsistent c k = (k, tt)
  after_pop-Traced rest cx q log (ReadySlot.ready (i, w)) c k =
      poll_task-Traced rest i w q log (SlotMap.get q.tasks i) c k refl

  poll_loop-Traced :
      (left cx : ℕ) (q : FuturesUnorderedBounded Cell F) (log : Log)
      → Keeps P q.tasks
      → IfSome Traced (poll_loop left cx poll_fn q log)
  unfolding poll_loop
  poll_loop-Traced zero cx q log k = (k, tt)
  poll_loop-Traced (suc left) cx q log k = IfSome-bind Traced (ArcSlice.pop q.shared) _ (λ s.
      after_pop-Traced (poll_loop left cx poll_fn) cx _ log s.1
        (λ q log. poll_loop-Traced left cx q log) k)

  removed-Traced : (out : Outcome Cell F O) → Traced out → Traced (remove_output out)
  unfolding remove_output
  removed-Traced (q, log, pending) t = t
  removed-Traced (q, log, ready none) t = t
  removed-Traced (q, log, ready (some (i, x))) t = (Keeps-remove P q.tasks i t.0, t.1)

  no_remove-Traced :
      (cx : ℕ) (q : FuturesUnorderedBounded Cell F) (log : Log)
      → Keeps P q.tasks
      → IfSome Traced (poll_inner_no_remove cx poll_fn q log)
  unfolding poll_inner_no_remove
  no_remove-Traced cx q log k = elim (Bool-cases (is_empty q)) [
    | inl e ↦ rw e (k, tt)
    | inr e ↦ rw e (poll_loop-Traced max_polls cx _ log k)
  ]

  -- A property of the futures, slot by slot, that every poll of them preserves holds of the futures
  -- that are left after `poll_inner`, and an output is one that such a future gives in its slot.
  pub poll_inner-Traced :
      (cx : ℕ) (q : FuturesUnorderedBounded Cell F) (log : Log) {out : Outcome Cell F O}
      → Keeps P q.tasks
      → poll_inner cx poll_fn q log ≡ some out
      → Traced out
  unfolding poll_inner
  poll_inner-Traced cx q log {out} k runs =
      of_IfSome Traced (poll_inner cx poll_fn q log) (finish (no_remove-Traced cx q log k)) runs
    where
      finish :
          IfSome Traced (poll_inner_no_remove cx poll_fn q log)
          → IfSome Traced (poll_inner cx poll_fn q log)
      finish t = elim (Option-cases (poll_inner_no_remove cx poll_fn q log)) [
        | inl e ↦ rw e tt
        | inr (o, e) ↦ rw e (removed-Traced o (of_IfSome Traced _ t e))
      ]
