-- ===== src/UnorderedBounded/Outcomes.antt =====
-- What a poll of a valid set returns, and what it leaves.
use mathlib.Core.Option.{some-injective}
use mathlib.Core.Path.{subst₂, subst}
use futures_buffered.Base.{
  ap, ◌==◌, Bool-cases, sym, ℕ, zero, suc, ◌+◌, ◌≤◌, ◌≡◌, refl, ◌∙◌, false, Option, none, some,
  List, [], ◌∷◌, ◌++◌, arith, has, inl, inr, ◌⊎◌,
}
use futures_buffered.Task.{Poll, ready, pending, AtomicWaker, Log}
use futures_buffered.SlotMap
use futures_buffered.SlotMap.{SlotMap}
use futures_buffered.ArcSlice
use futures_buffered.ArcSlice.{ArcSliceInner, ReadySlot, Waker, isize_max, register}
use futures_buffered.ArcSlice.Fifo.{Front, unwritten, stub, inline}
use futures_buffered.ArcSlice.Pop.{pop-empty}
use futures_buffered.UnorderedBounded.{
  FuturesUnorderedBounded, PollFn, Outcome, poll_loop, after_pop, after_poll, len,
}
use futures_buffered.UnorderedBounded.Valid.{IsValid}
use futures_buffered.UnorderedBounded.Step.{Woke-trans, Woke, unwoken, Settles, IsWritten}
use futures_buffered.UnorderedBounded.Round.{Round, round, SameFutures}

Poll-cases : {O : Type 0} (r : Poll O) → ((x : O) × (r ≡ ready x)) ⊎ (r ≡ pending)
Poll-cases (ready x) = inl (x, refl)
Poll-cases pending = inr refl

module _ {F O : Type 0} (poll_fn : PollFn F O) where
  -- `g` is what `f` is after some polls with the waker `w` that were pending.
  pub data Polled (w : Waker) : F → F → Type 0 where
    unpolled : {f : F} → Polled w f f
    polled :
        {f g : F} → (poll_fn f w).result ≡ pending → Polled w (poll_fn f w).fut g → Polled w f g

  -- `g` is the future that slot `j` held, after some polls that were pending.
  abbrev pub Held : SlotMap F → ℕ → F → Type 0
  Held m j g = (f : F) × (SlotMap.get m j ≡ some f) × Polled j f g

module _ ⦃aw : AtomicWaker⦄ (cx : ℕ) where
  open aw use {Cell}

  -- The wakers called: those of the cell, by some calls of `wake`, and `cx` at the end if at all.
  abbrev pub Calls : Cell → Log → Cell → Log → Type 0
  Calls c log c' log' =
      (before : Log) × Woke c log c' before × ((log' ≡ before) ⊎ (log' ≡ before ++ cx ∷ []))

module _ ⦃aw : AtomicWaker⦄ {F O : Type 0} (cx : ℕ) (poll_fn : PollFn F O)
    (settles : (f : F) (w : Waker) → Settles w (poll_fn f w).result (poll_fn f w).events) where
  open aw use {Cell}

  -- What the loop says of its result. Pending: no slot is left in the queue, or the task's waker has
  -- been called last. An output: it is that of a future in slot `i`, which is not queued any more.
  abbrev pub Verdict :
      SlotMap F → FuturesUnorderedBounded Cell F → Log → List ℕ → Poll (Option (ℕ × O)) → Type 0
  Verdict m q log queued pending = (queued ≡ []) ⊎ ((before : Log) × (log ≡ before ++ cx ∷ []))
  Verdict m q log queued (ready none) = ⊥
  Verdict m q log queued (ready (some (i, x))) =
      (has i queued ≡ false)
      × (f : F) × (SlotMap.get q.tasks i ≡ some (poll_fn f i).fut)
      × ((poll_fn f i).result ≡ ready x)
      × Held poll_fn m i f

  -- An output takes its slot out of those that stay.
  abbrev pub Stays : Poll (Option (ℕ × O)) → ℕ → Type 0
  Stays pending j = Unit
  Stays (ready none) j = Unit
  Stays (ready (some (i, x))) j = (i == j) ≡ false

  -- The loop has run from the set `q` to the outcome `out`.
  pub record Ended (q : FuturesUnorderedBounded Cell F) (log : Log) (free : List ℕ) (bound : ℕ)
      (out : Outcome Cell F O) : Type 0 where
    pub front : Front
    pub queued : List ℕ
    pub valid : IsValid out.0 front queued free
    pub written : IsWritten front
    pub same : SameFutures q.tasks out.0.tasks
    pub same_count : len out.0 ≡ len q
    pub strong_high : out.0.shared.strong ≤ bound
    pub verdict : Verdict q.tasks out.0 out.1 queued out.2
    pub held :
        (j : ℕ) (g : F)
        → Stays out.2 j
        → SlotMap.get out.0.tasks j ≡ some g
        → Held poll_fn q.tasks j g
    pub calls : Calls cx q.shared.waker log out.0.shared.waker out.1

  -- A future held after a round was held before it, and polled by it if it is that of slot `i`.
  held_before :
      (q : FuturesUnorderedBounded Cell F) (log : Log) (i : ℕ) (rest free : List ℕ)
      (r : Round cx poll_fn settles q log i rest free)
      → (poll_fn r.task i).result ≡ pending
      → (j : ℕ) (g : F) → Held poll_fn r.after.tasks j g
      → Held poll_fn q.tasks j g
  held_before q log i rest free r more j g (f, e, p) = elim (Bool-cases (i == j)) [
    | inl same ↦
        let there : i ≡ j = ground arith in
        subst (λ k. Held poll_fn q.tasks k g) there
          (
            r.task,
            r.stored,
            polled more (
                subst₂ (λ k h. Polled poll_fn k h g) (sym there)
                  (some-injective f (poll_fn r.task i).fut
                    (sym e ∙ ap (SlotMap.get r.after.tasks) (sym there) ∙ r.polled))
                  p),
          )
    | inr other ↦ (f, sym (r.others j other) ∙ e, p)
  ]

  Verdict-before :
      (q : FuturesUnorderedBounded Cell F) (log : Log) (i : ℕ) (rest free : List ℕ)
      (r : Round cx poll_fn settles q log i rest free)
      → (poll_fn r.task i).result ≡ pending
      → (out : Outcome Cell F O) (queued : List ℕ) → Verdict r.after.tasks out.0 out.1 queued out.2
      → Verdict q.tasks out.0 out.1 queued out.2
  Verdict-before q log i rest free r more (q', log', pending) queued v = v
  Verdict-before q log i rest free r more (q', log', ready none) queued v = v
  Verdict-before q log i rest free r more (q', log', ready (some (k, x))) queued
        (out, f, e, done, was) =
      (out, f, e, done, held_before q log i rest free r more k f was)

  after-Round :
      (left : ℕ) (q : FuturesUnorderedBounded Cell F) (log : Log) (i : ℕ) (rest free : List ℕ)
      (r : Round cx poll_fn settles q log i rest free)
      → has i rest ≡ false
      → (out : Outcome Cell F O) × (poll_loop left cx poll_fn r.after r.log_after ≡ some out)
        × Ended r.after r.log_after free (r.after.shared.strong + left) out
      → (out : Outcome Cell F O) × (poll_loop (suc left) cx poll_fn q log ≡ some out)
        × Ended q log free (q.shared.strong + suc left) out
  unfolding after_poll
  after-Round left q log i rest free r single (out, e, ended) =
      elim (Poll-cases (poll_fn r.task i).result) [
        | inl (x, done) ↦
            let same : r.queued ≡ rest = rw done at r.unless_ready in
            (
              (r.after, r.log_after, ready (some (i, x))),
              rw (r.runs left, done),
              record {
                front = r.front;
                queued = r.queued;
                valid = r.valid;
                written = r.written;
                same = r.same;
                same_count = r.same_count;
                strong_high = omega (arith, r.strong_high);
                verdict = (rw same single, r.task, r.polled, done, (r.task, r.stored, unpolled));
                held = λ j g ne e. (g, sym (r.others j ne) ∙ e, unpolled);
                calls = (r.log_after, r.calls, inl refl);
              },
            )
        | inr more ↦ (
          out,
          rw (r.runs left, more) e,
          record {
            front = ended.front;
            queued = ended.queued;
            valid = ended.valid;
            written = ended.written;
            same = λ j. ended.same j ∙ r.same j;
            same_count = ended.same_count ∙ r.same_count;
            strong_high = omega (arith, r.strong_high, ended.strong_high);
            verdict = Verdict-before q log i rest free r more out ended.queued ended.verdict;
            held = λ j g stays e. held_before q log i rest free r more j g (ended.held j g stays e);
            calls = (ended.calls.0, Woke-trans r.calls ended.calls.1, ended.calls.2);
          },
        )
      ]

  pub poll_loop_lem :
      (left : ℕ) (q : FuturesUnorderedBounded Cell F) (log : Log) (front : Front) (xs free : List ℕ)
      → IsValid q front xs free
      → IsWritten front
      → q.shared.strong + left ≤ isize_max
      → (out : Outcome Cell F O) × (poll_loop left cx poll_fn q log ≡ some out)
        × Ended q log free (q.shared.strong + left) out
  unfolding poll_loop
  poll_loop_lem zero q log front xs free v w h = (
    (q, log ++ cx ∷ [], pending),
    refl,
    record {
      front = front;
      queued = xs;
      valid = v;
      written = w;
      same = λ j. refl;
      same_count = refl;
      strong_high = omega arith;
      verdict = inr (log, refl);
      held = λ j g stays e. (g, e, unpolled);
      calls = (log, unwoken, inr refl);
    },
  )
  poll_loop_lem (suc left) q log unwritten [] free v w h = absurd w
  poll_loop_lem (suc left) q log inline [] free v w h = absurd v.queue.spells
  poll_loop_lem (suc left) q log stub [] free v w h = (
    (q, log, pending),
    unfold after_pop ArcSlice.pop ArcSlice.with_waker in rw (pop-empty q.shared v.queue),
    record {
      front = stub;
      queued = [];
      valid = v;
      written = tt;
      same = λ j. refl;
      same_count = refl;
      strong_high = omega arith;
      verdict = inl refl;
      held = λ j g stays e. (g, e, unpolled);
      calls = (log, unwoken, inl refl);
    },
  )
  poll_loop_lem (suc left) q log front (i ∷ rest) free v w h =
      let r = round cx poll_fn settles q log front i rest free v (omega arith) in
      after-Round left q log i rest free r v.queue.distinct.0 (
        poll_loop_lem left r.after r.log_after r.front r.queued free r.valid r.written
          (omega (arith, r.strong_high)))
