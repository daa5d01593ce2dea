-- ===== src/OrderedBounded/Loop.antt =====
-- A whole poll of a `FuturesOrderedBounded`.
use mathlib.Core.List.Permᴰ
use futures_buffered.Base.{
  inl, inr, Bool-cases, ◌==◌, ℕ, zero, suc, ◌+◌, ◌*◌, ◌≤◌, ◌<◌, ◌≡◌, refl, none, some, List, [],
  ◌∷◌, length, arith, All-perm, weigh-perm, add_usize,
}
use futures_buffered.Task.{ready, pending, AtomicWaker, Log}
use futures_buffered.ArcSlice.{Waker, isize_max}
use futures_buffered.ArcSlice.Fifo.{Front}
use futures_buffered.UnorderedBounded
use futures_buffered.UnorderedBounded.{
  FuturesUnorderedBounded, PollFn, Outcome, len, max_polls, output_only,
}
use futures_buffered.UnorderedBounded.Step.{Settles}
use futures_buffered.UnorderedBounded.Inner.{PolledInner, poll_inner_lem}
use futures_buffered.UnorderedBounded.Trace.{poll_inner-Traced}
use futures_buffered.JoinAll.Buffer.{get_of_value}
use futures_buffered.OrderWrapper.{OrderWrapper, BinaryHeap, cmp, poll_wrapped}
use futures_buffered.OrderWrapper.Held.{
  held, held_pos, wrapped-Settles, index_traced, HeldAfter, held_after,
}
use futures_buffered.OrderWrapper.Balance.{
  waits, weight, balance-move, in_window_of_held, nothing_left,
}
use futures_buffered.OrderWrapper.Labels.{
  RunsAt, WaitsAt, label_preserved, label_given, LabelTraced,
}
use futures_buffered.OrderedBounded.{FuturesOrderedBounded, OrderedOutcome, after_output, poll_loop}
use futures_buffered.OrderedBounded.InOrder.{InOrder}
use futures_buffered.OrderedBounded.Output.{Delivered, deliver_polled, polled-InOrder}

nil_of_length : {A : Type 0} (xs : List A) → length xs ≡ 0 → xs ≡ []
nil_of_length [] e = refl
nil_of_length (x ∷ xs) e = absurd (omega arith)

module _ ⦃aw : AtomicWaker⦄ {T O G : Type 0} (bh : BinaryHeap (OrderWrapper O) cmp)
    (P : G → T → Type 0) (R : G → O → Type 0) (cx : ℕ) (poll_fn : PollFn T O)
    (settles : (f : T) (w : Waker) → Settles w (poll_fn f w).result (poll_fn f w).events)
    (preserves : (g : G) (f : T) (w : Waker) → P g f → P g (poll_fn f w).fut)
    (gives : (g : G) (f : T) (w : Waker) (x : O)
      → P g f
      → (poll_fn f w).result ≡ ready x
      → R g x) where
  open aw use {Cell}

  abbrev Queue : Type 0
  Queue = FuturesOrderedBounded Cell bh.Heap T

  abbrev Told : List G → OrderedOutcome Cell bh.Heap T O → Type 0
  Told = Delivered bh P R cx poll_fn settles preserves gives

  abbrev Inner : Queue → Log → List ℕ → Outcome Cell (OrderWrapper T) (OrderWrapper O) → Type 0
  Inner q log free =
      PolledInner cx (poll_wrapped poll_fn) (wrapped-Settles poll_fn settles) q.in_progress_queue
        log free

  abbrev Changed : Queue → Log → Outcome Cell (OrderWrapper T) (OrderWrapper O) → Type 0
  Changed q log = HeldAfter cx poll_fn (wrapped-Settles poll_fn settles) q.in_progress_queue log

  -- The loop ends, within `left` rounds, in such an outcome, where no output of the first index waits.
  abbrev Ends : ℕ → Type 0
  Ends left =
      (q : Queue) (gs : List G) (log : Log) (front : Front) (xs free : List ℕ)
      → InOrder bh P R q gs front xs free
      → waits (bh.into_vec q.queued_outputs) q.next_outgoing_index ≡ 0
      → len q.in_progress_queue < left
      → q.in_progress_queue.shared.strong + left * max_polls ≤ isize_max
      → (out : OrderedOutcome Cell bh.Heap T O) × (poll_loop bh left cx poll_fn q log ≡ some out)
        × Told gs out

  some_label :
      (q : Queue) (gs : List G) (front : Front) (xs free : List ℕ)
      → InOrder bh P R q gs front xs free
      → 0 < len q.in_progress_queue
      → 0 < length gs
  some_label q gs front xs free v more =
      let (j, t, stored) =
        get_of_value q.in_progress_queue.tasks free v.valid.slots (unfold len in more) in
      let window =
        in_window_of_held (held q.in_progress_queue.tasks) (bh.into_vec q.queued_outputs)
          q.next_outgoing_index (length gs) t.index v.balance
          (omega (arith, held_pos q.in_progress_queue.tasks j stored)) in
      omega (arith, window.1)

  after_output_lem :
      (left : ℕ) (q : Queue) (gs : List G) (log : Log) (front : Front) (xs free : List ℕ)
      (inner : Outcome Cell (OrderWrapper T) (OrderWrapper O))
      → Ends left
      → InOrder bh P R q gs front xs free
      → waits (bh.into_vec q.queued_outputs) q.next_outgoing_index ≡ 0
      → len q.in_progress_queue < suc left
      → q.in_progress_queue.shared.strong + suc left * max_polls ≤ isize_max
      → Inner q log free inner
      → inner.0.shared.strong ≤ q.in_progress_queue.shared.strong + max_polls
      → Changed q log inner
      → LabelTraced P R poll_fn preserves gives gs q.next_outgoing_index inner
      → (out : OrderedOutcome Cell bh.Heap T O) × (after_output bh
            (poll_loop bh left cx poll_fn)
            q
            (output_only inner)
          ≡ some out)
        × Told gs out
  unfolding after_output output_only
  after_output_lem left q gs log front xs free (queue, log', pending) ends v w h b p s c t = (
    (record q { in_progress_queue = queue }, log', pending),
    refl,
    (
      some_label q gs front xs free v p.0,
      p.3,
      p.4,
      free,
      polled-InOrder bh P R cx poll_fn settles preserves gives q gs queue q.queued_outputs front p.3
          xs free p.4 free v p.5 (λ i. omega (arith, c i, v.balance i)) t.0 v.waiting,
      p.6,
    ),
  )
  after_output_lem left q gs log front xs free (queue, log', ready none) ends v w h b p s c t =
      let gone : length gs ≡ 0 =
        nothing_left (held q.in_progress_queue.tasks) (bh.into_vec q.queued_outputs)
          q.next_outgoing_index (length gs) v.balance v.small (c q.next_outgoing_index) w in
      let none_left = nil_of_length gs gone in
      (
        (record q { in_progress_queue = queue }, log', ready none),
        refl,
        (none_left, front, xs, free, rw p.1 v),
      )
  after_output_lem left q gs log front xs free (queue, log', ready (some (j, o))) ends v w h b p s c
        t =
      elim (Bool-cases (o.index == q.next_outgoing_index)) [
        | inl next ↦ (
          (
            record q {
              in_progress_queue = queue;
              next_outgoing_index = add_usize q.next_outgoing_index 1;
            },
            log',
            ready (some o.payload),
          ),
          rw next refl,
          deliver_polled bh P R cx poll_fn settles preserves gives q gs queue log' o front p.5 xs
              free p.6 (j ∷ free) v p.7 c t.0 t.1 (ground arith),
        )
        | inr later ↦
            let es = bh.heap_push q.queued_outputs o in
            let grown = bh.into_vec-heap_push q.queued_outputs o in
            let waiting =
              All-perm (WaitsAt P R gs q.next_outgoing_index) (Permᴰ.symm grown) (t.1, v.waiting) in
            let still : waits (bh.into_vec es) q.next_outgoing_index ≡ 0 =
              ground (arith, weigh-perm (weight q.next_outgoing_index) grown, w) in
            let (out, runs, told) =
              ends (record q { in_progress_queue = queue; queued_outputs = es }) gs log' p.5 p.6
                (j ∷ free)
                (polled-InOrder bh P R cx poll_fn settles preserves gives q gs queue es front p.5 xs
                  free p.6 (j ∷ free) v p.7
                  (balance-move (held q.in_progress_queue.tasks) (held queue.tasks)
                    (bh.into_vec q.queued_outputs) (bh.into_vec es) o q.next_outgoing_index
                    (length gs) v.balance c grown)
                  t.0 waiting)
                still (omega (arith, p.3)) (omega arith) in
            (out, rw later runs, told)
      ]

  pub poll_loop_lem : (left : ℕ) → Ends left
  unfolding poll_loop UnorderedBounded.poll_next
  poll_loop_lem zero q gs log front xs free v w h b = absurd (omega arith)
  poll_loop_lem (suc left) q gs log front xs free v w h b =
      let settled = wrapped-Settles poll_fn settles in
      let (inner, runs, polled, s) =
        poll_inner_lem cx (poll_wrapped poll_fn) settled q.in_progress_queue log free front xs
          v.valid (omega arith) in
      let changed =
        held_after cx poll_fn settled q.in_progress_queue log front xs free inner v.valid polled
          (index_traced cx poll_fn settled q.in_progress_queue log runs) in
      let traced =
        poll_inner-Traced (RunsAt P R gs q.next_outgoing_index)
          (λ j o. WaitsAt P R gs q.next_outgoing_index o) (poll_wrapped poll_fn)
          (label_preserved P R poll_fn preserves gives gs q.next_outgoing_index)
          (label_given P R poll_fn preserves gives gs q.next_outgoing_index) cx q.in_progress_queue
          log v.running runs in
      let (out, done, told) =
        after_output_lem left q gs log front xs free inner (poll_loop_lem left) v w h b polled s
          changed traced in
      (out, rw (runs, done), told)
