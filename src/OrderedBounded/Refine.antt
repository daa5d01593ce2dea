-- ===== src/OrderedBounded/Refine.antt =====
-- A poll of a `FuturesOrderedBounded` refines taking the first label of a queue of labels.
use futures_buffered.Base.{
  inl, inr, Bool-cases, Option-cases, ◌==◌, ℕ, suc, ◌+◌, ◌*◌, ◌≤◌, ◌<◌, ◌≡◌, refl, some, List,
  length, arith, add_usize,
}
use futures_buffered.Task.{ready, AtomicWaker, Log}
use futures_buffered.ArcSlice.{Waker, isize_max}
use futures_buffered.ArcSlice.Fifo.{Front}
use futures_buffered.UnorderedBounded.{PollFn, len, max_polls}
use futures_buffered.UnorderedBounded.Step.{Settles}
use futures_buffered.OrderWrapper.{OrderWrapper, BinaryHeap, cmp, msb}
use futures_buffered.OrderWrapper.Held.{held}
use futures_buffered.OrderWrapper.Balance.{waits, peek-first, peek-nothing}
use futures_buffered.OrderedBounded.{
  FuturesOrderedBounded, OrderedOutcome, housekeep, after_peek, poll_loop, poll_next,
}
use futures_buffered.OrderedBounded.InOrder.{InOrder}
use futures_buffered.OrderedBounded.Output.{Delivered, deliver_waiting}
use futures_buffered.OrderedBounded.Loop.{poll_loop_lem}
use futures_buffered.OrderedBounded.Housekeeping.{housekeep-InOrder}

module _ ⦃aw : AtomicWaker⦄ {T O G : Type 0} (bh : BinaryHeap (OrderWrapper O) cmp)
    (P : G → T → Type 0) (R : G → O → Type 0) (cx : ℕ) (poll_fn : PollFn T O)
    (settles : (f : T) (w : Waker) → Settles w (poll_fn f w).result (poll_fn f w).events)
    (preserves : (g : G) (f : T) (w : Waker) → P g f → P g (poll_fn f w).fut)
    (gives : (g : G) (f : T) (w : Waker) (x : O)
      → P g f
      → (poll_fn f w).result ≡ ready x
      → R g x) where
  open aw use {Cell}

  abbrev Told : List G → OrderedOutcome Cell bh.Heap T O → Type 0
  Told = Delivered bh P R cx poll_fn settles preserves gives

  -- After housekeeping the head of the heap is the output of the first index, if that waits.
  after_peek_lem :
      (q : FuturesOrderedBounded Cell bh.Heap T) (gs : List G) (log : Log) (front : Front)
      (xs free : List ℕ)
      → InOrder bh P R q gs front xs free
      → q.next_outgoing_index < msb
      → q.in_progress_queue.shared.strong + suc (len q.in_progress_queue) * max_polls ≤ isize_max
      → (out : OrderedOutcome Cell bh.Heap T O) × (after_peek bh q log
            (bh.peek q.queued_outputs)
            (poll_loop bh (suc (len q.in_progress_queue)) cx poll_fn q log)
          ≡ some out)
        × Told gs out
  unfolding after_peek
  after_peek_lem q gs log front xs free v low b =
      let k = q.next_outgoing_index in
      let looped = λ (w : waits (bh.into_vec q.queued_outputs) k ≡ 0).
        poll_loop_lem bh P R cx poll_fn settles preserves gives (suc (len q.in_progress_queue)) q gs
          log front xs free v w (omega arith) b in
      elim (Option-cases (bh.peek q.queued_outputs)) [
        | inl nothing ↦ rw nothing (looped (peek-nothing bh q.queued_outputs k nothing))
        | inr (e, top) ↦ elim (Bool-cases (e.index == k)) [
          | inl next ↦ (
            (
              record q {
                queued_outputs = bh.pop_peeked q.queued_outputs;
                next_outgoing_index = add_usize k 1;
              },
              log,
              ready (some e.payload),
            ),
            rw (top, next) refl,
            deliver_waiting bh P R cx poll_fn settles preserves gives q gs log front xs free e v top
                (ground arith),
          )
          | inr later ↦
              rw (top, later)
                (looped (
                  peek-first bh q.queued_outputs e (held q.in_progress_queue.tasks) k (length gs)
                    v.balance low v.few top later))
        ]
      ]

  -- Let the futures settle and keep their labels: polling preserves `P`, and an output satisfies
  -- `R` with the label. Then `poll_next` of a valid queue that holds the labels `gs` returns,
  -- within its rounds, in one of three ways. It gives an output that satisfies `R` with the first
  -- label, and the other labels are left in their order. Or it gives the end of the stream, and
  -- there is no label. Or it is pending, with the labels unchanged and at least one; then no slot
  -- is queued or the task has been woken. This holds of every order in which the futures become
  -- ready and across the wrap of the indices, while at most 2^63 labels are held and the reference
  -- count stays below its limit.
  pub poll_ordered_lem :
      (q : FuturesOrderedBounded Cell bh.Heap T) (gs : List G) (log : Log) (front : Front)
      (xs free : List ℕ)
      → InOrder bh P R q gs front xs free
      → q.in_progress_queue.shared.strong + suc (len q.in_progress_queue) * max_polls ≤ isize_max
      → (out : OrderedOutcome Cell bh.Heap T O) × (poll_next bh cx poll_fn q log ≡ some out)
        × Delivered bh P R cx poll_fn settles preserves gives gs out
  unfolding poll_next
  poll_ordered_lem q gs log front xs free v b =
      let (kept, low, same_len, same_shared) = housekeep-InOrder bh P R q gs front xs free v in
      after_peek_lem (housekeep bh q) gs log front xs free kept low (rw (same_len, same_shared) b)
