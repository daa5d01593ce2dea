-- ===== src/Ordered.antt =====
-- src/futures_ordered.rs: `FuturesOrdered`, which is `FuturesOrderedBounded` over a `FuturesUnordered`.
-- `none` is a panic or undefined behaviour.
pub mod Push
mod Tests
use futures_buffered.OrderWrapper.{
  OrderWrapper, BinaryHeap, cmp, msb, flip_msb, flip_entry, poll_wrapped, wrap_from, index_after,
}
use futures_buffered.Base.{
  if◌then◌else◌, leb, ◌==◌, ℕ, zero, suc, Option, none, some, List, [], ◌∷◌, map, ◌>>=◌, Bool, ◌&&◌,
  add_usize, sub_usize,
}
use futures_buffered.Task.{Poll, ready, pending, AtomicWaker, Log}
use futures_buffered.SlotMap
use futures_buffered.UnorderedBounded.{FuturesUnorderedBounded, PollFn}
use futures_buffered.Unordered
use futures_buffered.Unordered.{FuturesUnordered}

pub record FuturesOrdered (W H T : Type 0) : Type 0 where
  pub in_progress_queue : FuturesUnordered W (OrderWrapper T)
  pub queued_outputs : H
  pub next_incoming_index : ℕ
  pub next_outgoing_index : ℕ

-- A `for` loop over the tasks of a group that flips the indices.
unfoldable pub flip_group :
    {W T : Type 0}
    → FuturesUnorderedBounded W (OrderWrapper T)
    → FuturesUnorderedBounded W (OrderWrapper T)
flip_group group = record group { tasks = SlotMap.for_each_mut flip_entry group.tasks }

module _ {W H T : Type 0} where
  unfoldable pub push_back : W → FuturesOrdered W H T → T → Option (FuturesOrdered W H T)
  push_back cell q future = do
    queue ←
        Unordered.push cell q.in_progress_queue
          (record { payload = future; index = q.next_incoming_index })
    some (record q {
      in_progress_queue = queue;
      next_incoming_index = add_usize q.next_incoming_index 1;
    })

  unfoldable pub push_front : W → FuturesOrdered W H T → T → Option (FuturesOrdered W H T)
  push_front cell q future = do
    queue ←
        Unordered.push cell q.in_progress_queue
          (record { payload = future; index = sub_usize q.next_outgoing_index 1 })
    some (record q {
      in_progress_queue = queue;
      next_outgoing_index = sub_usize q.next_outgoing_index 1;
    })

  unfoldable pub extend : W → FuturesOrdered W H T → List T → Option (FuturesOrdered W H T)
  extend cell q [] = some q
  extend cell q (item ∷ iter) = do pushed ← push_back cell q item; extend cell pushed iter

-- The set, the task wakers called so far, and what a poll returns.
abbrev pub OrderedOutcome : Type 0 → Type 0 → Type 0 → Type 0 → Type 0
OrderedOutcome W H T O = FuturesOrdered W H T × Log × Poll (Option O)

module _ {W T O : Type 0} (bh : BinaryHeap (OrderWrapper O) cmp) where
  unfoldable pub new : FuturesOrdered W bh.Heap T
  new = record {
    in_progress_queue = Unordered.new;
    queued_outputs = bh.with_capacity 0;
    next_incoming_index = 0;
    next_outgoing_index = 0;
  }

  -- `capacity - 1` panics at 0, where overflow is checked.
  unfoldable pub with_capacity : W → ℕ → Option (FuturesOrdered W bh.Heap T)
  with_capacity cell zero = none
  with_capacity cell (suc n) = some (record {
    in_progress_queue = Unordered.with_capacity cell (suc n);
    queued_outputs = bh.with_capacity n;
    next_incoming_index = 0;
    next_outgoing_index = 0;
  })

  -- `hint` is the lower bound that the iterator's `size_hint` gives.
  unfoldable pub from_iter : W → ℕ → List T → Option (FuturesOrdered W bh.Heap T)
  from_iter cell hint iter = do
    queue ← Unordered.from_iter cell hint (wrap_from 0 iter)
    some (record {
      in_progress_queue = queue;
      queued_outputs = bh.with_capacity 0;
      next_incoming_index = index_after 0 iter;
      next_outgoing_index = 0;
    })

  unfoldable pub len : FuturesOrdered W bh.Heap T → ℕ
  len q = add_usize (Unordered.len q.in_progress_queue) (bh.heap_len q.queued_outputs)

  unfoldable pub is_empty : FuturesOrdered W bh.Heap T → Bool
  is_empty q = Unordered.is_empty q.in_progress_queue && (bh.heap_len q.queued_outputs == 0)

  unfoldable pub size_hint : FuturesOrdered W bh.Heap T → ℕ × Option ℕ
  size_hint q = (len q, some (len q))

  unfoldable pub is_terminated : FuturesOrdered W bh.Heap T → Bool
  is_terminated q =
      Unordered.is_terminated q.in_progress_queue && (bh.heap_len q.queued_outputs == 0)

  -- The first part of `poll_next`: the indices are brought below `MSB` again.
  unfoldable pub housekeep : FuturesOrdered W bh.Heap T → FuturesOrdered W bh.Heap T
  housekeep q =
      if leb msb q.next_outgoing_index
      then record {
        in_progress_queue = record q.in_progress_queue {
          groups = map flip_group q.in_progress_queue.groups;
        };
        queued_outputs = bh.from_vec (map flip_entry (bh.into_vec q.queued_outputs));
        next_incoming_index = flip_msb q.next_incoming_index;
        next_outgoing_index = flip_msb q.next_outgoing_index;
      }
      else q

  -- The loop, once the queue has been polled.
  unfoldable pub after_output :
      (FuturesOrdered W bh.Heap T → Log → Option (OrderedOutcome W bh.Heap T O))
      → FuturesOrdered W bh.Heap T
      → FuturesUnordered W (OrderWrapper T) × Log × Poll (Option (OrderWrapper O))
      → Option (OrderedOutcome W bh.Heap T O)
  after_output rest q (queue, log, ready (some output)) =
      if output.index == q.next_outgoing_index
      then some (
        record q {
          in_progress_queue = queue;
          next_outgoing_index = add_usize q.next_outgoing_index 1;
        },
        log,
        ready (some output.payload),
      )
      else rest
          (record q {
            in_progress_queue = queue;
            queued_outputs = bh.heap_push q.queued_outputs output;
          })
          log
  after_output rest q (queue, log, ready none) =
      some (record q { in_progress_queue = queue }, log, ready none)
  after_output rest q (queue, log, pending) =
      some (record q { in_progress_queue = queue }, log, pending)

  -- The output that waits at the head of the heap is returned if it is next; otherwise `polling`.
  unfoldable pub after_peek :
      FuturesOrdered W bh.Heap T
      → Log
      → Option (OrderWrapper O)
      → Option (OrderedOutcome W bh.Heap T O)
      → Option (OrderedOutcome W bh.Heap T O)
  after_peek q log none polling = polling
  after_peek q log (some next_output) polling =
      if next_output.index == q.next_outgoing_index
      then some (
        record q {
          queued_outputs = bh.pop_peeked q.queued_outputs;
          next_outgoing_index = add_usize q.next_outgoing_index 1;
        },
        log,
        ready (some next_output.payload),
      )
      else polling

module _ ⦃aw : AtomicWaker⦄ {T O : Type 0} (bh : BinaryHeap (OrderWrapper O) cmp) where
  open aw use {Cell}

  -- The loop, with the number of rounds left.
  unfoldable pub poll_loop :
      ℕ
      → ℕ
      → PollFn T O
      → FuturesOrdered Cell bh.Heap T
      → Log
      → Option (OrderedOutcome Cell bh.Heap T O)
  poll_loop zero cx poll_fn q log = none
  poll_loop (suc left) cx poll_fn q log = do
    polled ← Unordered.poll_next cx (poll_wrapped poll_fn) q.in_progress_queue log
    after_output bh (poll_loop left cx poll_fn) q polled

  -- Each round but the last takes a future from the queue.
  unfoldable pub poll_next :
      ℕ
      → PollFn T O
      → FuturesOrdered Cell bh.Heap T
      → Log
      → Option (OrderedOutcome Cell bh.Heap T O)
  poll_next cx poll_fn q log =
      let kept = housekeep bh q in
      after_peek bh kept log (bh.peek kept.queued_outputs)
        (poll_loop (suc (Unordered.len kept.in_progress_queue)) cx poll_fn kept log)
