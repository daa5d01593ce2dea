-- ===== src/OrderedBounded.antt =====
-- src/futures_ordered_bounded.rs: `FuturesOrderedBounded`, which gives the outputs of its futures in
-- the order of their indices. `none` is a panic or undefined behaviour.
pub mod Index
pub mod InOrder
pub mod Output
pub mod Loop
pub mod Housekeeping
pub mod Refine
pub mod Stored
pub mod Deque
pub mod Start
pub mod Emitted
pub mod Sample
pub mod Push
mod Tests
use Prim.Native.Nat.{compare, Ordering}
use futures_buffered.Base.{
  if◌then◌else◌, ltb, leb, ◌==◌, ℕ, zero, suc, ◌+◌, ◌-◌, ◌^◌, Option, none, some, List, [], ◌∷◌,
  map, ◌>>=◌, Bool, ◌&&◌, true, false, add_usize, sub_usize,
}
use futures_buffered.Task.{Poll, ready, pending, AtomicWaker, Log}
use futures_buffered.SlotMap
use futures_buffered.SlotMap.{Result, ok, err}
use futures_buffered.ArcSlice.{Waker}
use futures_buffered.UnorderedBounded
use futures_buffered.UnorderedBounded.{FuturesUnorderedBounded, Polled, PollFn, try_push_with}
use futures_buffered.OrderWrapper.{
  OrderWrapper, cmp, msb, flip_msb, flip_entry, BinaryHeap, poll_wrapped, wrap_from, index_after,
}

pub record FuturesOrderedBounded (W H T : Type 0) : Type 0 where
  pub in_progress_queue : FuturesUnorderedBounded W (OrderWrapper T)
  pub queued_outputs : H
  pub next_incoming_index : ℕ
  pub next_outgoing_index : ℕ

module _ {W H T : Type 0} where
  -- What a push to the queue makes of the whole, where the closure has counted an index.
  unfoldable pub pushed_back :
      FuturesOrderedBounded W H T
      → FuturesUnorderedBounded W (OrderWrapper T) × ℕ × Result (Unit {0}) T
      → FuturesOrderedBounded W H T × Result (Unit {0}) T
  pushed_back q (queue, index, result) =
      (record q { in_progress_queue = queue; next_incoming_index = index }, result)

  unfoldable pub try_push_back :
      FuturesOrderedBounded W H T → T → Option (FuturesOrderedBounded W H T × Result (Unit {0}) T)
  try_push_back q future = do
    pushed ←
        try_push_with q.in_progress_queue q.next_incoming_index future
          (λ index fut. (record { payload = fut; index = index }, add_usize index 1))
    some (pushed_back q pushed)

  unfoldable pub pushed_front :
      FuturesOrderedBounded W H T
      → FuturesUnorderedBounded W (OrderWrapper T) × ℕ × Result (Unit {0}) T
      → FuturesOrderedBounded W H T × Result (Unit {0}) T
  pushed_front q (queue, index, result) =
      (record q { in_progress_queue = queue; next_outgoing_index = index }, result)

  unfoldable pub try_push_front :
      FuturesOrderedBounded W H T → T → Option (FuturesOrderedBounded W H T × Result (Unit {0}) T)
  try_push_front q future = do
    pushed ←
        try_push_with q.in_progress_queue q.next_outgoing_index future
          (λ index fut. (record { payload = fut; index = sub_usize index 1 }, sub_usize index 1))
    some (pushed_front q pushed)

  -- `push_back` and `push_front`: a full set is a panic.
  unfoldable pub unless_full :
      FuturesOrderedBounded W H T × Result (Unit {0}) T → Option (FuturesOrderedBounded W H T)
  unless_full (q, ok _) = some q
  unless_full (q, err _) = none

  unfoldable pub push_back : FuturesOrderedBounded W H T → T → Option (FuturesOrderedBounded W H T)
  push_back q future = do pushed ← try_push_back q future; unless_full pushed

  unfoldable pub push_front : FuturesOrderedBounded W H T → T → Option (FuturesOrderedBounded W H T)
  push_front q future = do pushed ← try_push_front q future; unless_full pushed

  unfoldable pub extend :
      FuturesOrderedBounded W H T → List T → Option (FuturesOrderedBounded W H T)
  extend q [] = some q
  extend q (item ∷ iter) = do pushed ← push_back q item; extend pushed iter

-- The set, the task wakers called so far, and what a poll returns.
abbrev pub OrderedOutcome : Type 0 → Type 0 → Type 0 → Type 0 → Type 0
OrderedOutcome W H T O = FuturesOrderedBounded W H T × Log × Poll (Option O)

module _ {W T O : Type 0} (bh : BinaryHeap (OrderWrapper O) cmp) where
  -- `capacity - 1` panics at 0, where overflow is checked.
  unfoldable pub new : W → ℕ → Option (FuturesOrderedBounded W bh.Heap T)
  new cell zero = none
  new cell (suc n) = some (record {
    in_progress_queue = UnorderedBounded.new cell (suc n);
    queued_outputs = bh.with_capacity n;
    next_incoming_index = 0;
    next_outgoing_index = 0;
  })

  unfoldable pub from_iter : W → List T → Option (FuturesOrderedBounded W bh.Heap T)
  from_iter cell iter = do
    queue ← UnorderedBounded.from_iter cell (wrap_from 0 iter)
    some (record {
      in_progress_queue = queue;
      queued_outputs = bh.with_capacity 0;
      next_incoming_index = index_after 0 iter;
      next_outgoing_index = 0;
    })

  unfoldable pub len : FuturesOrderedBounded W bh.Heap T → ℕ
  len q = add_usize (UnorderedBounded.len q.in_progress_queue) (bh.heap_len q.queued_outputs)

  unfoldable pub is_empty : FuturesOrderedBounded W bh.Heap T → Bool
  is_empty q = UnorderedBounded.is_empty q.in_progress_queue && (bh.heap_len q.queued_outputs == 0)

  unfoldable pub size_hint : FuturesOrderedBounded W bh.Heap T → ℕ × Option ℕ
  size_hint q = (len q, some (len q))

  unfoldable pub is_terminated : FuturesOrderedBounded W bh.Heap T → Bool
  is_terminated q =
      UnorderedBounded.is_terminated q.in_progress_queue && (bh.heap_len q.queued_outputs == 0)

  -- The first part of `poll_next`: the indices are brought below `MSB` again.
  unfoldable pub housekeep : FuturesOrderedBounded W bh.Heap T → FuturesOrderedBounded W bh.Heap T
  housekeep q =
      if leb msb q.next_outgoing_index
      then record {
        in_progress_queue = record q.in_progress_queue {
          tasks = SlotMap.for_each_mut flip_entry q.in_progress_queue.tasks;
        };
        queued_outputs = bh.from_vec (map flip_entry (bh.into_vec q.queued_outputs));
        next_incoming_index = flip_msb q.next_incoming_index;
        next_outgoing_index = flip_msb q.next_outgoing_index;
      }
      else q

  -- The loop, once the queue has been polled.
  unfoldable pub after_output :
      (FuturesOrderedBounded W bh.Heap T → Log → Option (OrderedOutcome W bh.Heap T O))
      → FuturesOrderedBounded W bh.Heap T
      → FuturesUnorderedBounded W (OrderWrapper T) × Log × Poll (Option (OrderWrapper O))
      → Option (OrderedOutcome W bh.Heap T O)
  after_output rest q (queue, log, ready (some output)) =
      if output.index == q.next_outgoing_index
      then some (
        record q {
          in_progress_queue = queue;
          next_outgoing_index = add_usize q.next_outgoing_index 1;
        },
        log,
        ready (some output.payload),
      )
      else rest
          (record q {
            in_progress_queue = queue;
            queued_outputs = bh.heap_push q.queued_outputs output;
          })
          log
  after_output rest q (queue, log, ready none) =
      some (record q { in_progress_queue = queue }, log, ready none)
  after_output rest q (queue, log, pending) =
      some (record q { in_progress_queue = queue }, log, pending)

  -- The output that waits at the head of the heap is returned if it is next; otherwise `polling`.
  unfoldable pub after_peek :
      FuturesOrderedBounded W bh.Heap T
      → Log
      → Option (OrderWrapper O)
      → Option (OrderedOutcome W bh.Heap T O)
      → Option (OrderedOutcome W bh.Heap T O)
  after_peek q log none polling = polling
  after_peek q log (some next_output) polling =
      if next_output.index == q.next_outgoing_index
      then some (
        record q {
          queued_outputs = bh.pop_peeked q.queued_outputs;
          next_outgoing_index = add_usize q.next_outgoing_index 1;
        },
        log,
        ready (some next_output.payload),
      )
      else polling

module _ ⦃aw : AtomicWaker⦄ {T O : Type 0} (bh : BinaryHeap (OrderWrapper O) cmp) where
  open aw use {Cell}

  -- The loop, with the number of rounds left.
  unfoldable pub poll_loop :
      ℕ
      → ℕ
      → PollFn T O
      → FuturesOrderedBounded Cell bh.Heap T
      → Log
      → Option (OrderedOutcome Cell bh.Heap T O)
  poll_loop zero cx poll_fn q log = none
  poll_loop (suc left) cx poll_fn q log = do
    polled ← UnorderedBounded.poll_next cx (poll_wrapped poll_fn) q.in_progress_queue log
    after_output bh (poll_loop left cx poll_fn) q polled

  -- Each round but the last takes a future from the queue.
  unfoldable pub poll_next :
      ℕ
      → PollFn T O
      → FuturesOrderedBounded Cell bh.Heap T
      → Log
      → Option (OrderedOutcome Cell bh.Heap T O)
  poll_next cx poll_fn q log =
      let kept = housekeep bh q in
      after_peek bh kept log (bh.peek kept.queued_outputs)
        (poll_loop (suc (UnorderedBounded.len kept.in_progress_queue)) cx poll_fn kept log)
