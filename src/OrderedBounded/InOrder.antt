-- ===== src/OrderedBounded/InOrder.antt =====
-- A `FuturesOrderedBounded` as a double-ended queue of labels.
use futures_buffered.Base.{ℕ, ◌≤◌, ◌<◌, ◌≡◌, List, length, All, add_usize, usize_mod}
use futures_buffered.ArcSlice.Fifo.{Front}
use futures_buffered.UnorderedBounded.Valid.{IsValid}
use futures_buffered.UnorderedBounded.Trace.{Keeps}
use futures_buffered.OrderWrapper.{OrderWrapper, BinaryHeap, cmp, msb}
use futures_buffered.OrderWrapper.Held.{held}
use futures_buffered.OrderWrapper.Balance.{Balanced}
use futures_buffered.OrderWrapper.Places.{AtPlace}
use futures_buffered.OrderedBounded.{FuturesOrderedBounded}

module _ {W T O G : Type 0} (bh : BinaryHeap (OrderWrapper O) cmp) (P : G → T → Type 0)
    (R : G → O → Type 0) where
  -- The indices from the next outgoing one up to the next incoming one are held once each, by a future
  -- or by an output that waits. The labels `gs` belong to these indices, in their order: each future
  -- satisfies `P` and each output `R` with the label of its index.
  pub record InOrder (q : FuturesOrderedBounded W bh.Heap T) (gs : List G) (front : Front)
      (xs free : List ℕ) : Type 0 where
    pub valid : IsValid q.in_progress_queue front xs free
    pub small : q.next_outgoing_index < usize_mod
    pub few : length gs ≤ msb
    pub incoming : q.next_incoming_index ≡ add_usize q.next_outgoing_index (length gs)
    pub balance :
        Balanced
          (held q.in_progress_queue.tasks)
          (bh.into_vec q.queued_outputs)
          q.next_outgoing_index
          (length gs)
    pub running :
        Keeps
          (λ j (t : OrderWrapper T). AtPlace P gs q.next_outgoing_index t.index t.payload)
          q.in_progress_queue.tasks
    pub waiting :
        All
          (λ (o : OrderWrapper O). AtPlace R gs q.next_outgoing_index o.index o.payload)
          (bh.into_vec q.queued_outputs)
