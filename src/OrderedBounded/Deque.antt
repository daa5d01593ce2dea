-- ===== src/OrderedBounded/Deque.antt =====
-- The pushes of a `FuturesOrderedBounded` put a label at an end of the queue of labels.
use futures_buffered.Base.{
  length-snoc, ◌+◌, usize_mod, ℕ, suc, ◌<◌, ◌≡◌, some, List, [], ◌∷◌, ◌++◌, length, arith,
  add_usize, sub_usize,
}
use futures_buffered.ArcSlice.Fifo.{Front}
use futures_buffered.ArcSlice.Push.{front_pushed}
use futures_buffered.SlotMap
use futures_buffered.SlotMap.{Result, ok, err}
use futures_buffered.UnorderedBounded
use futures_buffered.UnorderedBounded.{capacity}
use futures_buffered.OrderWrapper.{OrderWrapper, BinaryHeap, cmp, msb}
use futures_buffered.OrderWrapper.Held.{held, held_pos}
use futures_buffered.OrderWrapper.Balance.{
  balance-push_front, waits, in_window_of_held, balance-push_back,
}
use futures_buffered.OrderWrapper.Labels.{RunsAt, WaitsAt}
use futures_buffered.OrderWrapper.Places.{AtPlace-cons, AtPlace-first, AtPlace-snoc, AtPlace-last}
use futures_buffered.OrderedBounded.{try_push_front, try_push_back, FuturesOrderedBounded}
use futures_buffered.UnorderedBounded.Push.{count_of_Inserted}
use futures_buffered.OrderedBounded.InOrder.{InOrder}
use futures_buffered.OrderedBounded.Push.{
  try_push_front_lem, try_push_back_lem, PushedFront, PushedBack,
}
use futures_buffered.OrderedBounded.Stored.{held-insert, Keeps-insert, All-waiting}

module _ {W T O G : Type 0} (bh : BinaryHeap (OrderWrapper O) cmp) (P : G → T → Type 0)
    (R : G → O → Type 0) (q : FuturesOrderedBounded W bh.Heap T) (gs : List G) (g : G) (future : T)
    (front : Front) (xs : List ℕ) where
  -- A future that runs has an index near the first.
  near_running :
      (free : List ℕ)
      → InOrder bh P R q gs front xs free
      → (j : ℕ) (t : OrderWrapper T) → SlotMap.get q.in_progress_queue.tasks j ≡ some t
      → sub_usize t.index q.next_outgoing_index < length gs
  near_running free v j t e =
      (in_window_of_held (held q.in_progress_queue.tasks) (bh.into_vec q.queued_outputs)
        q.next_outgoing_index (length gs) t.index v.balance
        (omega (arith, held_pos q.in_progress_queue.tasks j e))).1

  near_waiting :
      (free : List ℕ)
      → InOrder bh P R q gs front xs free
      → (o : OrderWrapper O) → 0 < waits (bh.into_vec q.queued_outputs) o.index
      → sub_usize o.index q.next_outgoing_index < length gs
  near_waiting free v o w =
      (in_window_of_held (held q.in_progress_queue.tasks) (bh.into_vec q.queued_outputs)
        q.next_outgoing_index (length gs) o.index v.balance (omega (arith, w))).1

  -- The queue after a push, with the labels `hs` and one future more. A push that fails gives the
  -- future back.
  abbrev pub Labelled : List G → FuturesOrderedBounded W bh.Heap T × Result (Unit {0}) T → Type 0
  Labelled hs (q', ok u) =
      (key : ℕ) × (free : List ℕ) × InOrder bh P R q' hs (front_pushed front) (xs ++ key ∷ []) free
      × (UnorderedBounded.len q'.in_progress_queue ≡ UnorderedBounded.len q.in_progress_queue + 1)
      × (capacity q'.in_progress_queue ≡ capacity q.in_progress_queue)
      × (q'.in_progress_queue.shared.strong ≡ q.in_progress_queue.shared.strong)
  Labelled hs (q', err f) =
      (UnorderedBounded.len q.in_progress_queue ≡ capacity q.in_progress_queue)
      × (q' ≡ q)
      × (f ≡ future)

  back-Labelled :
      (free : List ℕ) (out : FuturesOrderedBounded W bh.Heap T × Result (Unit {0}) T)
      → InOrder bh P R q gs front xs free
      → length gs < msb
      → P g future
      → PushedBack q future front xs out
      → Labelled (gs ++ g ∷ []) out
  back-Labelled free (q', err f) v room p (full, eq, ef) = (full, eq, ef)
  back-Labelled free (q', ok u) v room p ((key, free', valid, ins, same), inc, out, heap) =
      let k = q.next_outgoing_index in
      let m = q.in_progress_queue.tasks in
      let last = add_usize k (length gs) in
      let size = length-snoc gs g in
      let stored : OrderWrapper T = record { payload = future; index = q.next_incoming_index } in
      let counted = count_of_Inserted q.in_progress_queue q'.in_progress_queue stored key ins in
      (
        key,
        free',
        record {
          valid = valid;
          small = rw out v.small;
          few = omega (arith, size);
          incoming = rw (inc, out, size, v.incoming) (ground (arith, v.small));
          balance =
              rw (out, heap, size)
                (balance-push_back (held m) (held q'.in_progress_queue.tasks)
                  (bh.into_vec q.queued_outputs) k (length gs) v.balance
                  (rw v.incoming at (held-insert m q'.in_progress_queue.tasks stored key ins))
                  v.small (omega arith));
          running = rw out (
              Keeps-insert m q'.in_progress_queue.tasks stored key ins (RunsAt P R (gs ++ g ∷ []) k)
                (rw v.incoming (AtPlace-last P g gs k future v.small (omega arith) p))
                (λ j t e.
                  AtPlace-snoc P g gs k t.index t.payload (near_running free v j t e)
                    (v.running j t e)));
          waiting =
              rw (out, heap)
                (All-waiting (WaitsAt P R gs k) (WaitsAt P R (gs ++ g ∷ []) k)
                  (bh.into_vec q.queued_outputs)
                  (λ o w a. AtPlace-snoc R g gs k o.index o.payload (near_waiting free v o w) a)
                  v.waiting);
        },
        counted.0,
        counted.1,
        same,
      )

  front-Labelled :
      (free : List ℕ) (out : FuturesOrderedBounded W bh.Heap T × Result (Unit {0}) T)
      → InOrder bh P R q gs front xs free
      → length gs < msb
      → P g future
      → PushedFront q future front xs out
      → Labelled (g ∷ gs) out
  front-Labelled free (q', err f) v room p (full, eq, ef) = (full, eq, ef)
  front-Labelled free (q', ok u) v room p ((key, free', valid, ins, same), out, inc, heap) =
      let k = q.next_outgoing_index in
      let m = q.in_progress_queue.tasks in
      let before = sub_usize k 1 in
      let stored : OrderWrapper T = record { payload = future; index = before } in
      let counted = count_of_Inserted q.in_progress_queue q'.in_progress_queue stored key ins in
      let few : suc (length gs) < usize_mod = omega arith in
      let small : before < usize_mod = ground (arith, v.small) in
      (
        key,
        free',
        record {
          valid = valid;
          small = rw out small;
          few = omega arith;
          incoming = rw (inc, out, v.incoming) (count_down k (length gs) v.small);
          balance =
              rw (out, heap)
                (balance-push_front (held m) (held q'.in_progress_queue.tasks)
                  (bh.into_vec q.queued_outputs) k (length gs) v.balance
                  (held-insert m q'.in_progress_queue.tasks stored key ins) v.small few);
          running = rw out (
              Keeps-insert m q'.in_progress_queue.tasks stored key ins (RunsAt P R (g ∷ gs) before)
                (AtPlace-first P g gs before future small p)
                (λ j t e.
                  AtPlace-cons P g gs k t.index t.payload v.small few (near_running free v j t e)
                    (v.running j t e)));
          waiting =
              rw (out, heap)
                (All-waiting (WaitsAt P R gs k) (WaitsAt P R (g ∷ gs) before)
                  (bh.into_vec q.queued_outputs)
                  (λ o w a.
                    AtPlace-cons R g gs k o.index o.payload v.small few (near_waiting free v o w) a)
                  v.waiting);
        },
        counted.0,
        counted.1,
        same,
      )
    where
      count_down : (k n : ℕ) → k < usize_mod → add_usize k n ≡ add_usize (sub_usize k 1) (suc n)
      count_down k n h = ground arith

  -- `try_push_back` of a future of the label `g`, on a queue that holds the labels `gs`, less than
  -- 2^63 of them, never faults. It fails exactly when every slot holds a future, changing nothing and
  -- giving the future back. Otherwise the queue holds the labels `gs` and then `g`.
  pub try_push_back-InOrder :
      (free : List ℕ)
      → InOrder bh P R q gs front xs free
      → length gs < msb
      → P g future
      → (out : FuturesOrderedBounded W bh.Heap T × Result (Unit {0}) T) × (try_push_back q future
          ≡ some out)
        × Labelled (gs ++ g ∷ []) out
  try_push_back-InOrder free v room p =
      let (out, runs, pushed) = try_push_back_lem q future front xs free v.valid in
      (out, runs, back-Labelled free out v room p pushed)

  -- `try_push_front` of a future of the label `g`, on a queue that holds the labels `gs`, less than
  -- 2^63 of them, never faults. It fails exactly when every slot holds a future, changing nothing and
  -- giving the future back. Otherwise the queue holds the label `g` and then `gs`.
  pub try_push_front-InOrder :
      (free : List ℕ)
      → InOrder bh P R q gs front xs free
      → length gs < msb
      → P g future
      → (out : FuturesOrderedBounded W bh.Heap T × Result (Unit {0}) T) × (try_push_front q future
          ≡ some out)
        × Labelled (g ∷ gs) out
  try_push_front-InOrder free v room p =
      let (out, runs, pushed) = try_push_front_lem q future front xs free v.valid in
      (out, runs, front-Labelled free out v room p pushed)
