-- ===== src/OrderedBounded/Output.antt =====
-- What a poll of a `FuturesOrderedBounded` returns, once the indices are below 2^63.
use futures_buffered.Base.{
  one_at, ◌+◌, ◌⊎◌, ℕ, suc, ◌<◌, ◌≡◌, refl, none, some, List, [], ◌∷◌, ◌++◌, length, arith, All,
  All-perm, add_usize, usize_mod,
}
use mathlib.Core.Path.{subst}
use futures_buffered.Task.{ready, pending, AtomicWaker, Log}
use futures_buffered.ArcSlice.{Waker}
use futures_buffered.ArcSlice.Fifo.{Front}
use futures_buffered.UnorderedBounded.{PollFn}
use futures_buffered.UnorderedBounded.Step.{Settles}
use futures_buffered.UnorderedBounded.Trace.{Keeps}
use futures_buffered.OrderWrapper.{OrderWrapper, BinaryHeap, cmp}
use futures_buffered.OrderWrapper.Held.{held}
use futures_buffered.OrderWrapper.Balance.{
  balance-take_held, Balanced, waits_pos, balance-take_waiting, in_window_of_held,
}
use futures_buffered.OrderWrapper.Places.{AtPlace, AtPlace-head}
use futures_buffered.OrderedBounded.{FuturesUnorderedBounded, FuturesOrderedBounded, OrderedOutcome}
use futures_buffered.UnorderedBounded.Valid.{IsValid}
use futures_buffered.OrderedBounded.InOrder.{InOrder}
use futures_buffered.OrderWrapper.Labels.{
  RunsAt, WaitsAt, tail_running, tail_waiting, next_incoming,
}

module _ ⦃aw : AtomicWaker⦄ {T O G : Type 0} (bh : BinaryHeap (OrderWrapper O) cmp)
    (P : G → T → Type 0) (R : G → O → Type 0) (cx : ℕ) (poll_fn : PollFn T O)
    (settles : (f : T) (w : Waker) → Settles w (poll_fn f w).result (poll_fn f w).events)
    (preserves : (g : G) (f : T) (w : Waker) → P g f → P g (poll_fn f w).fut)
    (gives : (g : G) (f : T) (w : Waker) (x : O)
      → P g f
      → (poll_fn f w).result ≡ ready x
      → R g x) where
  open aw use {Cell}

  abbrev pub Queue : Type 0
  Queue = FuturesOrderedBounded Cell bh.Heap T

  -- What a poll of a queue with the labels `gs` returns and leaves. An output: it satisfies `R` with
  -- the first label, and the others are left. The end: there is no label. Pending: there is one.
  abbrev pub Delivered : List G → OrderedOutcome Cell bh.Heap T O → Type 0
  Delivered gs (q, log, pending) =
      (0 < length gs)
      × (front : Front) × (queued : List ℕ) × (free : List ℕ) × InOrder bh P R q gs front queued
          free
      × ((queued ≡ []) ⊎ ((before : Log) × (log ≡ before ++ cx ∷ [])))
  Delivered gs (q, log, ready none) =
      (gs ≡ [])
      × (front : Front) × (queued : List ℕ) × (free : List ℕ) × InOrder bh P R q gs front queued
          free
  Delivered gs (q, log, ready (some x)) =
      (g : G) × (rest : List G) × (gs ≡ g ∷ rest)
      × R g x
      × (front : Front) × (queued : List ℕ) × (free : List ℕ) × InOrder bh P R q rest front queued
          free

  -- The output that waits in the heap is the next one.
  pub deliver_waiting :
      (q : Queue) (gs : List G) (log : Log) (front : Front) (xs free : List ℕ) (e : OrderWrapper O)
      → InOrder bh P R q gs front xs free
      → bh.peek q.queued_outputs ≡ some e
      → e.index ≡ q.next_outgoing_index
      → Delivered gs (
        record q {
          queued_outputs = bh.pop_peeked q.queued_outputs;
          next_outgoing_index = add_usize q.next_outgoing_index 1;
        },
        log,
        ready (some e.payload),
      )
  deliver_waiting q [] log front xs free e v top here =
      let taken = (bh.peek_some q.queued_outputs e top).0 in
      let window =
        in_window_of_held (held q.in_progress_queue.tasks) (bh.into_vec q.queued_outputs)
          q.next_outgoing_index 0 e.index v.balance
          (omega (arith, waits_pos (bh.into_vec q.queued_outputs) e taken)) in
      absurd (omega arith)
  deliver_waiting q (g ∷ gs) log front xs free e v top here =
      let taken = (bh.peek_some q.queued_outputs e top).0 in
      let waiting = All-perm (WaitsAt P R (g ∷ gs) q.next_outgoing_index) taken v.waiting in
      let few : suc (length gs) < usize_mod = omega (arith, v.few) in
      (
        g,
        gs,
        refl,
        AtPlace-head R g gs q.next_outgoing_index e.payload v.small
            (subst (λ i. AtPlace R (g ∷ gs) q.next_outgoing_index i e.payload) here waiting.0),
        front,
        xs,
        free,
        record {
          valid = v.valid;
          small = omega arith;
          few = omega (arith, v.few);
          incoming =
              next_incoming q.next_incoming_index q.next_outgoing_index (length gs) v.incoming
                v.small (omega arith);
          balance = rw here at (
              balance-take_waiting (held q.in_progress_queue.tasks) (bh.into_vec q.queued_outputs)
                (bh.into_vec (bh.pop_peeked q.queued_outputs)) e (length gs) (rw here v.balance)
                taken (omega (arith, v.small)) few);
          running =
              tail_running P R g gs q.next_outgoing_index q.in_progress_queue.tasks v.small few
                v.running;
          waiting =
              tail_waiting P R g gs q.next_outgoing_index
                (bh.into_vec (bh.pop_peeked q.queued_outputs)) v.small few waiting.1;
        },
      )

  -- The queue after a poll of its futures, with the same labels.
  pub polled-InOrder :
      (q : Queue) (gs : List G) (queue : FuturesUnorderedBounded Cell (OrderWrapper T))
      (es : bh.Heap) (front front' : Front) (xs free queued free' : List ℕ)
      → InOrder bh P R q gs front xs free
      → IsValid queue front' queued free'
      → Balanced (held queue.tasks) (bh.into_vec es) q.next_outgoing_index (length gs)
      → Keeps (RunsAt P R gs q.next_outgoing_index) queue.tasks
      → All (WaitsAt P R gs q.next_outgoing_index) (bh.into_vec es)
      → InOrder bh P R
          (record q { in_progress_queue = queue; queued_outputs = es })
          gs
          front'
          queued
          free'
  polled-InOrder q gs queue es front front' xs free queued free' v valid b runs waits = record {
    valid = valid;
    small = v.small;
    few = v.few;
    incoming = v.incoming;
    balance = b;
    running = runs;
    waiting = waits;
  }

  -- The output of a future is the next one.
  pub deliver_polled :
      (q : Queue) (gs : List G) (queue : FuturesUnorderedBounded Cell (OrderWrapper T)) (log : Log)
      (o : OrderWrapper O) (front front' : Front) (xs free queued free' : List ℕ)
      → InOrder bh P R q gs front xs free
      → IsValid queue front' queued free'
      → ((i : ℕ) → held queue.tasks i + one_at (some o.index) i ≡ held q.in_progress_queue.tasks i)
      → Keeps (RunsAt P R gs q.next_outgoing_index) queue.tasks
      → WaitsAt P R gs q.next_outgoing_index o
      → o.index ≡ q.next_outgoing_index
      → Delivered gs (
        record q {
          in_progress_queue = queue;
          next_outgoing_index = add_usize q.next_outgoing_index 1;
        },
        log,
        ready (some o.payload),
      )
  deliver_polled q [] queue log o front front' xs free queued free' v valid h runs waits here =
      let window =
        in_window_of_held (held q.in_progress_queue.tasks) (bh.into_vec q.queued_outputs)
          q.next_outgoing_index 0 o.index v.balance (ground (arith, h o.index)) in
      absurd (omega arith)
  deliver_polled q (g ∷ gs) queue log o front front' xs free queued free' v valid h runs waits
        here =
      let few : suc (length gs) < usize_mod = omega (arith, v.few) in
      (
        g,
        gs,
        refl,
        AtPlace-head R g gs q.next_outgoing_index o.payload v.small
            (subst (λ i. AtPlace R (g ∷ gs) q.next_outgoing_index i o.payload) here waits),
        front',
        queued,
        free',
        record {
          valid = valid;
          small = omega arith;
          few = omega (arith, v.few);
          incoming =
              next_incoming q.next_incoming_index q.next_outgoing_index (length gs) v.incoming
                v.small (omega arith);
          balance =
              balance-take_held (held q.in_progress_queue.tasks) (held queue.tasks)
                (bh.into_vec q.queued_outputs) q.next_outgoing_index (length gs) v.balance
                (rw here at h) v.small few;
          running = tail_running P R g gs q.next_outgoing_index queue.tasks v.small few runs;
          waiting =
              tail_waiting P R g gs q.next_outgoing_index (bh.into_vec q.queued_outputs) v.small few
                v.waiting;
        },
      )
