-- ===== src/OrderedBounded/Tests.antt =====
-- A `FuturesOrderedBounded` with high indices, a list as its heap, and the theorems at it.
use mathlib.Core.Option.{some-injective}
use futures_buffered.ArcSlice.Fifo.{Front, stub}
use futures_buffered.UnorderedBounded.{len}
use futures_buffered.UnorderedBounded.Sample.{
  waker_cell, Timer, timer, timer_settles, timer_preserves, timer_gives, Outputs, Gives,
}
use futures_buffered.OrderWrapper.ListHeap.{list_heap}
use futures_buffered.OrderedBounded.{poll_next, from_iter, OrderedOutcome}
use futures_buffered.OrderedBounded.InOrder.{InOrder}
use futures_buffered.OrderedBounded.Output.{Delivered}
use futures_buffered.OrderedBounded.Refine.{poll_ordered_lem}
use futures_buffered.OrderedBounded.Deque.{Labelled, try_push_back-InOrder, try_push_front-InOrder}
use futures_buffered.OrderedBounded.Start.{from_iter-InOrder}
use futures_buffered.OrderedBounded.Sample.{timers, timers-InOrder}
use futures_buffered.Base.{get_elem?, sym, ap, ◌∙◌, refl}
use futures_buffered.OrderedBounded.{
  FuturesOrderedBounded, housekeep, try_push_back, try_push_front,
}
use futures_buffered.OrderWrapper.{OrderWrapper, msb}
use futures_buffered.ArcSlice.Fifo.{unwritten}
use futures_buffered.ArcSlice
use futures_buffered.UnorderedBounded
use futures_buffered.UnorderedBounded.{FuturesUnorderedBounded}
use futures_buffered.UnorderedBounded.Valid.{IsValid, new_set-IsValid}
use futures_buffered.SlotMap
use futures_buffered.SlotMap.{SlotMap, occupied, next_free, Result}
use futures_buffered.Base.{
  List, ◌+◌, ◌^◌, arith, zero, suc, ◌∷◌, some, Option, none, [], ◌<◌, ◌≡◌, ℕ, usize_mod, sub_usize,
}
use futures_buffered.OrderedBounded.Index.{SameTask, housekeep_lem}
use futures_buffered.OrderedBounded.Push.{
  PushedBack, PushedFront, try_push_back_lem, try_push_front_lem,
}

abbrev Entry : Type 0
Entry = OrderWrapper ℕ

-- Two free slots.
abbrev fresh : FuturesOrderedBounded (Option ℕ) (List Entry) ℕ
fresh = record {
  in_progress_queue = UnorderedBounded.new none 2;
  queued_outputs = [];
  next_incoming_index = 7;
  next_outgoing_index = 0;
}

fresh-IsValid : IsValid fresh.in_progress_queue unwritten [] (0 ∷ 1 ∷ [])
fresh-IsValid = new_set-IsValid none 2 (omega arith)

try_push_back_lem_example :
    (out : FuturesOrderedBounded (Option ℕ) (List Entry) ℕ × Result (Unit {0}) ℕ) × (try_push_back
        fresh 5
      ≡ some out)
    × PushedBack fresh 5 unwritten [] out
try_push_back_lem_example = try_push_back_lem fresh 5 unwritten [] (0 ∷ 1 ∷ []) fresh-IsValid

try_push_front_lem_example :
    (out : FuturesOrderedBounded (Option ℕ) (List Entry) ℕ × Result (Unit {0}) ℕ) × (try_push_front
        fresh 5
      ≡ some out)
    × PushedFront fresh 5 unwritten [] out
try_push_front_lem_example = try_push_front_lem fresh 5 unwritten [] (0 ∷ 1 ∷ []) fresh-IsValid

-- A future in slot 0 with the index 2^63 + 1; the output of index 2^63 is next.
abbrev late : FuturesOrderedBounded (Option ℕ) (List Entry) ℕ
late = record {
  in_progress_queue = record {
    tasks = record {
      slots = occupied (record { payload = 5; index = 2 ^ 63 + 1 }) ∷ next_free 2 ∷ [];
      free_head = 1;
      filled = 1;
    };
    shared = ArcSlice.new none 2;
  };
  queued_outputs = [];
  next_incoming_index = 2 ^ 63 + 2;
  next_outgoing_index = 2 ^ 63;
}

late_small :
    (j : ℕ) (t : Entry) → SlotMap.get late.in_progress_queue.tasks j ≡ some t → t.index < usize_mod
unfolding SlotMap.get SlotMap.get_slot SlotMap.value
late_small zero t e = ground arith
late_small (suc zero) t e = absurd (ground arith)
late_small (suc (suc j)) t e = absurd (ground arith)

housekeep_lem_example :
    ((housekeep (list_heap ℕ) late).next_outgoing_index < msb)
    × (sub_usize
          (housekeep (list_heap ℕ) late).next_incoming_index
          (housekeep (list_heap ℕ) late).next_outgoing_index
        ≡ sub_usize (2 ^ 63 + 2) (2 ^ 63))
    × ((j : ℕ) → SameTask (list_heap ℕ) late (housekeep (list_heap ℕ) late) j)
housekeep_lem_example = housekeep_lem (list_heap ℕ) late (omega arith) (omega arith) late_small

abbrev Timers : Type 0
Timers = FuturesOrderedBounded (Option ℕ) (List Entry) Timer

timers_labelled : InOrder (list_heap ℕ) Outputs Gives (timers ℕ) (10 ∷ 20 ∷ []) stub (0 ∷ 1 ∷ []) []
timers_labelled = timers-InOrder Gives

poll_ordered_lem_example :
    (out : OrderedOutcome (Option ℕ) (List Entry) Timer ℕ) × (poll_next
        (list_heap ℕ)
        9
        timer
        (timers ℕ)
        []
      ≡ some out)
    × Delivered
        (list_heap ℕ)
        Outputs
        Gives
        9
        timer
        timer_settles
        timer_preserves
        timer_gives
        (10 ∷ 20 ∷ [])
        out
poll_ordered_lem_example =
    poll_ordered_lem (list_heap ℕ) Outputs Gives 9 timer timer_settles timer_preserves timer_gives
      (timers ℕ) (10 ∷ 20 ∷ []) [] stub (0 ∷ 1 ∷ []) [] timers_labelled
      (unfold len SlotMap.len in omega arith)

abbrev third : Timer
third = record { left = 0; output = 30 }

try_push_back-InOrder_example :
    (out : Timers × Result (Unit {0}) Timer) × (try_push_back (timers ℕ) third ≡ some out)
    × Labelled
        (list_heap ℕ)
        Outputs
        Gives
        (timers ℕ)
        (10 ∷ 20 ∷ [])
        30
        third
        stub
        (0 ∷ 1 ∷ [])
        (10 ∷ 20 ∷ 30 ∷ [])
        out
try_push_back-InOrder_example =
    try_push_back-InOrder (list_heap ℕ) Outputs Gives (timers ℕ) (10 ∷ 20 ∷ []) 30 third stub
      (0 ∷ 1 ∷ []) [] timers_labelled (omega arith) refl

try_push_front-InOrder_example :
    (out : Timers × Result (Unit {0}) Timer) × (try_push_front (timers ℕ) third ≡ some out)
    × Labelled
        (list_heap ℕ)
        Outputs
        Gives
        (timers ℕ)
        (10 ∷ 20 ∷ [])
        30
        third
        stub
        (0 ∷ 1 ∷ [])
        (30 ∷ 10 ∷ 20 ∷ [])
        out
try_push_front-InOrder_example =
    try_push_front-InOrder (list_heap ℕ) Outputs Gives (timers ℕ) (10 ∷ 20 ∷ []) 30 third stub
      (0 ∷ 1 ∷ []) [] timers_labelled (omega arith) refl

abbrev items : List Timer
items = third ∷ record { left = 4; output = 31 } ∷ []

items_labelled :
    (j : ℕ) (g : ℕ) (f : Timer)
    → get_elem? (30 ∷ 31 ∷ []) j ≡ some g
    → get_elem? items j ≡ some f
    → Outputs g f
items_labelled zero g f e h =
    sym (some-injective 30 g e) ∙ ap (λ (t : Timer). t.output) (some-injective third f h)
items_labelled (suc zero) g f e h =
    sym (some-injective 31 g e)
    ∙ ap (λ (t : Timer). t.output) (some-injective (record { left = 4; output = 31 }) f h)
items_labelled (suc (suc j)) g f e h = absurd (ground arith)

from_iter-InOrder_example :
    (q : Timers) × (front : Front) × (from_iter (list_heap ℕ) none items ≡ some q)
    × InOrder (list_heap ℕ) Outputs Gives q (30 ∷ 31 ∷ []) front (0 ∷ 1 ∷ []) []
    × (len q.in_progress_queue ≡ 2)
from_iter-InOrder_example =
    from_iter-InOrder (list_heap ℕ) Outputs Gives none items (30 ∷ 31 ∷ []) (omega arith) refl
      items_labelled
