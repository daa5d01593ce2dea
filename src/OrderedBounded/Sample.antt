-- ===== src/OrderedBounded/Sample.antt =====
-- Two timers in a `FuturesOrderedBounded`, of which the second is done first.
use mathlib.Core.Option.{some-injective}
use mathlib.Core.Path.{subst}
use futures_buffered.Base.{ℕ, zero, suc, ◌≡◌, refl, sym, Option, some, List, [], ◌∷◌, arith}
use futures_buffered.ArcSlice.Fifo.{stub}
use futures_buffered.SlotMap
use futures_buffered.UnorderedBounded.Sample.{Timer, Outputs, pair, pair-IsValid}
use futures_buffered.OrderWrapper.{OrderWrapper}
use futures_buffered.OrderWrapper.Held.{held}
use futures_buffered.OrderWrapper.Labels.{RunsAt}
use futures_buffered.OrderWrapper.Window.{in_window}
use futures_buffered.OrderWrapper.ListHeap.{list_heap}
use futures_buffered.OrderedBounded.{FuturesOrderedBounded}
use futures_buffered.OrderedBounded.InOrder.{InOrder}

abbrev pub first_timer : OrderWrapper Timer
first_timer = record { payload = record { left = 1; output = 10 }; index = 0 }

abbrev pub second_timer : OrderWrapper Timer
second_timer = record { payload = record { left = 0; output = 20 }; index = 1 }

abbrev pub timers : (O : Type 0) → FuturesOrderedBounded (Option ℕ) (List (OrderWrapper O)) Timer
timers O = record {
  in_progress_queue = pair first_timer second_timer;
  queued_outputs = [];
  next_incoming_index = 2;
  next_outgoing_index = 0;
}

timers_held : (i : ℕ) → held (pair first_timer second_timer).tasks i ≡ in_window 0 2 i
unfolding SlotMap.capacity SlotMap.get
timers_held i = ground arith

module _ {O : Type 0} (R : ℕ → O → Type 0) where
  timers_running :
      (j : ℕ) (t : OrderWrapper Timer)
      → SlotMap.get (timers O).in_progress_queue.tasks j ≡ some t
      → RunsAt Outputs R (10 ∷ 20 ∷ []) 0 j t
  unfolding SlotMap.get SlotMap.get_slot SlotMap.value
  timers_running zero t e =
      subst (RunsAt Outputs R (10 ∷ 20 ∷ []) 0 0) (some-injective first_timer t e)
        (omega arith, λ g here. sym (some-injective 10 g here))
  timers_running (suc zero) t e =
      subst (RunsAt Outputs R (10 ∷ 20 ∷ []) 0 1) (some-injective second_timer t e)
        (omega arith, λ g here. sym (some-injective 20 g here))
  timers_running (suc (suc j)) t e = absurd (ground arith)

  pub timers-InOrder :
      InOrder (list_heap O) Outputs R (timers O) (10 ∷ 20 ∷ []) stub (0 ∷ 1 ∷ []) []
  timers-InOrder = record {
    valid = pair-IsValid first_timer second_timer;
    small = omega arith;
    few = omega arith;
    incoming = refl;
    balance = λ i. omega (arith, timers_held i);
    running = timers_running;
    waiting = tt;
  }
