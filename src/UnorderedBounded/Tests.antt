-- ===== src/UnorderedBounded/Tests.antt =====
-- Runs of the set of two futures, and the theorems at it.
use futures_buffered.UnorderedBounded.FromIter.{from_iter_lem}
use futures_buffered.UnorderedBounded.Push.{push_lem, try_push_with_lem, Pushed, Accepted}
use futures_buffered.UnorderedBounded.Valid.{IsValid}
use futures_buffered.ArcSlice.Fifo.{stub, Front}
use futures_buffered.UnorderedBounded.Sample.{waker_cell, countdown, two, two-IsValid}
use futures_buffered.Base.{List, get_elem?, arith, refl, ◌∷◌, ◌⊎◌, some, Option, none, [], ◌≡◌}
use futures_buffered.ArcSlice.{woken_by_ref, Waker, ArcSlotInner, load_next, load_index}
use futures_buffered.UnorderedBounded.{
  remove_output, after_poll, poll_task, after_pop, poll_loop, poll_inner_no_remove, pending,
  try_push_with, Result, PollFn, FuturesUnorderedBounded, AtomicWaker, Outcome, poll_inner, ℕ,
  push_all,
}
use mathlib.Core.Option
use futures_buffered.Task.{Poll, ready}
use futures_buffered.SlotMap
use futures_buffered.SlotMap.{occupied}
use futures_buffered.ArcSlice
use futures_buffered.UnorderedBounded

two-from_iter : UnorderedBounded.from_iter none (1 ∷ 0 ∷ []) ≡ some two
unfolding UnorderedBounded.from_iter push_all SlotMap.from_iter SlotMap.len ArcSlice.new
    ArcSlice.init_slots ArcSlice.push ArcSlice.store_next ArcSlice.set_next
two-from_iter = refl

abbrev report : Outcome (Option ℕ) ℕ ℕ → List ℕ × Poll (Option (ℕ × ℕ))
report (q, log, result) = (log, result)

-- The other future is done first; the wake-up of slot 0 by itself calls the task's waker, 9.
poll_inner_runs :
    Option.map report (poll_inner 9 countdown two []) ≡ some (9 ∷ [], ready (some (1, 42)))
unfolding poll_inner poll_inner_no_remove UnorderedBounded.is_empty SlotMap.is_empty poll_loop
    after_pop poll_task after_poll remove_output ArcSlice.pop ArcSlice.with_waker ArcSlice.get
    ArcSlice.inc_strong ArcSlice.pop_index ArcSlice.pop_at ArcSlice.push ArcSlice.store_next
    ArcSlice.set_next load_next load_index ArcSlice.run_events ArcSlice.run_event
    ArcSlice.wake_by_ref ArcSlice.drop_handle ArcSlice.dec_strong ArcSlice.alive ArcSlice.register
    SlotMap.get SlotMap.get_slot SlotMap.value SlotMap.put SlotMap.remove
poll_inner_runs = refl

from_iter_lem_example :
    (q : FuturesUnorderedBounded (Option ℕ) ℕ) × (front : Front) × (UnorderedBounded.from_iter none
        (1 ∷ 0 ∷ [])
      ≡ some q)
    × IsValid q front (0 ∷ 1 ∷ []) []
    × (UnorderedBounded.len q ≡ 2)
    × ((j : ℕ) → SlotMap.get q.tasks j ≡ get_elem? (1 ∷ 0 ∷ []) j)
from_iter_lem_example = from_iter_lem none (1 ∷ 0 ∷ []) (omega arith)

try_push_with_lem_example :
    (out : FuturesUnorderedBounded (Option ℕ) ℕ × Unit {0} × Result (Unit {0}) ℕ) × (try_push_with
        two tt 5
        (λ s t. (t, s))
      ≡ some out)
    × Pushed two tt 5 (λ s t. (t, s)) stub (0 ∷ 1 ∷ []) out
try_push_with_lem_example =
    try_push_with_lem two tt 5 (λ s t. (t, s)) stub (0 ∷ 1 ∷ []) [] two-IsValid

push_lem_example :
    ((UnorderedBounded.push two 5 ≡ none)
      × (UnorderedBounded.len two ≡ UnorderedBounded.capacity two))
    ⊎ ((q : FuturesUnorderedBounded (Option ℕ) ℕ) × (UnorderedBounded.push two 5 ≡ some q)
        × Accepted two 5 stub (0 ∷ 1 ∷ []) q)
push_lem_example = push_lem two 5 stub (0 ∷ 1 ∷ []) [] two-IsValid
