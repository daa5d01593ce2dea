-- ===== src/UnorderedBounded.antt =====
-- src/futures_unordered_bounded.rs: `FuturesUnorderedBounded`, a fixed number of slots for futures,
-- and the shared queue of the slots whose futures are to be polled.
-- `none` is a panic, an abort or undefined behaviour. The functions that may call a task waker take
-- and return the list of the wakers called so far.
pub mod Valid
pub mod FromIter
pub mod Push
pub mod Step
pub mod Round
pub mod Outcomes
pub mod Inner
pub mod Trace
pub mod Sample
mod Tests
use futures_buffered.Base.{
  if◌then◌else◌, ℕ, zero, suc, ◌+◌, Bool, Option, none, some, List, [], ◌∷◌, ◌++◌, ◌>>=◌,
  range_from,
}
use futures_buffered.Task.{Poll, ready, pending, AtomicWaker, Log}
use futures_buffered.SlotMap
use futures_buffered.SlotMap.{SlotMap, Result, ok, err}
use futures_buffered.ArcSlice
use futures_buffered.ArcSlice.{
  ArcSliceInner, ReadySlot, Waker, WakerEvent, register, run_events, drop_handle, alive,
}

-- One poll of a future, or of a stream, with the waker of its slot: the future afterwards, what was
-- done with slot wakers meanwhile, in order, and the result.
pub record Polled (F O : Type 0) : Type 0 where
  pub fut : F
  pub events : List WakerEvent
  pub result : Poll O

abbrev pub PollFn : Type 0 → Type 0 → Type 0
PollFn F O = F → Waker → Polled F O

pub record FuturesUnorderedBounded (W F : Type 0) : Type 0 where
  pub tasks : SlotMap F
  pub shared : ArcSliceInner W

-- The set, the task wakers called so far, and what a poll returns.
abbrev pub Outcome : Type 0 → Type 0 → Type 0 → Type 0
Outcome W F O = FuturesUnorderedBounded W F × Log × Poll (Option (ℕ × O))

-- `const MAX` of `poll_inner_no_remove`.
abbrev pub max_polls : ℕ
max_polls = 61

module _ {W : Type 0} where
  -- The loop of `from_iter`.
  unfoldable pub push_all : List ℕ → ArcSliceInner W → Option (ArcSliceInner W)
  push_all [] shared = some shared
  push_all (i ∷ is) shared = do shared' ← ArcSlice.push shared i; push_all is shared'

module _ {W F : Type 0} where
  unfoldable pub new : W → ℕ → FuturesUnorderedBounded W F
  new cell n = record { tasks = SlotMap.new n; shared = ArcSlice.new cell n }

  -- `try_push_with` once `insert_with` has returned.
  unfoldable pub push_inserted :
      {S T : Type 0}
      → FuturesUnorderedBounded W F
      → SlotMap F × S × Result ℕ T
      → Option (FuturesUnorderedBounded W F × S × Result (Unit {0}) T)
  push_inserted q (tasks, s, err t) = some (record q { tasks = tasks }, s, err t)
  push_inserted q (tasks, s, ok i) = do
    shared ← ArcSlice.push q.shared i
    some (record { tasks = tasks; shared = shared }, s, ok tt)

  unfoldable pub try_push_with :
      {S T : Type 0}
      → FuturesUnorderedBounded W F
      → S
      → T
      → (S → T → F × S)
      → Option (FuturesUnorderedBounded W F × S × Result (Unit {0}) T)
  try_push_with q s t f = do inserted ← SlotMap.insert_with q.tasks s t f; push_inserted q inserted

  unfoldable pub try_push :
      FuturesUnorderedBounded W F → F → Option (FuturesUnorderedBounded W F × Result (Unit {0}) F)
  try_push q fut = do
    (q', _, result) ← try_push_with q (tt {0}) fut (λ s t. (t, s))
    some (q', result)

  -- `push`: a full set is a panic.
  unfoldable pub unless_full :
      FuturesUnorderedBounded W F × Result (Unit {0}) F → Option (FuturesUnorderedBounded W F)
  unless_full (q, ok _) = some q
  unless_full (q, err _) = none

  unfoldable pub push : FuturesUnorderedBounded W F → F → Option (FuturesUnorderedBounded W F)
  push q fut = do pushed ← try_push q fut; unless_full pushed

  unfoldable pub is_empty : FuturesUnorderedBounded W F → Bool
  is_empty q = SlotMap.is_empty q.tasks

  unfoldable pub len : FuturesUnorderedBounded W F → ℕ
  len q = SlotMap.len q.tasks

  unfoldable pub capacity : FuturesUnorderedBounded W F → ℕ
  capacity q = SlotMap.capacity q.tasks

  unfoldable pub size_hint : FuturesUnorderedBounded W F → ℕ × Option ℕ
  size_hint q = (len q, some (len q))

  unfoldable pub is_terminated : FuturesUnorderedBounded W F → Bool
  is_terminated q = is_empty q

  unfoldable pub from_iter : W → List F → Option (FuturesUnorderedBounded W F)
  from_iter cell iter =
      let tasks = SlotMap.from_iter iter in
      let n = SlotMap.len tasks in
      do
        shared ← push_all (range_from 0 n) (ArcSlice.new cell n)
        some (record { tasks = tasks; shared = shared })

module _ {W F O : Type 0} where
  unfoldable pub remove_output : Outcome W F O → Outcome W F O
  remove_output (q, log, ready (some (i, x))) =
      (record q { tasks = SlotMap.remove q.tasks i }, log, ready (some (i, x)))
  remove_output (q, log, ready none) = (q, log, ready none)
  remove_output (q, log, pending) = (q, log, pending)

  unfoldable pub output_only : Outcome W F O → FuturesUnorderedBounded W F × Log × Poll (Option O)
  output_only (q, log, ready (some (_, x))) = (q, log, ready (some x))
  output_only (q, log, ready none) = (q, log, ready none)
  output_only (q, log, pending) = (q, log, pending)

module _ ⦃aw : AtomicWaker⦄ {F O : Type 0} where
  open aw use {Cell}

  -- What the loop does after a poll: return an output, or go on.
  unfoldable pub after_poll :
      (FuturesUnorderedBounded Cell F → Log → Option (Outcome Cell F O))
      → ℕ
      → FuturesUnorderedBounded Cell F
      → Log
      → Poll O
      → Option (Outcome Cell F O)
  after_poll rest i q log (ready x) = some (q, log, ready (some (i, x)))
  after_poll rest i q log pending = rest q log

  -- The branch `ReadySlot::Ready((i, waker))`: the waker is dropped at its end.
  unfoldable pub poll_task :
      PollFn F O
      → (FuturesUnorderedBounded Cell F → Log → Option (Outcome Cell F O))
      → ℕ
      → Waker
      → FuturesUnorderedBounded Cell F
      → Log
      → Option F
      → Option (Outcome Cell F O)
  poll_task poll_fn rest i waker q log none = do
    (shared, log) ← alive (drop_handle q.shared, log)
    rest (record q { shared = shared }) log
  poll_task poll_fn rest i waker q log (some task) = do
    let polled = poll_fn task waker
    (shared, log) ← run_events polled.events (q.shared, log)
    (shared, log) ← alive (drop_handle shared, log)
    after_poll rest i (record { tasks = SlotMap.put q.tasks i polled.fut; shared = shared }) log
        polled.result

  unfoldable pub after_pop :
      ℕ
      → PollFn F O
      → (FuturesUnorderedBounded Cell F → Log → Option (Outcome Cell F O))
      → FuturesUnorderedBounded Cell F
      → Log
      → ReadySlot (ℕ × Waker)
      → Option (Outcome Cell F O)
  after_pop cx poll_fn rest q log ReadySlot.empty = some (q, log, pending)
  after_pop cx poll_fn rest q log ReadySlot.inconsistent = some (q, log ++ cx ∷ [], pending)
  after_pop cx poll_fn rest q log (ReadySlot.ready (i, waker)) =
      poll_task poll_fn rest i waker q log (SlotMap.get q.tasks i)

  -- The loop, with the number of rounds left: `count > MAX` where none is.
  unfoldable pub poll_loop :
      ℕ → ℕ → PollFn F O → FuturesUnorderedBounded Cell F → Log → Option (Outcome Cell F O)
  poll_loop zero cx poll_fn q log = some (q, log ++ cx ∷ [], pending)
  poll_loop (suc left) cx poll_fn q log = do
    (shared, slot) ← ArcSlice.pop q.shared
    after_pop cx poll_fn (poll_loop left cx poll_fn) (record q { shared = shared }) log slot

  unfoldable pub poll_inner_no_remove :
      ℕ → PollFn F O → FuturesUnorderedBounded Cell F → Log → Option (Outcome Cell F O)
  poll_inner_no_remove cx poll_fn q log =
      if is_empty q
      then some (q, log, ready none)
      else poll_loop max_polls cx poll_fn (record q { shared = register q.shared cx }) log

  unfoldable pub poll_inner :
      ℕ → PollFn F O → FuturesUnorderedBounded Cell F → Log → Option (Outcome Cell F O)
  poll_inner cx poll_fn q log = do
    out ← poll_inner_no_remove cx poll_fn q log
    some (remove_output out)

  unfoldable pub poll_next :
      ℕ
      → PollFn F O
      → FuturesUnorderedBounded Cell F
      → Log
      → Option (FuturesUnorderedBounded Cell F × Log × Poll (Option O))
  poll_next cx poll_fn q log = do out ← poll_inner cx poll_fn q log; some (output_only out)
