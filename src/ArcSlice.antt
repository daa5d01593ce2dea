-- ===== src/ArcSlice.antt =====
-- src/arc_slice.rs: the allocation shared by a set of futures and the wakers of its slots. It holds
-- a reference count, the cell of the task's waker, and an intrusive queue of the slots to poll.
-- Each function here is one run that no other thread interleaves with. `none` is a panic, an abort,
-- or undefined behaviour: an access out of bounds, or a read of memory that was never written.
pub mod Slots
pub mod Chain
pub mod Fifo
pub mod Push
pub mod Pop
pub mod Duplicate
pub mod Count
pub mod Race
mod Tests
use futures_buffered.Base.{
  ℕ, zero, suc, ◌+◌, ◌-◌, ◌^◌, Bool, not, Option, none, some, List, [], ◌∷◌, ◌++◌, ◌==◌, ltb, leb,
  if◌then◌else◌, ◌>>=◌, length, add_usize, sub_usize,
}
use futures_buffered.Task.{AtomicWaker, Log}

-- `none` is memory that has been allocated and not yet written.
pub record ArcSlotInner : Type 0 where
  pub index : Option ℕ
  pub next : Option ℕ

-- `ArcSliceInner`, with the fields of its `ArcSliceInnerMeta`. `W` is the type of the waker cell.
pub record ArcSliceInner (W : Type 0) : Type 0 where
  pub strong : ℕ
  pub waker : W
  pub list_head : ℕ
  pub list_tail : ℕ
  pub len : ℕ
  pub slice : List ArcSlotInner

pub data ReadySlot (T : Type 0) : Type 0 where
  ready : T → ReadySlot T
  inconsistent : ReadySlot T
  empty : ReadySlot T

-- The contents of a waker are the address of its slot: the slot's position in the slice.
abbrev pub Waker : Type 0
Waker = ℕ

-- The allocation, or nothing once the last handle has been dropped (`drop_inner`).
pub data Memory (W : Type 0) : Type 0 where
  live : ArcSliceInner W → Memory W
  freed : Memory W

abbrev pub isize_max : ℕ
isize_max = 2 ^ 63 - 1

unfoldable pub load_next : List ArcSlotInner → ℕ → Option ℕ
load_next [] i = none
load_next (x ∷ s) zero = x.next
load_next (x ∷ s) (suc i) = load_next s i

unfoldable pub load_index : List ArcSlotInner → ℕ → Option ℕ
load_index [] i = none
load_index (x ∷ s) zero = x.index
load_index (x ∷ s) (suc i) = load_index s i

-- The slice after a write of `next`, in bounds.
unfoldable pub set_next : List ArcSlotInner → ℕ → ℕ → List ArcSlotInner
set_next [] i v = []
set_next (x ∷ s) zero v = record x { next = some v } ∷ s
set_next (x ∷ s) (suc i) v = x ∷ set_next s i v

unfoldable pub store_next : List ArcSlotInner → ℕ → ℕ → Option (List ArcSlotInner)
store_next s i v = if ltb i (length s) then some (set_next s i v) else none

-- The slots `from`, `from + 1`, …, that `ArcSlice::new` writes.
unfoldable pub init_slots : ℕ → ℕ → ℕ → List ArcSlotInner
init_slots cap from zero = []
init_slots cap from (suc n) =
    record { index = some from; next = some (cap + 1) } ∷ init_slots cap (suc from) n

module _ {W : Type 0} where
  -- The loop of `ArcSlice::new` writes the slots below `cap`, and not the one at `cap`.
  unfoldable pub new : W → ℕ → ArcSliceInner W
  new cell cap = record {
    strong = 1;
    waker = cell;
    list_head = cap;
    list_tail = cap;
    len = cap;
    slice = init_slots cap 0 cap ++ record { index = none; next = none } ∷ [];
  }

  unfoldable pub push : ArcSliceInner W → ℕ → Option (ArcSliceInner W)
  push q index = do
    cleared ← store_next q.slice index (q.len + 1)
    linked ← store_next cleared q.list_head index
    some (record q { list_head = index; slice = linked })

  -- `ArcSliceInner::pop` from `if next <= self.meta.len` on, where `list_tail` is `tail`, followed by
  -- `next`. The assertion is that the stub is not given out.
  unfoldable pub pop_at : ArcSliceInner W → ℕ → ℕ → Option (ArcSliceInner W × ReadySlot ℕ)
  pop_at q tail next =
      if leb next q.len
      then (if tail == q.len then none else some (record q { list_tail = next }, ready tail))
      else if not (q.list_head == tail)
      then some (q, inconsistent)
      else do
        q' ← push q q.len
        next' ← load_next q'.slice tail
        if leb next' q'.len
            then some (record q' { list_tail = next' }, ready tail)
            else some (q', inconsistent)

  -- `ArcSliceInner::pop`.
  unfoldable pub pop_index : ArcSliceInner W → Option (ArcSliceInner W × ReadySlot ℕ)
  pop_index q = do
    next ← load_next q.slice q.list_tail
    if q.list_tail == q.len
        then (if ltb q.len next then some (q, empty) else do
          after ← load_next q.slice next
          pop_at (record q { list_tail = next }) next after)
        else pop_at q q.list_tail next

  unfoldable pub inc_strong : ArcSliceInner W → Option (ArcSliceInner W)
  inc_strong q =
      if ltb isize_max q.strong then none else some (record q { strong = add_usize q.strong 1 })

  unfoldable pub dec_strong : ArcSliceInner W → ArcSliceInner W × Bool
  dec_strong q = (record q { strong = sub_usize q.strong 1 }, q.strong == 1)

  -- `ArcSlice::get`: a new waker for a slot, which must carry its own index.
  unfoldable pub get : ArcSliceInner W → ℕ → Option (ArcSliceInner W × Waker)
  get q index = do
    q' ← inc_strong q
    own ← load_index q'.slice index
    if own == index then some (q', index) else none

  unfoldable pub with_waker :
      ArcSliceInner W → ReadySlot ℕ → Option (ArcSliceInner W × ReadySlot (ℕ × Waker))
  with_waker q (ready i) = do got ← get q i; some (got.0, ready (i, got.1))
  with_waker q inconsistent = some (q, inconsistent)
  with_waker q empty = some (q, empty)

  -- `ArcSlice::pop`.
  unfoldable pub pop : ArcSliceInner W → Option (ArcSliceInner W × ReadySlot (ℕ × Waker))
  pop q = do popped ← pop_index q; with_waker popped.0 popped.1

  -- `drop_waker` of the waker's vtable and `ArcSlice::drop` do the same.
  unfoldable pub drop_handle : ArcSliceInner W → Memory W
  drop_handle q = let (q', last) = dec_strong q in if last then freed else live q'

  unfoldable pub clone_waker : ArcSliceInner W → Waker → Option (ArcSliceInner W × Waker)
  clone_waker q waker = do q' ← inc_strong q; some (q', waker)

module _ ⦃aw : AtomicWaker⦄ where
  open aw use {Cell}

  unfoldable pub register : ArcSliceInner Cell → ℕ → ArcSliceInner Cell
  register q cx = record q { waker = aw.register q.waker cx }

  -- `wake_by_ref` of the vtable: enqueues the slot, then calls the task's waker.
  unfoldable pub wake_by_ref : ArcSliceInner Cell × Log → Waker → Option (ArcSliceInner Cell × Log)
  wake_by_ref (q, log) slot = do
    index ← load_index q.slice slot
    q' ← push q index
    let (cell, woken) = aw.wake q'.waker
    some (record q' { waker = cell }, log ++ woken)

  unfoldable pub wake : ArcSliceInner Cell × Log → Waker → Option (Memory Cell × Log)
  wake w slot = do (q, log) ← wake_by_ref w slot; some (drop_handle q, log)

-- What a future or a thread may do with the waker of a slot: the entries of its vtable.
pub data WakerEvent : Type 0 where
  cloned : Waker → WakerEvent
  woken : Waker → WakerEvent
  woken_by_ref : Waker → WakerEvent
  dropped : Waker → WakerEvent

module _ ⦃aw : AtomicWaker⦄ where
  open aw use {Cell}

  -- The allocation after one event. Whoever goes on needs it to be there still.
  unfoldable pub alive : Memory Cell × Log → Option (ArcSliceInner Cell × Log)
  alive (live q, log) = some (q, log)
  alive (freed, log) = none

  unfoldable pub run_event :
      ArcSliceInner Cell × Log → WakerEvent → Option (ArcSliceInner Cell × Log)
  run_event (q, log) (cloned slot) = do (q', _) ← clone_waker q slot; some (q', log)
  run_event w (woken slot) = do w' ← wake w slot; alive w'
  run_event w (woken_by_ref slot) = wake_by_ref w slot
  run_event (q, log) (dropped slot) = alive (drop_handle q, log)

  unfoldable pub run_events :
      List WakerEvent → ArcSliceInner Cell × Log → Option (ArcSliceInner Cell × Log)
  run_events [] w = some w
  run_events (e ∷ es) w = do w' ← run_event w e; run_events es w'
