-- ===== src/ArcSlice/Race.antt =====
-- `ArcSliceInner::push` as its three accesses to shared memory, with the producers that are between them:
-- the store to the link of the slot itself, the swap of `list_head`, and the store to the link of the
-- former head. A `pop` is one uninterrupted run of the only consumer.
pub mod Links
pub mod Order
pub mod Cleared
pub mod Producers
pub mod Consumer
pub mod Refine
mod Tests
use futures_buffered.Base.{
  false, has, ◌++◌, ◌≡◌, ◌<◌, count, ℕ, zero, suc, ◌+◌, Option, none, some, List, [], ◌∷◌, ◌>>=◌,
}
use futures_buffered.ArcSlice.{
  ArcSliceInner, ReadySlot, ready, inconsistent, empty, store_next, pop_index,
}

-- A producer that has made its slot `index` the head of the list, in place of `prev`, and has not yet
-- linked `prev` to it.
pub record Producer : Type 0 where
  pub prev : ℕ
  pub index : ℕ

-- The queue, the slots whose link a producer has cleared and which it has not yet swapped in, and the
-- producers between their swap and their last store.
pub record Machine (W : Type 0) : Type 0 where
  pub queue : ArcSliceInner W
  pub clearing : List ℕ
  pub producers : List Producer

-- The `k`-th entry, and the others.
unfoldable pub select : {A : Type 0} → List A → ℕ → Option (A × List A)
select [] k = none
select (p ∷ ps) zero = some (p, ps)
select (p ∷ ps) (suc k) = do selected ← select ps k; some (selected.0, p ∷ selected.1)

module _ {W : Type 0} where
  -- The first store of `push`.
  unfoldable pub clear : ArcSliceInner W → ℕ → Option (ArcSliceInner W)
  clear q index = do
    cleared ← store_next q.slice index (q.len + 1)
    some (record q { slice = cleared })

  -- The swap of `push`, which gives the former head.
  unfoldable pub swap_head : ArcSliceInner W → ℕ → ArcSliceInner W × ℕ
  swap_head q index = (record q { list_head = index }, q.list_head)

  -- The last write of `push`.
  unfoldable pub link : ArcSliceInner W → ℕ → ℕ → Option (ArcSliceInner W)
  link q prev index = do linked ← store_next q.slice prev index; some (record q { slice = linked })

  -- A producer starts to push a slot, and clears its link.
  unfoldable pub start_push : ℕ → Machine W → Option (Machine W)
  start_push index m = do
    queue ← clear m.queue index
    some (record m { queue = queue; clearing = index ∷ m.clearing })

  -- The `k`-th slot whose link has been cleared is swapped in.
  unfoldable pub swap_in : ℕ → Machine W → Option (Machine W)
  swap_in k m = do
    (index, others) ← select m.clearing k
    let (queue, prev) = swap_head m.queue index
    some (record {
      queue = queue;
      clearing = others;
      producers = record { prev = prev; index = index } ∷ m.producers;
    })

  -- The `k`-th producer ends its push.
  unfoldable pub finish_push : ℕ → Machine W → Option (Machine W)
  finish_push k m = do
    (producer, others) ← select m.producers k
    queue ← link m.queue producer.prev producer.index
    some (record m { queue = queue; producers = others })

  -- The consumer pops.
  unfoldable pub take : Machine W → Option (Machine W × ReadySlot ℕ)
  take m = do (queue, slot) ← pop_index m.queue; some (record m { queue = queue }, slot)

-- The machines that are reached from `m₀`, whose queue holds the slots `xs`, by any interleaving: the
-- slots that producers have swapped in, in order, and those that pops have returned, in order. A push
-- of a slot is started only when no other push of it is before its swap, and the slot has been
-- returned as often as it was swapped in.
pub data Reached {W : Type 0} (m₀ : Machine W) (xs : List ℕ)
    : List ℕ → List ℕ → Machine W → Type 0 where
  begun : Reached m₀ xs [] [] m₀
  started :
      {pushed popped : List ℕ} {m m' : Machine W} (i : ℕ)
      → Reached m₀ xs pushed popped m
      → i < m.queue.len
      → has i m.clearing ≡ false
      → count i (xs ++ pushed) ≡ count i popped
      → start_push i m ≡ some m'
      → Reached m₀ xs pushed popped m'
  swapped_in :
      {pushed popped others : List ℕ} {m m' : Machine W} (k i : ℕ)
      → Reached m₀ xs pushed popped m
      → select m.clearing k ≡ some (i, others)
      → swap_in k m ≡ some m'
      → Reached m₀ xs (pushed ++ i ∷ []) popped m'
  finished :
      {pushed popped : List ℕ} {m m' : Machine W} (k : ℕ)
      → Reached m₀ xs pushed popped m
      → finish_push k m ≡ some m'
      → Reached m₀ xs pushed popped m'
  gave :
      {pushed popped : List ℕ} {m m' : Machine W} {x : ℕ}
      → Reached m₀ xs pushed popped m
      → take m ≡ some (m', ready x)
      → Reached m₀ xs pushed (popped ++ x ∷ []) m'
  gave_up :
      {pushed popped : List ℕ} {m m' : Machine W}
      → Reached m₀ xs pushed popped m
      → take m ≡ some (m', inconsistent)
      → Reached m₀ xs pushed popped m'
  found_none :
      {pushed popped : List ℕ} {m m' : Machine W}
      → Reached m₀ xs pushed popped m
      → take m ≡ some (m', empty)
      → Reached m₀ xs pushed popped m'
