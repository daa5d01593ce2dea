-- ===== src/OrderWrapper.antt =====
-- src/futures_ordered_bounded.rs: `OrderWrapper`, a future or an output with its index, its order, and
-- the arithmetic of the indices. The heap of the outputs that wait is `BinaryHeap` of the standard
-- library, a record of operations and of the laws that the code relies on.
pub mod Window
pub mod Held
pub mod Balance
pub mod Places
pub mod Labels
pub mod Flip
pub mod ListHeap
use Prim.Native.Nat.{compare, Ordering}
use mathlib.Core.List.Permᴰ.{Permᴰ}
use futures_buffered.Base.{
  All, length, none, some, ◌≡◌, ◌≢◌, if◌then◌else◌, ltb, ◌==◌, ℕ, ◌+◌, ◌-◌, ◌^◌, Option, List, [],
  ◌∷◌, Bool, add_usize,
}
use futures_buffered.Task.{Poll, ready, pending}
use futures_buffered.UnorderedBounded.{PollFn}

-- A future, or its output (the field `data` of the code), with its index.
pub record OrderWrapper (T : Type 0) : Type 0 where
  pub payload : T
  pub index : ℕ

module _ {T : Type 0} where
  -- Compared backwards, since the heap gives its greatest element first.
  unfoldable pub cmp : OrderWrapper T → OrderWrapper T → Ordering
  cmp self other = compare other.index self.index

  unfoldable pub eq : OrderWrapper T → OrderWrapper T → Bool
  eq self other = self.index == other.index

-- `!(usize::MAX >> 1)`.
abbrev pub msb : ℕ
msb = 2 ^ 63

-- `index ^ MSB`.
abbrev pub flip_msb : ℕ → ℕ
flip_msb i = if ltb i msb then i + msb else i - msb

-- `entry.index ^= MSB`, also of a task.
unfoldable pub flip_entry : {T : Type 0} → OrderWrapper T → OrderWrapper T
flip_entry entry = record entry { index = flip_msb entry.index }

-- `BinaryHeap` of elements that `compared` compares. `into_vec` gives the elements in some order;
-- `peek` gives one that no other exceeds, and `pop_peeked`, `PeekMut::pop`, takes it out.
pub record BinaryHeap (A : Type 0) (compared : A → A → Ordering) : Type 1 where
  pub Heap : Type 0
  pub with_capacity : ℕ → Heap
  pub heap_len : Heap → ℕ
  pub peek : Heap → Option A
  pub pop_peeked : Heap → Heap
  pub heap_push : Heap → A → Heap
  pub into_vec : Heap → List A
  pub from_vec : List A → Heap
  pub into_vec-with_capacity : (n : ℕ) → into_vec (with_capacity n) ≡ []
  pub into_vec-heap_push : (h : Heap) (a : A) → Permᴰ (into_vec (heap_push h a)) (a ∷ into_vec h)
  pub into_vec-from_vec : (xs : List A) → Permᴰ (into_vec (from_vec xs)) xs
  pub peek_none : (h : Heap) → peek h ≡ none → into_vec h ≡ []
  pub peek_some :
      (h : Heap) (a : A)
      → peek h ≡ some a
      → Permᴰ (into_vec h) (a ∷ into_vec (pop_peeked h))
        × All (λ b. compared b a ≢ Ordering.gt) (into_vec h)
  pub heap_len-eq : (h : Heap) → heap_len h ≡ length (into_vec h)

module _ {O : Type 0} where
  unfoldable pub with_index : ℕ → Poll O → Poll (OrderWrapper O)
  with_index index (ready output) = ready (record { payload = output; index = index })
  with_index index pending = pending

module _ {F O : Type 0} where
  -- `poll` of an `OrderWrapper`.
  unfoldable pub poll_wrapped : PollFn F O → PollFn (OrderWrapper F) (OrderWrapper O)
  poll_wrapped poll_fn self waker =
      let polled = poll_fn self.payload waker in
      record {
        fut = record self { payload = polled.fut };
        events = polled.events;
        result = with_index self.index polled.result;
      }

module _ {T : Type 0} where
  -- The items of the iterator that `from_iter` collects, numbered from `index` on.
  unfoldable pub wrap_from : ℕ → List T → List (OrderWrapper T)
  wrap_from index [] = []
  wrap_from index (payload ∷ iter) =
      record { payload = payload; index = index } ∷ wrap_from (add_usize index 1) iter

  -- The index after those of the iterator.
  unfoldable pub index_after : ℕ → List T → ℕ
  index_after index [] = index
  index_after index (payload ∷ iter) = index_after (add_usize index 1) iter
