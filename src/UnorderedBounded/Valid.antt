-- ===== src/UnorderedBounded/Valid.antt =====
-- The invariant of a `FuturesUnorderedBounded`, and that its constructors establish it.
use futures_buffered.Base.{
  ℕ, ◌<◌, ◌≡◌, sym, true, false, Bool, Option, none, some, List, [], ◌∷◌, arith, range_from,
  usize_mod,
}
use futures_buffered.SlotMap
use futures_buffered.SlotMap.{SlotMap}
use futures_buffered.SlotMap.Valid.{new-IsValid, from_iter-IsValid}
use futures_buffered.SlotMap.Iter.{len-new}
use futures_buffered.ArcSlice
use futures_buffered.ArcSlice.{ArcSliceInner}
use futures_buffered.ArcSlice.Fifo.{Front, unwritten, stub, inline, Holds, Indexed, new-Holds}
use futures_buffered.UnorderedBounded.{FuturesUnorderedBounded, new, capacity}

abbrev pub is_some {ℓ} : {A : Type ℓ} → Option A → Bool
is_some none = false
is_some (some a) = true

module _ {F : Type 0} where
  -- Every slot of the list holds a future.
  abbrev pub AllIn : SlotMap F → List ℕ → Type 0
  AllIn m [] = Unit
  AllIn m (x ∷ xs) = (is_some (SlotMap.get m x) ≡ true) × AllIn m xs

  -- A set whose queue was never written to holds no future.
  abbrev pub IsUsed : Front → SlotMap F → Type 0
  IsUsed unwritten m = SlotMap.len m ≡ 0
  IsUsed stub m = Unit
  IsUsed inline m = Unit

module _ {W F : Type 0} where
  -- `free` lists the free slots, `xs` the slots that are queued, each of which holds a future.
  pub record IsValid (q : FuturesUnorderedBounded W F) (front : Front) (xs free : List ℕ)
      : Type 0 where
    pub slots : SlotMap.Valid.IsValid q.tasks free
    pub same_len : q.shared.len ≡ capacity q
    pub queue : Holds q.shared front xs
    pub indexed : Indexed q.shared
    pub occupied : AllIn q.tasks xs
    pub used : IsUsed front q.tasks
    pub referenced : 0 < q.shared.strong

  -- A new set is valid and empty.
  pub new_set-IsValid :
      (cell : W) (n : ℕ)
      → n < usize_mod
      → IsValid (new {F = F} cell n) unwritten [] (range_from 0 n)
  unfolding new capacity
  new_set-IsValid cell n h =
      let (queue, indexed) = new-Holds cell n in
      record {
        slots = new-IsValid n h;
        same_len = unfold ArcSlice.new in (sym (len-new F n).1);
        queue = queue;
        indexed = indexed;
        occupied = tt;
        used = (len-new F n).0;
        referenced = unfold ArcSlice.new in (omega arith);
      }
