-- ===== src/SlotMap.antt =====
-- src/slot_map.rs: a slab of slots, whose free ones are linked through their contents.
-- A `&mut` to a stored value is modelled by a read (`get`) and a write back (`put`).
pub mod FreeList
pub mod Valid
pub mod Lookup
pub mod Iter
pub mod RoundTrip
mod Tests
use futures_buffered.Base.{
  zero, ◌++◌, ℕ, suc, Option, none, some, List, [], ◌∷◌, map, length, get_elem?, set, range_from,
  Bool, ◌==◌, add_usize, sub_usize, ◌>>=◌,
}

-- `Result<A, E>`
pub data Result (A E : Type 0) : Type 0 where
  ok : A → Result A E
  err : E → Result A E

pub data Slot (F : Type 0) : Type 0 where
  occupied : F → Slot F
  next_free : ℕ → Slot F

pub record SlotMap (F : Type 0) : Type 0 where
  pub slots : List (Slot F)
  pub free_head : ℕ
  pub filled : ℕ

module _ {F : Type 0} where
  -- The slot number `k` names slot `k + 1` as the next free one; the last names the capacity.
  unfoldable pub new : ℕ → SlotMap F
  new capacity = record { slots = map next_free (range_from 1 capacity); free_head = 0; filled = 0 }

  unfoldable pub get_slot : SlotMap F → ℕ → Option (Slot F)
  get_slot m key = get_elem? m.slots key

  -- `f` is an `FnMut`: it takes what it captures, in the state `s`, and gives it back.
  module _ {S Arg : Type 0} where
    -- Inserts into the slot `key` that `free_head` names, once that slot has been looked up.
    insert_at :
        SlotMap F
        → ℕ
        → Option (Slot F)
        → S
        → Arg
        → (S → Arg → F × S)
        → Option (SlotMap F × S × Result ℕ Arg)
    insert_at m key none s arg f = some (m, s, err arg)
    insert_at m key (some (occupied _)) s arg f = none
    insert_at m key (some (next_free next)) s arg f =
        let (v, s') = f s arg in
        some (
          record {
            slots = set m.slots key (occupied v);
            free_head = next;
            filled = add_usize m.filled 1;
          },
          s',
          ok key,
        )

    -- `none` is the branch of `unreachable_unchecked`.
    unfoldable pub insert_with :
        SlotMap F → S → Arg → (S → Arg → F × S) → Option (SlotMap F × S × Result ℕ Arg)
    unfolding insert_at get_slot
    insert_with m s arg f = insert_at m m.free_head (get_slot m m.free_head) s arg f

  remove_at : SlotMap F → ℕ → Option (Slot F) → SlotMap F
  remove_at m key none = m
  remove_at m key (some (next_free _)) = m
  remove_at m key (some (occupied _)) = record {
    slots = set m.slots key (next_free m.free_head);
    free_head = key;
    filled = sub_usize m.filled 1;
  }

  unfoldable pub remove : SlotMap F → ℕ → SlotMap F
  unfolding remove_at get_slot
  remove m key = remove_at m key (get_slot m key)

  unfoldable pub value : Slot F → Option F
  value (occupied f) = some f
  value (next_free _) = none

  unfoldable pub get : SlotMap F → ℕ → Option F
  unfolding get_slot value
  get m key = do slot ← get_slot m key; value slot

  -- What a caller of `get` leaves behind the reference.
  unfoldable pub put : SlotMap F → ℕ → F → SlotMap F
  put m key f = record m { slots = set m.slots key (occupied f) }

  unfoldable pub len : SlotMap F → ℕ
  len m = m.filled

  unfoldable pub capacity : SlotMap F → ℕ
  capacity m = length m.slots

  unfoldable pub is_empty : SlotMap F → Bool
  is_empty m = m.filled == 0

  -- `SlotMap::iter_mut`: the iterator is over all the slots.
  unfoldable pub iter_mut : SlotMap F → List (Slot F)
  iter_mut m = m.slots

  -- `SlotMapIterMut::next`, on the slots that are left: those it passes over, and the value it
  -- gives, if any, with the slots behind it.
  unfoldable pub next : List (Slot F) → List (Slot F) × Option (F × List (Slot F))
  next [] = ([], none)
  next (occupied f ∷ rest) = ([], some (f, rest))
  next (next_free n ∷ rest) = (next_free n ∷ (next rest).0, (next rest).1)

  -- The body of a `for` loop over the iterator, which replaces each value by `g` of it, and goes on
  -- with the slots behind it. The slots passed over stay.
  unfoldable pub for_body :
      (List (Slot F) → List (Slot F))
      → (F → F)
      → List (Slot F) × Option (F × List (Slot F))
      → List (Slot F)
  for_body again g (passed, none) = passed
  for_body again g (passed, some (f, rest)) = passed ++ occupied (g f) ∷ again rest

  -- The slots that the loop leaves. Each round calls `next`; `left` bounds the rounds.
  unfoldable pub for_slots : ℕ → (F → F) → List (Slot F) → List (Slot F)
  for_slots zero g slots = slots
  for_slots (suc left) g slots = for_body (for_slots left g) g (next slots)

  -- The loop, which gives at most as many values as there are slots.
  unfoldable pub for_each_mut : (F → F) → SlotMap F → SlotMap F
  unfolding iter_mut
  for_each_mut g m = record m { slots = for_slots (suc (length m.slots)) g (iter_mut m) }

  unfoldable pub from_iter : List F → SlotMap F
  from_iter iter =
      let slots = map occupied iter in
      record { slots = slots; free_head = length slots; filled = length slots }
