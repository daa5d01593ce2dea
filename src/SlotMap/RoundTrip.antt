-- ===== src/SlotMap/RoundTrip.antt =====
-- An insertion and the removal of its key.
use futures_buffered.Base.{ℕ, ◌<◌, ◌≡◌, ◌∙◌, some, List, [], ◌∷◌, arith}
use futures_buffered.SlotMap.{SlotMap, ok, insert_with, remove, get, capacity, len}
use futures_buffered.SlotMap.Valid.{
  IsValid, inserted, inserted-IsValid, insert_with-room, remove-occupied, removed-IsValid,
}
use futures_buffered.SlotMap.Lookup.{inserted-Inserted, get-remove, len-remove, occupied_of_get}

full_of_nil : {F : Type 0} (m : SlotMap F) → IsValid m [] → len m ≡ capacity m
unfolding len capacity
full_of_nil m v = omega (arith, v.total)

module _ {F S Arg : Type 0} (m : SlotMap F) (s : S) (arg : Arg) (f : S → Arg → F × S) where
  -- On a valid map with a free slot `insert_with` gives a key, and removing that key brings back the
  -- map that was: every lookup, the number of values, the capacity, and the list of free slots, in its
  -- order, are as before.
  pub insert_with-remove :
      (free : List ℕ)
      → IsValid m free
      → len m < capacity m
      → (m' : SlotMap F) × (key : ℕ) × (insert_with m s arg f ≡ some (m', (f s arg).1, ok key))
        × ((j : ℕ) → get (remove m' key) j ≡ get m j)
        × (len (remove m' key) ≡ len m)
        × (capacity (remove m' key) ≡ capacity m)
        × IsValid (remove m' key) free
  insert_with-remove [] v room = absurd (omega (arith, full_of_nil m v))
  insert_with-remove (k ∷ ks) v room =
      let m' = inserted m s arg f k ks in
      let ins = inserted-Inserted m s arg f k ks v in
      let valid = inserted-IsValid m s arg f k ks v in
      let stored : get m' k ≡ some (f s arg).0 = ground (arith, ins.lookup k) in
      let o = occupied_of_get m' k stored in
      let (count, size) = len-remove m' ks k valid stored in
      (
        m',
        k,
        insert_with-room m s arg f k ks v,
        λ j. ground (arith, get-remove m' k j, ins.lookup j, ins.vacant),
        omega (arith, count, ins.count),
        size ∙ ins.same_capacity,
        rw (remove-occupied m' k o) (removed-IsValid m' ks k (f s arg).0 valid o),
      )
