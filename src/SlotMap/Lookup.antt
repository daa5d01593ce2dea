-- ===== src/SlotMap/Lookup.antt =====
-- The slot map as a finite map from keys to values: what each operation does to every lookup.
use futures_buffered.Base.{
  ℕ, ◌+◌, ◌<◌, ◌≡◌, refl, inl, inr, none, some, List, [], ◌∷◌, arith, length, get_elem?, set,
  get_elem?-set, first_or, ◌==◌, if◌then◌else◌, Option-cases, lt_of_get_elem?, sub_usize,
  length-set,
}
use futures_buffered.SlotMap.{
  occupied, next_free, SlotMap, Result, ok, err, insert_with, remove, get, put, capacity, len,
}
use futures_buffered.SlotMap.FreeList.{count-set_free}
use futures_buffered.SlotMap.Valid.{
  IsValid, inserted, inserted-IsValid, insert_with-room, insert_with-full, remove-occupied,
}

module _ {F : Type 0} where
  get_of_occupied :
      (m : SlotMap F) (key : ℕ) {f : F}
      → get_elem? m.slots key ≡ some (occupied f)
      → get m key ≡ some f
  unfolding get
  get_of_occupied m key e = rw e

  pub occupied_of_get :
      (m : SlotMap F) (key : ℕ) {f : F}
      → get m key ≡ some f
      → get_elem? m.slots key ≡ some (occupied f)
  unfolding get
  occupied_of_get m key e = elim (Option-cases (get_elem? m.slots key)) [
    | inl n ↦ absurd (ground arith)
    | inr (next_free n, o) ↦ absurd (ground arith)
    | inr (occupied f, o) ↦ ground arith
  ]

  pub get-put :
      (m : SlotMap F) (key : ℕ) (g : F) {f : F} (j : ℕ)
      → get m key ≡ some f
      → get (put m key g) j ≡ (if key == j then some g else get m j)
  unfolding get put
  get-put m key g j e =
      let lt = lt_of_get_elem? m.slots key (occupied_of_get m key e) in
      ground (arith, get_elem?-set m.slots key (occupied g) j lt)

  get-set_free :
      (m : SlotMap F) (key n j h p : ℕ)
      → key < length m.slots
      → get (record { slots = set m.slots key (next_free n); free_head = h; filled = p }) j
        ≡ (if key == j then none else get m j)
  unfolding get
  get-set_free m key n j h p lt = ground (arith, get_elem?-set m.slots key (next_free n) j lt)

  pub get-set_occupied :
      (m : SlotMap F) (key : ℕ) (f : F) (j h p : ℕ)
      → key < length m.slots
      → get (record { slots = set m.slots key (occupied f); free_head = h; filled = p }) j
        ≡ (if key == j then some f else get m j)
  unfolding get
  get-set_occupied m key f j h p lt = ground (arith, get_elem?-set m.slots key (occupied f) j lt)

  remove-vacant : (m : SlotMap F) (key : ℕ) → get m key ≡ none → remove m key ≡ m
  unfolding get remove
  remove-vacant m key e = elim (Option-cases (get_elem? m.slots key)) [
    | inl n ↦ rw n
    | inr (next_free n, o) ↦ rw o
    | inr (occupied f, o) ↦ absurd (ground arith)
  ]

  unchanged :
      (m : SlotMap F) (key j : ℕ)
      → remove m key ≡ m
      → get m key ≡ none
      → get (remove m key) j ≡ (if key == j then none else get m j)
  unchanged m key j same e = ground arith

  -- After `remove(key)` a lookup of `key` finds nothing, and every other lookup is as before.
  pub get-remove :
      (m : SlotMap F) (key j : ℕ) → get (remove m key) j ≡ (if key == j then none else get m j)
  get-remove m key j = elim (Option-cases (get_elem? m.slots key)) [
    | inl e ↦ unchanged m key j (remove-vacant m key (unfold get in rw e)) (unfold get in rw e)
    | inr (next_free n, e) ↦
        unchanged m key j (remove-vacant m key (unfold get in rw e)) (unfold get in rw e)
    | inr (occupied f, e) ↦ rw (remove-occupied m key e) (
        get-set_free m key m.free_head j key (sub_usize m.filled 1) (lt_of_get_elem? m.slots key e))
  ]

  -- Removing an occupied slot takes one from the number of values, and keeps the capacity.
  pub len-remove :
      (m : SlotMap F) (free : List ℕ) (key : ℕ) {f : F}
      → IsValid m free
      → get m key ≡ some f
      → (len (remove m key) + 1 ≡ len m) × (capacity (remove m key) ≡ capacity m)
  unfolding len capacity
  len-remove m free key v e =
      let o = occupied_of_get m key e in
      rw (remove-occupied m key o) (
        ground (arith, count-set_free m.slots key 0 o),
        length-set m.slots key (next_free m.free_head),
      )

  -- What a successful insertion of `x` under `key` makes of `m`.
  pub record Inserted (m : SlotMap F) (x : F) (key : ℕ) (m' : SlotMap F) : Type 0 where
    pub room : len m < capacity m
    pub in_range : key < capacity m
    pub vacant : get m key ≡ none
    pub lookup : (j : ℕ) → get m' j ≡ (if key == j then some x else get m j)
    pub count : len m' ≡ len m + 1
    pub same_capacity : capacity m' ≡ capacity m

module _ {F S Arg : Type 0} (m : SlotMap F) (s : S) (arg : Arg) (f : S → Arg → F × S) where
  -- The two ways in which `insert_with` may end, told apart by what it returns.
  abbrev pub Outcome : SlotMap F × S × Result ℕ Arg → Type 0
  Outcome (m', s', ok key) = Inserted m (f s arg).0 key m' × (s' ≡ (f s arg).1)
  Outcome (m', s', err a) = (len m ≡ capacity m) × (m' ≡ m) × (s' ≡ s) × (a ≡ arg)

  pub inserted-Inserted :
      (k : ℕ) (ks : List ℕ)
      → IsValid m (k ∷ ks)
      → Inserted m (f s arg).0 k (inserted m s arg f k ks)
  unfolding len capacity get
  inserted-Inserted k ks v =
      let lt = lt_of_get_elem? m.slots k v.linked.0 in
      record {
        room = omega arith;
        in_range = lt;
        vacant = rw v.linked.0;
        lookup = λ j.
            get-set_occupied m k (f s arg).0 j (first_or ks (length m.slots)) (m.filled + 1) lt;
        count = refl;
        same_capacity = length-set m.slots k (occupied (f s arg).0);
      }

  -- On a valid map `insert_with` never meets its unreachable branch. It fails exactly when the map
  -- is full, changing nothing and giving the argument back; otherwise it stores the closure's value
  -- under a key that was vacant, changes no other lookup, and counts it. The map stays valid.
  pub insert_with_lem :
      (free : List ℕ)
      → IsValid m free
      → (out : SlotMap F × S × Result ℕ Arg) × (free' : List ℕ) × (insert_with m s arg f ≡ some out)
        × IsValid out.0 free'
        × Outcome out
  insert_with_lem [] v = (
    (m, s, err arg),
    [],
    insert_with-full m s arg f v,
    v,
    (unfold len capacity in (omega arith), refl, refl, refl),
  )
  insert_with_lem (k ∷ ks) v = (
    (inserted m s arg f k ks, (f s arg).1, ok k),
    ks,
    insert_with-room m s arg f k ks v,
    inserted-IsValid m s arg f k ks v,
    (inserted-Inserted k ks v, refl),
  )
