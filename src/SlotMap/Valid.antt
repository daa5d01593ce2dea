-- ===== src/SlotMap/Valid.antt =====
-- The invariant of a slot map, and that every operation keeps it.
use futures_buffered.Base.{
  ℕ, zero, suc, ◌+◌, ◌<◌, ◌≡◌, refl, sym, none, some, List, [], ◌∷◌, map, arith, length, get_elem?,
  set, inl, inr, length-set, length-map, range_from, length-range_from, first_or, Distinct,
  get_elem?_beyond, sub_usize, Option-cases, lt_of_get_elem?, get_elem?-set, usize_mod,
}
use futures_buffered.SlotMap.{
  Slot, occupied, next_free, SlotMap, ok, err, new, insert_with, remove, get, put, from_iter,
}
use futures_buffered.SlotMap.FreeList.{
  Linked, occupied_count, Linked-set, not-has_of_occupied, count-set_occupied, count-set_free,
  count-set_same, count-from_iter, count-new, get_elem?-new, Linked-range, Distinct-range_from,
}

module _ {F : Type 0} where
  -- `free` is the chain of free slots from `free_head` on: it holds each free slot once, and
  -- `filled` counts the others.
  pub record IsValid (m : SlotMap F) (free : List ℕ) : Type 0 where
    pub head : m.free_head ≡ first_or free (length m.slots)
    pub linked : Linked m.slots free
    pub distinct : Distinct free
    pub total : m.filled + length free ≡ length m.slots
    pub counted : m.filled ≡ occupied_count m.slots
    pub small : length m.slots < usize_mod

  pub new-IsValid : (n : ℕ) → n < usize_mod → IsValid (new {F = F} n) (range_from 0 n)
  unfolding new
  new-IsValid n h =
      let slots : List (Slot F) = map next_free (range_from 1 n) in
      let size : length slots ≡ n =
        omega (arith, length-map {B = Slot F} (range_from 1 n) next_free, length-range_from 1 n) in
      record {
        head = new-head n size;
        linked =
            Linked-range F slots 0 n (omega arith) (λ i lt. get_elem?-new F 1 n i (omega arith));
        distinct = Distinct-range_from 0 n;
        total = omega (arith, length-range_from 0 n);
        counted = sym (count-new F 1 n);
        small = omega arith;
      }
    where
      new-head : (n : ℕ) {l : ℕ} → l ≡ n → 0 ≡ first_or (range_from 0 n) l
      new-head zero e = sym e
      new-head (suc n) e = refl

  pub from_iter-IsValid : (iter : List F) → length iter < usize_mod → IsValid (from_iter iter) []
  unfolding from_iter
  from_iter-IsValid iter h = record {
    head = refl;
    linked = tt;
    distinct = tt;
    total = omega arith;
    counted = sym (count-from_iter iter);
    small = omega (arith, length-map {B = Slot F} iter occupied);
  }

  -- The free slot at the head of the chain is where a value goes.
  pub slot-free_head :
      (m : SlotMap F) (k : ℕ) (ks : List ℕ)
      → IsValid m (k ∷ ks)
      → get_elem? m.slots m.free_head ≡ some (next_free (first_or ks (length m.slots)))
  slot-free_head m k ks v = ground arith

  pub slot-free_head_full : (m : SlotMap F) → IsValid m [] → get_elem? m.slots m.free_head ≡ none
  slot-free_head_full m v = get_elem?_beyond m.slots m.free_head (sym v.head)

  -- What `remove` leaves where the slot was occupied.
  abbrev pub removed : SlotMap F → ℕ → SlotMap F
  removed m key = record {
    slots = set m.slots key (next_free m.free_head);
    free_head = key;
    filled = sub_usize m.filled 1;
  }

  pub remove-occupied :
      (m : SlotMap F) (key : ℕ) {f : F}
      → get_elem? m.slots key ≡ some (occupied f)
      → remove m key ≡ removed m key
  unfolding remove
  remove-occupied m key e = rw e

  pub removed-IsValid :
      (m : SlotMap F) (free : List ℕ) (key : ℕ) (f : F)
      → IsValid m free
      → get_elem? m.slots key ≡ some (occupied f)
      → IsValid (removed m key) (key ∷ free)
  removed-IsValid m free key f v e =
      let lt = lt_of_get_elem? m.slots key e in
      let out = not-has_of_occupied m.slots free key e v.linked in
      let size = length-set m.slots key (next_free m.free_head) in
      let fewer = count-set_free m.slots key m.free_head e in
      record {
        head = refl;
        linked = (
          ground (arith, get_elem?-set m.slots key (next_free m.free_head) key lt),
          Linked-set m.slots free key (next_free m.free_head) lt out v.linked,
        );
        distinct = (out, v.distinct);
        total = ground arith;
        counted = ground arith;
        small = ground arith;
      }

  -- A removal keeps the invariant, and puts the slot at the head of the chain of free slots, if it
  -- was occupied.
  pub remove-IsValid :
      (m : SlotMap F) (free : List ℕ) (key : ℕ)
      → IsValid m free
      → IsValid (remove m key) (elim (get m key) [ none ↦ free | some _ ↦ key ∷ free ])
  unfolding remove get
  remove-IsValid m free key v = elim (Option-cases (get_elem? m.slots key)) [
    | inl e ↦ rw e v
    | inr (next_free n, e) ↦ rw e v
    | inr (occupied f, e) ↦ rw e (removed-IsValid m free key f v e)
  ]

  -- A write back to an occupied slot keeps the invariant.
  pub put-IsValid :
      (m : SlotMap F) (free : List ℕ) (key : ℕ) (g : F) {f : F}
      → IsValid m free
      → get m key ≡ some f
      → IsValid (put m key g) free
  unfolding put get
  put-IsValid m free key g v e = elim (Option-cases (get_elem? m.slots key)) [
    | inl n ↦ absurd (ground arith)
    | inr (next_free n, o) ↦ absurd (ground arith)
    | inr (occupied f, o) ↦
        let lt = lt_of_get_elem? m.slots key o in
        let out = not-has_of_occupied m.slots free key o v.linked in
        let size = length-set m.slots key (occupied g) in
        let same = count-set_same m.slots key g o in
        record {
          head = ground arith;
          linked = Linked-set m.slots free key (occupied g) lt out v.linked;
          distinct = v.distinct;
          total = ground arith;
          counted = ground arith;
          small = ground arith;
        }
  ]

module _ {F S Arg : Type 0} (m : SlotMap F) (s : S) (arg : Arg) (f : S → Arg → F × S) where
  -- What `insert_with` leaves when slot `k` heads the chain of free slots, and `ks` follow it.
  abbrev pub inserted : ℕ → List ℕ → SlotMap F
  inserted k ks = record {
    slots = set m.slots k (occupied (f s arg).0);
    free_head = first_or ks (length m.slots);
    filled = m.filled + 1;
  }

  pub insert_with-room :
      (k : ℕ) (ks : List ℕ)
      → IsValid m (k ∷ ks)
      → insert_with m s arg f ≡ some (inserted k ks, (f s arg).1, ok k)
  unfolding insert_with
  insert_with-room k ks v = ground (arith, v.linked.0)

  pub insert_with-full : IsValid m [] → insert_with m s arg f ≡ some (m, s, err arg)
  unfolding insert_with
  insert_with-full v = rw (slot-free_head_full m v)

  pub inserted-IsValid : (k : ℕ) (ks : List ℕ) → IsValid m (k ∷ ks) → IsValid (inserted k ks) ks
  inserted-IsValid k ks v =
      let lt = lt_of_get_elem? m.slots k v.linked.0 in
      let size = length-set m.slots k (occupied (f s arg).0) in
      let more =
        count-set_occupied m.slots k (first_or ks (length m.slots)) (f s arg).0 v.linked.0 in
      record {
        head = ground arith;
        linked = Linked-set m.slots ks k (occupied (f s arg).0) lt v.distinct.0 v.linked.1;
        distinct = v.distinct.1;
        total = ground arith;
        counted = ground arith;
        small = ground arith;
      }
