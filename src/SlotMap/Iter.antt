-- ===== src/SlotMap/Iter.antt =====
-- The iterator over the occupied slots, and the maps that `new` and `from_iter` build.
use futures_buffered.Base.{
  ◌∙◌, Option, ℕ, zero, suc, ◌<◌, ◌≡◌, refl, ap, none, some, List, [], ◌∷◌, map, arith, length,
  get_elem?, inl, inr, length-map, range_from, length-range_from, Option-cases, ◌>>=◌,
}
use mathlib.Core.Option
use futures_buffered.SlotMap.{
  for_body, value, Slot, occupied, next_free, SlotMap, new, get, next, iter_mut, for_slots,
  for_each_mut, from_iter, capacity, len,
}
use futures_buffered.SlotMap.FreeList.{Linked, occupied_count}
use futures_buffered.SlotMap.Valid.{IsValid}

module _ {F : Type 0} where
  -- The stored values, in the order of the slots.
  abbrev pub values : List (Slot F) → List F
  values [] = []
  values (occupied f ∷ s) = f ∷ values s
  values (next_free n ∷ s) = values s

  -- Running `next` until it ends, `fuel` times at most.
  abbrev pub drain : ℕ → List (Slot F) → List F
  drain zero s = []
  drain (suc fuel) s = elim (next s).1 [ none ↦ [] | some (f, rest) ↦ f ∷ drain fuel rest ]

  -- One call of the iterator yields the first stored value and leaves the others.
  next-values :
      (s : List (Slot F))
      → Option.map (λ p. p.0 ∷ values p.1) (next s).1
        ≡ (elim (values s) [ [] ↦ none | x ∷ xs ↦ some (x ∷ xs) ])
  unfolding next
  next-values [] = refl
  next-values (occupied f ∷ s) = refl
  next-values (next_free n ∷ s) = next-values s

  -- The iterator yields every stored value once, in the order of the slots, and then ends.
  pub drain-values : (s : List (Slot F)) (fuel : ℕ) → length s < fuel → drain fuel s ≡ values s
  unfolding next
  drain-values [] (suc fuel) h = refl
  drain-values (occupied f ∷ s) (suc fuel) h = ap (λ t. f ∷ t) (drain-values s fuel (omega arith))
  drain-values (next_free n ∷ s) (suc fuel) h = drain-values s (suc fuel) (omega arith)
  drain-values s zero h = absurd (omega arith)

  -- The slots, each value replaced by `g` of it.
  unfoldable pub replaced : (F → F) → List (Slot F) → List (Slot F)
  replaced g [] = []
  replaced g (occupied f ∷ s) = occupied (g f) ∷ replaced g s
  replaced g (next_free n ∷ s) = next_free n ∷ replaced g s

  -- A slot passed over stays in front.
  passed_over :
      (again : List (Slot F) → List (Slot F)) (g : F → F) (x : Slot F)
      (found : List (Slot F) × Option (F × List (Slot F)))
      → for_body again g (x ∷ found.0, found.1) ≡ x ∷ for_body again g found
  unfolding for_body
  passed_over again g x (passed, none) = refl
  passed_over again g x (passed, some p) = refl

  -- A loop that has rounds enough reaches every value.
  for_slots-replaced :
      (left : ℕ) (g : F → F) (s : List (Slot F))
      → length s < left
      → for_slots left g s ≡ replaced g s
  unfolding for_slots for_body next replaced
  for_slots-replaced (suc left) g [] h = refl
  for_slots-replaced (suc left) g (occupied f ∷ s) h =
      ap (λ t. occupied (g f) ∷ t) (for_slots-replaced left g s (omega arith))
  for_slots-replaced (suc left) g (next_free n ∷ s) h =
      passed_over (for_slots left g) g (next_free n) (next s)
      ∙ ap (λ t. next_free n ∷ t) (for_slots-replaced (suc left) g s (omega arith))
  for_slots-replaced zero g s h = absurd (omega arith)

  slots-for_each_mut : (g : F → F) (m : SlotMap F) → (for_each_mut g m).slots ≡ replaced g m.slots
  unfolding for_each_mut iter_mut
  slots-for_each_mut g m = for_slots-replaced (suc (length m.slots)) g m.slots (omega arith)

  length-replaced : (g : F → F) (s : List (Slot F)) → length (replaced g s) ≡ length s
  unfolding replaced
  length-replaced g [] = refl
  length-replaced g (occupied f ∷ s) = ap suc (length-replaced g s)
  length-replaced g (next_free n ∷ s) = ap suc (length-replaced g s)

  get-replaced :
      (g : F → F) (s : List (Slot F)) (j : ℕ)
      → get_elem? (replaced g s) j
        ≡ Option.map
            (λ slot. elim slot [ occupied f ↦ occupied (g f) | next_free n ↦ next_free n ])
            (get_elem? s j)
  unfolding replaced
  get-replaced g [] j = refl
  get-replaced g (occupied f ∷ s) zero = refl
  get-replaced g (next_free n ∷ s) zero = refl
  get-replaced g (occupied f ∷ s) (suc j) = get-replaced g s j
  get-replaced g (next_free n ∷ s) (suc j) = get-replaced g s j

  pub get-for_each_mut :
      (g : F → F) (m : SlotMap F) (j : ℕ) → get (for_each_mut g m) j ≡ Option.map g (get m j)
  unfolding get
  get-for_each_mut g m j = elim (Option-cases (get_elem? m.slots j)) [
    | inl e ↦ rw (slots-for_each_mut g m, get-replaced g m.slots j, e)
    | inr (occupied f, e) ↦ rw (slots-for_each_mut g m, get-replaced g m.slots j, e)
    | inr (next_free n, e) ↦ rw (slots-for_each_mut g m, get-replaced g m.slots j, e)
  ]

  count-replaced :
      (g : F → F) (s : List (Slot F)) → occupied_count (replaced g s) ≡ occupied_count s
  unfolding replaced
  count-replaced g [] = refl
  count-replaced g (occupied f ∷ s) = ap suc (count-replaced g s)
  count-replaced g (next_free n ∷ s) = count-replaced g s

  Linked-replaced :
      (g : F → F) (s : List (Slot F)) (ks : List ℕ) → Linked s ks → Linked (replaced g s) ks
  Linked-replaced g s [] l = tt
  Linked-replaced g s (k ∷ ks) l =
      (ground (arith, get-replaced g s k, length-replaced g s), Linked-replaced g s ks l.1)

  pub len-for_each_mut : (g : F → F) (m : SlotMap F) → len (for_each_mut g m) ≡ len m
  unfolding len for_each_mut
  len-for_each_mut g m = refl

  pub capacity-for_each_mut : (g : F → F) (m : SlotMap F) → capacity (for_each_mut g m) ≡ capacity m
  unfolding capacity
  capacity-for_each_mut g m = rw (slots-for_each_mut g m) (length-replaced g m.slots)

  pub for_each_mut-IsValid :
      (g : F → F) (m : SlotMap F) (free : List ℕ) → IsValid m free → IsValid (for_each_mut g m) free
  unfolding for_each_mut
  for_each_mut-IsValid g m free v =
      let same = slots-for_each_mut g m in
      let size = length-replaced g m.slots in
      let count = count-replaced g m.slots in
      record {
        head = ground arith;
        linked = rw same (Linked-replaced g m.slots free v.linked);
        distinct = v.distinct;
        total = ground arith;
        counted = ground arith;
        small = ground arith;
      }

  -- `from_iter` stores the items under their positions, and is full.
  pub get-from_iter : (iter : List F) (j : ℕ) → get (from_iter iter) j ≡ get_elem? iter j
  unfolding get from_iter
  get-from_iter [] j = refl
  get-from_iter (x ∷ xs) zero = refl
  get-from_iter (x ∷ xs) (suc j) = get-from_iter xs j

  pub len-from_iter :
      (iter : List F)
      → (len (from_iter iter) ≡ length iter) × (capacity (from_iter iter) ≡ length iter)
  unfolding len capacity from_iter
  len-from_iter iter = (length-map iter occupied, length-map iter occupied)

module _ (F : Type 0) where
  get-free :
      (a n j : ℕ)
      → (do slot ← get_elem? (map next_free (range_from a n)) j; value {F = F} slot) ≡ none
  unfolding value
  get-free a zero j = refl
  get-free a (suc n) zero = refl
  get-free a (suc n) (suc j) = get-free (suc a) n j

  -- A new map holds nothing.
  pub get-new : (n j : ℕ) → get (new {F = F} n) j ≡ none
  unfolding get new
  get-new n j = get-free 1 n j

  pub len-new : (n : ℕ) → (len (new {F = F} n) ≡ 0) × (capacity (new {F = F} n) ≡ n)
  unfolding len capacity new
  len-new n = (
    refl,
    omega (arith, length-map {B = Slot F} (range_from 1 n) next_free, length-range_from 1 n),
  )
