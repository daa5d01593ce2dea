-- ===== src/SlotMap/FreeList.antt =====
-- The chain of free slots: which slots it runs through, and what a write does to it.
use futures_buffered.Base.{
  ℕ, zero, suc, ◌+◌, ◌<◌, ◌≡◌, refl, false, some, List, [], ◌∷◌, map, arith, length, get_elem?, set,
  get_elem?-set, length-set, range_from, first_or, has, Distinct,
}
use futures_buffered.SlotMap.{Slot, occupied, next_free}

module _ {F : Type 0} where
  -- Each slot of `ks` is free and names the next one of `ks`; the last names the capacity.
  abbrev pub Linked : List (Slot F) → List ℕ → Type 0
  Linked s [] = Unit
  Linked s (k ∷ ks) = (get_elem? s k ≡ some (next_free (first_or ks (length s)))) × Linked s ks

  abbrev pub occupied_count : List (Slot F) → ℕ
  occupied_count [] = 0
  occupied_count (occupied f ∷ s) = suc (occupied_count s)
  occupied_count (next_free n ∷ s) = occupied_count s

  pub occupied_count-le-length : (s : List (Slot F)) → (d : ℕ) × (length s ≡ d + occupied_count s)
  occupied_count-le-length [] = (0, omega arith)
  occupied_count-le-length (occupied f ∷ s) =
      let (d, e) = occupied_count-le-length s in (d, omega arith)
  occupied_count-le-length (next_free n ∷ s) =
      let (d, e) = occupied_count-le-length s in (suc d, omega arith)

  -- A write outside the chain leaves the chain.
  pub Linked-set :
      (s : List (Slot F)) (ks : List ℕ) (i : ℕ) (v : Slot F)
      → i < length s
      → has i ks ≡ false
      → Linked s ks
      → Linked (set s i v) ks
  Linked-set s [] i v h out l = tt
  Linked-set s (k ∷ ks) i v h out l = (
    ground (arith, get_elem?-set s i v k h, length-set s i v),
    Linked-set s ks i v h (ground arith) l.1,
  )

  -- An occupied slot is not in the chain.
  pub not-has_of_occupied :
      (s : List (Slot F)) (ks : List ℕ) (i : ℕ) {f : F}
      → get_elem? s i ≡ some (occupied f)
      → Linked s ks
      → has i ks ≡ false
  not-has_of_occupied s [] i e l = refl
  not-has_of_occupied s (k ∷ ks) i e l = ground (arith, not-has_of_occupied s ks i e l.1)

  pub count-set_occupied :
      (s : List (Slot F)) (i n : ℕ) (f : F)
      → get_elem? s i ≡ some (next_free n)
      → occupied_count (set s i (occupied f)) ≡ suc (occupied_count s)
  count-set_occupied [] i n f e = ground arith
  count-set_occupied (x ∷ s) zero n f e = ground arith
  count-set_occupied (occupied g ∷ s) (suc i) n f e = omega (arith, count-set_occupied s i n f e)
  count-set_occupied (next_free g ∷ s) (suc i) n f e = count-set_occupied s i n f e

  pub count-set_free :
      (s : List (Slot F)) (i n : ℕ) {f : F}
      → get_elem? s i ≡ some (occupied f)
      → suc (occupied_count (set s i (next_free n))) ≡ occupied_count s
  count-set_free [] i n e = ground arith
  count-set_free (x ∷ s) zero n e = ground arith
  count-set_free (occupied g ∷ s) (suc i) n e = omega (arith, count-set_free s i n e)
  count-set_free (next_free g ∷ s) (suc i) n e = count-set_free s i n e

  pub count-set_same :
      (s : List (Slot F)) (i : ℕ) (g : F) {f : F}
      → get_elem? s i ≡ some (occupied f)
      → occupied_count (set s i (occupied g)) ≡ occupied_count s
  count-set_same [] i g e = ground arith
  count-set_same (x ∷ s) zero g e = ground arith
  count-set_same (occupied h ∷ s) (suc i) g e = omega (arith, count-set_same s i g e)
  count-set_same (next_free n ∷ s) (suc i) g e = count-set_same s i g e

  pub count-from_iter : (xs : List F) → occupied_count (map occupied xs) ≡ length (map occupied xs)
  count-from_iter [] = refl
  count-from_iter (x ∷ xs) = omega (arith, count-from_iter xs)

module _ (F : Type 0) where
  pub count-new : (a n : ℕ) → occupied_count {F = F} (map next_free (range_from a n)) ≡ 0
  count-new a zero = refl
  count-new a (suc n) = count-new (suc a) n

  pub get_elem?-new :
      (a n i : ℕ)
      → i < n
      → get_elem? {A = Slot F} (map next_free (range_from a n)) i ≡ some (next_free (a + i))
  get_elem?-new a zero i h = absurd (omega arith)
  get_elem?-new a (suc n) zero h = ground arith
  get_elem?-new a (suc n) (suc i) h = ground (arith, get_elem?-new (suc a) n i (omega arith))

  -- Slots that each name the next one make one chain through all of them.
  pub Linked-range :
      (s : List (Slot F)) (a n : ℕ)
      → a + n ≡ length s
      → ((i : ℕ) → i < length s → get_elem? s i ≡ some (next_free (1 + i)))
      → Linked s (range_from a n)
  Linked-range s a zero e h = tt
  Linked-range s a (suc zero) e h = (ground (arith, h a), tt)
  Linked-range s a (suc (suc n)) e h =
      (ground (arith, h a), Linked-range s (suc a) (suc n) (omega arith) h)

pub has-range_from : (x a n : ℕ) → x < a → has x (range_from a n) ≡ false
has-range_from x a zero h = refl
has-range_from x a (suc n) h = ground (arith, has-range_from x (suc a) n (omega arith))

pub Distinct-range_from : (a n : ℕ) → Distinct (range_from a n)
Distinct-range_from a zero = tt
Distinct-range_from a (suc n) =
    (has-range_from a (suc a) n (omega arith), Distinct-range_from (suc a) n)
