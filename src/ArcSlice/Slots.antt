-- ===== src/ArcSlice/Slots.antt =====
-- Reads after writes of the slots of an `ArcSlice`.
use futures_buffered.Base.{
  ℕ, zero, suc, ◌+◌, ◌<◌, ◌≡◌, refl, ap, some, List, [], ◌∷◌, ◌++◌, arith, length, if◌then◌else◌,
  ◌==◌,
}
use futures_buffered.ArcSlice.{
  ArcSlotInner, load_next, load_index, set_next, store_next, init_slots,
}

pub length-set_next : (s : List ArcSlotInner) (i v : ℕ) → length (set_next s i v) ≡ length s
unfolding set_next
length-set_next [] i v = refl
length-set_next (x ∷ s) zero v = refl
length-set_next (x ∷ s) (suc i) v = ap suc (length-set_next s i v)

pub load_next-set_next :
    (s : List ArcSlotInner) (i v j : ℕ)
    → i < length s
    → load_next (set_next s i v) j ≡ (if i == j then some v else load_next s j)
unfolding set_next load_next
load_next-set_next [] i v j h = absurd (omega arith)
load_next-set_next (x ∷ s) zero v zero h = refl
load_next-set_next (x ∷ s) zero v (suc j) h = ground arith
load_next-set_next (x ∷ s) (suc i) v zero h = ground arith
load_next-set_next (x ∷ s) (suc i) v (suc j) h =
    ground (arith, load_next-set_next s i v j (omega arith))

pub load_index-set_next :
    (s : List ArcSlotInner) (i v j : ℕ) → load_index (set_next s i v) j ≡ load_index s j
unfolding set_next load_index
load_index-set_next [] i v j = refl
load_index-set_next (x ∷ s) zero v zero = refl
load_index-set_next (x ∷ s) zero v (suc j) = refl
load_index-set_next (x ∷ s) (suc i) v zero = refl
load_index-set_next (x ∷ s) (suc i) v (suc j) = load_index-set_next s i v j

pub store_next_lem :
    (s : List ArcSlotInner) (i v : ℕ) → i < length s → store_next s i v ≡ some (set_next s i v)
unfolding store_next
store_next_lem s i v h = ground arith

pub lt_of_load_next :
    (s : List ArcSlotInner) (i : ℕ) {v : ℕ} → load_next s i ≡ some v → i < length s
unfolding load_next
lt_of_load_next [] i e = ground arith
lt_of_load_next (x ∷ s) zero e = omega arith
lt_of_load_next (x ∷ s) (suc i) e = omega (arith, lt_of_load_next s i e)

-- What `ArcSlice::new` writes, and the slot behind that it leaves unwritten.
pub length-init_slots : (n from k : ℕ) → length (init_slots n from k) ≡ k
unfolding init_slots
length-init_slots n from zero = refl
length-init_slots n from (suc k) = ap suc (length-init_slots n (suc from) k)

pub load_index-init :
    (n from k : ℕ) (rest : List ArcSlotInner) (i : ℕ)
    → i < k
    → load_index (init_slots n from k ++ rest) i ≡ some (from + i)
unfolding init_slots load_index
load_index-init n from zero rest i h = absurd (omega arith)
load_index-init n from (suc k) rest zero h = ground arith
load_index-init n from (suc k) rest (suc i) h =
    ground (arith, load_index-init n (suc from) k rest i (omega arith))

pub load_next-init_end :
    (n from k : ℕ) (x : ArcSlotInner) → load_next (init_slots n from k ++ x ∷ []) k ≡ x.next
unfolding init_slots load_next
load_next-init_end n from zero x = refl
load_next-init_end n from (suc k) x = load_next-init_end n (suc from) k x
