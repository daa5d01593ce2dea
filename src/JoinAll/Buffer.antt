-- ===== src/JoinAll/Buffer.antt =====
-- The output buffer, entry by entry, and the slots of the queue that stand for its entries.
use futures_buffered.Base.{
  inr, Option-cases, suc, zero, inl, arith, none, some, Option, ℕ, ◌+◌, ◌<◌, ◌≡◌, refl, ap, List,
  [], ◌∷◌, true, length, get_elem?, lt→ltb, lt_of_get_elem?, set,
}
use mathlib.Core.Path.{subst}
use mathlib.Core.Option.{some-injective}
use futures_buffered.Base.{sym}
use futures_buffered.ArcSlice.Fifo.{Front}
use futures_buffered.SlotMap
use futures_buffered.SlotMap.{SlotMap, Slot, occupied, next_free}
use futures_buffered.SlotMap.FreeList.{occupied_count}
use futures_buffered.SlotMap.Lookup.{occupied_of_get}
use futures_buffered.UnorderedBounded.{FuturesUnorderedBounded, capacity, len}
use futures_buffered.UnorderedBounded.Valid.{IsValid, is_some}
use futures_buffered.JoinAll.{uninit, write, assume_init}

pub length-uninit : (O : Type 0) (n : ℕ) → length (uninit {O = O} n) ≡ n
unfolding uninit
length-uninit O zero = refl
length-uninit O (suc n) = ap suc (length-uninit O n)

module _ {O : Type 0} where
  -- Entry `i` was written, and satisfies `R` with its position.
  abbrev pub WrittenAt : (ℕ → O → Type 0) → List (Option O) → ℕ → Type 0
  WrittenAt R output i = (x : O) × (get_elem? output i ≡ some (some x)) × R i x

  -- Every entry of the list satisfies `R` with its position.
  abbrev pub AllAt : (ℕ → O → Type 0) → List O → Type 0
  AllAt R v = (i : ℕ) (x : O) → get_elem? v i ≡ some x → R i x

  pub write_lem :
      (output : List (Option O)) (i : ℕ) (x : O)
      → i < length output
      → write output i x ≡ some (set output i (some x))
  unfolding write
  write_lem output i x h = rw (lt→ltb i (length output) h) refl

  AllAt-cons :
      (R : ℕ → O → Type 0) (x : O) (v : List O) → R 0 x → AllAt (λ i. R (suc i)) v → AllAt R (x ∷ v)
  AllAt-cons R x v r a zero y e = subst (R 0) (some-injective x y e) r
  AllAt-cons R x v r a (suc i) y e = a i y e

  -- A buffer that is written throughout can be read.
  pub assume_init_lem :
      (R : ℕ → O → Type 0) (output : List (Option O))
      → ((i : ℕ) → i < length output → WrittenAt R output i)
      → (v : List O) × (assume_init output ≡ some v) × (length v ≡ length output) × AllAt R v
  unfolding assume_init
  assume_init_lem R [] h = ([], refl, refl, λ i x e. absurd (ground arith))
  assume_init_lem R (none ∷ output) h = let (y, bad, r) = h 0 (omega arith) in absurd (ground arith)
  assume_init_lem R (some x ∷ output) h =
      let (v, e, l, a) =
        assume_init_lem (λ i. R (suc i)) output (λ i lt. h (suc i) (omega arith)) in
      let (y, same, r) = h 0 (omega arith) in
      (
        x ∷ v,
        rw e,
        ap suc l,
        AllAt-cons R x v (subst (R 0) (sym (some-injective x y (some-injective _ _ same))) r) a,
      )

module _ {F : Type 0} where
  -- A slot is vacant on both sides, or on neither.
  pub none_of_same : (o o' : Option F) → is_some o ≡ is_some o' → o ≡ none → o' ≡ none
  none_of_same o none s e = refl
  none_of_same o (some f) s e = absurd (ground arith)

  pub lt_of_get :
      (m : SlotMap F) (i : ℕ) → is_some (SlotMap.get m i) ≡ true → i < SlotMap.capacity m
  unfolding SlotMap.capacity
  lt_of_get m i s = elim (Option-cases (SlotMap.get m i)) [
    | inl e ↦ absurd (ground arith)
    | inr (f, e) ↦ lt_of_get_elem? m.slots i (occupied_of_get m i e)
  ]

  vacant_of_count :
      (slots : List (Slot F)) (i : ℕ) {f : F}
      → occupied_count slots ≡ 0
      → get_elem? slots i ≡ some (occupied f)
      → ⊥
  vacant_of_count [] i c e = ground arith
  vacant_of_count (occupied g ∷ slots) i c e = omega arith
  vacant_of_count (next_free n ∷ slots) zero c e = ground arith
  vacant_of_count (next_free n ∷ slots) (suc i) c e = vacant_of_count slots i c e

  occupied_of_count :
      (slots : List (Slot F))
      → 0 < occupied_count slots
      → (i : ℕ) × (f : F) × (get_elem? slots i ≡ some (occupied f))
  occupied_of_count [] c = absurd (omega arith)
  occupied_of_count (occupied g ∷ slots) c = (0, g, refl)
  occupied_of_count (next_free n ∷ slots) c =
      let (i, f, e) = occupied_of_count slots c in (suc i, f, e)

  -- With a value some slot is occupied.
  pub get_of_value :
      (m : SlotMap F) (free : List ℕ)
      → SlotMap.Valid.IsValid m free
      → 0 < SlotMap.len m
      → (i : ℕ) × (f : F) × (SlotMap.get m i ≡ some f)
  unfolding SlotMap.len SlotMap.get SlotMap.get_slot SlotMap.value
  get_of_value m free v h =
      let (i, f, e) = occupied_of_count m.slots (omega (arith, v.counted)) in (i, f, rw e)

  -- Without a value every slot is vacant.
  pub get_of_no_value :
      (m : SlotMap F) (free : List ℕ) (i : ℕ)
      → SlotMap.Valid.IsValid m free
      → SlotMap.len m ≡ 0
      → SlotMap.get m i ≡ none
  unfolding SlotMap.len
  get_of_no_value m free i v h = elim (Option-cases (SlotMap.get m i)) [
    | inl e ↦ e
    | inr (f, e) ↦
        absurd (vacant_of_count m.slots i (omega (arith, v.counted)) (occupied_of_get m i e))
  ]

-- The slots that are not free are counted.
pub capacity_of :
    {W F : Type 0} {front : Front} {xs free : List ℕ} (q : FuturesUnorderedBounded W F)
    → IsValid q front xs free
    → len q + length free ≡ capacity q
unfolding len capacity SlotMap.len SlotMap.capacity
capacity_of q v = v.slots.total
