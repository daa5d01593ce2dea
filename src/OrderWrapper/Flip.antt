-- ===== src/OrderWrapper/Flip.antt =====
-- Flipping the top bit of every index keeps the balance and the places.
use mathlib.Core.Option
use mathlib.Core.List.Permᴰ.{Permᴰ}
use futures_buffered.Base.{
  inl, inr, Bool-cases, Option-cases, false, ltb, ℕ, zero, suc, ◌<◌, ◌≡◌, refl, sym, ap, ◌∙◌,
  Option, none, some, List, [], ◌∷◌, map, arith, All, weigh-perm, usize_mod, one_at, occurrences,
}
use futures_buffered.SlotMap
use futures_buffered.SlotMap.{SlotMap}
use futures_buffered.SlotMap.Iter.{get-for_each_mut, capacity-for_each_mut}
use futures_buffered.OrderWrapper.{OrderWrapper, flip_msb, flip_entry}
use futures_buffered.OrderWrapper.Window.{in_window, in_window-flip, flip-flip, flip_small}
use futures_buffered.OrderWrapper.Held.{held, task_index, index_of}
use futures_buffered.OrderWrapper.Balance.{weight, Balanced, waits}

-- Below 2^64 the flipped value counts at `i` what the value counts at the flip of `i`.
one_at-flip :
    (a i : ℕ)
    → a < usize_mod
    → i < usize_mod
    → one_at (some (flip_msb a)) i ≡ one_at (some a) (flip_msb i)
one_at-flip a i h k = ground arith

one_at-flip_high :
    (a i : ℕ) → a < usize_mod → ltb i usize_mod ≡ false → one_at (some (flip_msb a)) i ≡ 0
one_at-flip_high a i h k = ground arith

-- The values of `f` are below 2^64.
abbrev pub Small : (ℕ → Option ℕ) → Type 0
Small f = (j a : ℕ) → f j ≡ some a → a < usize_mod

-- `g` is `f` with its values flipped.
abbrev pub Flipped : (ℕ → Option ℕ) → (ℕ → Option ℕ) → Type 0
Flipped f g = (j : ℕ) → g j ≡ Option.map flip_msb (f j)

occurrences-flip :
    (n : ℕ) (f g : ℕ → Option ℕ) (i : ℕ)
    → Small f
    → Flipped f g
    → i < usize_mod
    → occurrences n g i ≡ occurrences n f (flip_msb i)
occurrences-flip zero f g i s e h = refl
occurrences-flip (suc n) f g i s e h =
    let rest = occurrences-flip n f g i s e h in
    elim (Option-cases (f n)) [
      | inl out ↦ rw (e n, out) (omega (arith, rest))
      | inr (a, stored) ↦ rw (e n, stored) (omega (arith, rest, one_at-flip a i (s n a stored) h))
    ]

occurrences-flip_high :
    (n : ℕ) (f g : ℕ → Option ℕ) (i : ℕ)
    → Small f
    → Flipped f g
    → ltb i usize_mod ≡ false
    → occurrences n g i ≡ 0
occurrences-flip_high zero f g i s e h = refl
occurrences-flip_high (suc n) f g i s e h =
    let rest = occurrences-flip_high n f g i s e h in
    elim (Option-cases (f n)) [
      | inl out ↦ rw (e n, out) (omega (arith, rest))
      | inr (a, stored) ↦
          rw (e n, stored) (omega (arith, rest, one_at-flip_high a i (s n a stored) h))
    ]

module _ {O : Type 0} where
  abbrev pub SmallIndex : OrderWrapper O → Type 0
  SmallIndex o = o.index < usize_mod

  waits-flip :
      (es : List (OrderWrapper O)) (i : ℕ)
      → All SmallIndex es
      → i < usize_mod
      → waits (map flip_entry es) i ≡ waits es (flip_msb i)
  unfolding flip_entry
  waits-flip [] i s h = refl
  waits-flip (e ∷ es) i s h = omega (arith, waits-flip es i s.1 h, one_at-flip e.index i s.0 h)

  waits-flip_high :
      (es : List (OrderWrapper O)) (i : ℕ)
      → All SmallIndex es
      → ltb i usize_mod ≡ false
      → waits (map flip_entry es) i ≡ 0
  unfolding flip_entry
  waits-flip_high [] i s h = refl
  waits-flip_high (e ∷ es) i s h =
      omega (arith, waits-flip_high es i s.1 h, one_at-flip_high e.index i s.0 h)

  -- If the futures' indices are flipped and the outputs' too, the balance is kept from the flipped
  -- first index on.
  balance-flip :
      (size : ℕ) (f g : ℕ → Option ℕ) (es : List (OrderWrapper O)) (k n : ℕ)
      → Small f
      → Flipped f g
      → All SmallIndex es
      → k < usize_mod
      → Balanced (occurrences size f) es k n
      → Balanced (occurrences size g) (map flip_entry es) (flip_msb k) n
  balance-flip size f g es k n s e small h b i = elim (Bool-cases (ltb i usize_mod)) [
    | inl low ↦
        let range : i < usize_mod = ground arith in
        let window : in_window (flip_msb k) n i ≡ in_window k n (flip_msb i) =
          ap (in_window (flip_msb k) n) (sym (flip-flip i range))
          ∙ in_window-flip k n (flip_msb i) h (flip_small i range) in
        omega (
          arith,
          occurrences-flip size f g i s e range,
          waits-flip es i small range,
          window,
          b (flip_msb i),
        )
    | inr high ↦
        let outside : in_window (flip_msb k) n i ≡ 0 = ground arith in
        omega (
          arith,
          occurrences-flip_high size f g i s e high,
          waits-flip_high es i small high,
          outside,
        )
  ]

module _ {T : Type 0} where
  task_index-flip :
      (m : SlotMap (OrderWrapper T))
      → Flipped (task_index m) (task_index (SlotMap.for_each_mut flip_entry m))
  unfolding flip_entry
  task_index-flip m j = ap index_of (get-for_each_mut flip_entry m j) ∙ of_option (SlotMap.get m j)
    where
      of_option :
          (o : Option (OrderWrapper T))
          → index_of (Option.map flip_entry o) ≡ Option.map flip_msb (index_of o)
      of_option none = refl
      of_option (some t) = refl

-- The balance after housekeeping.
pub balance-housekeep :
    {T O : Type 0} (m : SlotMap (OrderWrapper T)) (es es' : List (OrderWrapper O)) (k n : ℕ)
    → Small (task_index m)
    → All SmallIndex es
    → k < usize_mod
    → Permᴰ es' (map flip_entry es)
    → Balanced (held m) es k n
    → Balanced (held (SlotMap.for_each_mut flip_entry m)) es' (flip_msb k) n
balance-housekeep m es es' k n s small h p b i =
    let flipped =
      balance-flip (SlotMap.capacity m) (task_index m)
        (task_index (SlotMap.for_each_mut flip_entry m)) es k n s (task_index-flip m) small h b i in
    rw (capacity-for_each_mut flip_entry m) (omega (arith, flipped, weigh-perm (weight i) p))
