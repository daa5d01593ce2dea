-- ===== src/ArcSlice/Chain.antt =====
-- Chains of slots through their `next` fields.
use futures_buffered.Base.{
  ℕ, ◌<◌, ◌≡◌, refl, true, false, some, List, [], ◌∷◌, ◌++◌, arith, length, has, Distinct,
  ne_of_has,
}
use futures_buffered.ArcSlice.{ArcSlotInner, load_next, set_next}
use futures_buffered.ArcSlice.Slots.{load_next-set_next, length-set_next, lt_of_load_next}

module _ (end : ℕ) where
  -- From slot `a` the `next` fields lead through the slots `ys` to slot `b`, whose own is `end`.
  abbrev pub Chain : List ArcSlotInner → ℕ → List ℕ → ℕ → Type 0
  Chain s a [] b = (a ≡ b) × (load_next s a ≡ some end)
  Chain s a (y ∷ ys) b = (load_next s a ≡ some y) × Chain s y ys b

  pub lt_of_Chain :
      (s : List ArcSlotInner) (a : ℕ) (ys : List ℕ) (b : ℕ) → Chain s a ys b → a < length s
  lt_of_Chain s a [] b c = lt_of_load_next s a c.1
  lt_of_Chain s a (y ∷ ys) b c = lt_of_load_next s a c.0

  pub last-lt_of_Chain :
      (s : List ArcSlotInner) (a : ℕ) (ys : List ℕ) (b : ℕ) → Chain s a ys b → b < length s
  last-lt_of_Chain s a [] b c = omega (arith, lt_of_load_next s a c.1)
  last-lt_of_Chain s a (y ∷ ys) b c = last-lt_of_Chain s y ys b c.1

  pub has-last :
      (s : List ArcSlotInner) (a : ℕ) (ys : List ℕ) (b : ℕ) → Chain s a ys b → has b (a ∷ ys) ≡ true
  has-last s a [] b c = ground arith
  has-last s a (y ∷ ys) b c = ground (arith, has-last s y ys b c.1)

  -- The last slot names `end`.
  pub load_next-last :
      (s : List ArcSlotInner) (a : ℕ) (ys : List ℕ) (b : ℕ)
      → Chain s a ys b
      → load_next s b ≡ some end
  load_next-last s a [] b c = ground arith
  load_next-last s a (y ∷ ys) b c = load_next-last s y ys b c.1

  -- A write elsewhere leaves the chain.
  pub Chain-set :
      (s : List ArcSlotInner) (a : ℕ) (ys : List ℕ) (b i v : ℕ)
      → i < length s
      → has i (a ∷ ys) ≡ false
      → Chain s a ys b
      → Chain (set_next s i v) a ys b
  Chain-set s a [] b i v h out c = (c.0, ground (arith, load_next-set_next s i v a h))
  Chain-set s a (y ∷ ys) b i v h out c =
      (ground (arith, load_next-set_next s i v a h), Chain-set s y ys b i v h (ground arith) c.1)

  -- The two writes of `push` put a slot behind the last one.
  pub Chain-snoc :
      (s : List ArcSlotInner) (a : ℕ) (ys : List ℕ) (b i : ℕ)
      → i < length s
      → has i (a ∷ ys) ≡ false
      → Distinct (a ∷ ys)
      → Chain s a ys b
      → Chain (set_next (set_next s i end) b i) a (ys ++ i ∷ []) i
  Chain-snoc s a [] b i h out d c =
      let lt = lt_of_load_next s a c.1 in
      let size = length-set_next s i end in
      let at_a = load_next-set_next (set_next s i end) b i a (omega arith) in
      let at_i = load_next-set_next (set_next s i end) b i i (omega arith) in
      (ground arith, (refl, ground (arith, load_next-set_next s i end i h)))
  Chain-snoc s a (y ∷ ys) b i h out d c =
      let lt = last-lt_of_Chain s y ys b c.1 in
      let size = length-set_next s i end in
      let last = has-last s y ys b c.1 in
      let ne = ne_of_has b a (y ∷ ys) last d.0 in
      (
        ground (
          arith,
          load_next-set_next (set_next s i end) b i a (omega arith),
          load_next-set_next s i end a h,
        ),
        Chain-snoc s y ys b i h (ground arith) d.1 c.1,
      )
