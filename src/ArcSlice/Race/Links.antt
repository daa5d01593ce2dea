-- ===== src/ArcSlice/Race/Links.antt =====
-- The slots of the list in the order in which they became its head, where some links are missing.
use futures_buffered.Base.{
  ne_of_has, Distinct, inl, inr, Bool-cases, ℕ, ◌+◌, ◌<◌, ◌≡◌, refl, ap, true, false, some, List,
  [], ◌∷◌, ◌++◌, arith, length, has, ◌==◌, ◌&&◌, if◌then◌else◌,
}
use futures_buffered.ArcSlice.{ArcSlotInner, load_next, set_next}
use futures_buffered.ArcSlice.Slots.{lt_of_load_next, load_next-set_next}

-- A slot behind another one: the other one names it, or its producer has not come to that yet.
pub data Link : Type 0 where
  linked missing : ℕ → Link

abbrev pub slots : List Link → List ℕ
slots [] = []
slots (linked y ∷ ys) = y ∷ slots ys
slots (missing y ∷ ys) = y ∷ slots ys

-- The weight of the missing links, from slot `a` on.
abbrev pub gaps : (ℕ → ℕ → ℕ) → ℕ → List Link → ℕ
gaps w a [] = 0
gaps w a (linked y ∷ ys) = gaps w y ys
gaps w a (missing y ∷ ys) = w a y + gaps w y ys

-- 1 for the link from `p` to `i`, otherwise 0.
abbrev pub one_link : ℕ → ℕ → ℕ → ℕ → ℕ
one_link p i a y = if (p == a) && (i == y) then 1 else 0

pub slots-append : (ys : List Link) (i : ℕ) → slots (ys ++ missing i ∷ []) ≡ slots ys ++ i ∷ []
slots-append [] i = refl
slots-append (linked y ∷ ys) i = ap (λ zs. y ∷ zs) (slots-append ys i)
slots-append (missing y ∷ ys) i = ap (λ zs. y ∷ zs) (slots-append ys i)

-- A missing link starts at a slot of the list.
pub has-gap :
    (a : ℕ) (ys : List Link) (p i : ℕ) → 0 < gaps (one_link p i) a ys → has p (a ∷ slots ys) ≡ true
has-gap a [] p i h = absurd (omega arith)
has-gap a (linked y ∷ ys) p i h = ground (arith, has-gap y ys p i h)
has-gap a (missing y ∷ ys) p i h = elim (Bool-cases (p == a)) [
  | inl here ↦ ground arith
  | inr other ↦ ground (arith, has-gap y ys p i (ground arith))
]

module _ (end : ℕ) where
  -- From slot `a` the links lead to slot `b`, the head. A slot without a link names `end`.
  abbrev pub Leads : List ArcSlotInner → ℕ → List Link → ℕ → Type 0
  Leads s a [] b = (a ≡ b) × (load_next s a ≡ some end)
  Leads s a (linked y ∷ ys) b = (load_next s a ≡ some y) × Leads s y ys b
  Leads s a (missing y ∷ ys) b = (load_next s a ≡ some end) × Leads s y ys b

  pub has-head :
      (s : List ArcSlotInner) (a : ℕ) (ys : List Link) (b : ℕ)
      → Leads s a ys b
      → has b (a ∷ slots ys) ≡ true
  has-head s a [] b c = ground arith
  has-head s a (linked y ∷ ys) b c = ground (arith, has-head s y ys b c.1)
  has-head s a (missing y ∷ ys) b c = ground (arith, has-head s y ys b c.1)

  -- A write elsewhere leaves the links.
  pub Leads-set :
      (s : List ArcSlotInner) (a : ℕ) (ys : List Link) (b i v : ℕ)
      → i < length s
      → has i (a ∷ slots ys) ≡ false
      → Leads s a ys b
      → Leads (set_next s i v) a ys b
  Leads-set s a [] b i v h out c = (c.0, ground (arith, load_next-set_next s i v a h))
  Leads-set s a (linked y ∷ ys) b i v h out c =
      (ground (arith, load_next-set_next s i v a h), Leads-set s y ys b i v h (ground arith) c.1)
  Leads-set s a (missing y ∷ ys) b i v h out c =
      (ground (arith, load_next-set_next s i v a h), Leads-set s y ys b i v h (ground arith) c.1)

  -- A new head, whose link has been cleared and which the former one does not name yet.
  pub Leads-swap :
      (s : List ArcSlotInner) (a : ℕ) (ys : List Link) (b i : ℕ)
      → load_next s i ≡ some end
      → Leads s a ys b
      → Leads s a (ys ++ missing i ∷ []) i
  Leads-swap s a [] b i e c = (c.1, (refl, e))
  Leads-swap s a (linked y ∷ ys) b i e c = (c.0, Leads-swap s y ys b i e c.1)
  Leads-swap s a (missing y ∷ ys) b i e c = (c.0, Leads-swap s y ys b i e c.1)

  pub gaps-swap :
      (s : List ArcSlotInner) (w : ℕ → ℕ → ℕ) (a : ℕ) (ys : List Link) (b i : ℕ)
      → Leads s a ys b
      → gaps w a (ys ++ missing i ∷ []) ≡ w b i + gaps w a ys
  gaps-swap s w a [] b i c = ap (λ k. w k i + 0) c.0
  gaps-swap s w a (linked y ∷ ys) b i c = gaps-swap s w y ys b i c.1
  gaps-swap s w a (missing y ∷ ys) b i c = omega (arith, gaps-swap s w y ys b i c.1)

  -- The list once the link from `p` to `i` is written: the same slots, and that link no longer missing.
  unfoldable pub Closed : List ArcSlotInner → ℕ → List Link → ℕ → ℕ → ℕ → Type 0
  Closed s a ys b p i =
      (ys' : List Link) × (slots ys' ≡ slots ys)
      × Leads (set_next s p i) a ys' b
      × ((w : ℕ → ℕ → ℕ) → gaps w a ys ≡ w p i + gaps w a ys')

  close_here :
      (s : List ArcSlotInner) (a y : ℕ) (ys : List Link) (b : ℕ)
      → has a (y ∷ slots ys) ≡ false
      → Leads s a (missing y ∷ ys) b
      → Closed s a (missing y ∷ ys) b a y
  unfolding Closed
  close_here s a y ys b out c =
      let lt = lt_of_load_next s a c.0 in
      (
        linked y ∷ ys,
        refl,
        (ground (arith, load_next-set_next s a y a lt), Leads-set s y ys b a y lt out c.1),
        λ w. refl,
      )

  pub lt_of_Leads :
      (s : List ArcSlotInner) (a : ℕ) (ys : List Link) (b x : ℕ)
      → Leads s a ys b
      → has x (a ∷ slots ys) ≡ true
      → x < length s
  lt_of_Leads s a [] b x c h = ground (arith, lt_of_load_next s a c.1)
  lt_of_Leads s a (linked y ∷ ys) b x c h =
      ground (arith, lt_of_load_next s a c.0, lt_of_Leads s y ys b x c.1)
  lt_of_Leads s a (missing y ∷ ys) b x c h =
      ground (arith, lt_of_load_next s a c.0, lt_of_Leads s y ys b x c.1)

  -- A slot before the closed link keeps its `next`.
  load_next-before :
      (s : List ArcSlotInner) (a y : ℕ) (ys : List Link) (b p i v : ℕ)
      → p < length s
      → has p (y ∷ slots ys) ≡ true
      → has a (y ∷ slots ys) ≡ false
      → load_next s a ≡ some v
      → load_next (set_next s p i) a ≡ some v
  load_next-before s a y ys b p i v lt in_rest out e =
      let ne = ne_of_has p a (y ∷ slots ys) in_rest out in
      ground (arith, load_next-set_next s p i a lt)

  pub close_link :
      (s : List ArcSlotInner) (a : ℕ) (ys : List Link) (b p i : ℕ)
      → p < length s
      → Distinct (a ∷ slots ys)
      → Leads s a ys b
      → 0 < gaps (one_link p i) a ys
      → Closed s a ys b p i
  unfolding Closed
  close_link s a [] b p i lt d c h = absurd (omega arith)
  close_link s a (linked y ∷ ys) b p i lt d c h =
      let (ys', same, leads, less) = close_link s y ys b p i lt d.1 c.1 h in
      (
        linked y ∷ ys',
        ap (λ zs. y ∷ zs) same,
        (load_next-before s a y ys b p i y lt (has-gap y ys p i h) d.0 c.0, leads),
        less,
      )
  close_link s a (missing y ∷ ys) b p i lt d c h = elim (Bool-cases ((p == a) && (i == y))) [
    | inl here ↦
        let from : p ≡ a = ground arith in
        let to : i ≡ y = ground arith in rw (from, to) (close_here s a y ys b d.0 c)
    | inr other ↦
        let rest : 0 < gaps (one_link p i) y ys = ground (arith, h, other) in
        let (ys', same, leads, less) = close_link s y ys b p i lt d.1 c.1 rest in
        (
          missing y ∷ ys',
          ap (λ zs. y ∷ zs) same,
          (load_next-before s a y ys b p i end lt (has-gap y ys p i rest) d.0 c.0, leads),
          λ w. omega (arith, less w),
        )
  ]
