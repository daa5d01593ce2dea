-- ===== src/OrderWrapper/ListHeap.antt =====
-- A heap on which the theorems are run: a list, whose element with the least index is given first.
use Prim.Native.Nat.{Ordering}
use mathlib.Core.List.Permᴰ.{Permᴰ}
use mathlib.Core.List.Permᴰ
use mathlib.Core.Option.{some-injective}
use mathlib.Core.Path.{subst}
use futures_buffered.Base.{
  inl, inr, Bool-cases, if◌then◌else◌, leb, ℕ, ◌≤◌, ◌≡◌, ◌≢◌, refl, sym, Option, none, some, List,
  [], ◌∷◌, length, arith, All,
}
use futures_buffered.OrderWrapper.{OrderWrapper, BinaryHeap, cmp}

module _ {O : Type 0} where
  abbrev pub smaller : OrderWrapper O → Option (OrderWrapper O) → OrderWrapper O
  smaller e none = e
  smaller e (some m) = if leb e.index m.index then e else m

  abbrev pub least : List (OrderWrapper O) → Option (OrderWrapper O)
  least [] = none
  least (e ∷ es) = some (smaller e (least es))

  -- `rest` is what is left of `es` without its least element `m`.
  abbrev pub drop_smaller :
      OrderWrapper O
      → List (OrderWrapper O)
      → List (OrderWrapper O)
      → Option (OrderWrapper O)
      → List (OrderWrapper O)
  drop_smaller e es rest none = es
  drop_smaller e es rest (some m) = if leb e.index m.index then es else e ∷ rest

  abbrev pub others : List (OrderWrapper O) → List (OrderWrapper O)
  others [] = []
  others (e ∷ es) = drop_smaller e es (others es) (least es)

  Least : List (OrderWrapper O) → OrderWrapper O → Type 0
  Least es a = Permᴰ es (a ∷ others es) × All (λ b. a.index ≤ b.index) es

  pub nil_of_least : (es : List (OrderWrapper O)) → least es ≡ none → es ≡ []
  nil_of_least [] top = refl
  nil_of_least (e ∷ es) top = absurd (ground arith)

  All-above :
      (es : List (OrderWrapper O)) (k n : ℕ)
      → k ≤ n
      → All (λ b. n ≤ b.index) es
      → All (λ b. k ≤ b.index) es
  All-above [] k n h a = tt
  All-above (e ∷ es) k n h a = (omega (arith, a.0), All-above es k n h a.1)

  least_of_rest :
      (e : OrderWrapper O) (es : List (OrderWrapper O)) (o : Option (OrderWrapper O))
      → ((m : OrderWrapper O) → least es ≡ some m → Least es m)
      → least es ≡ o
      → Permᴰ (e ∷ es) (smaller e o ∷ drop_smaller e es (others es) o)
        × All (λ b. (smaller e o).index ≤ b.index) (e ∷ es)
  unfolding Least
  least_of_rest e es none rest top =
      (Permᴰ.refl (e ∷ es), (omega arith, rw (nil_of_least es top) tt))
  least_of_rest e es (some m) rest top =
      let (taken, above) = rest m top in
      let Split = λ (a : OrderWrapper O).
        Permᴰ (e ∷ es) (a ∷ drop_smaller e es (others es) (some m))
        × All (λ b. a.index ≤ b.index) (e ∷ es) in
      elim (Bool-cases (leb e.index m.index)) [
        | inl le ↦
            let first : smaller e (some m) ≡ e = rw le refl in
            subst Split (sym first) (
              rw le (Permᴰ.refl (e ∷ es)),
              (omega arith, All-above es e.index m.index (ground arith) above),
            )
        | inr gt ↦
            let first : smaller e (some m) ≡ m = rw gt refl in
            subst Split (sym first) (
              rw gt (Permᴰ.trans (Permᴰ.cons refl taken) (Permᴰ.swap refl refl)),
              (ground arith, above),
            )
      ]

  least_lem : (es : List (OrderWrapper O)) (a : OrderWrapper O) → least es ≡ some a → Least es a
  unfolding Least
  least_lem [] a e = absurd (ground arith)
  least_lem (e ∷ es) a here =
      subst (Least (e ∷ es)) (some-injective _ a here)
        (least_of_rest e es (least es) (least_lem es) refl)

  not_greater :
      (es : List (OrderWrapper O)) (a : OrderWrapper O)
      → All (λ b. a.index ≤ b.index) es
      → All (λ b. cmp b a ≢ Ordering.gt) es
  unfolding cmp
  not_greater [] a h = tt
  not_greater (e ∷ es) a h = (λ greater. ground (arith, h.0), not_greater es a h.1)

  pub peeked :
      (es : List (OrderWrapper O)) (a : OrderWrapper O)
      → least es ≡ some a
      → Permᴰ es (a ∷ others es) × All (λ b. cmp b a ≢ Ordering.gt) es
  unfolding Least
  peeked es a top = let (taken, above) = least_lem es a top in (taken, not_greater es a above)

abbrev pub list_heap : (O : Type 0) → BinaryHeap (OrderWrapper O) cmp
list_heap O = record {
  Heap = List (OrderWrapper O);
  with_capacity = λ n. [];
  heap_len = length;
  peek = least;
  pop_peeked = others;
  heap_push = λ es e. e ∷ es;
  into_vec = λ es. es;
  from_vec = λ es. es;
  into_vec-with_capacity = λ n. refl;
  into_vec-heap_push = λ es e. Permᴰ.refl (e ∷ es);
  into_vec-from_vec = Permᴰ.refl;
  peek_none = nil_of_least;
  peek_some = peeked;
  heap_len-eq = λ es. refl;
}
