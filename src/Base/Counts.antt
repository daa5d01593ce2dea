-- ===== src/Base/Counts.antt =====
-- How often a number occurs among the values of a function below a bound, and lists up to order.
use Prim.Native.Nat.{ℕ, zero, suc, ◌+◌, ◌≤◌, ◌<◌}
use mathlib.Core.Path.{◌≡◌, refl, subst}
use mathlib.Core.Logic.{inl, inr}
use mathlib.Core.Bool.{false}
use mathlib.Core.List.{List, [], ◌∷◌, ◌++◌, map}
use mathlib.Core.List.Permᴰ.{Permᴰ}
use mathlib.Core.Option.{Option, none, some}
use native.Mathlib.Omega.{arith}
use futures_buffered.Base.Tests.{◌==◌, if◌then◌else◌, Bool-cases}

-- 1 if the value is `i`, otherwise 0.
abbrev pub one_at : Option ℕ → ℕ → ℕ
one_at none i = 0
one_at (some a) i = if a == i then 1 else 0

-- How many of `f 0`, …, `f (n - 1)` are `i`.
abbrev pub occurrences : ℕ → (ℕ → Option ℕ) → ℕ → ℕ
occurrences zero f i = 0
occurrences (suc n) f i = occurrences n f i + one_at (f n) i

pub occurrences-same :
    (n : ℕ) (f g : ℕ → Option ℕ) (i : ℕ)
    → ((j : ℕ) → g j ≡ f j)
    → occurrences n g i ≡ occurrences n f i
occurrences-same zero f g i h = refl
occurrences-same (suc n) f g i h = rw (h n) (omega (arith, occurrences-same n f g i h))

-- The values below `j` do not see a change at `j`.
occurrences-below :
    (n : ℕ) (f g : ℕ → Option ℕ) (i j : ℕ)
    → n ≤ j
    → ((j' : ℕ) → (j == j') ≡ false → g j' ≡ f j')
    → occurrences n g i ≡ occurrences n f i
occurrences-below zero f g i j h e = refl
occurrences-below (suc n) f g i j h e =
    rw (e n (ground arith)) (omega (arith, occurrences-below n f g i j (omega arith) e))

-- Only the value at `j` may change.
pub occurrences-change :
    (n : ℕ) (f g : ℕ → Option ℕ) (i j : ℕ)
    → j < n
    → ((j' : ℕ) → (j == j') ≡ false → g j' ≡ f j')
    → occurrences n g i + one_at (f j) i ≡ occurrences n f i + one_at (g j) i
occurrences-change zero f g i j h e = absurd (omega arith)
occurrences-change (suc n) f g i j h e = elim (Bool-cases (j == n)) [
  | inl last ↦
      let there : j ≡ n = ground arith in
      rw there (omega (arith, occurrences-below n f g i n (omega arith) (rw there at e)))
  | inr inner ↦ rw (e n inner) (omega (arith, occurrences-change n f g i j (ground arith) e))
]

pub occurrences_pos :
    (n : ℕ) (f : ℕ → Option ℕ) (j : ℕ) {a : ℕ} → j < n → f j ≡ some a → 0 < occurrences n f a
occurrences_pos zero f j h e = absurd (omega arith)
occurrences_pos (suc n) f j {a} h e = elim (Bool-cases (j == n)) [
  | inl last ↦
      let there : j ≡ n = ground arith in
      let here = subst (λ k. f k ≡ some a) there e in rw here (ground arith)
  | inr inner ↦ omega (arith, occurrences_pos n f j (ground arith) e)
]

pub occurrences-none :
    (n : ℕ) (f : ℕ → Option ℕ) (i : ℕ) → ((j : ℕ) → f j ≡ none) → occurrences n f i ≡ 0
occurrences-none zero f i h = refl
occurrences-none (suc n) f i h = rw (h n) (omega (arith, occurrences-none n f i h))

-- `Q` of every element.
abbrev pub All {ℓ} : {A : Type ℓ} → (A → Type 0) → List A → Type 0
All Q [] = Unit
All Q (x ∷ xs) = Q x × All Q xs

-- The sum of the weights of the elements.
abbrev pub weigh {ℓ} : {A : Type ℓ} → (A → ℕ) → List A → ℕ
weigh w [] = 0
weigh w (x ∷ xs) = w x + weigh w xs

pub All-perm {ℓ} :
    {A : Type ℓ} (Q : A → Type 0) {xs ys : List A} → Permᴰ xs ys → All Q xs → All Q ys
All-perm Q Permᴰ.nil a = a
All-perm Q (Permᴰ.cons e p) a = (subst Q e a.0, All-perm Q p a.1)
All-perm Q (Permᴰ.swap e f) a = (subst Q f a.1.0, (subst Q e a.0, a.1.1))
All-perm Q (Permᴰ.trans p q) a = All-perm Q q (All-perm Q p a)

pub weigh-perm {ℓ} :
    {A : Type ℓ} (w : A → ℕ) {xs ys : List A} → Permᴰ xs ys → weigh w xs ≡ weigh w ys
weigh-perm w Permᴰ.nil = refl
weigh-perm w (Permᴰ.cons e p) = rw e (omega (arith, weigh-perm w p))
weigh-perm w (Permᴰ.swap e f) = rw (e, f) (omega arith)
weigh-perm w (Permᴰ.trans p q) = omega (arith, weigh-perm w p, weigh-perm w q)

pub All-map {ℓ κ} :
    {A : Type ℓ} {B : Type κ} (f : A → B) (Q : A → Type 0) (R : B → Type 0) (xs : List A)
    → ((x : A) → Q x → R (f x))
    → All Q xs
    → All R (map f xs)
All-map f Q R [] h a = tt
All-map f Q R (x ∷ xs) h a = (h x a.0, All-map f Q R xs h a.1)

-- How often a number stands in a list.
abbrev pub count : ℕ → List ℕ → ℕ
count i xs = weigh (λ x. one_at (some x) i) xs

pub count-append : (i : ℕ) (xs ys : List ℕ) → count i (xs ++ ys) ≡ count i xs + count i ys
count-append i [] ys = omega arith
count-append i (x ∷ xs) ys = omega (arith, count-append i xs ys)
