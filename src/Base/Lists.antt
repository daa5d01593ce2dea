-- ===== src/Base/Lists.antt =====
-- Lists measured and indexed by native numbers, and lists of slot numbers as finite sets.
use Prim.Native.Nat.{ℕ, zero, suc, ◌+◌, ◌<◌}
use mathlib.Core.Path.{◌≡◌, refl, ap}
use mathlib.Core.Logic.{◌≢◌}
use mathlib.Core.Bool.{Bool, true, false, ◌||◌}
use mathlib.Core.List.{List, [], ◌∷◌, ◌++◌, map}
use mathlib.Core.Option.{Option, none, some}
use native.Mathlib.Omega.{arith}
use futures_buffered.Base.Tests.{◌==◌, if◌then◌else◌}

module _ {ℓ} {A : Type ℓ} where
  abbrev pub length : List A → ℕ
  length [] = 0
  length (x ∷ xs) = suc (length xs)

  abbrev pub get_elem? : List A → ℕ → Option A
  get_elem? [] i = none
  get_elem? (x ∷ xs) zero = some x
  get_elem? (x ∷ xs) (suc i) = get_elem? xs i

  -- A write out of bounds changes nothing.
  abbrev pub set : List A → ℕ → A → List A
  set [] i v = []
  set (x ∷ xs) zero v = v ∷ xs
  set (x ∷ xs) (suc i) v = x ∷ set xs i v

  pub length-append : (xs ys : List A) → length (xs ++ ys) ≡ length xs + length ys
  length-append [] ys = omega arith
  length-append (x ∷ xs) ys = omega (arith, length-append xs ys)

module _ {ℓ} {A : Type ℓ} where
  pub length-set : (xs : List A) (i : ℕ) (v : A) → length (set xs i v) ≡ length xs
  length-set [] i v = refl
  length-set (x ∷ xs) zero v = refl
  length-set (x ∷ xs) (suc i) v = ap suc (length-set xs i v)

  pub length-map {κ} : {B : Type κ} (xs : List A) (f : A → B) → length (map f xs) ≡ length xs
  length-map [] f = refl
  length-map (x ∷ xs) f = ap suc (length-map xs f)

  -- A read after a write, for a write in bounds.
  pub get_elem?-set :
      (xs : List A) (i : ℕ) (v : A) (j : ℕ)
      → i < length xs
      → get_elem? (set xs i v) j ≡ (if i == j then some v else get_elem? xs j)
  get_elem?-set [] i v j h = absurd (omega arith)
  get_elem?-set (x ∷ xs) zero v zero h = refl
  get_elem?-set (x ∷ xs) zero v (suc j) h = ground arith
  get_elem?-set (x ∷ xs) (suc i) v zero h = ground arith
  get_elem?-set (x ∷ xs) (suc i) v (suc j) h = ground (arith, get_elem?-set xs i v j (omega arith))

  pub lt_of_get_elem? : (xs : List A) (i : ℕ) {v : A} → get_elem? xs i ≡ some v → i < length xs
  lt_of_get_elem? [] i e = ground arith
  lt_of_get_elem? (x ∷ xs) zero e = omega arith
  lt_of_get_elem? (x ∷ xs) (suc i) e = omega (arith, lt_of_get_elem? xs i e)

  pub get_elem?_total : (xs : List A) (i : ℕ) → i < length xs → (v : A) × (get_elem? xs i ≡ some v)
  get_elem?_total [] i h = absurd (omega arith)
  get_elem?_total (x ∷ xs) zero h = (x, refl)
  get_elem?_total (x ∷ xs) (suc i) h = get_elem?_total xs i (omega arith)

  pub get_elem?_beyond : (xs : List A) (i : ℕ) → length xs ≡ i → get_elem? xs i ≡ none
  get_elem?_beyond [] i h = refl
  get_elem?_beyond (x ∷ xs) zero h = absurd (omega arith)
  get_elem?_beyond (x ∷ xs) (suc i) h = get_elem?_beyond xs i (omega arith)

-- `a`, `a + 1`, …: `n` numbers.
abbrev pub range_from : ℕ → ℕ → List ℕ
range_from a zero = []
range_from a (suc n) = a ∷ range_from (suc a) n

pub length-range_from : (a n : ℕ) → length (range_from a n) ≡ n
length-range_from a zero = refl
length-range_from a (suc n) = ap suc (length-range_from (suc a) n)

-- The first element, or `d`.
abbrev pub first_or : List ℕ → ℕ → ℕ
first_or [] d = d
first_or (x ∷ xs) d = x

abbrev pub has : ℕ → List ℕ → Bool
has i [] = false
has i (x ∷ xs) = (i == x) || has i xs

abbrev pub Distinct : List ℕ → Type 0
Distinct [] = Unit
Distinct (x ∷ xs) = (has x xs ≡ false) × Distinct xs

abbrev pub AllBelow : ℕ → List ℕ → Type 0
AllBelow n [] = Unit
AllBelow n (x ∷ xs) = (x < n) × AllBelow n xs

pub has-append : (i : ℕ) (xs ys : List ℕ) → has i (xs ++ ys) ≡ (has i xs || has i ys)
has-append i [] ys = refl
has-append i (x ∷ xs) ys = ground (arith, has-append i xs ys)

pub Distinct-snoc : (xs : List ℕ) (i : ℕ) → Distinct xs → has i xs ≡ false → Distinct (xs ++ i ∷ [])
Distinct-snoc [] i d h = (refl, tt)
Distinct-snoc (x ∷ xs) i d h =
    (ground (arith, has-append x xs (i ∷ [])), Distinct-snoc xs i d.1 (ground arith))

pub AllBelow-snoc :
    (n : ℕ) (xs : List ℕ) (i : ℕ) → AllBelow n xs → i < n → AllBelow n (xs ++ i ∷ [])
AllBelow-snoc n [] i b h = (h, tt)
AllBelow-snoc n (x ∷ xs) i b h = (b.0, AllBelow-snoc n xs i b.1 h)

pub has-below : (n : ℕ) (xs : List ℕ) → AllBelow n xs → has n xs ≡ false
has-below n [] b = refl
has-below n (x ∷ xs) b = ground (arith, has-below n xs b.1)

pub lt_of_has : (n i : ℕ) (xs : List ℕ) → AllBelow n xs → has i xs ≡ true → i < n
lt_of_has n i [] b h = ground arith
lt_of_has n i (x ∷ xs) b h = ground (arith, lt_of_has n i xs b.1)

-- A member and a stranger are two.
pub ne_of_has : (b a : ℕ) (xs : List ℕ) → has b xs ≡ true → has a xs ≡ false → b ≢ a
ne_of_has b a [] p q = ground arith
ne_of_has b a (x ∷ xs) p q = ground (arith, ne_of_has b a xs)

pub has-middle : (ys : List ℕ) (x : ℕ) (zs : List ℕ) → has x (ys ++ x ∷ zs) ≡ true
has-middle [] x zs = ground arith
has-middle (y ∷ ys) x zs = ground (arith, has-middle ys x zs)

-- What holds up to a member of a list when it holds of the list.
pub Distinct-upto :
    (ys : List ℕ) (x : ℕ) (zs : List ℕ) → Distinct (ys ++ x ∷ zs) → Distinct (ys ++ x ∷ [])
Distinct-upto [] x zs d = (refl, tt)
Distinct-upto (y ∷ ys) x zs d =
    (ground (arith, has-append y ys (x ∷ zs), has-append y ys (x ∷ [])), Distinct-upto ys x zs d.1)

pub AllBelow-upto :
    (n : ℕ) (ys : List ℕ) (x : ℕ) (zs : List ℕ)
    → AllBelow n (ys ++ x ∷ zs)
    → AllBelow n (ys ++ x ∷ [])
AllBelow-upto n [] x zs b = (b.0, tt)
AllBelow-upto n (y ∷ ys) x zs b = (b.0, AllBelow-upto n ys x zs b.1)

pub AllBelow-middle :
    (n : ℕ) (ys : List ℕ) (x : ℕ) (zs : List ℕ) → AllBelow n (ys ++ x ∷ zs) → x < n
AllBelow-middle n [] x zs b = b.0
AllBelow-middle n (y ∷ ys) x zs b = AllBelow-middle n ys x zs b.1

pub length-snoc {ℓ} : {A : Type ℓ} (xs : List A) (x : A) → length (xs ++ x ∷ []) ≡ suc (length xs)
length-snoc [] x = refl
length-snoc (y ∷ xs) x = omega (arith, length-snoc xs x)
