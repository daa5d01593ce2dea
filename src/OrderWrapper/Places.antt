-- ===== src/OrderWrapper/Places.antt =====
-- The places of the futures and outputs in their order, each with a label.
use futures_buffered.Base.{
  ℕ, zero, suc, ◌<◌, ◌≡◌, refl, sym, ap, ◌∙◌, some, List, [], ◌∷◌, ◌++◌, length, get_elem?,
  lt_of_get_elem?, arith, add_usize, sub_usize, usize_mod,
}
use mathlib.Core.Path.{subst}
use mathlib.Core.Option.{some-injective}
use futures_buffered.OrderWrapper.{flip_msb}

-- An element before the end of a list stays where it is when the list grows at its end.
get_elem?-append_left :
    {A : Type 0} (xs ys : List A) (i : ℕ) → i < length xs → get_elem? (xs ++ ys) i ≡ get_elem? xs i
get_elem?-append_left [] ys i h = absurd (omega arith)
get_elem?-append_left (x ∷ xs) ys zero h = refl
get_elem?-append_left (x ∷ xs) ys (suc i) h = get_elem?-append_left xs ys i (omega arith)

get_elem?-append_last :
    {A : Type 0} (xs : List A) (x : A) → get_elem? (xs ++ x ∷ []) (length xs) ≡ some x
get_elem?-append_last [] x = refl
get_elem?-append_last (y ∷ xs) x = get_elem?-append_last xs x

module _ {G V : Type 0} (Q : G → V → Type 0) where
  -- `v` has the index `i`, and satisfies `Q` with the label at its place: `gs` are the labels from the
  -- index `k` on.
  abbrev pub AtPlace : List G → ℕ → ℕ → V → Type 0
  AtPlace gs k i v = (i < usize_mod) × ((g : G) → get_elem? gs (sub_usize i k) ≡ some g → Q g v)

  -- What stands first satisfies `Q` with the first label.
  pub AtPlace-head :
      (g : G) (gs : List G) (k : ℕ) (v : V) → k < usize_mod → AtPlace (g ∷ gs) k k v → Q g v
  AtPlace-head g gs k v small a =
      let here : sub_usize k k ≡ 0 = ground arith in a.1 g (ap (λ n. get_elem? (g ∷ gs) n) here)

  pub AtPlace-tail :
      (g : G) (gs : List G) (k i : ℕ) (v : V)
      → k < usize_mod
      → suc (length gs) < usize_mod
      → AtPlace (g ∷ gs) k i v
      → AtPlace gs (add_usize k 1) i v
  AtPlace-tail g gs k i v small few a = (
    a.0,
    λ g' e.
        let near = lt_of_get_elem? gs (sub_usize i (add_usize k 1)) e in
        let place = further i k (length gs) a.0 small few near in
        a.1 g' (ap (λ n. get_elem? (g ∷ gs) n) place ∙ e),
  )
    where
      further :
          (i k n : ℕ)
          → i < usize_mod
          → k < usize_mod
          → suc n < usize_mod
          → sub_usize i (add_usize k 1) < n
          → sub_usize i k ≡ suc (sub_usize i (add_usize k 1))
      further i k n r s f h = ground arith

  pub AtPlace-snoc :
      (g : G) (gs : List G) (k i : ℕ) (v : V)
      → sub_usize i k < length gs
      → AtPlace gs k i v
      → AtPlace (gs ++ g ∷ []) k i v
  AtPlace-snoc g gs k i v near a =
      (a.0, λ g' e. a.1 g' (sym (get_elem?-append_left gs (g ∷ []) (sub_usize i k) near) ∙ e))

  pub AtPlace-last :
      (g : G) (gs : List G) (k : ℕ) (v : V)
      → k < usize_mod
      → length gs < usize_mod
      → Q g v
      → AtPlace (gs ++ g ∷ []) k (add_usize k (length gs)) v
  AtPlace-last g gs k v small few h =
      let place : sub_usize (add_usize k (length gs)) k ≡ length gs = ground arith in
      (
        ground arith,
        λ g' e.
            subst (λ l. Q l v)
              (some-injective g g' (
                sym (get_elem?-append_last gs g)
                ∙ ap (λ n. get_elem? (gs ++ g ∷ []) n) (sym place)
                ∙ e))
              h,
      )

  pub AtPlace-cons :
      (g : G) (gs : List G) (k i : ℕ) (v : V)
      → k < usize_mod
      → suc (length gs) < usize_mod
      → sub_usize i k < length gs
      → AtPlace gs k i v
      → AtPlace (g ∷ gs) (sub_usize k 1) i v
  AtPlace-cons g gs k i v small few near a =
      let place = further i k (length gs) a.0 small few near in
      (a.0, λ g' e. a.1 g' (sym (ap (λ n. get_elem? (g ∷ gs) n) place) ∙ e))
    where
      further :
          (i k n : ℕ)
          → i < usize_mod
          → k < usize_mod
          → suc n < usize_mod
          → sub_usize i k < n
          → sub_usize i (sub_usize k 1) ≡ suc (sub_usize i k)
      further i k n r s f h = ground arith

  pub AtPlace-first :
      (g : G) (gs : List G) (k : ℕ) (v : V) → k < usize_mod → Q g v → AtPlace (g ∷ gs) k k v
  AtPlace-first g gs k v small h =
      let here : sub_usize k k ≡ 0 = ground arith in
      (
        small,
        λ g' e.
            subst (λ l. Q l v) (some-injective g g' (ap (λ n. get_elem? (g ∷ gs) n) (sym here) ∙ e))
              h,
      )

  pub AtPlace-flip :
      (gs : List G) (k i : ℕ) (v : V)
      → k < usize_mod
      → AtPlace gs k i v
      → AtPlace gs (flip_msb k) (flip_msb i) v
  AtPlace-flip gs k i v small a =
      let place = same i k a.0 small in
      (below i a.0, λ g e. a.1 g (sym (ap (get_elem? gs) place) ∙ e))
    where
      below : (i : ℕ) → i < usize_mod → flip_msb i < usize_mod
      below i h = ground arith

      same :
          (i k : ℕ)
          → i < usize_mod
          → k < usize_mod
          → sub_usize (flip_msb i) (flip_msb k) ≡ sub_usize i k
      same i k h s = ground arith
