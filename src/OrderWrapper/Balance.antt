-- ===== src/OrderWrapper/Balance.antt =====
-- The indices from the next outgoing one on are held once each, by a future or by a waiting output.
use Prim.Native.Nat.{Ordering}
use mathlib.Core.List.Permᴰ.{Permᴰ}
use futures_buffered.Base.{
  ◌==◌, ℕ, suc, ◌+◌, ◌≤◌, ◌<◌, ◌≡◌, ◌≢◌, refl, ap, false, none, some, List, [], ◌∷◌, arith,
  add_usize, sub_usize, usize_mod, one_at, All, weigh, weigh-perm,
}
use futures_buffered.OrderWrapper.{OrderWrapper, BinaryHeap, cmp, msb}
use futures_buffered.OrderWrapper.Window.{
  in_window, in_window_iff, in_window_empty, in_window-next, in_window-snoc,
}

module _ {O : Type 0} where
  abbrev pub weight : ℕ → OrderWrapper O → ℕ
  weight i o = one_at (some o.index) i

  -- How many outputs have the index `i`.
  abbrev pub waits : List (OrderWrapper O) → ℕ → ℕ
  waits es i = weigh (weight i) es

  -- `held i` futures and `waits es i` outputs have the index `i`: one together for the `n` indices
  -- from `k` on, none for any other.
  abbrev pub Balanced : (ℕ → ℕ) → List (OrderWrapper O) → ℕ → ℕ → Type 0
  Balanced held es k n = (i : ℕ) → held i + waits es i ≡ in_window k n i

  pub waits_pos :
      (es : List (OrderWrapper O)) (e : OrderWrapper O) {es' : List (OrderWrapper O)}
      → Permᴰ es (e ∷ es')
      → 0 < waits es e.index
  waits_pos es e p = ground (arith, weigh-perm (weight e.index) p)

  -- The future with the first index gives its output.
  pub balance-take_held :
      (held held' : ℕ → ℕ) (es : List (OrderWrapper O)) (k n : ℕ)
      → Balanced held es k (suc n)
      → ((i : ℕ) → held' i + one_at (some k) i ≡ held i)
      → k < usize_mod
      → suc n < usize_mod
      → Balanced held' es (add_usize k 1) n
  balance-take_held held held' es k n b h small few i =
      omega (arith, b i, h i, in_window-next k n i small few)

  -- The output with the first index is taken from the heap.
  pub balance-take_waiting :
      (held : ℕ → ℕ) (es es' : List (OrderWrapper O)) (e : OrderWrapper O) (n : ℕ)
      → Balanced held es e.index (suc n)
      → Permᴰ es (e ∷ es')
      → e.index < usize_mod
      → suc n < usize_mod
      → Balanced held es' (add_usize e.index 1) n
  balance-take_waiting held es es' e n b p small few i =
      omega (arith, b i, weigh-perm (weight i) p, in_window-next e.index n i small few)

  -- An output of a future is put in the heap.
  pub balance-move :
      (held held' : ℕ → ℕ) (es es' : List (OrderWrapper O)) (e : OrderWrapper O) (k n : ℕ)
      → Balanced held es k n
      → ((i : ℕ) → held' i + one_at (some e.index) i ≡ held i)
      → Permᴰ es' (e ∷ es)
      → Balanced held' es' k n
  balance-move held held' es es' e k n b h p i = omega (arith, b i, h i, weigh-perm (weight i) p)

  -- A new future gets the index behind the last.
  pub balance-push_back :
      (held held' : ℕ → ℕ) (es : List (OrderWrapper O)) (k n : ℕ)
      → Balanced held es k n
      → ((i : ℕ) → held' i ≡ held i + one_at (some (add_usize k n)) i)
      → k < usize_mod
      → suc n < usize_mod
      → Balanced held' es k (suc n)
  balance-push_back held held' es k n b h small few i =
      omega (arith, b i, h i, in_window-snoc k n i small few)

  -- A new future gets the index before the first.
  pub balance-push_front :
      (held held' : ℕ → ℕ) (es : List (OrderWrapper O)) (k n : ℕ)
      → Balanced held es k n
      → ((i : ℕ) → held' i ≡ held i + one_at (some (sub_usize k 1)) i)
      → k < usize_mod
      → suc n < usize_mod
      → Balanced held' es (sub_usize k 1) (suc n)
  balance-push_front held held' es k n b h small few i =
      let back : add_usize (sub_usize k 1) 1 ≡ k = ground arith in
      let next = in_window-next (sub_usize k 1) n i (ground arith) few in
      omega (arith, b i, h i, next, ap (λ r. in_window r n i) back)

  -- An index that is held lies in the window.
  pub in_window_of_held :
      (held : ℕ → ℕ) (es : List (OrderWrapper O)) (k n i : ℕ)
      → Balanced held es k n
      → 0 < held i + waits es i
      → (i < usize_mod) × (sub_usize i k < n)
  in_window_of_held held es k n i b h = in_window_iff k n i (omega (arith, b i))

  -- No output waits with an index above all others.
  waits_none : (es : List (OrderWrapper O)) (k : ℕ) → All (λ b. b.index ≢ k) es → waits es k ≡ 0
  waits_none [] k a = refl
  waits_none (e ∷ es) k a = ground (arith, waits_none es k a.1, a.0)

  All-above :
      (es : List (OrderWrapper O)) (e : OrderWrapper O) (k : ℕ)
      → k < e.index
      → All (λ b. cmp b e ≢ Ordering.gt) es
      → All (λ b. b.index ≢ k) es
  unfolding cmp
  All-above [] e k h a = tt
  All-above (b ∷ bs) e k h a = (λ same. ground (arith, a.0), All-above bs e k h a.1)

  -- The heap gives the output of the first index, if that output waits.
  pub peek-first :
      (bh : BinaryHeap (OrderWrapper O) cmp) (h : bh.Heap) (e : OrderWrapper O) (held : ℕ → ℕ)
      (k n : ℕ)
      → Balanced held (bh.into_vec h) k n
      → k < msb
      → n ≤ msb
      → bh.peek h ≡ some e
      → (e.index == k) ≡ false
      → waits (bh.into_vec h) k ≡ 0
  peek-first bh h e held k n b small few top other =
      let (taken, least) = bh.peek_some h e top in
      let (in_range, near) =
        in_window_of_held held (bh.into_vec h) k n e.index b
          (omega (arith, waits_pos (bh.into_vec h) e taken)) in
      waits_none (bh.into_vec h) k
        (All-above (bh.into_vec h) e k (above e.index k n small few in_range near other) least)
    where
      above :
          (i k n : ℕ)
          → k < msb
          → n ≤ msb
          → i < usize_mod
          → sub_usize i k < n
          → (i == k) ≡ false
          → k < i
      above i k n small few range near other = ground arith

  pub peek-nothing :
      (bh : BinaryHeap (OrderWrapper O) cmp) (h : bh.Heap) (k : ℕ)
      → bh.peek h ≡ none
      → waits (bh.into_vec h) k ≡ 0
  peek-nothing bh h k top = ap (λ es. waits es k) (bh.peek_none h top)

  -- Without a future, and with the first index not waiting, nothing is left.
  pub nothing_left :
      (held : ℕ → ℕ) (es : List (OrderWrapper O)) (k n : ℕ)
      → Balanced held es k n
      → k < usize_mod
      → held k ≡ 0
      → waits es k ≡ 0
      → n ≡ 0
  nothing_left held es k n b small h w = in_window_empty k n small (omega (arith, b k))
