-- ===== src/OrderWrapper/Window.antt =====
-- The indices that lie within `n` of the next outgoing one, modulo 2^64.
use futures_buffered.Base.{
  if◌then◌else◌, ltb, ◌&&◌, ℕ, suc, ◌+◌, ◌≤◌, ◌<◌, ◌≡◌, some, arith, add_usize, sub_usize,
  usize_mod, one_at,
}
use futures_buffered.OrderWrapper.{msb, flip_msb}

-- 1 if `i` is one of the `n` indices from `k` on, otherwise 0.
abbrev pub in_window : ℕ → ℕ → ℕ → ℕ
in_window k n i = if ltb i usize_mod && ltb (sub_usize i k) n then 1 else 0

pub in_window_iff : (k n i : ℕ) → 0 < in_window k n i → (i < usize_mod) × (sub_usize i k < n)
in_window_iff k n i h = ground arith

pub in_window_first : (k n : ℕ) → k < usize_mod → 0 < n → in_window k n k ≡ 1
in_window_first k n h p = ground arith

pub in_window_empty : (k n : ℕ) → k < usize_mod → in_window k n k ≡ 0 → n ≡ 0
in_window_empty k n h e = ground arith

-- The window without its first index.
pub in_window-next :
    (k n i : ℕ)
    → k < usize_mod
    → suc n < usize_mod
    → in_window k (suc n) i ≡ one_at (some k) i + in_window (add_usize k 1) n i
in_window-next k n i h small = ground arith

-- The window with one index more at its end.
pub in_window-snoc :
    (k n i : ℕ)
    → k < usize_mod
    → suc n < usize_mod
    → in_window k (suc n) i ≡ one_at (some (add_usize k n)) i + in_window k n i
in_window-snoc k n i h small = ground arith

pub in_window-flip :
    (k n i : ℕ)
    → k < usize_mod
    → i < usize_mod
    → in_window (flip_msb k) n (flip_msb i) ≡ in_window k n i
in_window-flip k n i h small = ground arith

pub flip-flip : (i : ℕ) → i < usize_mod → flip_msb (flip_msb i) ≡ i
flip-flip i h = ground arith

pub flip_small : (i : ℕ) → i < usize_mod → flip_msb i < usize_mod
flip_small i h = ground arith

-- Below 2^63 the order of the indices is that of their distances.
pub first_of_window : (k n i : ℕ) → k < msb → n ≤ msb → 0 < in_window k n i → i ≤ k → i ≡ k
first_of_window k n i h small p le = ground arith
