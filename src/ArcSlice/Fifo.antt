-- ===== src/ArcSlice/Fifo.antt =====
-- The intrusive queue as a queue: which slots a state of it holds, in order.
use futures_buffered.Base.{
  ap, ◌∙◌, ℕ, ◌+◌, ◌<◌, ◌≡◌, refl, none, some, List, [], ◌∷◌, arith, length, Distinct, AllBelow,
  length-append,
}
use futures_buffered.ArcSlice.{ArcSliceInner, load_index, new, init_slots}
use futures_buffered.ArcSlice.Chain.{Chain}
use futures_buffered.ArcSlice.Slots.{length-init_slots, load_index-init}

-- What `list_tail` points at: the stub slot (number `len`) whose `next` was never written, the stub
-- with its `next` written, or the first slot that is queued.
pub data Front : Type 0 where
  unwritten stub inline : Front

module _ {W : Type 0} where
  -- The chain from `list_tail` to `list_head` spells the queued slots, behind the stub if that is in
  -- front.
  abbrev pub Spells : ArcSliceInner W → Front → List ℕ → Type 0
  Spells q unwritten [] = (q.list_tail ≡ q.len) × (q.list_head ≡ q.len)
  Spells q unwritten (x ∷ xs) = ⊥
  Spells q stub xs = (q.list_tail ≡ q.len) × Chain (q.len + 1) q.slice q.len xs q.list_head
  Spells q inline [] = ⊥
  Spells q inline (x ∷ xs) = (q.list_tail ≡ x) × Chain (q.len + 1) q.slice x xs q.list_head

  -- The queue holds the slots `xs`, first to last, each once.
  pub record Holds (q : ArcSliceInner W) (front : Front) (xs : List ℕ) : Type 0 where
    pub size : length q.slice ≡ q.len + 1
    pub below : AllBelow q.len xs
    pub distinct : Distinct xs
    pub spells : Spells q front xs

  -- Each slot but the stub knows its number.
  abbrev pub Indexed : ArcSliceInner W → Type 0
  Indexed q = (i : ℕ) → i < q.len → load_index q.slice i ≡ some i

  -- A new `ArcSlice` holds an empty queue, with one slot more than its capacity.
  pub new-Holds : (cell : W) (n : ℕ) → Holds (new cell n) unwritten [] × Indexed (new cell n)
  unfolding new
  new-Holds cell n = (
    record {
      size = omega (
        arith,
        length-append (init_slots n 0 n) (record { index = none; next = none } ∷ []),
        length-init_slots n 0 n,
      );
      below = tt;
      distinct = tt;
      spells = (refl, refl);
    },
    λ i h. load_index-init n 0 n _ i h ∙ ap some (omega arith),
  )
