-- ===== src/ArcSlice/Push.antt =====
-- `push` puts a slot that is not queued at the end of the queue.
use futures_buffered.Base.{
  ◌∙◌, ℕ, ◌+◌, ◌<◌, ◌≡◌, refl, false, some, List, [], ◌∷◌, ◌++◌, arith, length, has, Distinct-snoc,
  AllBelow-snoc, has-below,
}
use futures_buffered.ArcSlice.{ArcSliceInner, push, set_next}
use futures_buffered.ArcSlice.Chain.{Chain-snoc, last-lt_of_Chain}
use futures_buffered.ArcSlice.Fifo.{Front, unwritten, stub, inline, Holds, Spells, Indexed}
use futures_buffered.ArcSlice.Slots.{
  store_next_lem, length-set_next, load_next-set_next, load_index-set_next,
}

-- What is in front after a push: a first push writes the stub.
abbrev pub front_pushed : Front → Front
front_pushed unwritten = stub
front_pushed stub = stub
front_pushed inline = inline

module _ {W : Type 0} where
  -- What `push` leaves.
  abbrev pub pushed : ArcSliceInner W → ℕ → ArcSliceInner W
  pushed q i = record q {
    list_head = i;
    slice = set_next (set_next q.slice i (q.len + 1)) q.list_head i;
  }

  pub push_lem :
      (q : ArcSliceInner W) (i : ℕ)
      → i < length q.slice
      → q.list_head < length q.slice
      → push q i ≡ some (pushed q i)
  unfolding push
  push_lem q i h k =
      let size = length-set_next q.slice i (q.len + 1) in
      rw (
        store_next_lem q.slice i (q.len + 1) h,
        store_next_lem (set_next q.slice i (q.len + 1)) q.list_head i (omega arith),
      )

  pub head-lt :
      (q : ArcSliceInner W) (front : Front) (xs : List ℕ)
      → Holds q front xs
      → q.list_head < length q.slice
  head-lt q unwritten [] v = omega arith
  head-lt q unwritten (x ∷ xs) v = absurd v.spells
  head-lt q stub xs v = last-lt_of_Chain (q.len + 1) q.slice q.len xs q.list_head v.spells.1
  head-lt q inline [] v = absurd v.spells
  head-lt q inline (x ∷ xs) v = last-lt_of_Chain (q.len + 1) q.slice x xs q.list_head v.spells.1

  pushed-Spells :
      (q : ArcSliceInner W) (front : Front) (xs : List ℕ) (i : ℕ)
      → Holds q front xs
      → i < q.len
      → has i xs ≡ false
      → Spells (pushed q i) (front_pushed front) (xs ++ i ∷ [])
  pushed-Spells q unwritten (x ∷ xs) i v h out = absurd v.spells
  pushed-Spells q unwritten [] i v h out =
      let size = length-set_next q.slice i (q.len + 1) in
      let once = set_next q.slice i (q.len + 1) in
      (
        v.spells.0,
        (
          ground (arith, load_next-set_next once q.list_head i q.len (omega arith)),
          (
            refl,
            ground (
              arith,
              load_next-set_next once q.list_head i i (omega arith),
              load_next-set_next q.slice i (q.len + 1) i (omega arith),
            ),
          ),
        ),
      )
  pushed-Spells q stub xs i v h out = (
    v.spells.0,
    Chain-snoc (q.len + 1) q.slice q.len xs q.list_head i (omega arith) (ground arith)
        (has-below q.len xs v.below, v.distinct) v.spells.1,
  )
  pushed-Spells q inline [] i v h out = absurd v.spells
  pushed-Spells q inline (x ∷ xs) i v h out = (
    v.spells.0,
    Chain-snoc (q.len + 1) q.slice x xs q.list_head i (omega arith) out v.distinct v.spells.1,
  )

  pub pushed-Holds :
      (q : ArcSliceInner W) (front : Front) (xs : List ℕ) (i : ℕ)
      → Holds q front xs
      → i < q.len
      → has i xs ≡ false
      → Holds (pushed q i) (front_pushed front) (xs ++ i ∷ [])
  pushed-Holds q front xs i v h out = record {
    size = omega (
      arith,
      length-set_next q.slice i (q.len + 1),
      length-set_next (set_next q.slice i (q.len + 1)) q.list_head i,
    );
    below = AllBelow-snoc q.len xs i v.below h;
    distinct = Distinct-snoc xs i v.distinct out;
    spells = pushed-Spells q front xs i v h out;
  }

  pub pushed-Indexed : (q : ArcSliceInner W) (i : ℕ) → Indexed q → Indexed (pushed q i)
  pushed-Indexed q i v j h =
      load_index-set_next (set_next q.slice i (q.len + 1)) q.list_head i j
      ∙ load_index-set_next q.slice i (q.len + 1) j
      ∙ v j h

  -- `push` of a slot that is not queued succeeds, and the queue then holds it behind the others.
  pub push-Holds :
      (q : ArcSliceInner W) (front : Front) (xs : List ℕ) (i : ℕ)
      → Holds q front xs
      → i < q.len
      → has i xs ≡ false
      → (push q i ≡ some (pushed q i)) × Holds (pushed q i) (front_pushed front) (xs ++ i ∷ [])
  push-Holds q front xs i v h out =
      (push_lem q i (omega arith) (head-lt q front xs v), pushed-Holds q front xs i v h out)
