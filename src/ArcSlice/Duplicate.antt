-- ===== src/ArcSlice/Duplicate.antt =====
-- What happens when a slot that is queued is pushed once more. Neither `push` nor `wake_by_ref`
-- looks whether the slot is queued.
use futures_buffered.Base.{
  ap, ◌∙◌, sym, Distinct-upto, AllBelow-upto, has-middle, has-below, AllBelow-middle, ne_of_has, ℕ,
  ◌+◌, ◌<◌, ◌≡◌, refl, true, some, List, [], ◌∷◌, ◌++◌, arith, length, has, Distinct,
}
use futures_buffered.ArcSlice.{
  ArcSliceInner, ArcSlotInner, ready, push, pop_index, set_next, pop_at, load_next,
}
use futures_buffered.ArcSlice.Chain.{Chain, last-lt_of_Chain, has-last}
use futures_buffered.ArcSlice.Fifo.{Front, unwritten, stub, inline, Holds, Spells}
use futures_buffered.ArcSlice.Slots.{length-set_next, load_next-set_next, lt_of_load_next}
use futures_buffered.ArcSlice.Pop.{pop_inline, pop_stub}
use futures_buffered.ArcSlice.Push.{pushed, push_lem, head-lt}

module _ (end : ℕ) where
  -- Pushing the slot `x` of a chain that goes on behind it ends the chain there.
  Chain-cut_here :
      (s : List ArcSlotInner) (x z : ℕ) (zs : List ℕ) (b : ℕ)
      → Distinct (x ∷ z ∷ zs)
      → Chain end s x (z ∷ zs) b
      → Chain end (set_next (set_next s x end) b x) x [] x
  Chain-cut_here s x z zs b d c =
      let lt = lt_of_load_next s x c.0 in
      let size = length-set_next s x end in
      let last = last-lt_of_Chain end s z zs b c.1 in
      let ne = ne_of_has b x (z ∷ zs) (has-last end s z zs b c.1) d.0 in
      (
        refl,
        ground (
          arith,
          load_next-set_next (set_next s x end) b x x (omega arith),
          load_next-set_next s x end x lt,
        ),
      )

  lt_of_has-Chain :
      (s : List ArcSlotInner) (a : ℕ) (ys : List ℕ) (b x : ℕ)
      → Chain end s a ys b
      → has x (a ∷ ys) ≡ true
      → x < length s
  lt_of_has-Chain s a [] b x c h = ground (arith, lt_of_load_next s a c.1)
  lt_of_has-Chain s a (y ∷ ys) b x c h =
      ground (arith, lt_of_load_next s a c.0, lt_of_has-Chain s y ys b x c.1)

  Chain-cut :
      (s : List ArcSlotInner) (a : ℕ) (ys : List ℕ) (x z : ℕ) (zs : List ℕ) (b : ℕ)
      → Distinct (a ∷ ys ++ x ∷ z ∷ zs)
      → Chain end s a (ys ++ x ∷ z ∷ zs) b
      → Chain end (set_next (set_next s x end) b x) a (ys ++ x ∷ []) x
  Chain-cut s a [] x z zs b d c =
      let lt = lt_of_load_next s x c.1.0 in
      let size = length-set_next s x end in
      let last = last-lt_of_Chain end s z zs b c.1.1 in
      let ne = ne_of_has b a (x ∷ z ∷ zs) (has-last end s x (z ∷ zs) b c.1) d.0 in
      (
        ground (
          arith,
          load_next-set_next (set_next s x end) b x a (omega arith),
          load_next-set_next s x end a lt,
        ),
        Chain-cut_here s x z zs b d.1 c.1,
      )
  Chain-cut s a (y ∷ ys) x z zs b d c =
      let rest = x ∷ z ∷ zs in
      let lt = lt_of_load_next s a c.0 in
      let ltx = lt_of_has-Chain s y (ys ++ rest) b x c.1 (has-middle (y ∷ ys) x (z ∷ zs)) in
      let size = length-set_next s x end in
      let last = last-lt_of_Chain end s y (ys ++ rest) b c.1 in
      let ne = ne_of_has b a (y ∷ ys ++ rest) (has-last end s y (ys ++ rest) b c.1) d.0 in
      let ne' = ne_of_has x a (y ∷ ys ++ rest) (has-middle (y ∷ ys) x (z ∷ zs)) d.0 in
      (
        ground (
          arith,
          load_next-set_next (set_next s x end) b x a (omega arith),
          load_next-set_next s x end a ltx,
        ),
        Chain-cut s y ys x z zs b d.1 c.1,
      )

module _ {W : Type 0} where
  cut-Spells :
      (q : ArcSliceInner W) (front : Front) (ys : List ℕ) (x z : ℕ) (zs : List ℕ)
      → Holds q front (ys ++ x ∷ z ∷ zs)
      → Spells (pushed q x) front (ys ++ x ∷ [])
  cut-Spells q unwritten [] x z zs v = absurd v.spells
  cut-Spells q unwritten (y ∷ ys) x z zs v = absurd v.spells
  cut-Spells q stub ys x z zs v = (
    v.spells.0,
    Chain-cut (q.len + 1) q.slice q.len ys x z zs q.list_head
        (has-below q.len (ys ++ x ∷ z ∷ zs) v.below, v.distinct) v.spells.1,
  )
  cut-Spells q inline [] x z zs v =
      (v.spells.0, Chain-cut_here (q.len + 1) q.slice x z zs q.list_head v.distinct v.spells.1)
  cut-Spells q inline (y ∷ ys) x z zs v =
      (v.spells.0, Chain-cut (q.len + 1) q.slice y ys x z zs q.list_head v.distinct v.spells.1)

  -- A push of a slot `x` that is queued, but not last, drops from the queue every slot behind `x`:
  -- the wake-ups of those slots are lost.
  pub push-duplicate :
      (q : ArcSliceInner W) (front : Front) (ys : List ℕ) (x z : ℕ) (zs : List ℕ)
      → Holds q front (ys ++ x ∷ z ∷ zs)
      → (push q x ≡ some (pushed q x)) × Holds (pushed q x) front (ys ++ x ∷ [])
  push-duplicate q front ys x z zs v =
      let lt = AllBelow-middle q.len ys x (z ∷ zs) v.below in
      let once = set_next q.slice x (q.len + 1) in
      (
        push_lem q x (omega arith) (head-lt q front (ys ++ x ∷ z ∷ zs) v),
        record {
          size =
              omega
                (arith, length-set_next q.slice x (q.len + 1), length-set_next once q.list_head x);
          below = AllBelow-upto q.len ys x (z ∷ zs) v.below;
          distinct = Distinct-upto ys x (z ∷ zs) v.distinct;
          spells = cut-Spells q front ys x z zs v;
        },
      )

  -- A slot that names itself is given out, and stays in front.
  pop_at_self :
      (q : ArcSliceInner W) (x : ℕ)
      → x < q.len
      → pop_at q x x ≡ some (record q { list_tail = x }, ready x)
  unfolding pop_at
  pop_at_self q x h = ground arith

  names_itself :
      (q : ArcSliceInner W) (x : ℕ)
      → x < length q.slice
      → q.list_head ≡ x
      → load_next (pushed q x).slice x ≡ some x
  names_itself q x h e =
      let size = length-set_next q.slice x (q.len + 1) in
      ground
        (arith, load_next-set_next (set_next q.slice x (q.len + 1)) q.list_head x x (omega arith))

  first_pop :
      (q : ArcSliceInner W) (front : Front) (x : ℕ)
      → Holds q front (x ∷ [])
      → pop_index (pushed q x) ≡ pop_at (record (pushed q x) { list_tail = x }) x x
  first_pop q unwritten x v = absurd v.spells
  first_pop q inline x v =
      pop_inline (pushed q x) x x v.spells.0 v.below.0
        (names_itself q x (omega arith) (sym v.spells.1.0))
      ∙ ap (λ t. pop_at (record (pushed q x) { list_tail = t }) x x) v.spells.0
  first_pop q stub x v =
      let size = length-set_next q.slice x (q.len + 1) in
      let once = set_next q.slice x (q.len + 1) in
      let at_stub : load_next (pushed q x).slice q.len ≡ some x = ground (
        arith,
        load_next-set_next once q.list_head x q.len (omega arith),
        load_next-set_next q.slice x (q.len + 1) q.len (omega arith),
      ) in
      pop_stub (pushed q x) x x v.spells.0 at_stub v.below.0
        (names_itself q x (omega arith) (sym v.spells.1.1.0))

  head-alone :
      (q : ArcSliceInner W) (front : Front) (x : ℕ) → Holds q front (x ∷ []) → q.list_head ≡ x
  head-alone q unwritten x v = absurd v.spells
  head-alone q stub x v = sym v.spells.1.1.0
  head-alone q inline x v = sym v.spells.1.0

  -- A second push of the only queued slot closes a loop: from then on each `pop` returns that slot,
  -- and after the first one the state no longer changes.
  pub push-duplicate_alone :
      (q : ArcSliceInner W) (front : Front) (x : ℕ)
      → Holds q front (x ∷ [])
      → let spinning = record (pushed q x) { list_tail = x } in
        (push q x ≡ some (pushed q x))
        × (pop_index (pushed q x) ≡ some (spinning, ready x))
        × (pop_index spinning ≡ some (spinning, ready x))
  push-duplicate_alone q front x v =
      let spinning = record (pushed q x) { list_tail = x } in
      let lt : x < length q.slice = omega arith in
      (
        push_lem q x lt (head-lt q front (x ∷ []) v),
        first_pop q front x v ∙ pop_at_self spinning x v.below.0,
        pop_inline spinning x x refl v.below.0 (names_itself q x lt (head-alone q front x v))
            ∙ pop_at_self spinning x v.below.0,
      )
