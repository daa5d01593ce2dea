-- ===== src/ArcSlice/Pop.antt =====
-- `pop` takes the first slot of the queue, and sees an empty queue.
use futures_buffered.Base.{sym, ◌∙◌, ℕ, ◌+◌, ◌<◌, ◌≡◌, refl, some, List, [], ◌∷◌, arith, length}
use futures_buffered.ArcSlice.{ArcSliceInner, ready, empty, set_next, pop_at, pop_index, load_next}
use futures_buffered.ArcSlice.Fifo.{Front, unwritten, stub, inline, Holds, Indexed}
use futures_buffered.ArcSlice.Slots.{length-set_next, load_next-set_next}
use futures_buffered.ArcSlice.Push.{pushed, push_lem, pushed-Indexed}

abbrev pub front_popped : List ℕ → Front
front_popped [] = stub
front_popped (y ∷ ys) = inline

module _ {W : Type 0} where
  -- What `pop` leaves: when the last slot goes, the stub is queued behind it and comes to the front.
  abbrev pub popped : ArcSliceInner W → List ℕ → ArcSliceInner W
  popped q [] = record (pushed q q.len) { list_tail = q.len }
  popped q (y ∷ ys) = record q { list_tail = y }

  pub pop_at-more :
      (q : ArcSliceInner W) (x y : ℕ) (ys : List ℕ)
      → x < q.len
      → y < q.len
      → pop_at q x y ≡ some (popped q (y ∷ ys), ready x)
  unfolding pop_at
  pop_at-more q x y ys at_slot h = ground arith

  pub pop_at-last :
      (q : ArcSliceInner W) (x n : ℕ)
      → x < q.len
      → length q.slice ≡ q.len + 1
      → q.list_head ≡ x
      → n ≡ q.len + 1
      → pop_at q x n ≡ some (popped q [], ready x)
  unfolding pop_at
  pop_at-last q x n h size head e =
      let pushes = push_lem q q.len (omega arith) (omega arith) in
      let size' = length-set_next q.slice q.len (q.len + 1) in
      let at =
        load_next-set_next (set_next q.slice q.len (q.len + 1)) q.list_head q.len x (omega arith) in
      ground arith

  pub pop_stub :
      (q : ArcSliceInner W) (x n : ℕ)
      → q.list_tail ≡ q.len
      → load_next q.slice q.len ≡ some x
      → x < q.len
      → load_next q.slice x ≡ some n
      → pop_index q ≡ pop_at (record q { list_tail = x }) x n
  unfolding pop_index
  pop_stub q x n t e h f = ground arith

  pub pop_inline :
      (q : ArcSliceInner W) (x n : ℕ)
      → q.list_tail ≡ x
      → x < q.len
      → load_next q.slice x ≡ some n
      → pop_index q ≡ pop_at q x n
  unfolding pop_index
  pop_inline q x n t h f = ground arith

  pop_index-front :
      (q : ArcSliceInner W) (front : Front) (x : ℕ) (xs : List ℕ)
      → Holds q front (x ∷ xs)
      → pop_index q ≡ some (popped q xs, ready x)
  pop_index-front q unwritten x xs v = absurd v.spells
  pop_index-front q stub x [] v =
      pop_stub q x (q.len + 1) v.spells.0 v.spells.1.0 v.below.0 v.spells.1.1.1
      ∙ pop_at-last (record q { list_tail = x }) x (q.len + 1) v.below.0 v.size (sym v.spells.1.1.0)
          refl
  pop_index-front q stub x (y ∷ ys) v =
      pop_stub q x y v.spells.0 v.spells.1.0 v.below.0 v.spells.1.1.0
      ∙ pop_at-more (record q { list_tail = x }) x y ys v.below.0 v.below.1.0
  pop_index-front q inline x [] v =
      pop_inline q x (q.len + 1) v.spells.0 v.below.0 v.spells.1.1
      ∙ pop_at-last q x (q.len + 1) v.below.0 v.size (sym v.spells.1.0) refl
  pop_index-front q inline x (y ∷ ys) v =
      pop_inline q x y v.spells.0 v.below.0 v.spells.1.0
      ∙ pop_at-more q x y ys v.below.0 v.below.1.0

  stub_alone :
      (q : ArcSliceInner W)
      → length q.slice ≡ q.len + 1
      → q.list_head < q.len
      → Holds (popped q []) stub []
  stub_alone q size h =
      let size' = length-set_next q.slice q.len (q.len + 1) in
      let once = set_next q.slice q.len (q.len + 1) in
      let at = load_next-set_next once q.list_head q.len q.len (omega arith) in
      let at' = load_next-set_next q.slice q.len (q.len + 1) q.len (omega arith) in
      record {
        size = omega (arith, length-set_next once q.list_head q.len);
        below = tt;
        distinct = tt;
        spells = (refl, (refl, ground arith));
      }

  popped-Holds :
      (q : ArcSliceInner W) (front : Front) (x : ℕ) (xs : List ℕ)
      → Holds q front (x ∷ xs)
      → Holds (popped q xs) (front_popped xs) xs
  popped-Holds q unwritten x xs v = absurd v.spells
  popped-Holds q stub x [] v = stub_alone q v.size (omega arith)
  popped-Holds q inline x [] v = stub_alone q v.size (omega arith)
  popped-Holds q stub x (y ∷ ys) v = record {
    size = v.size;
    below = v.below.1;
    distinct = v.distinct.1;
    spells = (refl, v.spells.1.1.1);
  }
  popped-Holds q inline x (y ∷ ys) v = record {
    size = v.size;
    below = v.below.1;
    distinct = v.distinct.1;
    spells = (refl, v.spells.1.1);
  }

  pub popped-Indexed : (q : ArcSliceInner W) (xs : List ℕ) → Indexed q → Indexed (popped q xs)
  popped-Indexed q [] v = pushed-Indexed q q.len v
  popped-Indexed q (y ∷ ys) v = v

  -- `pop` of a queue that holds some slot returns the first one, and the queue then holds the rest.
  -- So the slots come out in the order in which they were pushed.
  pub pop-Holds :
      (q : ArcSliceInner W) (front : Front) (x : ℕ) (xs : List ℕ)
      → Holds q front (x ∷ xs)
      → (pop_index q ≡ some (popped q xs, ready x)) × Holds (popped q xs) (front_popped xs) xs
  pop-Holds q front x xs v = (pop_index-front q front x xs v, popped-Holds q front x xs v)

  -- `pop` of a queue that was used and is empty says so, and changes nothing.
  pub pop-empty : (q : ArcSliceInner W) → Holds q stub [] → pop_index q ≡ some (q, empty)
  unfolding pop_index
  pop-empty q v = ground (arith, v.spells.1.1)
