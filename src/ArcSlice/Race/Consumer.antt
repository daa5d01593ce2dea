-- ===== src/ArcSlice/Race/Consumer.antt =====
-- A `pop` while producers are between their accesses.
use mathlib.Core.Path.{subst}
use futures_buffered.Base.{
  inl, inr, ◌⊎◌, ℕ, ◌+◌, ◌<◌, ◌≡◌, refl, sym, false, some, List, [], ◌∷◌, arith, length, ne_of_has,
  ◌==◌,
}
use futures_buffered.ArcSlice.{
  ArcSliceInner, ReadySlot, ready, inconsistent, empty, set_next, load_next, pop_at, pop_index,
}
use futures_buffered.ArcSlice.Slots.{length-set_next, load_next-set_next}
use futures_buffered.ArcSlice.Pop.{popped, pop_at-more, pop_at-last, pop_stub, pop_inline}
use futures_buffered.ArcSlice.Race.{has, Machine, take}
use futures_buffered.ArcSlice.Race.Links.{Link, linked, missing, slots, gaps, has-head}
use futures_buffered.ArcSlice.Race.Order.{
  stub_not_cleared, AllCleared-set, not_cleared, AllCleared-tail, AllCleared, Order, at_stub,
  at_slot, contents, front, behind, Racing, owed-ones,
}

module _ {W : Type 0} where
  -- What a `pop` tells of a machine whose slots are `xs`, and leaves.
  abbrev pub Popped : List ℕ → Machine W × ReadySlot ℕ → Type 0
  Popped xs (m, ready x) =
      (rest : List ℕ) × (xs ≡ x ∷ rest) × (order : Order) × (contents order ≡ rest) × Racing m order
  Popped xs (m, inconsistent) =
      (0 < length m.producers) × (order : Order) × (contents order ≡ xs) × Racing m order
  Popped xs (m, empty) =
      ((xs ≡ []) ⊎ (0 < length m.producers))
      × (order : Order) × (contents order ≡ xs)
      × Racing m order

  -- A link is missing, so some producer has yet to write it.
  some_producer :
      (m : Machine W) (order : Order)
      → Racing m order
      → 0 < gaps (λ a b. 1) (front m.queue.len order) (behind order)
      → 0 < length m.producers
  some_producer m order v h = omega (arith, v.owes (λ a b. 1), owed-ones m.producers)

  -- A `pop` of the slot `x`, once that is in front, for each way in which the list may go on.
  abbrev Takes : Machine W → ℕ → List Link → ℕ → Type 0
  Takes m x ys n =
      (out : ArcSliceInner W × ReadySlot ℕ) × (pop_at m.queue x n ≡ some out)
      × Popped (x ∷ slots ys) (record m { queue = out.0 }, out.1)

  pop_at_gap :
      (q : ArcSliceInner W) (x : ℕ)
      → (q.list_head == x) ≡ false
      → pop_at q x (q.len + 1) ≡ some (q, inconsistent)
  unfolding pop_at
  pop_at_gap q x other = ground arith

  -- The push of the stub, when the last slot `x` goes, writes to no cleared slot.
  still_cleared :
      (q : ArcSliceInner W) (x : ℕ) (is : List ℕ)
      → length q.slice ≡ q.len + 1
      → x ≡ q.list_head
      → x < q.len
      → AllCleared q.len q.slice (x ∷ []) is
      → AllCleared q.len (popped q []).slice [] is
  still_cleared q x is size head lt c =
      let s = q.slice in
      let once = set_next s q.len (q.len + 1) in
      let at_head = not_cleared q.len s (at_slot x []) is x c (ground arith) in
      AllCleared-set q.len once [] is q.list_head q.len
        (omega (arith, size, head, lt, length-set_next s q.len (q.len + 1)))
        (subst (λ h. has h is ≡ false) head at_head)
        (AllCleared-set q.len s [] is q.len (q.len + 1) (omega (arith, size))
          (stub_not_cleared q.len s (x ∷ []) is c) (AllCleared-tail q.len s x [] is c))

  take_slot :
      (m : Machine W) (x : ℕ) (ys : List Link)
      → Racing m (at_slot x ys)
      → (n : ℕ) × (load_next m.queue.slice x ≡ some n) × Takes m x ys n
  take_slot m x [] v =
      let q = m.queue in
      let size = length-set_next q.slice q.len (q.len + 1) in
      let once = set_next q.slice q.len (q.len + 1) in
      let at =
        load_next-set_next once q.list_head q.len q.len
          (omega (arith, v.size, v.below.0, v.leads.0)) in
      let at' = load_next-set_next q.slice q.len (q.len + 1) q.len (omega (arith, v.size)) in
      let size' = length-set_next once q.list_head q.len in
      (
        q.len + 1,
        v.leads.1,
        (
          (popped q [], ready x),
          pop_at-last q x (q.len + 1) v.below.0 v.size (sym v.leads.0) refl,
          (
            [],
            refl,
            at_stub [],
            refl,
            record {
              size = omega (arith, v.size, size, size');
              below = tt;
              distinct = tt;
              tail = refl;
              leads = (refl, ground (arith, v.leads.0, v.below.0));
              clears = still_cleared q x m.clearing v.size v.leads.0 v.below.0 v.clears;
              apart = v.apart;
              owes = v.owes;
            },
          ),
        ),
      )
  take_slot m x (linked y ∷ ys) v = (
    y,
    v.leads.0,
    (
      (popped m.queue (y ∷ slots ys), ready x),
      pop_at-more m.queue x y (slots ys) v.below.0 v.below.1.0,
      (
        y ∷ slots ys,
        refl,
        at_slot y ys,
        refl,
        record {
          size = v.size;
          below = v.below.1;
          distinct = v.distinct.1;
          tail = refl;
          leads = v.leads.1;
          clears = AllCleared-tail m.queue.len m.queue.slice x (y ∷ slots ys) m.clearing v.clears;
          apart = v.apart;
          owes = v.owes;
        },
      ),
    ),
  )
  take_slot m x (missing y ∷ ys) v =
      let q = m.queue in
      let last = has-head (q.len + 1) q.slice y ys q.list_head v.leads.1 in
      let ne = ne_of_has q.list_head x (y ∷ slots ys) last v.distinct.0 in
      (
        q.len + 1,
        v.leads.0,
        (
          (q, inconsistent),
          pop_at_gap q x (ground arith),
          (
            some_producer m (at_slot x (missing y ∷ ys)) v (omega arith),
            at_slot x (missing y ∷ ys),
            refl,
            v,
          ),
        ),
      )

  -- The machine once the stub has been skipped.
  past_stub : Machine W → ℕ → Machine W
  past_stub m y = record m { queue = record m.queue { list_tail = y } }

  past_stub-Racing :
      (m : Machine W) (y : ℕ) (ys : List Link)
      → Racing m (at_stub (linked y ∷ ys))
      → Racing (past_stub m y) (at_slot y ys)
  unfolding past_stub
  past_stub-Racing m y ys v = record {
    size = v.size;
    below = v.below;
    distinct = v.distinct;
    tail = refl;
    leads = v.leads.1;
    clears = v.clears;
    apart = v.apart;
    owes = v.owes;
  }

  stub_ends :
      (q : ArcSliceInner W)
      → q.list_tail ≡ q.len
      → load_next q.slice q.len ≡ some (q.len + 1)
      → pop_index q ≡ some (q, empty)
  unfolding pop_index
  stub_ends q t e = ground arith

  -- Whatever links the producers still have to write, a `pop` of the list never faults. It returns the
  -- slot whose swap came first, and the others stay in their order. Or it is inconsistent, and then
  -- some producer is between its swap and its last store; or it finds nothing, and then no slot is
  -- queued or some producer is between its swap and its last store; in both cases the slots and their
  -- order are as before.
  pub take_lem :
      (m : Machine W) (order : Order)
      → Racing m order
      → (out : Machine W × ReadySlot ℕ) × (take m ≡ some out) × Popped (contents order) out
  unfolding take past_stub
  take_lem m (at_stub []) v =
      ((m, empty), rw (stub_ends m.queue v.tail v.leads.1) refl, (inl refl, at_stub [], refl, v))
  take_lem m (at_stub (missing y ∷ ys)) v = (
    (m, empty),
    rw (stub_ends m.queue v.tail v.leads.0) refl,
    (
      inr (some_producer m (at_stub (missing y ∷ ys)) v (omega arith)),
      at_stub (missing y ∷ ys),
      refl,
      v,
    ),
  )
  take_lem m (at_stub (linked y ∷ ys)) v =
      let (n, next, (out, runs, told)) =
        take_slot (past_stub m y) y ys (past_stub-Racing m y ys v) in
      (
        (record m { queue = out.0 }, out.1),
        rw (pop_stub m.queue y n v.tail v.leads.0 v.below.0 next, runs) refl,
        told,
      )
  take_lem m (at_slot x ys) v =
      let (n, next, (out, runs, told)) = take_slot m x ys v in
      (
        (record m { queue = out.0 }, out.1),
        rw (pop_inline m.queue x n v.tail v.below.0 next, runs) refl,
        told,
      )
