-- ===== src/OrderedBounded/Start.antt =====
-- New sets, and sets collected from an iterator, hold their labels in order.
use mathlib.Core.Path.{subst}
use futures_buffered.UnorderedBounded.Trace.{Keeps}
use futures_buffered.UnorderedBounded.FromIter.{from_iter_lem}
use mathlib.Core.Option.{some-injective}
use futures_buffered.Base.{
  lt_of_get_elem?, sym, ◌∙◌, ◌≤◌, ℕ, zero, suc, ◌+◌, ◌<◌, ◌≡◌, refl, ap, Option, some, List, [],
  ◌∷◌, length, arith, add_usize, usize_mod, get_elem?, get_elem?_total, sub_usize, occurrences,
  occurrences-none, range_from, All,
}
use futures_buffered.ArcSlice.Fifo.{Front, unwritten}
use futures_buffered.SlotMap
use futures_buffered.UnorderedBounded
use futures_buffered.UnorderedBounded.{len}
use futures_buffered.UnorderedBounded.Valid.{IsValid, new_set-IsValid}
use futures_buffered.OrderWrapper.{msb, OrderWrapper, BinaryHeap, cmp, wrap_from, index_after}
use futures_buffered.OrderWrapper.Held.{held, task_index, index_of}
use futures_buffered.OrderWrapper.Balance.{waits}
use futures_buffered.OrderWrapper.Window.{in_window, in_window-snoc}
use futures_buffered.OrderWrapper.Labels.{RunsAt, WaitsAt}
use futures_buffered.OrderedBounded.{from_iter, FuturesOrderedBounded, new}
use futures_buffered.OrderedBounded.InOrder.{InOrder}
use futures_buffered.JoinAll.Buffer.{capacity_of, get_of_no_value}

module _ {T : Type 0} where
  -- The items of the iterator are numbered in their order, below 2^64.
  get_elem?-wrap_from :
      (a : ℕ) (iter : List T) (j : ℕ) (t : OrderWrapper T)
      → a + length iter < usize_mod
      → get_elem? (wrap_from a iter) j ≡ some t
      → (t.index ≡ a + j) × (get_elem? iter j ≡ some t.payload)
  unfolding wrap_from
  get_elem?-wrap_from a [] j t h e = absurd (ground arith)
  get_elem?-wrap_from a (x ∷ iter) zero t h e =
      let same = some-injective (record { payload = x; index = a }) t e in
      (
        omega (arith, ap (λ (r : OrderWrapper T). r.index) same),
        ap (λ (r : OrderWrapper T). some r.payload) same,
      )
  get_elem?-wrap_from a (x ∷ iter) (suc j) t h e =
      let next : add_usize a 1 ≡ suc a = ground arith in
      let (i, p) = get_elem?-wrap_from (suc a) iter j t (omega arith) (rw next at e) in
      (omega arith, p)

  length-wrap_from : (a : ℕ) (iter : List T) → length (wrap_from a iter) ≡ length iter
  unfolding wrap_from
  length-wrap_from a [] = refl
  length-wrap_from a (x ∷ iter) = ap suc (length-wrap_from (add_usize a 1) iter)

  index_after_lem :
      (a : ℕ) (iter : List T) → a + length iter < usize_mod → index_after a iter ≡ a + length iter
  unfolding index_after
  index_after_lem a [] h = omega arith
  index_after_lem a (x ∷ iter) h =
      let next : add_usize a 1 ≡ suc a = ground arith in
      rw next (omega (arith, index_after_lem (suc a) iter (omega arith)))

-- The numbers below `n`, once each.
occurrences-window :
    (n : ℕ) (f : ℕ → Option ℕ) (i : ℕ)
    → n < usize_mod
    → ((j : ℕ) → j < n → f j ≡ some j)
    → occurrences n f i ≡ in_window 0 n i
occurrences-window zero f i h e = ground arith
occurrences-window (suc n) f i h e =
    let rest = occurrences-window n f i (omega arith) (λ j lt. e j (omega arith)) in
    let last : add_usize 0 n ≡ n = ground arith in
    rw (e n (omega arith)) (omega (arith, rest, rw last at (in_window-snoc 0 n i (omega arith) h)))

module _ {T : Type 0} (m : SlotMap.SlotMap (OrderWrapper T)) (iter : List T)
    (small : length iter < usize_mod)
    (lookup : (j : ℕ) → SlotMap.get m j ≡ get_elem? (wrap_from 0 iter) j) where
  placed :
      (j : ℕ) (t : OrderWrapper T)
      → SlotMap.get m j ≡ some t
      → (t.index ≡ j) × (get_elem? iter j ≡ some t.payload)
  placed j t e =
      let (index, payload) = get_elem?-wrap_from 0 iter j t (omega arith) (sym (lookup j) ∙ e) in
      (omega (arith, index), payload)

  numbered : (j : ℕ) → j < length iter → task_index m j ≡ some j
  numbered j lt =
      let (t, e) = get_elem?_total (wrap_from 0 iter) j (rw (length-wrap_from 0 iter) lt) in
      let stored = lookup j ∙ e in ap index_of stored ∙ ap some (placed j t stored).0

  -- The indices of the items of an iterator, once each.
  held-numbered :
      (i : ℕ) → SlotMap.capacity m ≡ length iter → held m i ≡ in_window 0 (length iter) i
  held-numbered i total =
      rw total (occurrences-window (length iter) (task_index m) i small numbered)

  running-numbered :
      {O G : Type 0} (P : G → T → Type 0) (R : G → O → Type 0) (gs : List G)
      → ((j : ℕ) (g : G) (f : T) → get_elem? gs j ≡ some g → get_elem? iter j ≡ some f → P g f)
      → Keeps (RunsAt P R gs 0) m
  running-numbered P R gs p j t e =
      let (index, payload) = placed j t e in
      let lt = lt_of_get_elem? iter j payload in
      let place : sub_usize t.index 0 ≡ j = below j t.index index lt in
      (omega (arith, index), λ g l. p j g t.payload (rw place at l) payload)
    where
      below : (j i : ℕ) → i ≡ j → j < length iter → sub_usize i 0 ≡ j
      below j i e lt = ground (arith, small)

nothing_waits :
    {O : Type 0} (bh : BinaryHeap (OrderWrapper O) cmp) (n i : ℕ)
    → waits (bh.into_vec (bh.with_capacity n)) i ≡ 0
nothing_waits bh n i = rw (bh.into_vec-with_capacity n)

module _ {T O G : Type 0} (bh : BinaryHeap (OrderWrapper O) cmp) (P : G → T → Type 0)
    (R : G → O → Type 0) where
  nothing_labelled :
      (n k : ℕ) (gs : List G) → All (WaitsAt P R gs k) (bh.into_vec (bh.with_capacity n))
  nothing_labelled n k gs = rw (bh.into_vec-with_capacity n) tt

module _ {W T O G : Type 0} (bh : BinaryHeap (OrderWrapper O) cmp) (P : G → T → Type 0)
    (R : G → O → Type 0) where
  -- `new` panics exactly for the capacity 0; otherwise, below 2^64, it gives a valid queue that holds
  -- no label.
  pub new-InOrder :
      (cell : W) (n : ℕ)
      → suc n < usize_mod
      → (q : FuturesOrderedBounded W bh.Heap T) × (new bh cell (suc n) ≡ some q)
        × InOrder bh P R q [] unwritten [] (range_from 0 (suc n))
  unfolding new
  new-InOrder cell n h =
      let fresh = UnorderedBounded.new {F = OrderWrapper T} cell (suc n) in
      let v = new_set-IsValid {F = OrderWrapper T} cell (suc n) h in
      let vacant = λ (j : ℕ). get_of_no_value fresh.tasks (range_from 0 (suc n)) j v.slots v.used in
      (
        record {
          in_progress_queue = fresh;
          queued_outputs = bh.with_capacity n;
          next_incoming_index = 0;
          next_outgoing_index = 0;
        },
        refl,
        record {
          valid = v;
          small = omega arith;
          few = omega arith;
          incoming = ground arith;
          balance = λ i. omega (
            arith,
            nothing_waits bh n i,
            occurrences-none (SlotMap.capacity fresh.tasks) (task_index fresh.tasks) i
                (λ j. ap index_of (vacant j)),
            none_in i,
          );
          running = λ j t e. absurd (ground (arith, vacant j));
          waiting = nothing_labelled bh P R n 0 [];
        },
      )
    where
      none_in : (i : ℕ) → in_window 0 0 i ≡ 0
      none_in i = ground arith

  -- `from_iter` of at most 2^63 futures, each with the label at its place, never faults, and gives a
  -- valid queue that holds the labels in the order of the iterator.
  pub from_iter-InOrder :
      (cell : W) (iter : List T) (gs : List G)
      → length iter ≤ msb
      → length gs ≡ length iter
      → ((j : ℕ) (g : G) (f : T) → get_elem? gs j ≡ some g → get_elem? iter j ≡ some f → P g f)
      → (q : FuturesOrderedBounded W bh.Heap T) × (front : Front) × (from_iter bh cell iter
          ≡ some q)
        × InOrder bh P R q gs front (range_from 0 (length iter)) []
        × (len q.in_progress_queue ≡ length iter)
  unfolding from_iter
  from_iter-InOrder cell iter gs h same p =
      let wrapped = wrap_from 0 iter in
      let size = length-wrap_from 0 iter in
      let small : length iter < usize_mod = omega arith in
      let (queue, front, runs, v, count, lookup) =
        from_iter_lem {F = OrderWrapper T} cell wrapped (rw size small) in
      let total : SlotMap.capacity queue.tasks ≡ length iter =
        unfold UnorderedBounded.capacity in (omega (arith, capacity_of queue v, count, size)) in
      let after = index_after_lem 0 iter (omega arith) in
      (
        record {
          in_progress_queue = queue;
          queued_outputs = bh.with_capacity 0;
          next_incoming_index = index_after 0 iter;
          next_outgoing_index = 0;
        },
        front,
        rw runs,
        record {
          valid = subst (λ n. IsValid queue front (range_from 0 n) []) size v;
          small = omega arith;
          few = omega arith;
          incoming = rw (after, same) (ground arith);
          balance = λ i. omega (
            arith,
            nothing_waits bh 0 i,
            held-numbered queue.tasks iter small lookup i total,
            ap (λ n. in_window 0 n i) same,
          );
          running = running-numbered queue.tasks iter small lookup P R gs p;
          waiting = nothing_labelled bh P R 0 0 gs;
        },
        omega (arith, count, size),
      )
