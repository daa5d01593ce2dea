-- ===== src/OrderedBounded/Housekeeping.antt =====
-- Housekeeping, the first part of a poll of a `FuturesOrderedBounded`.
use mathlib.Core.List.Permᴰ
use mathlib.Core.Option
use mathlib.Core.Option.{some-injective}
use mathlib.Core.Path.{subst}
use futures_buffered.Base.{
  inl, inr, Bool-cases, true, leb, ℕ, ◌≤◌, ◌<◌, ◌≡◌, refl, sym, ap, ◌∙◌, Option, none, some, List,
  [], ◌∷◌, length, map, arith, All, All-map, All-perm, add_usize, usize_mod,
}
use futures_buffered.ArcSlice.Fifo.{Front, unwritten, stub, inline}
use futures_buffered.SlotMap
use futures_buffered.SlotMap.{SlotMap}
use futures_buffered.SlotMap.Iter.{
  get-for_each_mut, for_each_mut-IsValid, capacity-for_each_mut, len-for_each_mut,
}
use futures_buffered.UnorderedBounded.{FuturesUnorderedBounded, capacity, len}
use futures_buffered.UnorderedBounded.Valid.{IsValid, IsUsed, is_some}
use futures_buffered.UnorderedBounded.Round.{AllIn-same}
use futures_buffered.UnorderedBounded.Trace.{Keeps}
use futures_buffered.OrderWrapper.{OrderWrapper, BinaryHeap, cmp, msb, flip_msb, flip_entry}
use futures_buffered.OrderWrapper.Held.{index_of, task_index}
use futures_buffered.OrderWrapper.Flip.{Small, SmallIndex, balance-housekeep}
use futures_buffered.OrderWrapper.Labels.{RunsAt, WaitsAt}
use futures_buffered.OrderWrapper.Places.{AtPlace-flip}
use futures_buffered.OrderedBounded.{FuturesOrderedBounded, housekeep}
use futures_buffered.OrderedBounded.InOrder.{InOrder}

module _ {W T : Type 0} where
  -- Flipping the indices keeps a queue valid.
  flipped-IsValid :
      (q : FuturesUnorderedBounded W (OrderWrapper T)) (front : Front) (xs free : List ℕ)
      → IsValid q front xs free
      → IsValid (record q { tasks = SlotMap.for_each_mut flip_entry q.tasks }) front xs free
  unfolding capacity
  flipped-IsValid q front xs free v = record {
    slots = for_each_mut-IsValid flip_entry q.tasks free v.slots;
    same_len = v.same_len ∙ sym (capacity-for_each_mut flip_entry q.tasks);
    queue = v.queue;
    indexed = v.indexed;
    occupied = AllIn-same q.tasks (SlotMap.for_each_mut flip_entry q.tasks) xs same v.occupied;
    used = still_used front v.used;
    referenced = v.referenced;
  }
    where
      is_some-map : (o : Option (OrderWrapper T)) → is_some (Option.map flip_entry o) ≡ is_some o
      is_some-map none = refl
      is_some-map (some t) = refl

      same :
          (j : ℕ)
          → is_some (SlotMap.get (SlotMap.for_each_mut flip_entry q.tasks) j)
            ≡ is_some (SlotMap.get q.tasks j)
      same j =
          ap is_some (get-for_each_mut flip_entry q.tasks j) ∙ is_some-map (SlotMap.get q.tasks j)

      still_used :
          (front : Front)
          → IsUsed front q.tasks
          → IsUsed front (SlotMap.for_each_mut flip_entry q.tasks)
      still_used unwritten u = rw (len-for_each_mut flip_entry q.tasks) u
      still_used stub u = tt
      still_used inline u = tt

-- The future behind a flipped one.
unflipped :
    {T : Type 0} (o : Option (OrderWrapper T)) (t : OrderWrapper T)
    → Option.map flip_entry o ≡ some t
    → (t₀ : OrderWrapper T) × (o ≡ some t₀) × (flip_entry t₀ ≡ t)
unflipped none t e = absurd (ground arith)
unflipped (some t₀) t e = (t₀, refl, some-injective (flip_entry t₀) t e)

flip_below : (i : ℕ) → i < usize_mod → leb msb i ≡ true → flip_msb i < msb
flip_below i h e = ground arith

next_incoming-flip :
    (i k n : ℕ)
    → i ≡ add_usize k n
    → k < usize_mod
    → n ≤ msb
    → flip_msb i ≡ add_usize (flip_msb k) n
next_incoming-flip i k n e h s = ground arith

module _ {T O G : Type 0} (P : G → T → Type 0) (R : G → O → Type 0) where
  flipped_running :
      (gs : List G) (k : ℕ) (m : SlotMap (OrderWrapper T))
      → k < usize_mod
      → Keeps (RunsAt P R gs k) m
      → Keeps (RunsAt P R gs (flip_msb k)) (SlotMap.for_each_mut flip_entry m)
  unfolding flip_entry
  flipped_running gs k m small a j t e =
      let (t₀, stored, back) =
        unflipped (SlotMap.get m j) t (sym (get-for_each_mut flip_entry m j) ∙ e) in
      subst (RunsAt P R gs (flip_msb k) j) back
        (AtPlace-flip P gs k t₀.index t₀.payload small (a j t₀ stored))

  task_index-Small :
      (gs : List G) (k : ℕ) (m : SlotMap (OrderWrapper T))
      → Keeps (RunsAt P R gs k) m
      → Small (task_index m)
  task_index-Small gs k m a j i e = of_option (SlotMap.get m j) refl e
    where
      of_option :
          (o : Option (OrderWrapper T)) → SlotMap.get m j ≡ o → index_of o ≡ some i → i < usize_mod
      of_option none s h = absurd (ground arith)
      of_option (some t) s h = rw (← some-injective t.index i h) (a j t s).0

  small_waiting :
      (gs : List G) (k : ℕ) (es : List (OrderWrapper O))
      → All (WaitsAt P R gs k) es
      → All SmallIndex es
  small_waiting gs k [] a = tt
  small_waiting gs k (e ∷ es) a = (a.0.0, small_waiting gs k es a.1)

module _ {W T O G : Type 0} (bh : BinaryHeap (OrderWrapper O) cmp) (P : G → T → Type 0)
    (R : G → O → Type 0) where
  -- Housekeeping keeps the order, with the same labels, and brings the first index below 2^63.
  pub housekeep-InOrder :
      (q : FuturesOrderedBounded W bh.Heap T) (gs : List G) (front : Front) (xs free : List ℕ)
      → InOrder bh P R q gs front xs free
      → InOrder bh P R (housekeep bh q) gs front xs free
        × ((housekeep bh q).next_outgoing_index < msb)
        × (len (housekeep bh q).in_progress_queue ≡ len q.in_progress_queue)
        × ((housekeep bh q).in_progress_queue.shared ≡ q.in_progress_queue.shared)
  unfolding housekeep flip_entry len
  housekeep-InOrder q gs front xs free v = elim (Bool-cases (leb msb q.next_outgoing_index)) [
    | inl high ↦
        let k = q.next_outgoing_index in
        let es = bh.into_vec q.queued_outputs in
        let rebuilt = bh.into_vec-from_vec (map flip_entry es) in
        let below = flip_below k v.small high in
        rw high (
          record {
            valid = flipped-IsValid q.in_progress_queue front xs free v.valid;
            small = omega (arith, below);
            few = v.few;
            incoming =
                next_incoming-flip q.next_incoming_index k (length gs) v.incoming v.small v.few;
            balance =
                balance-housekeep q.in_progress_queue.tasks es
                  (bh.into_vec (bh.from_vec (map flip_entry es))) k (length gs)
                  (task_index-Small P R gs k q.in_progress_queue.tasks v.running)
                  (small_waiting P R gs k es v.waiting) v.small rebuilt v.balance;
            running = flipped_running P R gs k q.in_progress_queue.tasks v.small v.running;
            waiting = All-perm (WaitsAt P R gs (flip_msb k)) (Permᴰ.symm rebuilt) (
                All-map flip_entry (WaitsAt P R gs k) (WaitsAt P R gs (flip_msb k)) es
                  (λ o a. AtPlace-flip R gs k o.index o.payload v.small a) v.waiting);
          },
          below,
          len-for_each_mut flip_entry q.in_progress_queue.tasks,
          refl,
        )
    | inr low ↦ rw low (v, ground arith, refl, refl)
  ]
