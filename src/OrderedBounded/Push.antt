-- ===== src/OrderedBounded/Push.antt =====
-- Pushes to the back and to the front of a `FuturesOrderedBounded`.
use futures_buffered.OrderedBounded.{
  FuturesOrderedBounded, try_push_back, try_push_front, pushed_back, pushed_front,
}
use futures_buffered.OrderWrapper.{OrderWrapper}
use futures_buffered.Base.{ℕ, ◌≡◌, refl, some, List, ◌∷◌, [], ◌++◌, add_usize, sub_usize}
use mathlib.Core.Path.{ap₂}
use futures_buffered.ArcSlice.Fifo.{Front}
use futures_buffered.ArcSlice.Push.{front_pushed}
use futures_buffered.SlotMap.{Result, ok, err}
use futures_buffered.SlotMap.Lookup.{Inserted}
use futures_buffered.UnorderedBounded.{FuturesUnorderedBounded, capacity, try_push_with}
use futures_buffered.UnorderedBounded
use futures_buffered.UnorderedBounded.Valid.{IsValid}
use futures_buffered.UnorderedBounded.Push.{Pushed, try_push_with_lem}

module _ {W H T : Type 0} (q : FuturesOrderedBounded W H T) (future : T) (front : Front)
    (xs : List ℕ) where
  -- The future was stored under `index` in a free slot, which is queued last, without a new reference.
  abbrev pub StoredAs : ℕ → FuturesUnorderedBounded W (OrderWrapper T) → Type 0
  StoredAs index queue =
      (key : ℕ) × (free : List ℕ) × IsValid queue (front_pushed front) (xs ++ key ∷ []) free
      × Inserted q.in_progress_queue.tasks (record { payload = future; index = index }) key
          queue.tasks
      × (queue.shared.strong ≡ q.in_progress_queue.shared.strong)

  -- The ways in which a push to the back may end.
  abbrev pub PushedBack : FuturesOrderedBounded W H T × Result (Unit {0}) T → Type 0
  PushedBack (q', ok _) =
      StoredAs q.next_incoming_index q'.in_progress_queue
      × (q'.next_incoming_index ≡ add_usize q.next_incoming_index 1)
      × (q'.next_outgoing_index ≡ q.next_outgoing_index)
      × (q'.queued_outputs ≡ q.queued_outputs)
  PushedBack (q', err f) =
      (UnorderedBounded.len q.in_progress_queue ≡ capacity q.in_progress_queue)
      × (q' ≡ q)
      × (f ≡ future)

  -- The ways in which a push to the front may end.
  abbrev pub PushedFront : FuturesOrderedBounded W H T × Result (Unit {0}) T → Type 0
  PushedFront (q', ok _) =
      StoredAs (sub_usize q.next_outgoing_index 1) q'.in_progress_queue
      × (q'.next_outgoing_index ≡ sub_usize q.next_outgoing_index 1)
      × (q'.next_incoming_index ≡ q.next_incoming_index)
      × (q'.queued_outputs ≡ q.queued_outputs)
  PushedFront (q', err f) =
      (UnorderedBounded.len q.in_progress_queue ≡ capacity q.in_progress_queue)
      × (q' ≡ q)
      × (f ≡ future)

  abbrev number_back : ℕ → T → OrderWrapper T × ℕ
  number_back index fut = (record { payload = fut; index = index }, add_usize index 1)

  abbrev number_front : ℕ → T → OrderWrapper T × ℕ
  number_front index fut = (record { payload = fut; index = sub_usize index 1 }, sub_usize index 1)

  back_of_Pushed :
      (out : FuturesUnorderedBounded W (OrderWrapper T) × ℕ × Result (Unit {0}) T)
      → Pushed q.in_progress_queue q.next_incoming_index future number_back front xs out
      → PushedBack (pushed_back q out)
  unfolding pushed_back
  back_of_Pushed (queue, index, ok u) (key, free, v, ins, counted, same) =
      ((key, free, v, ins, same), counted, refl, refl)
  back_of_Pushed (queue, index, err f) (full, eq, ei, ef) =
      (full, ap₂ (λ r i. record q { in_progress_queue = r; next_incoming_index = i }) eq ei, ef)

  front_of_Pushed :
      (out : FuturesUnorderedBounded W (OrderWrapper T) × ℕ × Result (Unit {0}) T)
      → Pushed q.in_progress_queue q.next_outgoing_index future number_front front xs out
      → PushedFront (pushed_front q out)
  unfolding pushed_front
  front_of_Pushed (queue, index, ok u) (key, free, v, ins, counted, same) =
      ((key, free, v, ins, same), counted, refl, refl)
  front_of_Pushed (queue, index, err f) (full, eq, ei, ef) =
      (full, ap₂ (λ r i. record q { in_progress_queue = r; next_outgoing_index = i }) eq ei, ef)

  -- On a valid queue `try_push_back` never faults. It fails exactly when every slot holds a future,
  -- changing nothing and giving the future back. Otherwise it stores the future under the next
  -- incoming index, which it counts up modulo 2^64, and queues its slot.
  pub try_push_back_lem :
      (free : List ℕ)
      → IsValid q.in_progress_queue front xs free
      → (out : FuturesOrderedBounded W H T × Result (Unit {0}) T) × (try_push_back q future
          ≡ some out)
        × PushedBack out
  unfolding try_push_back
  try_push_back_lem free v =
      let (out, runs, pushed) =
        try_push_with_lem q.in_progress_queue q.next_incoming_index future number_back front xs free
          v in
      (pushed_back q out, rw runs refl, back_of_Pushed out pushed)

  -- On a valid queue `try_push_front` never faults. It fails exactly when every slot holds a future,
  -- changing nothing and giving the future back. Otherwise it counts the next outgoing index down
  -- modulo 2^64, stores the future under it, and queues its slot.
  pub try_push_front_lem :
      (free : List ℕ)
      → IsValid q.in_progress_queue front xs free
      → (out : FuturesOrderedBounded W H T × Result (Unit {0}) T) × (try_push_front q future
          ≡ some out)
        × PushedFront out
  unfolding try_push_front
  try_push_front_lem free v =
      let (out, runs, pushed) =
        try_push_with_lem q.in_progress_queue q.next_outgoing_index future number_front front xs
          free v in
      (pushed_front q out, rw runs refl, front_of_Pushed out pushed)
