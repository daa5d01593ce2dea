-- ===== src/BufferedOrdered/Fill.antt =====
-- The filling loop of a `BufferedOrdered`: it puts the stream's futures behind the others, in order.
use futures_buffered.JoinAll.Buffer.{capacity_of}
use mathlib.Core.List.{append_assoc, append-nil}
use futures_buffered.Base.{
  length-snoc, zero, inr, inl, ltb, Bool-cases, ℕ, suc, ◌+◌, ◌≤◌, ◌<◌, ◌≡◌, refl, ◌∙◌, Option, none,
  some, List, [], ◌∷◌, ◌++◌, length, map, arith,
}
use futures_buffered.Task.{Poll, ready, pending, Log}
use futures_buffered.ArcSlice.Fifo.{Front}
use futures_buffered.SlotMap.{Result, ok, err}
use futures_buffered.UnorderedBounded.{FuturesUnorderedBounded, capacity, len}
use futures_buffered.OrderWrapper.{OrderWrapper, BinaryHeap, cmp, msb}
use futures_buffered.OrderedBounded.{FuturesOrderedBounded, try_push_back, push_back, unless_full}
use futures_buffered.OrderedBounded.InOrder.{InOrder}
use futures_buffered.OrderedBounded.Deque.{Labelled, try_push_back-InOrder}
use futures_buffered.Stream.{left_alone, StreamFn, Took, waited, finished, took}
use futures_buffered.BufferedOrdered.{poll_stream, BufferedOrdered, after_stream, fill}

-- The futures in progress.
abbrev pub tasks :
    {W H F : Type 0} → FuturesOrderedBounded W H F → FuturesUnorderedBounded W (OrderWrapper F)
tasks q = q.in_progress_queue

module _ {W F O G : Type 0} (bh : BinaryHeap (OrderWrapper O) cmp) (P : G → F → Type 0)
    (R : G → O → Type 0) where
  -- In `q'` stand the labels `hs`, in as many slots and with the references of `q`.
  abbrev pub Holding :
      FuturesOrderedBounded W bh.Heap F → List G → FuturesOrderedBounded W bh.Heap F → Type 0
  Holding q hs q' =
      (front : Front) × (xs : List ℕ) × (free : List ℕ) × InOrder bh P R q' hs front xs free
      × (capacity (tasks q') ≡ capacity (tasks q))
      × ((tasks q').shared.strong ≡ (tasks q).shared.strong)

module _ {W F O G : Type 0} (bh : BinaryHeap (OrderWrapper O) cmp) (P : G → F → Type 0)
    (R : G → O → Type 0) (label : F → G) (starts : (f : F) → P (label f) f) where
  -- With a free slot `push_back` does not panic.
  pub push_back_room :
      (q : FuturesOrderedBounded W bh.Heap F) (gs : List G) (f : F) (front : Front)
      (xs free : List ℕ)
      → InOrder bh P R q gs front xs free
      → len (tasks q) < capacity (tasks q)
      → length gs < msb
      → (q' : FuturesOrderedBounded W bh.Heap F) × (push_back q f ≡ some q')
        × Holding bh P R q (gs ++ label f ∷ []) q'
        × (len (tasks q') ≡ len (tasks q) + 1)
  unfolding push_back unless_full
  push_back_room q gs f front xs free v room few =
      finish (try_push_back-InOrder bh P R q gs (label f) f front xs free v few (starts f))
    where
      finish :
          (out : FuturesOrderedBounded W bh.Heap F × Result (Unit {0}) F) × (try_push_back q f
              ≡ some out)
            × Labelled bh P R q gs (label f) f front xs (gs ++ label f ∷ []) out
          → (q' : FuturesOrderedBounded W bh.Heap F) × (push_back q f ≡ some q')
            × Holding bh P R q (gs ++ label f ∷ []) q'
            × (len (tasks q') ≡ len (tasks q) + 1)
      finish ((q', ok u), runs, (key, free', v', more, size, same)) =
          (q', rw runs refl, (_, _, free', v', size, same), more)
      finish ((q', err x), runs, (full, eq, ex)) = absurd (omega arith)

module _ (W : Type 0) {S F O G : Type 0} (bh : BinaryHeap (OrderWrapper O) cmp) (P : G → F → Type 0)
    (R : G → O → Type 0) (label : F → G) (starts : (f : F) → P (label f) f) (cx : ℕ)
    (next : StreamFn S F) where
  -- The futures that the loop took from the stream stand behind those of `gs`, in order.
  abbrev pub Filled :
      Option S
      → FuturesOrderedBounded W bh.Heap F
      → List G
      → BufferedOrdered W bh.Heap S F × Log
      → Type 0
  Filled stream q gs (b', log') =
      (futs : List F) × Took cx next stream futs b'.stream
      × Holding bh P R q (gs ++ map label futs) b'.in_progress_queue

  abbrev Fills : ℕ → Type 0
  Fills left =
      (b : BufferedOrdered W bh.Heap S F) (gs : List G) (log : Log) (front : Front)
      (xs free : List ℕ)
      → InOrder bh P R b.in_progress_queue gs front xs free
      → capacity (tasks b.in_progress_queue) < left + len (tasks b.in_progress_queue)
      → length gs + capacity (tasks b.in_progress_queue) ≤ msb + len (tasks b.in_progress_queue)
      → (out : BufferedOrdered W bh.Heap S F × Log) × (fill left cx next b log ≡ some out)
        × Filled b.stream b.in_progress_queue gs out

  nothing_taken :
      (q : FuturesOrderedBounded W bh.Heap F) (gs : List G) (front : Front) (xs free : List ℕ)
      → InOrder bh P R q gs front xs free
      → Holding bh P R q (gs ++ map label []) q
  nothing_taken q gs front xs free v = (front, xs, free, rw append-nil v, refl, refl)

  after_stream_lem :
      (left : ℕ) (q : FuturesOrderedBounded W bh.Heap F) (gs : List G) (log : Log) (front : Front)
      (xs free : List ℕ) (s : S) (polled : S × Log × Poll (Option F))
      → Fills left
      → next s cx ≡ polled
      → InOrder bh P R q gs front xs free
      → capacity (tasks q) < suc left + len (tasks q)
      → length gs + capacity (tasks q) ≤ msb + len (tasks q)
      → len (tasks q) < capacity (tasks q)
      → (out : BufferedOrdered W bh.Heap S F × Log) × (after_stream (fill left cx next) q log polled
          ≡ some out)
        × Filled (some s) q gs out
  unfolding after_stream
  after_stream_lem left q gs log front xs free s (s', called, pending) fills e v h few room = (
    (record { stream = some s'; in_progress_queue = q }, log ++ called),
    refl,
    ([], waited e, nothing_taken q gs front xs free v),
  )
  after_stream_lem left q gs log front xs free s (s', called, ready none) fills e v h few room = (
    (record { stream = none; in_progress_queue = q }, log ++ called),
    refl,
    ([], finished e, nothing_taken q gs front xs free v),
  )
  after_stream_lem left q gs log front xs free s (s', called, ready (some fut)) fills e v h few
        room =
      let (q', runs, (front', xs', free', v', size, same), more) =
        push_back_room bh P R label starts q gs fut front xs free v room (omega arith) in
      let longer = length-snoc gs (label fut) in
      let (out, ends, (futs, from_stream, (front'', xs'', free'', v'', size', same'))) =
        fills (record { stream = some s'; in_progress_queue = q' }) (gs ++ label fut ∷ [])
          (log ++ called) front' xs' free' v' (omega arith) (omega (arith, longer)) in
      (
        out,
        rw runs ends,
        (
          fut ∷ futs,
          took e from_stream,
          (front'', xs'', free'', rw append_assoc at v'', size' ∙ size, same' ∙ same),
        ),
      )

  poll_stream_lem :
      (left : ℕ) (q : FuturesOrderedBounded W bh.Heap F) (gs : List G) (log : Log) (front : Front)
      (xs free : List ℕ) (stream : Option S)
      → Fills left
      → InOrder bh P R q gs front xs free
      → capacity (tasks q) < suc left + len (tasks q)
      → length gs + capacity (tasks q) ≤ msb + len (tasks q)
      → len (tasks q) < capacity (tasks q)
      → (out : BufferedOrdered W bh.Heap S F × Log) × (poll_stream
            (fill left cx next)
            cx
            next
            q
            log
            stream
          ≡ some out)
        × Filled stream q gs out
  unfolding poll_stream
  poll_stream_lem left q gs log front xs free none fills v h few room = (
    (record { stream = none; in_progress_queue = q }, log),
    refl,
    ([], left_alone, nothing_taken q gs front xs free v),
  )
  poll_stream_lem left q gs log front xs free (some s) fills v h few room =
      after_stream_lem left q gs log front xs free s (next s cx) fills refl v h few room

  -- The loop ends within the rounds, and never faults.
  pub fill_lem : (left : ℕ) → Fills left
  unfolding fill
  fill_lem zero b gs log front xs free v h few =
      absurd (omega (arith, capacity_of (tasks b.in_progress_queue) v.valid))
  fill_lem (suc left) b gs log front xs free v h few =
      let q = b.in_progress_queue in
      elim (Bool-cases (ltb (len (tasks q)) (capacity (tasks q)))) [
        | inl room ↦
            let (out, runs, filled) =
              poll_stream_lem left q gs log front xs free b.stream (fill_lem left) v h few
                (ground arith) in
            (out, rw room runs, filled)
        | inr full ↦ ((b, log), rw full refl, ([], left_alone, nothing_taken q gs front xs free v))
      ]
