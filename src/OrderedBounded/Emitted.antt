-- ===== src/OrderedBounded/Emitted.antt =====
-- What an adaptor over a `FuturesOrderedBounded` returns.
use futures_buffered.Base.{ℕ, ◌≡◌, refl, ap, Option, none, some, List, [], ◌∷◌, length}
use futures_buffered.Task.{Poll, ready, pending}
use futures_buffered.ArcSlice.Fifo.{Front}
use futures_buffered.Stream.{ended}
use futures_buffered.Stream.Ending.{Told}
use futures_buffered.OrderWrapper.{OrderWrapper, BinaryHeap, cmp}
use futures_buffered.OrderedBounded.{FuturesOrderedBounded}
use futures_buffered.OrderedBounded.InOrder.{InOrder}

module _ {W F O G : Type 0} (bh : BinaryHeap (OrderWrapper O) cmp) (P : G → F → Type 0)
    (R : G → O → Type 0) where
  abbrev pub Holds : FuturesOrderedBounded W bh.Heap F → List G → Type 0
  Holds q hs = (front : Front) × (xs : List ℕ) × (free : List ℕ) × InOrder bh P R q hs front xs free

module _ {W S F O G : Type 0} (bh : BinaryHeap (OrderWrapper O) cmp) (P : G → F → Type 0)
    (R : G → O → Type 0) where
  -- What a poll of an adaptor returns, with the stream and the queue that it leaves, where the labels
  -- `hs` were held or came from the stream.
  abbrev pub Emitted :
      List G → Option S → FuturesOrderedBounded W bh.Heap F → Poll (Option O) → Type 0
  Emitted hs stream q (ready (some x)) =
      (g : G) × (rest : List G) × (hs ≡ g ∷ rest) × R g x × Holds bh P R q rest
  Emitted hs stream q (ready none) =
      (hs ≡ []) × Told {O = O} (ready none) stream (length hs) × Holds bh P R q hs
  Emitted hs stream q pending = Told {O = O} pending stream (length hs) × Holds bh P R q hs

  pub ended-Emitted :
      (hs : List G) (stream : Option S) (q : FuturesOrderedBounded W bh.Heap F)
      → hs ≡ []
      → Holds bh P R q hs
      → Emitted hs stream q (ended stream)
  unfolding ended
  ended-Emitted hs none q e h = (e, (refl, ap length e), h)
  ended-Emitted hs (some s) q e h = (tt, h)
