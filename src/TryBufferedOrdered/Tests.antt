-- ===== src/TryBufferedOrdered/Tests.antt =====
-- A `TryBufferedOrdered` over two timers and a stream that fails, and the theorem at it.
use futures_buffered.Base.{ℕ, zero, suc, ◌≡◌, refl, Option, some, List, [], ◌∷◌, map, arith}
use futures_buffered.Task.{Poll, ready, pending}
use futures_buffered.ArcSlice.{Waker, WakerEvent}
use futures_buffered.ArcSlice.Fifo.{stub}
use futures_buffered.SlotMap
use futures_buffered.SlotMap.{Result, ok, err}
use futures_buffered.UnorderedBounded.{PollFn, capacity}
use futures_buffered.UnorderedBounded.Step.{Settles}
use futures_buffered.UnorderedBounded.Sample.{
  waker_cell, Timer, timer, timer_settles, timer_preserves, timer_gives, Outputs,
}
use futures_buffered.OrderWrapper.{OrderWrapper}
use futures_buffered.OrderWrapper.ListHeap.{list_heap}
use futures_buffered.OrderedBounded.Sample.{timers, timers-InOrder}
use futures_buffered.Stream.{StreamFn, TryTook}
use futures_buffered.TryBufferedOrdered.{TryBufferedOrdered, AdaptorOutcome, poll_next}
use futures_buffered.TryBufferedOrdered.Refine.{TryEmitted, poll_try_ordered_lem}

-- A timer whose output is a success.
abbrev successful : Poll ℕ → Poll (Result ℕ ℕ)
successful (ready x) = ready (ok x)
successful pending = pending

abbrev try_timer : PollFn Timer (Result ℕ ℕ)
try_timer f w = record {
  fut = (timer f w).fut;
  events = (timer f w).events;
  result = successful (timer f w).result;
}

settles_of :
    (w : Waker) (r : Poll ℕ) (events : List WakerEvent)
    → Settles w r events
    → Settles w (successful r) events
settles_of w (ready x) events s = s
settles_of w pending events s = s

try_settles : (f : Timer) (w : Waker) → Settles w (try_timer f w).result (try_timer f w).events
try_settles f w = settles_of w (timer f w).result (timer f w).events (timer_settles f w)

abbrev GivesOk : ℕ → Result ℕ ℕ → Type 0
GivesOk g x = x ≡ ok g

result_of :
    (r : Poll ℕ) (x : Result ℕ ℕ) → successful r ≡ ready x → (y : ℕ) × (r ≡ ready y) × (x ≡ ok y)
result_of (ready y) x e = (y, refl, ground arith)
result_of pending x e = absurd (ground arith)

try_gives :
    (g : ℕ) (f : Timer) (w : Waker) (x : Result ℕ ℕ)
    → Outputs g f
    → (try_timer f w).result ≡ ready x
    → GivesOk g x
try_gives g f w x e r =
    let (y, done, same) = result_of (timer f w).result x r in rw (timer_gives g f w y e done) same

-- A timer, and then an error.
abbrev failing : StreamFn ℕ (Result Timer ℕ)
failing zero cx = (0, [], ready (some (err 7)))
failing (suc n) cx = (n, [], ready (some (ok (record { left = n; output = n }))))

abbrev label : Timer → ℕ
label f = f.output

abbrev buffer : TryBufferedOrdered (Option ℕ) (List (OrderWrapper (Result ℕ ℕ))) ℕ Timer
buffer = record { stream = some 1; in_progress_queue = timers (Result ℕ ℕ) }

poll_try_ordered_lem_example :
    (out : AdaptorOutcome (Option ℕ) (List (OrderWrapper (Result ℕ ℕ))) ℕ Timer (Result ℕ ℕ))
    × (poll_next (list_heap (Result ℕ ℕ)) 9 failing try_timer buffer [] ≡ some out)
    × (futs : List Timer) × (error : Option ℕ) × TryTook 9 failing (some 1) futs out.0.stream error
    × TryEmitted
        (list_heap (Result ℕ ℕ))
        Outputs
        GivesOk
        9
        try_timer
        try_settles
        timer_preserves
        try_gives
        error
        (10 ∷ 20 ∷ map label futs)
        out.0.stream
        out.0.in_progress_queue
        out.2
unfolding capacity SlotMap.capacity
poll_try_ordered_lem_example =
    poll_try_ordered_lem (list_heap (Result ℕ ℕ)) Outputs GivesOk 9 try_timer try_settles
      timer_preserves try_gives label (λ f. refl) failing buffer (10 ∷ 20 ∷ []) [] stub (0 ∷ 1 ∷ [])
      [] (timers-InOrder GivesOk) (omega arith) (omega arith)
