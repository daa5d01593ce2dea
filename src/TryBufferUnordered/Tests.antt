-- ===== src/TryBufferUnordered/Tests.antt =====
-- A `TryBufferUnordered` with two free slots and a stream that fails, and the theorem at it.
use futures_buffered.Stream.Served.{push_each}
use futures_buffered.Base.{
  ℕ, zero, suc, ◌≡◌, ◌+◌, refl, Option, none, some, List, [], ◌∷◌, length, arith,
}
use futures_buffered.Task.{ready}
use futures_buffered.ArcSlice
use futures_buffered.ArcSlice.{Waker}
use futures_buffered.ArcSlice.Fifo.{unwritten}
use futures_buffered.SlotMap.{Result, ok, err}
use futures_buffered.UnorderedBounded
use futures_buffered.UnorderedBounded.{PollFn, capacity, len}
use futures_buffered.UnorderedBounded.Valid.{new_set-IsValid}
use futures_buffered.UnorderedBounded.Sample.{waker_cell}
use futures_buffered.Unordered.Groups.{Sound}
use futures_buffered.Stream.{StreamFn, TryTook}
use futures_buffered.TryBufferUnordered.{
  FuturesUnorderedBounded, TryBufferUnordered, AdaptorOutcome, poll_next,
}
use futures_buffered.TryBufferUnordered.Counted.{TryServed, TryServed, poll_try_unordered_lem}

-- A future that is done at once, with itself as its output.
abbrev immediate : PollFn ℕ (Result ℕ ℕ)
immediate n w = record { fut = n; events = []; result = ready (ok n) }

-- A future, and then an error.
abbrev failing : StreamFn ℕ (Result ℕ ℕ)
failing zero cx = (0, [], ready (some (err 7)))
failing (suc n) cx = (n, [], ready (some (ok n)))

abbrev buffer : TryBufferUnordered (Option ℕ) ℕ ℕ
buffer = record { stream = some 1; in_progress_queue = UnorderedBounded.new none 2 }

poll_try_unordered_lem_example :
    (out : AdaptorOutcome (Option ℕ) ℕ ℕ (Result ℕ ℕ)) × (poll_next 9 failing immediate buffer []
      ≡ some out)
    × (futs : List ℕ) × (error : Option ℕ) × TryTook 9 failing (some 1) futs out.0.stream error
    × (filled : FuturesUnorderedBounded (Option ℕ) ℕ) × (push_each futs buffer.in_progress_queue
        ≡ some filled)
    × (len filled ≡ len buffer.in_progress_queue + length futs)
    × Sound 100 out.0.in_progress_queue
    × (capacity out.0.in_progress_queue ≡ capacity buffer.in_progress_queue)
    × TryServed 9 failing immediate
        (λ n w. refl)
        100
        error
        out.2
        out.0.stream
        filled
        out.0.in_progress_queue
        out.1
unfolding UnorderedBounded.new ArcSlice.new
poll_try_unordered_lem_example =
    poll_try_unordered_lem 9 failing immediate (λ n w. refl) 100 buffer []
      (unwritten, [], 0 ∷ 1 ∷ [], new_set-IsValid none 2 (omega arith), omega arith)
