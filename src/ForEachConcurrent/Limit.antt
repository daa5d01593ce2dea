-- ===== src/ForEachConcurrent/Limit.antt =====
-- `ForEachConcurrent` with a limit of zero.
use futures_buffered.Base.{Option, ltb, false, ℕ, suc, ◌≡◌, refl, none, some, List, arith}
use futures_buffered.Task.{ready, pending, AtomicWaker, Log}
use futures_buffered.ArcSlice.{Waker}
use futures_buffered.UnorderedBounded
use futures_buffered.UnorderedBounded.{
  PollFn, Outcome, capacity, len, max_polls, output_only, poll_inner,
}
use futures_buffered.UnorderedBounded.Step.{Settles}
use futures_buffered.UnorderedBounded.Inner.{PolledInner, poll_inner_lem}
use futures_buffered.JoinAll.Buffer.{capacity_of}
use futures_buffered.Unordered.Groups.{Sound}
use futures_buffered.Stream.{StreamFn}
use futures_buffered.ForEachConcurrent.{
  ForEachOutcome, ForEachConcurrent, CallFn, poll, take_one, after_queue, unless_taken, when_empty,
}

module _ ⦃aw : AtomicWaker⦄ {S C Item Fut : Type 0} (cx : ℕ) (next : StreamFn S Item)
    (call : CallFn C Item Fut) (poll_fn : PollFn Fut (Unit {0}))
    (settles : (f : Fut) (w : Waker) → Settles w (poll_fn f w).result (poll_fn f w).events)
    (p : ForEachConcurrent aw.Cell S C Fut) (log : Log) (s : S) where
  open aw use {Cell}

  -- An empty queue ends a round.
  empty_round :
      (free : List ℕ)
      → p.stream ≡ some s
      → len p.futures ≡ 0
      → (inner : Outcome Cell Fut (Unit {0}))
      → (again : ForEachConcurrent Cell S C Fut → Log → Option (ForEachOutcome Cell S C Fut))
      → PolledInner cx poll_fn settles p.futures log free inner
      → after_queue again false p (output_only inner) ≡ some (p, log, pending)
  unfolding after_queue output_only unless_taken when_empty
  empty_round free has gone (q, log', pending) again polled = absurd (omega (arith, polled.0))
  empty_round free has gone (q, log', ready none) again polled = rw (polled.1, polled.2, has) refl
  empty_round free has gone (q, log', ready (some (i, u))) again polled =
      absurd (omega (arith, polled.3))

  -- Let the futures settle. On a valid queue without a slot, as a limit of zero makes it, a poll is
  -- pending although the stream has not ended. It leaves everything as it was, the cell for the
  -- task's waker included, and calls no waker. The reference count needs room for 61 wakers.
  pub for_each-poll_stuck :
      (left : ℕ)
      → Sound max_polls p.futures
      → capacity p.futures ≡ 0
      → p.stream ≡ some s
      → poll (suc left) cx next call poll_fn p log ≡ some (p, log, pending)
  unfolding poll take_one UnorderedBounded.poll_next
  for_each-poll_stuck left (front, xs, free, v, b) none_free has =
      let gone : len p.futures ≡ 0 = omega (arith, capacity_of p.futures v) in
      let full : ltb (len p.futures) (capacity p.futures) ≡ false = ground arith in
      let (inner, runs, polled, strong) =
        poll_inner_lem cx poll_fn settles p.futures log free front xs v b in
      rw (full, runs) (empty_round free has gone inner (poll left cx next call poll_fn) polled)
