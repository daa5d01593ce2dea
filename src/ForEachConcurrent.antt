-- ===== src/ForEachConcurrent.antt =====
-- src/buffered/for_each.rs: `ForEachConcurrent`, which runs a future for each element of a stream, as
-- many at a time as its queue has slots. The closure is a parameter, with its state. `none` is a panic
-- or a loop that has not ended within its rounds.
pub mod Round
pub mod Loop
pub mod Limit
mod Tests
use futures_buffered.Base.{
  if◌then◌else◌, ltb, ◌==◌, ℕ, zero, suc, Option, none, some, List, [], ◌∷◌, ◌++◌, ◌>>=◌, Bool,
  true, false, ◌&&◌,
}
use futures_buffered.Task.{Poll, ready, pending, AtomicWaker, Log}
use futures_buffered.Stream.{StreamFn}
use futures_buffered.UnorderedBounded
use futures_buffered.UnorderedBounded.{FuturesUnorderedBounded, PollFn}

-- `FnMut(Item) -> Fut`: the future, and the closure afterwards.
abbrev pub CallFn : Type 0 → Type 0 → Type 0 → Type 0
CallFn C Item Fut = C → Item → Fut × C

pub record ForEachConcurrent (W S C Fut : Type 0) : Type 0 where
  pub stream : Option S
  pub f : C
  pub futures : FuturesUnorderedBounded W Fut

unfoldable pub has_ended : {S : Type 0} → Option S → Bool
has_ended none = true
has_ended (some s) = false

module _ {W S C Fut : Type 0} where
  unfoldable pub new : W → S → ℕ → C → ForEachConcurrent W S C Fut
  new cell stream limit f = record {
    stream = some stream;
    f = f;
    futures = UnorderedBounded.new cell limit;
  }

  -- The method of the extension trait that makes it.
  unfoldable pub for_each_concurrent : W → S → ℕ → C → ForEachConcurrent W S C Fut
  for_each_concurrent cell self limit f = new cell self limit f

  unfoldable pub is_terminated : ForEachConcurrent W S C Fut → Bool
  is_terminated p = has_ended p.stream && UnorderedBounded.is_empty p.futures

module _ {W S C Item Fut : Type 0} (call : CallFn C Item Fut) where
  -- The first part of a round, once the stream has been polled. The Boolean is `should_poll_stream`.
  unfoldable pub after_stream :
      ForEachConcurrent W S C Fut
      → Log
      → S × Log × Poll (Option Item)
      → Option (ForEachConcurrent W S C Fut × Log × Bool)
  after_stream p log (s, called, ready (some elem)) = do
    pushed ← UnorderedBounded.push p.futures (call p.f elem).0
    some (record { stream = some s; f = (call p.f elem).1; futures = pushed }, log ++ called, true)
  after_stream p log (s, called, ready none) =
      some (record p { stream = none }, log ++ called, false)
  after_stream p log (s, called, pending) =
      some (record p { stream = some s }, log ++ called, false)

  unfoldable pub poll_stream :
      ℕ
      → StreamFn S Item
      → ForEachConcurrent W S C Fut
      → Log
      → Option S
      → Option (ForEachConcurrent W S C Fut × Log × Bool)
  poll_stream cx next p log none = some (p, log, false)
  poll_stream cx next p log (some s) = after_stream p log (next s cx)

  -- The stream is polled if the queue has a free slot.
  unfoldable pub take_one :
      ℕ
      → StreamFn S Item
      → ForEachConcurrent W S C Fut
      → Log
      → Option (ForEachConcurrent W S C Fut × Log × Bool)
  take_one cx next p log =
      if ltb (UnorderedBounded.len p.futures) (UnorderedBounded.capacity p.futures)
      then poll_stream cx next p log p.stream
      else some (p, log, false)

-- The future, the task wakers called so far, and what a poll returns.
abbrev pub ForEachOutcome : Type 0 → Type 0 → Type 0 → Type 0 → Type 0
ForEachOutcome W S C Fut = ForEachConcurrent W S C Fut × Log × Poll (Unit {0})

module _ {W S C Fut : Type 0} where
  -- The end of a round: a further one, `again`, if an element was taken; otherwise pending.
  unfoldable pub unless_taken :
      (ForEachConcurrent W S C Fut → Log → Option (ForEachOutcome W S C Fut))
      → Bool
      → ForEachConcurrent W S C Fut
      → Log
      → Option (ForEachOutcome W S C Fut)
  unless_taken again true p log = again p log
  unless_taken again false p log = some (p, log, pending)

  -- What a round does when no future is left: the loop ends if the stream has ended.
  unfoldable pub when_empty :
      (ForEachConcurrent W S C Fut → Log → Option (ForEachOutcome W S C Fut))
      → Bool
      → ForEachConcurrent W S C Fut
      → Log
      → Option S
      → Option (ForEachOutcome W S C Fut)
  when_empty again should_poll_stream p log none = some (p, log, ready tt)
  when_empty again should_poll_stream p log (some s) = unless_taken again should_poll_stream p log

  -- The second part of a round, once the queue has been polled.
  unfoldable pub after_queue :
      (ForEachConcurrent W S C Fut → Log → Option (ForEachOutcome W S C Fut))
      → Bool
      → ForEachConcurrent W S C Fut
      → FuturesUnorderedBounded W Fut × Log × Poll (Option (Unit {0}))
      → Option (ForEachOutcome W S C Fut)
  after_queue again should_poll_stream p (futures, log, pending) =
      unless_taken again should_poll_stream (record p { futures = futures }) log
  after_queue again should_poll_stream p (futures, log, ready none) =
      when_empty again should_poll_stream (record p { futures = futures }) log p.stream
  after_queue again should_poll_stream p (futures, log, ready (some u)) =
      again (record p { futures = futures }) log

module _ ⦃aw : AtomicWaker⦄ {S C Item Fut : Type 0} where
  open aw use {Cell}

  -- The loop of `poll`, with the number of rounds left.
  unfoldable pub poll :
      ℕ
      → ℕ
      → StreamFn S Item
      → CallFn C Item Fut
      → PollFn Fut (Unit {0})
      → ForEachConcurrent Cell S C Fut
      → Log
      → Option (ForEachOutcome Cell S C Fut)
  poll zero cx next call poll_fn p log = none
  poll (suc left) cx next call poll_fn p log = do
    (taken, log, should_poll_stream) ← take_one call cx next p log
    polled ← UnorderedBounded.poll_next cx poll_fn taken.futures log
    after_queue (poll left cx next call poll_fn) should_poll_stream taken polled
