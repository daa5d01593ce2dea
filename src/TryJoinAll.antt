-- ===== src/TryJoinAll.antt =====
-- src/try_join_all.rs: `try_join_all` and the future `TryJoinAll`, which is `JoinAll` for futures whose
-- outputs are results: the first error ends it.
pub mod Loop
mod Tests
use futures_buffered.Base.{ℕ, zero, suc, Option, none, some, List, [], ◌>>=◌}
use futures_buffered.Task.{Poll, ready, pending, AtomicWaker, Log}
use futures_buffered.SlotMap.{Result, ok, err}
use futures_buffered.UnorderedBounded.{FuturesUnorderedBounded, PollFn, Outcome, poll_inner}
use futures_buffered.UnorderedBounded
use futures_buffered.JoinAll.{uninit, write, assume_init}

pub record TryJoinAll (W F T : Type 0) : Type 0 where
  pub queue : FuturesUnorderedBounded W F
  pub output : List (Option T)

unfoldable pub try_join_all : {W F T : Type 0} → W → List F → Option (TryJoinAll W F T)
try_join_all cell iter = do
  queue ← UnorderedBounded.from_iter cell iter
  some (record { queue = queue; output = uninit (UnorderedBounded.capacity queue) })

-- The future, the task wakers called so far, and what a poll returns.
abbrev pub TryOutcome : Type 0 → Type 0 → Type 0 → Type 0 → Type 0
TryOutcome W F T E = TryJoinAll W F T × Log × Poll (Result (List T) E)

module _ {W F T E : Type 0} where
  -- The branches of the loop, which goes on with `rest`.
  unfoldable pub after_inner :
      (TryJoinAll W F T → Log → Option (TryOutcome W F T E))
      → List (Option T)
      → Outcome W F (Result T E)
      → Option (TryOutcome W F T E)
  after_inner rest output (queue, log, ready (some (i, ok t))) = do
    written ← write output i t
    rest (record { queue = queue; output = written }) log
  after_inner rest output (queue, log, ready (some (i, err e))) =
      some (record { queue = queue; output = output }, log, ready (err e))
  after_inner rest output (queue, log, ready none) = do
    boxed ← assume_init output
    some (record { queue = queue; output = [] }, log, ready (ok boxed))
  after_inner rest output (queue, log, pending) =
      some (record { queue = queue; output = output }, log, pending)

module _ ⦃aw : AtomicWaker⦄ {F T E : Type 0} where
  open aw use {Cell}

  -- The loop, with the number of rounds left.
  unfoldable pub poll_loop :
      ℕ → ℕ → PollFn F (Result T E) → TryJoinAll Cell F T → Log → Option (TryOutcome Cell F T E)
  poll_loop zero cx poll_fn j log = none
  poll_loop (suc left) cx poll_fn j log = do
    out ← poll_inner cx poll_fn j.queue log
    after_inner (poll_loop left cx poll_fn) j.output out

  -- Each round but the last takes a future from the queue.
  unfoldable pub poll :
      ℕ → PollFn F (Result T E) → TryJoinAll Cell F T → Log → Option (TryOutcome Cell F T E)
  poll cx poll_fn j log = poll_loop (suc (UnorderedBounded.len j.queue)) cx poll_fn j log
