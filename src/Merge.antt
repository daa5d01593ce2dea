-- ===== src/Merge.antt =====
-- src/merge.rs: `Merge`, a stream of the items of the streams in a `FuturesUnorderedBounded`.
pub mod Loop
mod Tests
use futures_buffered.Base.{ℕ, zero, suc, Option, none, some, List, ◌>>=◌}
use futures_buffered.Task.{Poll, ready, pending, AtomicWaker, Log}
use futures_buffered.SlotMap
use futures_buffered.SlotMap.{Result, ok, err}
use futures_buffered.ArcSlice
use futures_buffered.UnorderedBounded
use futures_buffered.UnorderedBounded.{
  FuturesUnorderedBounded, PollFn, Outcome, try_push_with, poll_inner_no_remove,
}

pub record Merge (W S : Type 0) : Type 0 where
  pub streams : FuturesUnorderedBounded W S

module _ {W S : Type 0} where
  -- `try_push` once the set has been pushed to.
  unfoldable pub merge_of :
      FuturesUnorderedBounded W S × Unit {0} × Result (Unit {0}) S → Merge W S × Result (Unit {0}) S
  merge_of (streams, _, result) = (record { streams = streams }, result)

  unfoldable pub try_push : Merge W S → S → Option (Merge W S × Result (Unit {0}) S)
  try_push m stream = do
    pushed ← try_push_with m.streams (tt {0}) stream (λ s t. (t, s))
    some (merge_of pushed)

  -- `push`: a full set is a panic.
  unfoldable pub unless_full : Merge W S × Result (Unit {0}) S → Option (Merge W S)
  unless_full (m, ok _) = some m
  unless_full (m, err _) = none

  unfoldable pub push : Merge W S → S → Option (Merge W S)
  push m stream = do pushed ← try_push m stream; unless_full pushed

  unfoldable pub from_iter : W → List S → Option (Merge W S)
  from_iter cell iter = do
    streams ← UnorderedBounded.from_iter cell iter
    some (record { streams = streams })

-- The stream, the task wakers called so far, and what a poll returns.
abbrev pub MergeOutcome : Type 0 → Type 0 → Type 0 → Type 0
MergeOutcome W S I = Merge W S × Log × Poll (Option I)

module _ {W S I : Type 0} where
  -- The branches of the loop, which goes on with `rest`: the slot of an item is queued again, and the
  -- slot of a stream that has ended is freed.
  unfoldable pub after_inner :
      (Merge W S → Log → Option (MergeOutcome W S I))
      → Outcome W S (Option I)
      → Option (MergeOutcome W S I)
  after_inner rest (q, log, ready (some (i, some x))) = do
    shared ← ArcSlice.push q.shared i
    some (record { streams = record q { shared = shared } }, log, ready (some x))
  after_inner rest (q, log, ready (some (i, none))) =
      rest (record { streams = record q { tasks = SlotMap.remove q.tasks i } }) log
  after_inner rest (q, log, pending) = some (record { streams = q }, log, pending)
  after_inner rest (q, log, ready none) = some (record { streams = q }, log, ready none)

module _ ⦃aw : AtomicWaker⦄ {S I : Type 0} where
  open aw use {Cell}

  -- The loop, with the number of rounds left.
  unfoldable pub poll_loop :
      ℕ → ℕ → PollFn S (Option I) → Merge Cell S → Log → Option (MergeOutcome Cell S I)
  poll_loop zero cx poll_fn m log = none
  poll_loop (suc left) cx poll_fn m log = do
    out ← poll_inner_no_remove cx poll_fn m.streams log
    after_inner (poll_loop left cx poll_fn) out

  -- Each round but the last frees a slot.
  unfoldable pub poll_next :
      ℕ → PollFn S (Option I) → Merge Cell S → Log → Option (MergeOutcome Cell S I)
  poll_next cx poll_fn m log = poll_loop (suc (UnorderedBounded.len m.streams)) cx poll_fn m log
