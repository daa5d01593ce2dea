-- ===== src/JoinAll.antt =====
-- src/join_all.rs: `join_all` and the future `JoinAll`, which awaits every future of a set and gives
-- the outputs in the order of the futures. An entry of the output buffer that was never written is
-- `none`; to read it is undefined behaviour.
pub mod Buffer
pub mod Filling
pub mod Loop
mod Tests
use futures_buffered.Base.{
  if◌then◌else◌, ltb, length, set, ℕ, zero, suc, Option, none, some, List, [], ◌∷◌, ◌>>=◌,
}
use futures_buffered.Task.{Poll, ready, pending, AtomicWaker, Log}
use futures_buffered.UnorderedBounded.{FuturesUnorderedBounded, PollFn, Outcome, poll_inner}
use futures_buffered.UnorderedBounded

pub record JoinAll (W F O : Type 0) : Type 0 where
  pub queue : FuturesUnorderedBounded W F
  pub output : List (Option O)

module _ {O : Type 0} where
  -- `n` entries that were not written.
  unfoldable pub uninit : ℕ → List (Option O)
  uninit zero = []
  uninit (suc n) = none ∷ uninit n

  -- `self.output[i].write(x)`, whose index is checked.
  unfoldable pub write : List (Option O) → ℕ → O → Option (List (Option O))
  write output i x = if ltb i (length output) then some (set output i (some x)) else none

  -- `assume_init` of the whole buffer.
  unfoldable pub assume_init : List (Option O) → Option (List O)
  assume_init [] = some []
  assume_init (none ∷ output) = none
  assume_init (some x ∷ output) = do xs ← assume_init output; some (x ∷ xs)

unfoldable pub join_all : {W F O : Type 0} → W → List F → Option (JoinAll W F O)
join_all cell iter = do
  queue ← UnorderedBounded.from_iter cell iter
  some (record { queue = queue; output = uninit (UnorderedBounded.capacity queue) })

-- The future, the task wakers called so far, and what a poll returns.
abbrev pub JoinOutcome : Type 0 → Type 0 → Type 0 → Type 0
JoinOutcome W F O = JoinAll W F O × Log × Poll (List O)

module _ {W F O : Type 0} where
  -- The branches of the loop, which goes on with `rest`.
  unfoldable pub after_inner :
      (JoinAll W F O → Log → Option (JoinOutcome W F O))
      → List (Option O)
      → Outcome W F O
      → Option (JoinOutcome W F O)
  after_inner rest output (queue, log, ready (some (i, x))) = do
    written ← write output i x
    rest (record { queue = queue; output = written }) log
  after_inner rest output (queue, log, ready none) = do
    boxed ← assume_init output
    some (record { queue = queue; output = [] }, log, ready boxed)
  after_inner rest output (queue, log, pending) =
      some (record { queue = queue; output = output }, log, pending)

module _ ⦃aw : AtomicWaker⦄ {F O : Type 0} where
  open aw use {Cell}

  -- The loop, with the number of rounds left.
  unfoldable pub poll_loop :
      ℕ → ℕ → PollFn F O → JoinAll Cell F O → Log → Option (JoinOutcome Cell F O)
  poll_loop zero cx poll_fn j log = none
  poll_loop (suc left) cx poll_fn j log = do
    out ← poll_inner cx poll_fn j.queue log
    after_inner (poll_loop left cx poll_fn) j.output out

  -- Each round but the last takes a future from the queue.
  unfoldable pub poll : ℕ → PollFn F O → JoinAll Cell F O → Log → Option (JoinOutcome Cell F O)
  poll cx poll_fn j log = poll_loop (suc (UnorderedBounded.len j.queue)) cx poll_fn j log
