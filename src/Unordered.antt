-- ===== src/Unordered.antt =====
-- src/futures_unordered.rs: `FuturesUnordered`, a list of groups, each a `FuturesUnorderedBounded` and
-- the last the largest, which are polled in turn.
pub mod Groups
pub mod Push
pub mod Loop
mod Tests
use futures_buffered.Base.{
  if◌then◌else◌, ltb, leb, ◌==◌, length, set, get_elem?, ℕ, zero, suc, ◌+◌, ◌*◌, ◌%◌, Option, none,
  some, List, [], ◌∷◌, ◌++◌, ◌>>=◌, Bool, add_usize, sub_usize, usize_mod,
}
use futures_buffered.Task.{Poll, ready, pending, AtomicWaker, Log}
use futures_buffered.SlotMap.{Result, ok, err}
use futures_buffered.UnorderedBounded
use futures_buffered.UnorderedBounded.{FuturesUnorderedBounded, PollFn}

pub record FuturesUnordered (W F : Type 0) : Type 0 where
  pub rem : ℕ
  pub groups : List (FuturesUnorderedBounded W F)
  pub poll_index : ℕ

abbrev pub min_capacity : ℕ
min_capacity = 32

-- `Vec::remove`, for an index in range.
abbrev pub remove_elem {ℓ} : {A : Type ℓ} → List A → ℕ → List A
remove_elem [] i = []
remove_elem (x ∷ xs) zero = xs
remove_elem (x ∷ xs) (suc i) = x ∷ remove_elem xs i

module _ {W F : Type 0} where
  unfoldable pub new : FuturesUnordered W F
  new = record { rem = 0; groups = []; poll_index = 0 }

  unfoldable pub with_capacity : W → ℕ → FuturesUnordered W F
  with_capacity cell zero = new
  with_capacity cell (suc n) = record {
    rem = 0;
    groups = UnorderedBounded.new cell (suc n) ∷ [];
    poll_index = 0;
  }

  -- The groups in which `push` finds its last one.
  unfoldable pub with_last :
      W → List (FuturesUnorderedBounded W F) → List (FuturesUnorderedBounded W F)
  with_last cell [] = UnorderedBounded.new cell min_capacity ∷ []
  with_last cell (group ∷ groups) = group ∷ groups

  -- What `push` makes of the last group once it has tried to push to it: a full one is followed by a
  -- group of twice its capacity.
  unfoldable pub grow :
      W
      → FuturesUnorderedBounded W F × Result (Unit {0}) F
      → Option (List (FuturesUnorderedBounded W F))
  grow cell (last, ok _) = some (last ∷ [])
  grow cell (last, err future) = do
    next ←
        UnorderedBounded.push
          (UnorderedBounded.new cell ((UnorderedBounded.capacity last * 2) % usize_mod)) future
    some (last ∷ next ∷ [])

  unfoldable pub push_last :
      W → List (FuturesUnorderedBounded W F) → F → Option (List (FuturesUnorderedBounded W F))
  push_last cell [] fut = none
  push_last cell (last ∷ []) fut = do pushed ← UnorderedBounded.try_push last fut; grow cell pushed
  push_last cell (group ∷ next ∷ groups) fut = do
    rest ← push_last cell (next ∷ groups) fut
    some (group ∷ rest)

  unfoldable pub push : W → FuturesUnordered W F → F → Option (FuturesUnordered W F)
  push cell u fut = do
    groups ← push_last cell (with_last cell u.groups) fut
    some (record u { rem = add_usize u.rem 1; groups = groups })

  unfoldable pub is_empty : FuturesUnordered W F → Bool
  is_empty u = u.rem == 0

  unfoldable pub len : FuturesUnordered W F → ℕ
  len u = u.rem

  -- `spare_cap` of the last group.
  unfoldable pub spare_capacity : List (FuturesUnorderedBounded W F) → ℕ
  spare_capacity [] = 0
  spare_capacity (last ∷ []) =
      sub_usize (UnorderedBounded.capacity last) (UnorderedBounded.len last)
  spare_capacity (group ∷ next ∷ groups) = spare_capacity (next ∷ groups)

  unfoldable pub capacity_of_groups : ℕ → List (FuturesUnorderedBounded W F) → ℕ
  capacity_of_groups rem [] = 0
  capacity_of_groups rem (only ∷ []) = UnorderedBounded.capacity only
  capacity_of_groups rem (group ∷ next ∷ groups) = add_usize rem (spare_capacity (next ∷ groups))

  unfoldable pub capacity : FuturesUnordered W F → ℕ
  capacity u = capacity_of_groups u.rem u.groups

  unfoldable pub size_hint : FuturesUnordered W F → ℕ × Option ℕ
  size_hint u = (u.rem, some u.rem)

  unfoldable pub is_terminated : FuturesUnordered W F → Bool
  is_terminated u = is_empty u

  -- The loop of `from_iter`.
  unfoldable pub push_all : W → FuturesUnordered W F → List F → Option (FuturesUnordered W F)
  push_all cell u [] = some u
  push_all cell u (fut ∷ iter) = do pushed ← push cell u fut; push_all cell pushed iter

  -- `hint` is the lower bound that the iterator's `size_hint` gives.
  unfoldable pub from_iter : W → ℕ → List F → Option (FuturesUnordered W F)
  from_iter cell hint iter =
      push_all cell (with_capacity cell (if leb min_capacity hint then hint else min_capacity)) iter

-- The set, the task wakers called so far, and what a poll returns.
abbrev pub UnorderedOutcome : Type 0 → Type 0 → Type 0 → Type 0
UnorderedOutcome W F O = FuturesUnordered W F × Log × Poll (Option O)

module _ {W F O : Type 0} where
  -- The branch `Poll::Ready(None)`, with the group taken out of the others; the debug assertions are
  -- checked.
  unfoldable pub group_ended :
      (FuturesUnordered W F → Log → Option (UnorderedOutcome W F O))
      → ℕ
      → ℕ
      → FuturesUnorderedBounded W F
      → Log
      → List (FuturesUnorderedBounded W F)
      → Option (UnorderedOutcome W F O)
  group_ended rest rem at group log [] =
      if rem == 0
      then some (record { rem = rem; groups = group ∷ []; poll_index = at }, log, ready none)
      else none
  group_ended rest rem at group log (other ∷ others) =
      if at == length (other ∷ others)
      then rest (record { rem = rem; groups = (other ∷ others) ++ group ∷ []; poll_index = 0 }) log
      else rest (record { rem = rem; groups = other ∷ others; poll_index = at }) log

  -- What a round does once the group at `at` has been polled.
  unfoldable pub after_group :
      (FuturesUnordered W F → Log → Option (UnorderedOutcome W F O))
      → FuturesUnordered W F
      → ℕ
      → FuturesUnorderedBounded W F × Log × Poll (Option O)
      → Option (UnorderedOutcome W F O)
  after_group rest u at (group, log, ready (some x)) = some (
    record { rem = sub_usize u.rem 1; groups = set u.groups at group; poll_index = at },
    log,
    ready (some x),
  )
  after_group rest u at (group, log, ready none) =
      if UnorderedBounded.is_empty group
      then group_ended rest u.rem at group log (remove_elem u.groups at)
      else none
  after_group rest u at (group, log, pending) =
      rest (record { rem = u.rem; groups = set u.groups at group; poll_index = add_usize at 1 }) log

module _ ⦃aw : AtomicWaker⦄ {F O : Type 0} where
  open aw use {Cell}

  -- The loop, with the number of rounds left.
  unfoldable pub poll_loop :
      ℕ → ℕ → PollFn F O → FuturesUnordered Cell F → Log → Option (UnorderedOutcome Cell F O)
  poll_loop zero cx poll_fn u log = some (u, log, pending)
  poll_loop (suc left) cx poll_fn u log =
      let at = if leb (length u.groups) u.poll_index then 0 else u.poll_index in
      do
        group ← get_elem? u.groups at
        polled ← UnorderedBounded.poll_next cx poll_fn group log
        after_group (poll_loop left cx poll_fn) u at polled

  unfoldable pub poll_next :
      ℕ → PollFn F O → FuturesUnordered Cell F → Log → Option (UnorderedOutcome Cell F O)
  poll_next cx poll_fn u log =
      if length u.groups == 0
      then some (u, log, ready none)
      else poll_loop (length u.groups) cx poll_fn u log
