-- ===== src/Unordered/Tests.antt =====
-- A `FuturesUnordered` with one full group of two futures, and the theorems at it.
use futures_buffered.UnorderedBounded.Sample.{
  waker_cell, countdown, countdown_settles, two, two-IsValid,
}
use futures_buffered.ArcSlice.Fifo.{stub}
use futures_buffered.UnorderedBounded
use futures_buffered.SlotMap
use futures_buffered.Base.{◌+◌, arith, refl, ◌∷◌, some, Option, none, [], ◌≡◌, ℕ}
use futures_buffered.Unordered
use futures_buffered.Unordered.{FuturesUnordered, UnorderedOutcome, poll_next}
use futures_buffered.Unordered.Groups.{AllSound, total}
use futures_buffered.Unordered.Loop.{PolledGroups, poll_groups_lem}
use futures_buffered.Unordered.Push.{Adds, AllRoomy, push_groups_lem}

abbrev full : FuturesUnordered (Option ℕ) ℕ
full = record { rem = 2; groups = two ∷ []; poll_index = 0 }

full_sound : AllSound 100 full.groups
full_sound = ((stub, 0 ∷ 1 ∷ [], [], two-IsValid, omega arith), tt)

full_count : total full.groups ≡ 2
unfolding UnorderedBounded.len SlotMap.len
full_count = refl

full_roomy : AllRoomy none 100 (omega arith) full.groups
unfolding UnorderedBounded.capacity SlotMap.capacity
full_roomy = ((omega arith, omega arith), tt)

poll_groups_lem_example :
    (out : UnorderedOutcome (Option ℕ) ℕ ℕ) × (poll_next 9 countdown full [] ≡ some out)
    × PolledGroups 9 countdown countdown_settles 39 2 out
poll_groups_lem_example =
    poll_groups_lem 9 countdown countdown_settles 39 full [] full_sound full_count (omega arith)

push_groups_lem_example :
    (u : FuturesUnordered (Option ℕ) ℕ) × (Unordered.push none full 5 ≡ some u)
    × AllSound 100 u.groups
    × (total u.groups ≡ u.rem)
    × (u.rem ≡ 2 + 1)
    × Adds none 5 full.groups u.groups
push_groups_lem_example =
    push_groups_lem none 100 (omega arith) full 5 full_sound full_roomy full_count (omega arith)
