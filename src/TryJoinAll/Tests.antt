-- ===== src/TryJoinAll/Tests.antt =====
-- A `TryJoinAll` of two futures, one of which fails, and the theorem at it.
use futures_buffered.UnorderedBounded.Sample.{waker_cell, two, two-IsValid}
use futures_buffered.ArcSlice.Fifo.{stub}
use futures_buffered.ArcSlice.{Waker}
use futures_buffered.UnorderedBounded
use futures_buffered.UnorderedBounded.{PollFn, FuturesUnorderedBounded}
use futures_buffered.UnorderedBounded.Step.{Settles}
use futures_buffered.SlotMap
use futures_buffered.Task.{ready}
use futures_buffered.Base.{arith, refl, zero, suc, ◌∷◌, some, Option, none, [], ◌<◌, ◌≡◌, ℕ}
use futures_buffered.SlotMap.{Result, ok, err}
use futures_buffered.TryJoinAll.{TryJoinAll, TryOutcome, poll}
use futures_buffered.JoinAll.Buffer.{WrittenAt}
use futures_buffered.JoinAll.Filling.{IsFilling}
use futures_buffered.TryJoinAll.Loop.{Joined, OkAt, try_poll_lem}

-- A future that fails at once if it stands at 1, and otherwise is done.
abbrev checked : PollFn ℕ (Result ℕ ℕ)
checked zero w = record { fut = 0; events = []; result = ready (ok 42) }
checked (suc n) w = record { fut = n; events = []; result = ready (err n) }

checked_settles : (n : ℕ) (w : Waker) → Settles w (checked n w).result (checked n w).events
checked_settles zero w = refl
checked_settles (suc n) w = refl

abbrev Any : ℕ → ℕ → Type 0
Any i n = Unit

abbrev Ok42 : ℕ → Result ℕ ℕ → Type 0
Ok42 i (ok x) = x ≡ 42
Ok42 i (err e) = Unit

abbrev join_two : TryJoinAll (Option ℕ) ℕ ℕ
join_two = record { queue = two; output = none ∷ none ∷ [] }

join_two-IsFilling : IsFilling Any (OkAt Ok42) two (none ∷ none ∷ []) stub (0 ∷ 1 ∷ []) []
unfolding SlotMap.get SlotMap.get_slot SlotMap.value SlotMap.capacity UnorderedBounded.capacity
join_two-IsFilling = record {
  valid = two-IsValid;
  sized = refl;
  kept = λ i f e. tt;
  written = none_vacant;
}
  where
    none_vacant :
        (i : ℕ)
        → i < 2
        → SlotMap.get two.tasks i ≡ none
        → WrittenAt (OkAt Ok42) (none ∷ none ∷ []) i
    none_vacant zero h e = absurd (ground arith)
    none_vacant (suc zero) h e = absurd (ground arith)
    none_vacant (suc (suc i)) h e = absurd (omega arith)

checked_any : (i f : ℕ) (w : Waker) → Any i f → Any i (checked f w).fut
checked_any i f w h = tt

checked_42 :
    (i f : ℕ) (w : Waker) (x : Result ℕ ℕ) → Any i f → (checked f w).result ≡ ready x → Ok42 i x
checked_42 i zero w (ok x) h e = ground arith
checked_42 i zero w (err x) h e = tt
checked_42 i (suc n) w (ok x) h e = ground arith
checked_42 i (suc n) w (err x) h e = tt

try_poll_lem_example :
    (out : TryOutcome (Option ℕ) ℕ ℕ ℕ) × (poll 9 checked join_two [] ≡ some out)
    × Joined Any Ok42 9 checked checked_settles checked_any checked_42 2 out
unfolding UnorderedBounded.len SlotMap.len
try_poll_lem_example =
    try_poll_lem Any Ok42 9 checked checked_settles checked_any checked_42 join_two [] stub
      (0 ∷ 1 ∷ []) [] join_two-IsFilling (omega arith)
