-- ===== src/UnorderedBounded/Sample.antt =====
-- A set of two futures that count down, on which the theorems are run.
use futures_buffered.UnorderedBounded.Valid.{IsValid}
use futures_buffered.ArcSlice.Fifo.{stub}
use futures_buffered.UnorderedBounded.Step.{Settles}
use futures_buffered.Base.{
  sym, ◌∙◌, arith, refl, inr, zero, suc, ◌∷◌, some, Option, none, [], ◌<◌, ◌≡◌, ℕ,
}
use futures_buffered.ArcSlice.{woken_by_ref, Waker, ArcSlotInner, load_next, load_index}
use futures_buffered.UnorderedBounded.{Polled, PollFn, FuturesUnorderedBounded, capacity}
use futures_buffered.Task.{AtomicWaker, ready, pending}
use futures_buffered.SlotMap
use futures_buffered.SlotMap.{occupied}
use futures_buffered.UnorderedBounded

-- An atomic waker is a cell for one waker, which a call empties.
instance abbrev pub waker_cell : AtomicWaker
waker_cell = record {
  Cell = Option ℕ;
  new_cell = none;
  register = λ c w. some w;
  wake = λ c. (none, elim c [ none ↦ [] | some w ↦ w ∷ [] ]);
  wake-new_cell = refl;
  wake-register = λ c w. refl;
}

-- A future that wakes itself `n` times before it is done, with output 42.
abbrev pub countdown : PollFn ℕ ℕ
countdown zero w = record { fut = 0; events = []; result = ready 42 }
countdown (suc n) w = record { fut = n; events = woken_by_ref w ∷ []; result = pending }

pub countdown_settles :
    (n : ℕ) (w : Waker) → Settles w (countdown n w).result (countdown n w).events
countdown_settles zero w = refl
countdown_settles (suc n) w = inr (inr refl)

abbrev written : ℕ → ℕ → ArcSlotInner
written i n = record { index = some i; next = some n }

-- The set of two futures, collected.
abbrev pub pair : {F : Type 0} → F → F → FuturesUnorderedBounded (Option ℕ) F
pair f g = record {
  tasks = record { slots = occupied f ∷ occupied g ∷ []; free_head = 2; filled = 2 };
  shared = record {
    strong = 1;
    waker = none;
    list_head = 1;
    list_tail = 2;
    len = 2;
    slice = written 0 1 ∷ written 1 3 ∷ record { index = none; next = some 0 } ∷ [];
  };
}

-- The set of the futures 1 and 0.
abbrev pub two : FuturesUnorderedBounded (Option ℕ) ℕ
two = pair 1 0

module _ {F : Type 0} (f g : F) where
  pair_indexed : (i : ℕ) → i < 2 → load_index (pair f g).shared.slice i ≡ some i
  unfolding load_index
  pair_indexed zero h = refl
  pair_indexed (suc zero) h = refl
  pair_indexed (suc (suc i)) h = absurd (omega arith)

  pub pair-IsValid : IsValid (pair f g) stub (0 ∷ 1 ∷ []) []
  unfolding load_next SlotMap.get SlotMap.capacity UnorderedBounded.capacity
  pair-IsValid = record {
    slots = record {
      head = refl;
      linked = tt;
      distinct = tt;
      total = omega arith;
      counted = refl;
      small = omega arith;
    };
    same_len = refl;
    queue = record {
      size = omega arith;
      below = omega arith;
      distinct = (refl, (refl, tt));
      spells = (refl, (refl, (refl, (refl, refl))));
    };
    indexed = pair_indexed;
    occupied = (refl, (refl, tt));
    used = tt;
    referenced = omega arith;
  }

pub two-IsValid : IsValid two stub (0 ∷ 1 ∷ []) []
two-IsValid = pair-IsValid 1 0

-- A future with an output, which wakes itself `n` times before it is done.
pub record Timer : Type 0 where
  pub left : ℕ
  pub output : ℕ

abbrev timed : ℕ → ℕ → Waker → Polled Timer ℕ
timed x zero w = record { fut = record { left = 0; output = x }; events = []; result = ready x }
timed x (suc n) w = record {
  fut = record { left = n; output = x };
  events = woken_by_ref w ∷ [];
  result = pending;
}

abbrev pub timer : PollFn Timer ℕ
timer f w = timed f.output f.left w

timed_settles : (x n : ℕ) (w : Waker) → Settles w (timed x n w).result (timed x n w).events
timed_settles x zero w = refl
timed_settles x (suc n) w = inr (inr refl)

pub timer_settles : (f : Timer) (w : Waker) → Settles w (timer f w).result (timer f w).events
timer_settles f w = timed_settles f.output f.left w

timed_same : (x n : ℕ) (w : Waker) → (timed x n w).fut.output ≡ x
timed_same x zero w = refl
timed_same x (suc n) w = refl

timed_gives : (x n : ℕ) (w : Waker) (y : ℕ) → (timed x n w).result ≡ ready y → x ≡ y
timed_gives x zero w y e = ground arith
timed_gives x (suc n) w y e = absurd (ground arith)

-- A timer has its output as its label.
abbrev pub Outputs : ℕ → Timer → Type 0
Outputs g f = g ≡ f.output

abbrev pub Gives : ℕ → ℕ → Type 0
Gives g x = g ≡ x

pub timer_preserves : (g : ℕ) (f : Timer) (w : Waker) → Outputs g f → Outputs g (timer f w).fut
timer_preserves g f w e = e ∙ sym (timed_same f.output f.left w)

pub timer_gives :
    (g : ℕ) (f : Timer) (w : Waker) (x : ℕ) → Outputs g f → (timer f w).result ≡ ready x → Gives g x
timer_gives g f w x e r = e ∙ timed_gives f.output f.left w x r
