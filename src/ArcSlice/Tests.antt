-- ===== src/ArcSlice/Tests.antt =====
-- Queues of three slots, and the theorems at them.
use futures_buffered.ArcSlice.Duplicate.{push-duplicate_alone, push-duplicate}
use futures_buffered.ArcSlice.Pop.{pop-Holds, popped}
use futures_buffered.ArcSlice.Count.{drop_handles_lem, drop_handles}
use futures_buffered.ArcSlice.Fifo.{new-Holds, Indexed, stub, unwritten, inline, Holds}
use futures_buffered.Base.{refl, arith, ◌≡◌}
use futures_buffered.ArcSlice.Push.{push-Holds, pushed}
use futures_buffered.ArcSlice.{
  freed, live, ready, dropped, push, [], none, some, ArcSlotInner, ◌∷◌, init_slots, load_next,
  ArcSliceInner, pop_index, ℕ,
}
use futures_buffered.ArcSlice

abbrev written : ℕ → ℕ → ArcSlotInner
written i n = record { index = some i; next = some n }

-- Slots 1, 0 and 2 are queued, in this order, behind the stub (number 3).
abbrev three : ArcSliceInner ℕ
three = record {
  strong = 4;
  waker = 0;
  list_head = 2;
  list_tail = 3;
  len = 3;
  slice = written 0 2 ∷ written 1 0 ∷ written 2 4 ∷ record { index = none; next = some 1 } ∷ [];
}

three-Holds : Holds three stub (1 ∷ 0 ∷ 2 ∷ [])
unfolding load_next
three-Holds = record {
  size = omega arith;
  below = omega arith;
  distinct = (refl, (refl, (refl, tt)));
  spells = (refl, (refl, (refl, (refl, (refl, refl)))));
}

-- Slot 1 alone.
abbrev single : ArcSliceInner ℕ
single = record {
  strong = 2;
  waker = 0;
  list_head = 1;
  list_tail = 1;
  len = 2;
  slice = written 0 3 ∷ written 1 3 ∷ record { index = none; next = some 1 } ∷ [];
}

single-Holds : Holds single inline (1 ∷ [])
unfolding load_next
single-Holds = record {
  size = omega arith;
  below = omega arith;
  distinct = (refl, tt);
  spells = (refl, (refl, refl));
}

-- A `pop` before the first `push` reads the stub's `next`, which `new` leaves unwritten.
pop_unwritten : pop_index {W = ℕ} (ArcSlice.new 0 2) ≡ none
unfolding ArcSlice.new pop_index load_next init_slots
pop_unwritten = refl

pop-Holds_example :
    (pop_index three ≡ some (popped three (0 ∷ 2 ∷ []), ready 1))
    × Holds (popped three (0 ∷ 2 ∷ [])) inline (0 ∷ 2 ∷ [])
pop-Holds_example = pop-Holds three stub 1 (0 ∷ 2 ∷ []) three-Holds

push-Holds_example :
    (push single 0 ≡ some (pushed single 0)) × Holds (pushed single 0) inline (1 ∷ 0 ∷ [])
push-Holds_example = push-Holds single inline (1 ∷ []) 0 single-Holds (omega arith) refl

-- Slot 1 is woken again while it is queued: slots 0 and 2 are lost.
push-duplicate_example :
    (push three 1 ≡ some (pushed three 1)) × Holds (pushed three 1) stub (1 ∷ [])
push-duplicate_example = push-duplicate three stub [] 1 0 (2 ∷ []) three-Holds

push-duplicate_alone_example :
    let spinning = record (pushed single 1) { list_tail = 1 } in
    (push single 1 ≡ some (pushed single 1))
    × (pop_index (pushed single 1) ≡ some (spinning, ready 1))
    × (pop_index spinning ≡ some (spinning, ready 1))
push-duplicate_alone_example = push-duplicate_alone single inline 1 single-Holds

drop_handles_lem_example : drop_handles 4 (live three) ≡ some freed
drop_handles_lem_example = drop_handles_lem 4 three (omega arith) (omega arith)

new-Holds_example :
    Holds {W = ℕ} (ArcSlice.new 0 3) unwritten [] × Indexed {W = ℕ} (ArcSlice.new 0 3)
new-Holds_example = new-Holds 0 3
