-- ===== src/ArcSlice/Race/Tests.antt =====
-- A queue of three slots, where a pop comes between the accesses of a push.
use futures_buffered.Base.{ℕ, ◌≡◌, refl, none, some, [], ◌∷◌, arith}
use futures_buffered.ArcSlice.{
  ArcSliceInner, ArcSlotInner, ReadySlot, load_next, store_next, set_next, pop_index, pop_at,
}
use futures_buffered.ArcSlice.Race.{
  Machine, select, swap_head, swap_in, clear, link, start_push, finish_push, take, Reached, begun,
  started, swapped_in, finished, gave, gave_up,
}
use futures_buffered.ArcSlice.Race.Links.{linked}
use futures_buffered.ArcSlice.Race.Order.{Order, at_stub, Racing}
use futures_buffered.ArcSlice.Race.Consumer.{Popped, take_lem}
use futures_buffered.ArcSlice.Race.Refine.{InSwapOrder, reached_lem}

abbrev slot : ℕ → ℕ → ArcSlotInner
slot i n = record { index = some i; next = some n }

-- Behind slot 0 stands slot 1, which names `next`.
abbrev queue : ℕ → ℕ → ℕ → ArcSliceInner ℕ
queue head tail next = record {
  strong = 1;
  waker = 0;
  list_head = head;
  list_tail = tail;
  len = 3;
  slice = slot 0 1 ∷ slot 1 next ∷ slot 2 4 ∷ record { index = none; next = some 0 } ∷ [];
}

abbrev quiet : Machine ℕ
quiet = record { queue = queue 1 3 4; clearing = []; producers = [] }

abbrev two_queued : Order
two_queued = at_stub (linked 0 ∷ linked 1 ∷ [])

quiet-Racing : Racing quiet two_queued
unfolding load_next
quiet-Racing = record {
  size = refl;
  below = (omega arith, (omega arith, tt));
  distinct = (refl, (refl, tt));
  tail = refl;
  leads = (refl, (refl, (refl, refl)));
  clears = tt;
  apart = tt;
  owes = λ w. refl;
}

abbrev pushing : ℕ → Machine ℕ
pushing tail = record {
  queue = queue 2 tail 4;
  clearing = [];
  producers = record { prev = 1; index = 2 } ∷ [];
}

-- The link of slot 2 is cleared.
abbrev clearing : Machine ℕ
clearing = record { queue = queue 1 3 4; clearing = 2 ∷ []; producers = [] }

-- A push of slot 2 is started; the slot is swapped in; slot 0 is returned; slot 1 has no link yet; the link is written; slot 1 is
-- returned.
abbrev linked_up : ℕ → Machine ℕ
linked_up tail = record { queue = queue 2 tail 2; clearing = []; producers = [] }

interleaved : Reached quiet (0 ∷ 1 ∷ []) (2 ∷ []) (0 ∷ 1 ∷ []) (linked_up 2)
unfolding start_push swap_in clear finish_push take select swap_head link store_next set_next
    pop_index pop_at load_next
interleaved =
    gave {m = linked_up 1}
      (finished {m = pushing 1} 0
        (gave_up {m = pushing 1}
          (gave {m = pushing 3}
            (swapped_in {m = clearing} 0 2
              (started {m = quiet} 2 begun (omega arith) refl refl refl) refl refl)
            refl)
          refl)
        refl)
      refl

reached_lem_example : InSwapOrder (0 ∷ 1 ∷ []) (2 ∷ []) (0 ∷ 1 ∷ []) (linked_up 2)
reached_lem_example =
    reached_lem quiet two_queued (2 ∷ []) (0 ∷ 1 ∷ []) (linked_up 2) quiet-Racing interleaved

take_lem_example :
    (out : Machine ℕ × ReadySlot ℕ) × (take quiet ≡ some out) × Popped (0 ∷ 1 ∷ []) out
take_lem_example = take_lem quiet two_queued quiet-Racing
