-- ===== src/Ordered/Tests.antt =====
-- Pushes to a `FuturesOrdered` without groups.
use futures_buffered.Ordered.{FuturesOrdered, push_back, push_front}
use futures_buffered.Base.{
  List, [], ◌+◌, ◌≤◌, ◌≡◌, refl, arith, ℕ, Option, none, some, add_usize, sub_usize,
}
use futures_buffered.Ordered.Push.{OneMore, push_ordered_lem}

abbrev spare_100 : 100 + 1 ≤ 9223372036854775807
spare_100 = omega arith

abbrev bare : FuturesOrdered (Option ℕ) (List ℕ) ℕ
bare = record {
  in_progress_queue = record { rem = 0; groups = []; poll_index = 0 };
  queued_outputs = [];
  next_incoming_index = 0;
  next_outgoing_index = 0;
}

push_ordered_lem_example :
    ((back : FuturesOrdered (Option ℕ) (List ℕ) ℕ) × (push_back none bare 5 ≡ some back)
      × OneMore none 100 spare_100 5 0 bare back
      × (back.next_incoming_index ≡ add_usize 0 1)
      × (back.next_outgoing_index ≡ 0))
    × ((front : FuturesOrdered (Option ℕ) (List ℕ) ℕ) × (push_front none bare 5 ≡ some front)
        × OneMore none 100 spare_100 5 (sub_usize 0 1) bare front
        × (front.next_outgoing_index ≡ sub_usize 0 1)
        × (front.next_incoming_index ≡ 0))
push_ordered_lem_example = push_ordered_lem none 100 spare_100 bare 5 tt tt refl (omega arith)
