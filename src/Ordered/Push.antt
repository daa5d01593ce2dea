-- ===== src/Ordered/Push.antt =====
-- Pushes to a `FuturesOrdered` always find room.
use futures_buffered.Ordered.{FuturesOrdered, push_back, push_front}
use futures_buffered.Base.{ℕ, ◌+◌, ◌≤◌, ◌<◌, ◌≡◌, refl, some, add_usize, sub_usize, usize_mod}
use futures_buffered.ArcSlice.{isize_max}
use futures_buffered.Unordered.Groups.{AllSound, total}
use futures_buffered.Unordered.Push.{Adds, AllRoomy, push_groups_lem}

module _ {W H T : Type 0} (cell : W) (n : ℕ) (spare : n + 1 ≤ isize_max) where
  -- The queue of `q'` is that of `q` with `future` besides, stored under `index`.
  abbrev pub OneMore : T → ℕ → FuturesOrdered W H T → FuturesOrdered W H T → Type 0
  OneMore future index q q' =
      AllSound n q'.in_progress_queue.groups
      × (total q'.in_progress_queue.groups ≡ q'.in_progress_queue.rem)
      × (q'.in_progress_queue.rem ≡ q.in_progress_queue.rem + 1)
      × Adds cell (record { payload = future; index = index }) q.in_progress_queue.groups
          q'.in_progress_queue.groups
      × (q'.queued_outputs ≡ q.queued_outputs)

  -- On sound groups that have slots, fewer than 2^63 each, and whose futures are counted, a push to
  -- the back and one to the front never panic. Each adds the future to one group, or to a new one, and leaves
  -- what the groups held. The one stores it under the next incoming index, which then moves up; the
  -- other moves the next outgoing index down and stores it under the index it then has, modulo 2^64.
  -- Each leaves the other index and the outputs that wait.
  pub push_ordered_lem :
      (q : FuturesOrdered W H T) (future : T)
      → AllSound n q.in_progress_queue.groups
      → AllRoomy cell n spare q.in_progress_queue.groups
      → total q.in_progress_queue.groups ≡ q.in_progress_queue.rem
      → q.in_progress_queue.rem + 1 < usize_mod
      → ((back : FuturesOrdered W H T) × (push_back cell q future ≡ some back)
          × OneMore future q.next_incoming_index q back
          × (back.next_incoming_index ≡ add_usize q.next_incoming_index 1)
          × (back.next_outgoing_index ≡ q.next_outgoing_index))
        × ((front : FuturesOrdered W H T) × (push_front cell q future ≡ some front)
            × OneMore future (sub_usize q.next_outgoing_index 1) q front
            × (front.next_outgoing_index ≡ sub_usize q.next_outgoing_index 1)
            × (front.next_incoming_index ≡ q.next_incoming_index))
  unfolding push_back push_front
  push_ordered_lem q future s r sum small =
      let (last, runs, sound, count, more, adds) =
        push_groups_lem cell n spare q.in_progress_queue
          (record { payload = future; index = q.next_incoming_index }) s r sum small in
      let (first, runs', sound', count', more', adds') =
        push_groups_lem cell n spare q.in_progress_queue
          (record { payload = future; index = sub_usize q.next_outgoing_index 1 }) s r sum small in
      (
        (
          record q {
            in_progress_queue = last;
            next_incoming_index = add_usize q.next_incoming_index 1;
          },
          rw runs refl,
          (sound, count, more, adds, refl),
          refl,
          refl,
        ),
        (
          record q {
            in_progress_queue = first;
            next_outgoing_index = sub_usize q.next_outgoing_index 1;
          },
          rw runs' refl,
          (sound', count', more', adds', refl),
          refl,
          refl,
        ),
      )
