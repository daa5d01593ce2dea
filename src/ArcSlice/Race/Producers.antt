-- ===== src/ArcSlice/Race/Producers.antt =====
-- The three accesses of a producer.
use futures_buffered.Base.{
  ℕ, zero, suc, ◌+◌, ◌<◌, ◌≡◌, refl, sym, ◌∙◌, false, some, List, [], ◌∷◌, ◌++◌, arith, length, has,
  AllBelow-snoc, Distinct-snoc,
}
use futures_buffered.ArcSlice.{set_next}
use futures_buffered.ArcSlice.Slots.{load_next-set_next, store_next_lem, length-set_next}
use futures_buffered.ArcSlice.Race.{
  Producer, Machine, select, swap_in, clear, swap_head, link, start_push, finish_push,
}
use futures_buffered.ArcSlice.Race.Cleared.{select_cleared}
use futures_buffered.ArcSlice.Race.Links.{
  Leads-set, missing, gaps, one_link, Leads-swap, gaps-swap, close_link, has-gap, lt_of_Leads,
  Closed,
}
use futures_buffered.ArcSlice.Race.Order.{
  not_cleared, AllCleared-snoc, AllCleared-set, Order, contents, front, behind, replaced, owed,
  Racing, contents-swap, contents-replaced, front-replaced, behind-replaced, not_in_list,
  Distinct-list,
}

-- A producer of the list, and the others.
record Selected (ps : List Producer) (k : ℕ) : Type 0 where
  producer : Producer
  others : List Producer
  runs : select ps k ≡ some (producer, others)
  weights : (w : ℕ → ℕ → ℕ) → owed w ps ≡ w producer.prev producer.index + owed w others

select_lem : (ps : List Producer) (k : ℕ) → k < length ps → Selected ps k
unfolding select
select_lem [] k h = absurd (omega arith)
select_lem (p ∷ ps) zero h = record { producer = p; others = ps; runs = refl; weights = λ w. refl }
select_lem (p ∷ ps) (suc k) h =
    let rest = select_lem ps k (omega arith) in
    record {
      producer = rest.producer;
      others = p ∷ rest.others;
      runs = rw rest.runs refl;
      weights = λ w. omega (arith, rest.weights w);
    }

module _ {W : Type 0} (m : Machine W) (order : Order) where
  -- The machine after the link of slot `i` is cleared.
  abbrev pub cleared : ℕ → Machine W
  cleared i = record m {
    queue = record m.queue { slice = set_next m.queue.slice i (m.queue.len + 1) };
    clearing = i ∷ m.clearing;
  }

  -- Clearing the link of a slot that is not queued changes no order.
  pub start_push_lem :
      (i : ℕ)
      → Racing m order
      → i < m.queue.len
      → has i (contents order) ≡ false
      → has i m.clearing ≡ false
      → (start_push i m ≡ some (cleared i)) × Racing (cleared i) order
  unfolding start_push clear
  start_push_lem i v lt out free =
      let end = m.queue.len + 1 in
      let absent = not_in_list m.queue.len order i lt out in
      let range : i < length m.queue.slice = omega (arith, v.size) in
      (
        rw (store_next_lem m.queue.slice i end range) refl,
        record {
          size = omega (arith, v.size, length-set_next m.queue.slice i end);
          below = v.below;
          distinct = v.distinct;
          tail = v.tail;
          leads =
              Leads-set end m.queue.slice (front m.queue.len order) (behind order) m.queue.list_head
                i end range absent v.leads;
          clears = (
            lt,
            out,
            ground (arith, load_next-set_next m.queue.slice i end i range),
            AllCleared-set m.queue.len m.queue.slice (contents order) m.clearing i end range free
                v.clears,
          );
          apart = (free, v.apart);
          owes = v.owes;
        },
      )

  -- The machine after the swap of slot `i`, where `others` stay cleared.
  abbrev pub swapped : ℕ → List ℕ → Machine W
  swapped i others = record {
    queue = record m.queue { list_head = i };
    clearing = others;
    producers = record { prev = m.queue.list_head; index = i } ∷ m.producers;
  }

  abbrev pub grown : ℕ → Order
  grown i = replaced order (behind order ++ missing i ∷ [])

  -- The swap puts the slot last.
  pub swap_in_lem :
      (k i : ℕ) (others : List ℕ)
      → Racing m order
      → select m.clearing k ≡ some (i, others)
      → (swap_in k m ≡ some (swapped i others)) × Racing (swapped i others) (grown i)
  unfolding swap_in swap_head
  swap_in_lem k i others v chosen =
      let n = m.queue.len in
      let s = m.queue.slice in
      let a = front n order in
      let ys = behind order in
      let found =
        select_cleared n s (contents order) m.clearing k i others v.clears v.apart chosen in
      let there = front-replaced n order (ys ++ missing i ∷ []) in
      let rest = behind-replaced order (ys ++ missing i ∷ []) in
      (
        rw chosen refl,
        record {
          size = v.size;
          below =
              rw (contents-swap order i)
                (AllBelow-snoc n (contents order) i v.below found.in_range);
          distinct =
              rw (contents-swap order i) (Distinct-snoc (contents order) i v.distinct found.absent);
          tail = v.tail ∙ sym there;
          leads =
              rw (there, rest)
                (Leads-swap (n + 1) s a ys m.queue.list_head i found.cleared v.leads);
          clears =
              rw (contents-swap order i)
                (AllCleared-snoc n s (contents order) others i found.alone found.rest);
          apart = found.apart;
          owes = λ w.
              rw (there, rest)
                (omega (arith, v.owes w, gaps-swap (n + 1) s w a ys m.queue.list_head i v.leads));
        },
      )

  -- The machine once a producer has written its link, with the same slots in the same order.
  pub record Finished (k : ℕ) : Type 0 where
    pub after : Machine W
    pub links : Order
    pub ends : finish_push k m ≡ some after
    pub same : contents links ≡ contents order
    pub racing : Racing after links

  -- The last store changes no order.
  pub finish_push_lem : (k : ℕ) → Racing m order → k < length m.producers → Finished k
  unfolding finish_push link Closed
  finish_push_lem k v lt =
      let end = m.queue.len + 1 in
      let a = front m.queue.len order in
      let ys = behind order in
      let chosen = select_lem m.producers k lt in
      let p = chosen.producer.prev in
      let i = chosen.producer.index in
      let own : one_link p i p i ≡ 1 = ground arith in
      let open_gap : 0 < gaps (one_link p i) a ys =
        omega (arith, own, chosen.weights (one_link p i), v.owes (one_link p i)) in
      let range =
        lt_of_Leads end m.queue.slice a ys m.queue.list_head p v.leads
          (has-gap a ys p i open_gap) in
      let (zs, same, leads, less) =
        close_link end m.queue.slice a ys m.queue.list_head p i range
          (Distinct-list m.queue.len order v.below v.distinct) v.leads open_gap in
      let there = front-replaced m.queue.len order zs in
      let rest = behind-replaced order zs in
      record {
        after = record m {
          queue = record m.queue { slice = set_next m.queue.slice p i };
          producers = chosen.others;
        };
        links = replaced order zs;
        ends = rw (chosen.runs, store_next_lem m.queue.slice p i range) refl;
        same = contents-replaced order zs same;
        racing = record {
          size = omega (arith, v.size, length-set_next m.queue.slice p i);
          below = rw (contents-replaced order zs same) v.below;
          distinct = rw (contents-replaced order zs same) v.distinct;
          tail = v.tail ∙ sym there;
          leads = rw (there, rest) leads;
          clears = rw (contents-replaced order zs same) (
              AllCleared-set m.queue.len m.queue.slice (contents order) m.clearing p i range
                (not_cleared m.queue.len m.queue.slice order m.clearing p v.clears
                  (has-gap a ys p i open_gap))
                v.clears);
          apart = v.apart;
          owes = λ w. rw (there, rest) (omega (arith, v.owes w, chosen.weights w, less w));
        };
      }
