-- ===== src/UnorderedBounded/Round.antt =====
-- A round of the poll loop with a future that settles: what it leaves of the set.
use mathlib.Core.Path.{subst}
use futures_buffered.Base.{
  false, ◌==◌, ℕ, suc, ◌+◌, ◌-◌, ◌<◌, ◌≤◌, ◌≡◌, refl, sym, ◌∙◌, true, Option, none, some, List, [],
  ◌∷◌, ◌++◌, arith, inl, inr, ◌⊎◌, length-set,
}
use futures_buffered.Task.{AtomicWaker, Log}
use futures_buffered.SlotMap
use futures_buffered.SlotMap.{SlotMap, occupied}
use futures_buffered.SlotMap.Lookup.{get-put}
use futures_buffered.SlotMap.Valid.{put-IsValid}
use futures_buffered.ArcSlice.{ArcSliceInner, Waker, drop_handle, alive, live, isize_max}
use futures_buffered.ArcSlice.Fifo.{Front, unwritten, stub, inline}
use futures_buffered.ArcSlice.Pop.{popped, front_popped, pop-Holds, popped-Indexed}
use futures_buffered.ArcSlice.Count.{drop_handle-more}
use futures_buffered.UnorderedBounded.{
  len, FuturesUnorderedBounded, PollFn, poll_loop, after_pop, poll_task, after_poll, capacity,
}
use futures_buffered.UnorderedBounded.Valid.{IsValid, AllIn, is_some, IsUsed}
use futures_buffered.UnorderedBounded.Step.{
  same_waker-popped, Woke, Settles, IfReady, IsWritten, Ran, Ran-settled, pop-ready, meta-Holds,
  same_len-popped,
}

module _ {F : Type 0} where
  -- The same slots hold a future.
  abbrev pub SameFutures : SlotMap F → SlotMap F → Type 0
  SameFutures m m' = (j : ℕ) → is_some (SlotMap.get m' j) ≡ is_some (SlotMap.get m j)

  pub SameFutures-put :
      (m : SlotMap F) (i : ℕ) (g : F) {f : F}
      → SlotMap.get m i ≡ some f
      → SameFutures m (SlotMap.put m i g)
  SameFutures-put m i g e j = ground (arith, get-put m i g j e)

  pub AllIn-same : (m m' : SlotMap F) (xs : List ℕ) → SameFutures m m' → AllIn m xs → AllIn m' xs
  AllIn-same m m' [] h o = tt
  AllIn-same m m' (x ∷ xs) h o = (h x ∙ o.0, AllIn-same m m' xs h o.1)

  pub AllIn-end :
      (m : SlotMap F) (xs : List ℕ) (i : ℕ)
      → is_some (SlotMap.get m i) ≡ true
      → AllIn m xs
      → AllIn m (xs ++ i ∷ [])
  AllIn-end m [] i h o = (h, tt)
  AllIn-end m (x ∷ xs) i h o = (o.0, AllIn-end m xs i h o.1)

  some_of_is_some : (o : Option F) → is_some o ≡ true → (f : F) × (o ≡ some f)
  some_of_is_some none h = cc
  some_of_is_some (some f) h = (f, refl)

  IsUsed-written : (front : Front) (m : SlotMap F) → IsWritten front → IsUsed front m
  IsUsed-written unwritten m w = absurd w
  IsUsed-written stub m w = tt
  IsUsed-written inline m w = tt

pub front_popped_written : (xs : List ℕ) → IsWritten (front_popped xs)
front_popped_written [] = tt
front_popped_written (x ∷ xs) = tt

module _ ⦃aw : AtomicWaker⦄ {F O : Type 0} (cx : ℕ) (poll_fn : PollFn F O)
    (settles : (f : F) (w : Waker) → Settles w (poll_fn f w).result (poll_fn f w).events) where
  open aw use {Cell}

  -- The round that takes slot `i` from a queue of `i` and then `rest`.
  pub record Round (q : FuturesUnorderedBounded Cell F) (log : Log) (i : ℕ) (rest free : List ℕ)
      : Type 0 where
    pub task : F
    pub stored : SlotMap.get q.tasks i ≡ some task
    pub after : FuturesUnorderedBounded Cell F
    pub log_after : Log
    pub front : Front
    pub queued : List ℕ
    pub runs :
        (left : ℕ)
        → poll_loop (suc left) cx poll_fn q log
          ≡ after_poll (poll_loop left cx poll_fn) i after log_after (poll_fn task i).result
    pub valid : IsValid after front queued free
    pub written : IsWritten front
    pub strong_high : after.shared.strong ≤ q.shared.strong + 1
    pub polled : SlotMap.get after.tasks i ≡ some (poll_fn task i).fut
    pub same : SameFutures q.tasks after.tasks
    pub same_count : len after ≡ len q
    pub unless_ready : IfReady (poll_fn task i).result (queued ≡ rest)
    pub others : (j : ℕ) → (i == j) ≡ false → SlotMap.get after.tasks j ≡ SlotMap.get q.tasks j
    pub calls : Woke q.shared.waker log after.shared.waker log_after

  module _ (q : FuturesUnorderedBounded Cell F) (log : Log) (front : Front) (i : ℕ)
      (rest free : List ℕ) (v : IsValid q front (i ∷ rest) free)
      (h : q.shared.strong < isize_max) where
    -- The shared state once the slot has been taken and its waker made.
    taken : ArcSliceInner Cell
    taken = record (popped q.shared rest) { strong = q.shared.strong + 1 }

    taken-Ran : (f : F) → Ran taken log (poll_fn f i).events rest i (poll_fn f i).result
    unfolding taken
    taken-Ran f =
        let same = same_len-popped q.shared rest in
        Ran-settled taken log (front_popped rest) rest i
          (meta-Holds (popped q.shared rest) (front_popped rest) rest (q.shared.strong + 1)
            (popped q.shared rest).waker (pop-Holds q.shared front i rest v.queue).1)
          (front_popped_written rest) (popped-Indexed q.shared rest v.indexed) (omega arith)
          (omega (arith, v.queue.below.0)) v.queue.distinct.0 (poll_fn f i).result
          (poll_fn f i).events (settles f i)

    module _ (f : F) (stored : SlotMap.get q.tasks i ≡ some f)
        (ran : Ran taken log (poll_fn f i).events rest i (poll_fn f i).result) where
      left_over : ArcSliceInner Cell
      left_over = record ran.after { strong = ran.after.strong - 1 }

      dropped : drop_handle ran.after ≡ live left_over
      unfolding taken left_over
      dropped =
          drop_handle-more ran.after (omega (arith, ran.strong_low))
            (omega (arith, ran.strong_high))

      after_set : FuturesUnorderedBounded Cell F
      after_set = record { tasks = SlotMap.put q.tasks i (poll_fn f i).fut; shared = left_over }

      round_runs :
          (left : ℕ)
          → poll_loop (suc left) cx poll_fn q log
            ≡ after_poll (poll_loop left cx poll_fn) i after_set ran.log_after (poll_fn f i).result
      unfolding poll_loop after_pop poll_task taken after_set alive
      round_runs left = rw (
        pop-ready q.shared front i rest v.queue v.indexed (omega arith),
        stored,
        ran.runs,
        dropped,
      )

      round_same : SameFutures q.tasks after_set.tasks
      unfolding after_set
      round_same = SameFutures-put q.tasks i (poll_fn f i).fut stored

      round_occupied : AllIn after_set.tasks ran.queued
      round_occupied = AllIn-same q.tasks after_set.tasks ran.queued round_same (all ran.grown)
        where
          all : (ran.queued ≡ rest) ⊎ (ran.queued ≡ rest ++ i ∷ []) → AllIn q.tasks ran.queued
          all (inl e) = rw e v.occupied.1
          all (inr e) = rw e (AllIn-end q.tasks rest i v.occupied.0 v.occupied.1)

      round-IsValid : IsValid after_set ran.front ran.queued free
      unfolding after_set left_over taken capacity SlotMap.capacity SlotMap.put
      round-IsValid = record {
        slots = put-IsValid q.tasks free i (poll_fn f i).fut v.slots stored;
        same_len =
            ran.same_len
            ∙ same_len-popped q.shared rest
            ∙ v.same_len
            ∙ sym (length-set q.tasks.slots i (occupied (poll_fn f i).fut));
        queue =
            meta-Holds ran.after ran.front ran.queued (ran.after.strong - 1) ran.after.waker
              ran.queue;
        indexed = ran.indexed;
        occupied = round_occupied;
        used = IsUsed-written ran.front after_set.tasks ran.written;
        referenced = omega (arith, ran.strong_low, v.referenced);
      }

      Round-of : Round q log i rest free
      unfolding after_set left_over taken len SlotMap.len SlotMap.put
      Round-of = record {
        task = f;
        stored = stored;
        after = after_set;
        log_after = ran.log_after;
        front = ran.front;
        queued = ran.queued;
        runs = round_runs;
        valid = round-IsValid;
        written = ran.written;
        strong_high = omega (arith, ran.strong_high);
        polled = ground (arith, get-put q.tasks i (poll_fn f i).fut i stored);
        same = round_same;
        same_count = refl;
        unless_ready = ran.unless_ready;
        others = λ j ne. ground (arith, get-put q.tasks i (poll_fn f i).fut j stored, ne);
        calls =
            subst (λ c. Woke c log ran.after.waker ran.log_after) (same_waker-popped q.shared rest)
              ran.calls;
      }

    -- A slot that is queued is polled by the next round, with the waker of that slot.
    pub round : Round q log i rest free
    round =
        let (f, stored) = some_of_is_some (SlotMap.get q.tasks i) v.occupied.0 in
        Round-of f stored (taken-Ran f)
