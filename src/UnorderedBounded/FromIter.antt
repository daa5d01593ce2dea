-- ===== src/UnorderedBounded/FromIter.antt =====
-- A set collected from an iterator: all its futures are queued, in order.
use futures_buffered.Base.{
  get_elem?_total, ℕ, zero, suc, ◌+◌, ◌<◌, ◌≡◌, refl, sym, ◌∙◌, true, false, some, List, [], ◌∷◌,
  ◌++◌, arith, length, has, Distinct, AllBelow, range_from, usize_mod, get_elem?, ne_of_has,
  has-middle,
}
use mathlib.Core.List.{append_assoc, append-nil}
use futures_buffered.SlotMap
use futures_buffered.SlotMap.{SlotMap}
use futures_buffered.SlotMap.Valid.{from_iter-IsValid}
use futures_buffered.SlotMap.FreeList.{Distinct-range_from}
use futures_buffered.SlotMap.Iter.{len-from_iter, get-from_iter}
use futures_buffered.ArcSlice
use futures_buffered.ArcSlice.{ArcSliceInner}
use futures_buffered.ArcSlice.Fifo.{Front, unwritten, stub, Holds, Indexed, new-Holds}
use futures_buffered.ArcSlice.Push.{pushed, front_pushed, push-Holds, pushed-Indexed}
use futures_buffered.UnorderedBounded.{FuturesUnorderedBounded, from_iter, push_all, len, capacity}
use futures_buffered.UnorderedBounded.Valid.{IsValid, AllIn, is_some, IsUsed}

not-has-before : (xs : List ℕ) (i : ℕ) (is : List ℕ) → Distinct (xs ++ i ∷ is) → has i xs ≡ false
not-has-before [] i is d = refl
not-has-before (x ∷ xs) i is d =
    ground
      (arith, ne_of_has i x (xs ++ i ∷ is) (has-middle xs i is) d.0, not-has-before xs i is d.1)

AllBelow-range_from : (a n m : ℕ) → a + n ≡ m → AllBelow m (range_from a n)
AllBelow-range_from a zero m h = tt
AllBelow-range_from a (suc n) m h = (omega arith, AllBelow-range_from (suc a) n m (omega arith))

abbrev front_all : Front → List ℕ → Front
front_all front [] = front
front_all front (i ∷ is) = front_all (front_pushed front) is

module _ {W : Type 0} where
  -- `q` after the slots `is` have been pushed behind `xs`.
  record PushedAll (q : ArcSliceInner W) (front : Front) (xs is : List ℕ) : Type 0 where
    after : ArcSliceInner W
    runs : push_all is q ≡ some after
    queue : Holds after (front_all front is) (xs ++ is)
    indexed : Indexed after
    same_len : after.len ≡ q.len
    same_strong : after.strong ≡ q.strong

  push_all_lem :
      (q : ArcSliceInner W) (front : Front) (xs is : List ℕ)
      → Holds q front xs
      → Indexed q
      → Distinct (xs ++ is)
      → AllBelow q.len is
      → PushedAll q front xs is
  unfolding push_all
  push_all_lem q front xs [] v iv d b = record {
    after = q;
    runs = refl;
    queue = rw append-nil v;
    indexed = iv;
    same_len = refl;
    same_strong = refl;
  }
  push_all_lem q front xs (i ∷ is) v iv d b =
      let (runs, held) = push-Holds q front xs i v b.0 (not-has-before xs i is d) in
      let all =
        push_all_lem (pushed q i) (front_pushed front) (xs ++ i ∷ []) is held
          (pushed-Indexed q i iv) (rw append_assoc d) b.1 in
      record {
        after = all.after;
        runs = rw runs all.runs;
        queue = rw append_assoc at all.queue;
        indexed = all.indexed;
        same_len = all.same_len;
        same_strong = all.same_strong;
      }

  new-meta :
      (cell : W) (n : ℕ) → ((ArcSlice.new cell n).len ≡ n) × ((ArcSlice.new cell n).strong ≡ 1)
  unfolding ArcSlice.new
  new-meta cell n = (refl, refl)

  all_pushed : (cell : W) (n : ℕ) → PushedAll (ArcSlice.new cell n) unwritten [] (range_from 0 n)
  all_pushed cell n =
      let (queue, indexed) = new-Holds cell n in
      push_all_lem (ArcSlice.new cell n) unwritten [] (range_from 0 n) queue indexed
        (Distinct-range_from 0 n)
        (AllBelow-range_from 0 n (ArcSlice.new cell n).len (omega (arith, (new-meta cell n).0)))

module _ {F : Type 0} where
  AllIn-from :
      (m : SlotMap F) (xs : List ℕ) (n : ℕ)
      → ((i : ℕ) → i < n → is_some (SlotMap.get m i) ≡ true)
      → AllBelow n xs
      → AllIn m xs
  AllIn-from m [] n h b = tt
  AllIn-from m (x ∷ xs) n h b = (h x b.0, AllIn-from m xs n h b.1)

  occupied-from_iter :
      (iter : List F) (i : ℕ)
      → i < length iter
      → is_some (SlotMap.get (SlotMap.from_iter iter) i) ≡ true
  occupied-from_iter iter i h =
      let (v, e) = get_elem?_total iter i h in rw (get-from_iter iter i, e)

  IsUsed-from_iter :
      (iter : List F)
      → IsUsed (front_all unwritten (range_from 0 (length iter))) (SlotMap.from_iter iter)
  IsUsed-from_iter [] = (len-from_iter {F = F} []).0
  IsUsed-from_iter (x ∷ iter) = used_stub (range_from 1 (length iter))
    where
      used_stub : (is : List ℕ) → IsUsed (front_all stub is) (SlotMap.from_iter (x ∷ iter))
      used_stub [] = tt
      used_stub (i ∷ is) = used_stub is

module _ {W F : Type 0} where
  -- `from_iter` never faults, for less than `2 ^ 64` futures. The set it makes is valid, with no
  -- free slot; it holds the futures under their positions, and all are queued, in that order.
  pub from_iter_lem :
      (cell : W) (iter : List F)
      → length iter < usize_mod
      → (q : FuturesUnorderedBounded W F) × (front : Front) × (from_iter cell iter ≡ some q)
        × IsValid q front (range_from 0 (length iter)) []
        × (len q ≡ length iter)
        × ((j : ℕ) → SlotMap.get q.tasks j ≡ get_elem? iter j)
  unfolding from_iter len capacity
  from_iter_lem cell iter h =
      let (size, room) = len-from_iter iter in
      let all = all_pushed cell (length iter) in
      let (same, one) = new-meta cell (length iter) in
      (
        record { tasks = SlotMap.from_iter iter; shared = all.after },
        front_all unwritten (range_from 0 (length iter)),
        rw (size, all.runs),
        record {
          slots = from_iter-IsValid iter h;
          same_len = all.same_len ∙ same ∙ sym room;
          queue = all.queue;
          indexed = all.indexed;
          occupied =
              AllIn-from (SlotMap.from_iter iter) (range_from 0 (length iter)) (length iter)
                (occupied-from_iter iter)
                (AllBelow-range_from 0 (length iter) (length iter) (omega arith));
          used = IsUsed-from_iter iter;
          referenced = omega (arith, all.same_strong);
        },
        size,
        get-from_iter iter,
      )
