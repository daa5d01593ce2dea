-- ===== src/UnorderedBounded/Push.antt =====
-- `try_push_with` and the pushes that use it.
use futures_buffered.Base.{
  ◌+◌, inl, inr, ap, ◌⊎◌, ℕ, ◌≡◌, refl, sym, ◌∙◌, false, none, some, List, [], ◌∷◌, ◌++◌, arith,
  has, if◌then◌else◌, ◌==◌,
}
use futures_buffered.SlotMap
use futures_buffered.SlotMap.{SlotMap, Result, ok, err}
use futures_buffered.SlotMap.Lookup.{Inserted, insert_with_lem}
use futures_buffered.ArcSlice
use futures_buffered.ArcSlice.{ArcSliceInner}
use futures_buffered.ArcSlice.Fifo.{Front, unwritten, stub, inline}
use futures_buffered.ArcSlice.Push.{pushed, front_pushed, push-Holds, pushed-Indexed}
use futures_buffered.UnorderedBounded.{
  FuturesUnorderedBounded, len, capacity, push_inserted, try_push_with, try_push, push, unless_full,
}
use futures_buffered.UnorderedBounded.Valid.{IsValid, AllIn, IsUsed}

module _ {F : Type 0} where
  -- A slot without a future is none of the queued ones.
  pub not-has_of_vacant :
      (m : SlotMap F) (xs : List ℕ) (i : ℕ) → AllIn m xs → SlotMap.get m i ≡ none → has i xs ≡ false
  not-has_of_vacant m [] i o e = refl
  not-has_of_vacant m (x ∷ xs) i o e = ground (arith, not-has_of_vacant m xs i o.1)

  -- Filling slot `i` keeps the others, and fills `i`.
  pub AllIn-snoc :
      (m m' : SlotMap F) (xs : List ℕ) (i : ℕ) (x : F)
      → ((j : ℕ) → SlotMap.get m' j ≡ (if i == j then some x else SlotMap.get m j))
      → AllIn m xs
      → AllIn m' (xs ++ i ∷ [])
  AllIn-snoc m m' [] i x h o = (ground (arith, h i), tt)
  AllIn-snoc m m' (y ∷ xs) i x h o = (ground (arith, h y), AllIn-snoc m m' xs i x h o.1)

-- What a stored future does to the number of futures and of slots.
pub count_of_Inserted :
    {W F : Type 0} (g g' : FuturesUnorderedBounded W F) (x : F) (key : ℕ)
    → Inserted g.tasks x key g'.tasks
    → (len g' ≡ len g + 1) × (capacity g' ≡ capacity g)
unfolding len capacity
count_of_Inserted g g' x key ins = (ins.count, ins.same_capacity)

module _ {W F S T : Type 0} (q : FuturesUnorderedBounded W F) (s : S) (t : T)
    (f : S → T → F × S) where
  -- The two ways in which a push may end, told apart by what it returns.
  abbrev pub Pushed :
      Front → List ℕ → FuturesUnorderedBounded W F × S × Result (Unit {0}) T → Type 0
  Pushed front xs (q', s', ok _) =
      (key : ℕ) × (free : List ℕ) × IsValid q' (front_pushed front) (xs ++ key ∷ []) free
      × Inserted q.tasks (f s t).0 key q'.tasks
      × (s' ≡ (f s t).1)
      × (q'.shared.strong ≡ q.shared.strong)
  Pushed front xs (q', s', err a) = (len q ≡ capacity q) × (q' ≡ q) × (s' ≡ s) × (a ≡ t)

  pub pushed-IsValid :
      (front : Front) (xs free free' : List ℕ) (key : ℕ) (m : SlotMap F)
      → IsValid q front xs free
      → SlotMap.Valid.IsValid m free'
      → Inserted q.tasks (f s t).0 key m
      → (ArcSlice.push q.shared key ≡ some (pushed q.shared key))
        × IsValid
            (record { tasks = m; shared = pushed q.shared key })
            (front_pushed front)
            (xs ++ key ∷ [])
            free'
  unfolding capacity
  pushed-IsValid front xs free free' key m v vm ins =
      let out = not-has_of_vacant q.tasks xs key v.occupied ins.vacant in
      let (runs, queue) =
        push-Holds q.shared front xs key v.queue (omega (arith, ins.in_range, v.same_len)) out in
      (
        runs,
        record {
          slots = vm;
          same_len = v.same_len ∙ sym ins.same_capacity;
          queue = queue;
          indexed = pushed-Indexed q.shared key v.indexed;
          occupied = AllIn-snoc q.tasks m xs key (f s t).0 ins.lookup v.occupied;
          used = used_after front;
          referenced = v.referenced;
        },
      )
    where
      used_after : (front : Front) → IsUsed (front_pushed front) m
      used_after unwritten = tt
      used_after stub = tt
      used_after inline = tt

  -- On a valid set `try_push_with` never faults. It fails exactly when every slot holds a future,
  -- and then changes nothing and gives the argument back. Otherwise it puts the closure's future
  -- into a slot that was free, queues that slot behind the others, and leaves the set valid.
  pub try_push_with_lem :
      (front : Front) (xs free : List ℕ)
      → IsValid q front xs free
      → (out : FuturesUnorderedBounded W F × S × Result (Unit {0}) T) × (try_push_with q s t f
          ≡ some out)
        × Pushed front xs out
  unfolding try_push_with push_inserted
  try_push_with_lem front xs free v = finish (insert_with_lem q.tasks s t f free v.slots)
    where
      finish :
          (ins : (out : SlotMap F × S × Result ℕ T) × (free' : List ℕ) × (SlotMap.insert_with
                q.tasks s t f
              ≡ some out)
            × SlotMap.Valid.IsValid out.0 free'
            × SlotMap.Lookup.Outcome q.tasks s t f out)
          → (out : FuturesUnorderedBounded W F × S × Result (Unit {0}) T) × (try_push_with q s t f
              ≡ some out)
            × Pushed front xs out
      finish ((m, s', ok key), free', e, vm, (ins, es)) =
          let (runs, valid) = pushed-IsValid front xs free free' key m v vm ins in
          (
            (record { tasks = m; shared = pushed q.shared key }, s', ok tt),
            rw (e, runs),
            (key, free', valid, ins, es, refl),
          )
      finish ((m, s', err a), free', e, vm, (full, em, es, ea)) = (
        (record q { tasks = m }, s', err a),
        rw e,
        (unfold len capacity in full, ap (λ r. record q { tasks = r }) em, es, ea),
      )

module _ {W F : Type 0} (q : FuturesUnorderedBounded W F) (fut : F) where
  -- What a push of `fut` that finds room makes of the set.
  abbrev pub Accepted : Front → List ℕ → FuturesUnorderedBounded W F → Type 0
  Accepted front xs q' =
      (key : ℕ) × (free : List ℕ) × IsValid q' (front_pushed front) (xs ++ key ∷ []) free
      × Inserted q.tasks fut key q'.tasks
      × (q'.shared.strong ≡ q.shared.strong)

  -- `push` panics exactly when every slot holds a future. Otherwise it stores and queues `fut`.
  pub push_lem :
      (front : Front) (xs free : List ℕ)
      → IsValid q front xs free
      → ((push q fut ≡ none) × (len q ≡ capacity q))
        ⊎ ((q' : FuturesUnorderedBounded W F) × (push q fut ≡ some q') × Accepted front xs q')
  unfolding push try_push unless_full
  push_lem front xs free v =
      finish (try_push_with_lem q (tt {0}) fut (λ s t. (t, s)) front xs free v)
    where
      finish :
          (out : FuturesUnorderedBounded W F × Unit {0} × Result (Unit {0}) F) × (try_push_with q
                (tt {0})
                fut
                (λ s t. (t, s))
              ≡ some out)
            × Pushed q (tt {0}) fut (λ s t. (t, s)) front xs out
          → ((push q fut ≡ none) × (len q ≡ capacity q))
            ⊎ ((q' : FuturesUnorderedBounded W F) × (push q fut ≡ some q') × Accepted front xs q')
      finish ((q', s', ok u), e, (key, free', valid, ins, es, same)) =
          inr (q', rw e, (key, free', valid, ins, same))
      finish ((q', s', err a), e, (full, eq, es, ea)) = inl (rw e, full)
