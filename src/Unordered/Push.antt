-- ===== src/Unordered/Push.antt =====
-- A push to a `FuturesUnordered` always finds room.
use mathlib.Core.Path.{subst₂}
use futures_buffered.Base.{
  sym, inl, inr, ℕ, ◌+◌, ◌*◌, ◌≤◌, ◌<◌, ◌≡◌, refl, some, ◌%◌, ap, List, [], ◌∷◌, arith, usize_mod,
  add_usize,
}
use futures_buffered.ArcSlice
use futures_buffered.ArcSlice.{isize_max}
use futures_buffered.ArcSlice.Fifo.{Front, unwritten}
use futures_buffered.SlotMap.{Result, ok, err}
use futures_buffered.SlotMap.Lookup.{Inserted}
use futures_buffered.SlotMap.Iter.{len-new}
use futures_buffered.UnorderedBounded
use futures_buffered.UnorderedBounded.{FuturesUnorderedBounded, capacity, len, try_push_with}
use futures_buffered.UnorderedBounded.Valid.{new_set-IsValid}
use futures_buffered.UnorderedBounded.Push.{Pushed, try_push_with_lem, push_lem}
use futures_buffered.Unordered.{FuturesUnordered, min_capacity, with_last, grow, push_last, push}
use futures_buffered.Unordered.Groups.{Sound, AllSound, total}

new_group_size :
    {W : Type 0} (F : Type 0) (cell : W) (k : ℕ)
    → (len (UnorderedBounded.new {F = F} cell k) ≡ 0)
      × (capacity (UnorderedBounded.new {F = F} cell k) ≡ k)
unfolding UnorderedBounded.new len capacity
new_group_size F cell k = len-new F k

len_of_Inserted :
    {W F : Type 0} (g g' : FuturesUnorderedBounded W F) (x : F) (key : ℕ)
    → Inserted g.tasks x key g'.tasks
    → len g' ≡ len g + 1
unfolding len
len_of_Inserted g g' x key ins = ins.count

module _ {W F : Type 0} (cell : W) (fut : F) where
  -- The groups with `fut` stored in one of them besides what it held, or in a new one behind them.
  pub data Adds
      : List (FuturesUnorderedBounded W F) → List (FuturesUnorderedBounded W F) → Type 0 where
    stored :
        {g g' : FuturesUnorderedBounded W F} {gs : List (FuturesUnorderedBounded W F)} (key : ℕ)
        → Inserted g.tasks fut key g'.tasks
        → Adds (g ∷ gs) (g' ∷ gs)
    opened :
        {g' : FuturesUnorderedBounded W F} (k key : ℕ)
        → Inserted (UnorderedBounded.new {F = F} cell k).tasks fut key g'.tasks
        → Adds [] (g' ∷ [])
    behind :
        {g : FuturesUnorderedBounded W F} {gs gs' : List (FuturesUnorderedBounded W F)}
        → Adds gs gs'
        → Adds (g ∷ gs) (g ∷ gs')

module _ {W F : Type 0} (cell : W) (n : ℕ) (spare : n + 1 ≤ isize_max) where
  -- A group has slots, and twice as many can be numbered.
  abbrev pub Roomy : FuturesUnorderedBounded W F → Type 0
  Roomy g = (0 < capacity g) × (capacity g * 2 < usize_mod)

  abbrev pub AllRoomy : List (FuturesUnorderedBounded W F) → Type 0
  AllRoomy [] = Unit
  AllRoomy (g ∷ gs) = Roomy g × AllRoomy gs

  -- A push of `fut` to `gs` has made `gs'` of them.
  abbrev pub Grown :
      F → List (FuturesUnorderedBounded W F) → List (FuturesUnorderedBounded W F) → Type 0
  Grown fut gs gs' = AllSound n gs' × (total gs' ≡ total gs + 1) × Adds cell fut gs gs'

  new_group-Sound : (k : ℕ) → k < usize_mod → Sound {W = W} {F = F} n (UnorderedBounded.new cell k)
  unfolding UnorderedBounded.new ArcSlice.new
  new_group-Sound k h = (unwritten, [], _, new_set-IsValid cell k h, omega arith)

  -- A new group with slots takes a future.
  next_group :
      (k : ℕ) (fut : F)
      → 0 < k
      → k < usize_mod
      → (g : FuturesUnorderedBounded W F) × (UnorderedBounded.push (UnorderedBounded.new cell k) fut
          ≡ some g)
        × Sound n g
        × (len g ≡ 1)
        × (key : ℕ) × Inserted (UnorderedBounded.new {F = F} cell k).tasks fut key g.tasks
  next_group k fut h small =
      let (empty_len, size) = new_group_size F cell k in
      let (front, xs, free, v, room) = new_group-Sound k small in
      elim (push_lem (UnorderedBounded.new cell k) fut front xs free v) [
        | inl (bad, full) ↦ absurd (omega arith)
        | inr (g, runs, (key, free', v', ins, same)) ↦ (
          g,
          runs,
          (_, _, free', v', omega arith),
          omega (arith, len_of_Inserted (UnorderedBounded.new cell k) g fut key ins),
          key,
          ins,
        )
      ]

  grow_lem :
      (g : FuturesUnorderedBounded W F) (fut : F) (front : Front) (xs : List ℕ)
      (out : FuturesUnorderedBounded W F × Unit {0} × Result (Unit {0}) F)
      → Sound n g
      → Roomy g
      → Pushed g (tt {0}) fut (λ s t. (t, s)) front xs out
      → (gs : List (FuturesUnorderedBounded W F)) × (grow cell (out.0, out.2) ≡ some gs)
        × Grown fut (g ∷ []) gs
  unfolding grow
  grow_lem g fut front xs (q, s, ok u) sound roomy (key, free, v, ins, es, same) =
      let (front', xs', free', v', room) = sound in
      (
        q ∷ [],
        refl,
        (
          ((_, _, free, v, omega arith), tt),
          omega (arith, len_of_Inserted g q fut key ins),
          stored key ins,
        ),
      )
  grow_lem g fut front xs (q, s, err f) sound roomy (full, eq, es, ef) =
      let doubled : capacity q * 2 ≡ (capacity q * 2) % usize_mod =
        ground (arith, ap capacity eq) in
      let (next, runs, sound', one, key, ins) =
        next_group ((capacity q * 2) % usize_mod) f (omega (arith, doubled, ap capacity eq))
          (omega (arith, doubled, ap capacity eq)) in
      (
        q ∷ next ∷ [],
        rw runs refl,
        (
          (rw eq sound, (sound', tt)),
          omega (arith, ap len eq),
          subst₂ (λ h x. Adds cell x (g ∷ []) (h ∷ next ∷ [])) (sym eq) ef
              (behind (opened ((capacity q * 2) % usize_mod) key ins)),
        ),
      )

  push_last_lem :
      (g : FuturesUnorderedBounded W F) (gs : List (FuturesUnorderedBounded W F)) (fut : F)
      → AllSound n (g ∷ gs)
      → AllRoomy (g ∷ gs)
      → (gs' : List (FuturesUnorderedBounded W F)) × (push_last cell (g ∷ gs) fut ≡ some gs')
        × Grown fut (g ∷ gs) gs'
  unfolding push_last UnorderedBounded.try_push
  push_last_lem g [] fut s r =
      let (front, xs, free, v, room) = s.0 in
      let (out, runs, pushed) = try_push_with_lem g (tt {0}) fut (λ s t. (t, s)) front xs free v in
      let (gs', grows, grown) = grow_lem g fut front xs out s.0 r.0 pushed in
      (gs', rw (runs, grows) refl, grown)
  push_last_lem g (h ∷ gs) fut s r =
      let (gs', runs, (sound, count, adds)) = push_last_lem h gs fut s.1 r.1 in
      (g ∷ gs', rw runs refl, ((s.0, sound), omega arith, behind adds))

  -- The first group has room.
  first_group :
      (fut : F)
      → (gs' : List (FuturesUnorderedBounded W F)) × (push_last cell
            (UnorderedBounded.new cell min_capacity ∷ [])
            fut
          ≡ some gs')
        × Grown fut [] gs'
  unfolding push_last UnorderedBounded.try_push grow
  first_group fut =
      let (empty_len, size) = new_group_size F cell min_capacity in
      let (front, xs, free, v, room) = new_group-Sound min_capacity (omega arith) in
      of_push front xs
        (try_push_with_lem (UnorderedBounded.new cell min_capacity) (tt {0}) fut (λ s t. (t, s))
          front xs free v)
        empty_len size room
    where
      of_push :
          (front : Front) (xs : List ℕ)
          → (pushed : (out : FuturesUnorderedBounded W F × Unit {0} × Result (Unit {0}) F)
              × (try_push_with (UnorderedBounded.new cell min_capacity) (tt {0}) fut (λ s t. (t, s))
                  ≡ some out)
              × Pushed
                  (UnorderedBounded.new cell min_capacity)
                  (tt {0})
                  fut
                  (λ s t. (t, s))
                  front
                  xs
                  out)
          → len (UnorderedBounded.new {F = F} cell min_capacity) ≡ 0
          → capacity (UnorderedBounded.new {F = F} cell min_capacity) ≡ min_capacity
          → (UnorderedBounded.new {F = F} cell min_capacity).shared.strong + n ≤ isize_max
          → (gs' : List (FuturesUnorderedBounded W F)) × (push_last cell
                (UnorderedBounded.new cell min_capacity ∷ [])
                fut
              ≡ some gs')
            × Grown fut [] gs'
      of_push front xs ((q, s, ok u), runs, (key, free, v, ins, es, same)) e size room = (
        q ∷ [],
        rw runs refl,
        (
          ((_, _, free, v, omega arith), tt),
          omega (arith, len_of_Inserted (UnorderedBounded.new cell min_capacity) q fut key ins),
          opened min_capacity key ins,
        ),
      )
      of_push front xs ((q, s, err f), runs, (full, eq, es, ef)) e size room = absurd (omega arith)

  with_last_lem :
      (gs : List (FuturesUnorderedBounded W F)) (fut : F)
      → AllSound n gs
      → AllRoomy gs
      → (gs' : List (FuturesUnorderedBounded W F)) × (push_last cell (with_last cell gs) fut
          ≡ some gs')
        × Grown fut gs gs'
  unfolding with_last
  with_last_lem [] fut s r = first_group fut
  with_last_lem (g ∷ gs) fut s r = push_last_lem g gs fut s r

  -- On a set of sound groups that have slots, fewer than 2^63 each, and whose futures `rem` counts,
  -- `push` never panics, if `rem` can count one more: the future is stored in one group besides what it
  -- held, or in a new group behind the others, which hold what they held; `rem` counts the futures, and
  -- the groups stay sound.
  pub push_groups_lem :
      (u : FuturesUnordered W F) (fut : F)
      → AllSound n u.groups
      → AllRoomy u.groups
      → total u.groups ≡ u.rem
      → u.rem + 1 < usize_mod
      → (u' : FuturesUnordered W F) × (push cell u fut ≡ some u')
        × AllSound n u'.groups
        × (total u'.groups ≡ u'.rem)
        × (u'.rem ≡ u.rem + 1)
        × Adds cell fut u.groups u'.groups
  unfolding push
  push_groups_lem u fut s r sum small =
      let (gs, runs, (sound, count, adds)) = with_last_lem u.groups fut s r in
      let next : add_usize u.rem 1 ≡ u.rem + 1 = ground arith in
      (
        record u { rem = add_usize u.rem 1; groups = gs },
        rw runs refl,
        sound,
        omega (arith, next),
        next,
        adds,
      )
