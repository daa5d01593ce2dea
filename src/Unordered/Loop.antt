-- ===== src/Unordered/Loop.antt =====
-- What a poll of a `FuturesUnordered` returns.
use futures_buffered.Base.{
  inl, inr, Bool-cases, true, leb, if◌then◌else◌, ◌==◌, length, set, get_elem?, ℕ, zero, suc, ◌+◌,
  ◌*◌, ◌≤◌, ◌<◌, ◌≡◌, refl, some, none, List, [], ◌∷◌, ◌++◌, arith, ap, sym, ◌∙◌, length-set,
  usize_mod, sub_usize, add_usize, get_elem?_total,
}
use futures_buffered.Task.{ready, pending, AtomicWaker, Log}
use futures_buffered.ArcSlice.{Waker}
use futures_buffered.SlotMap
use futures_buffered.UnorderedBounded
use futures_buffered.UnorderedBounded.{
  FuturesUnorderedBounded, PollFn, Outcome, max_polls, output_only, poll_inner,
}
use futures_buffered.UnorderedBounded.Step.{Settles}
use futures_buffered.UnorderedBounded.Inner.{PolledInner, poll_inner_lem}
use futures_buffered.Unordered.{
  FuturesUnordered, UnorderedOutcome, remove_elem, group_ended, after_group, poll_loop, poll_next,
}
use futures_buffered.Unordered.Groups.{
  total_of_no_group, Sound, AllSound, total, AllSound-le, Sound-le, Sound-at, AllSound-set,
  AllSound-remove, AllSound-snoc, total-set, total-remove, total-snoc, sub_usize_one,
}

module _ {W F : Type 0} where
  is_empty_of_len :
      (g : FuturesUnorderedBounded W F)
      → UnorderedBounded.len g ≡ 0
      → UnorderedBounded.is_empty g ≡ true
  unfolding UnorderedBounded.len UnorderedBounded.is_empty SlotMap.len SlotMap.is_empty
  is_empty_of_len g h = ground arith

turn_lt : (n i : ℕ) → 0 < n → (if leb n i then 0 else i) < n
turn_lt n i h = ground arith

module _ ⦃aw : AtomicWaker⦄ {F O : Type 0} (cx : ℕ) (poll_fn : PollFn F O)
    (settles : (f : F) (w : Waker) → Settles w (poll_fn f w).result (poll_fn f w).events)
    (spare : ℕ) where
  open aw use {Cell}

  -- Every group is valid with room for `spare` more wakers, and `rem` counts the futures.
  abbrev pub Counted : FuturesUnordered Cell F → Type 0
  Counted u = AllSound spare u.groups × (total u.groups ≡ u.rem)

  -- What a poll of a set of `rem` futures returns and leaves.
  abbrev pub PolledGroups : ℕ → UnorderedOutcome Cell F O → Type 0
  PolledGroups rem (u, log, pending) = (u.rem ≡ rem) × Counted u
  PolledGroups rem (u, log, ready none) = (rem ≡ 0) × (u.rem ≡ 0) × Counted u
  PolledGroups rem (u, log, ready (some x)) = (u.rem + 1 ≡ rem) × Counted u

  -- The loop ends, within `left` rounds, in such an outcome.
  abbrev Ends : ℕ → Type 0
  Ends left =
      (u : FuturesUnordered Cell F) (log : Log)
      → AllSound (spare + left * max_polls) u.groups
      → total u.groups ≡ u.rem
      → u.rem < usize_mod
      → 0 < length u.groups
      → (out : UnorderedOutcome Cell F O) × (poll_loop left cx poll_fn u log ≡ some out)
        × PolledGroups u.rem out

  group_ended_lem :
      (left rem at : ℕ) (group : FuturesUnorderedBounded Cell F) (log : Log)
      (others : List (FuturesUnorderedBounded Cell F))
      → Ends left
      → UnorderedBounded.len group ≡ 0
      → total others ≡ rem
      → rem < usize_mod
      → AllSound (spare + left * max_polls) others
      → Sound (spare + left * max_polls) group
      → (out : UnorderedOutcome Cell F O) × (group_ended
            (poll_loop left cx poll_fn)
            rem
            at
            group
            log
            others
          ≡ some out)
        × PolledGroups rem out
  unfolding group_ended
  group_ended_lem left rem at group log [] ends gone sum small s sg =
      let none_left : (rem == 0) ≡ true = ground arith in
      (
        (record { rem = rem; groups = group ∷ []; poll_index = at }, log, ready none),
        rw none_left refl,
        (
          sym sum,
          sym sum,
          ((Sound-le (spare + left * max_polls) spare group (omega arith) sg, tt), omega arith),
        ),
      )
  group_ended_lem left rem at group log (other ∷ others) ends gone sum small s sg =
      elim (Bool-cases (at == length (other ∷ others))) [
        | inl last ↦
            let (out, runs, polled) =
              ends (record { rem = rem; groups = (other ∷ others) ++ group ∷ []; poll_index = 0 })
                log (AllSound-snoc (spare + left * max_polls) (other ∷ others) group s sg)
                (omega (arith, total-snoc (other ∷ others) group)) small (omega arith) in
            (out, rw last runs, polled)
        | inr inner ↦
            let (out, runs, polled) =
              ends (record { rem = rem; groups = other ∷ others; poll_index = at }) log s sum small
                (omega arith) in
            (out, rw inner runs, polled)
      ]

  after_group_lem :
      (left : ℕ) (u : FuturesUnordered Cell F) (at : ℕ) (log : Log)
      (g : FuturesUnorderedBounded Cell F) (free : List ℕ) (inner : Outcome Cell F O)
      → Ends left
      → get_elem? u.groups at ≡ some g
      → AllSound (spare + suc left * max_polls) u.groups
      → total u.groups ≡ u.rem
      → u.rem < usize_mod
      → 0 < length u.groups
      → PolledInner cx poll_fn settles g log free inner
      → inner.0.shared.strong ≤ g.shared.strong + max_polls
      → (out : UnorderedOutcome Cell F O) × (after_group
            (poll_loop left cx poll_fn)
            u
            at
            (output_only inner)
          ≡ some out)
        × PolledGroups u.rem out
  unfolding after_group output_only
  after_group_lem left u at log g free (q, log', pending) ends here s sum small some_group p b =
      let (front, xs, old, v, room) = Sound-at (spare + suc left * max_polls) u.groups at s here in
      let less =
        AllSound-le (spare + suc left * max_polls) (spare + left * max_polls) u.groups (omega arith)
          s in
      ends (record { rem = u.rem; groups = set u.groups at q; poll_index = add_usize at 1 }) log'
        (AllSound-set (spare + left * max_polls) u.groups at q less
          (p.3, p.4, free, p.5, omega arith))
        (omega (arith, total-set u.groups at q here, p.1)) small
        (omega (arith, length-set u.groups at q))
  after_group_lem left u at log g free (q, log', ready none) ends here s sum small some_group p b =
      let (front, xs, old, v, room) = Sound-at (spare + suc left * max_polls) u.groups at s here in
      let same : UnorderedBounded.len q ≡ 0 = ap UnorderedBounded.len p.1 ∙ p.0 in
      let less =
        AllSound-le (spare + suc left * max_polls) (spare + left * max_polls) u.groups (omega arith)
          s in
      let (out, runs, polled) =
        group_ended_lem left u.rem at q log' (remove_elem u.groups at) ends same
          (omega (arith, (total-remove u.groups at here).0, p.0)) small
          (AllSound-remove (spare + left * max_polls) u.groups at less)
          (rw p.1 (front, xs, old, v, omega arith)) in
      (out, rw (is_empty_of_len q same) runs, polled)
  after_group_lem left u at log g free (q, log', ready (some (i, x))) ends here s sum small
        some_group p b =
      let (front, xs, old, v, room) = Sound-at (spare + suc left * max_polls) u.groups at s here in
      let fewer : total (set u.groups at q) + 1 ≡ u.rem =
        omega (arith, total-set u.groups at q here, p.3) in
      let rem_after = sub_usize_one u.rem (total (set u.groups at q)) fewer small in
      (
        (
          record { rem = sub_usize u.rem 1; groups = set u.groups at q; poll_index = at },
          log',
          ready (some x),
        ),
        refl,
        (
          ap (λ n. n + 1) rem_after ∙ fewer,
          (
            AllSound-set spare u.groups at q
                (AllSound-le (spare + suc left * max_polls) spare u.groups (omega arith) s)
                (p.5, p.6, i ∷ free, p.7, omega arith),
            sym rem_after,
          ),
        ),
      )

  poll_loop_lem : (left : ℕ) → Ends left
  unfolding poll_loop UnorderedBounded.poll_next
  poll_loop_lem zero u log s sum small some_group = (
    (u, log, pending),
    refl,
    (refl, (AllSound-le (spare + zero * max_polls) spare u.groups (omega arith) s, sum)),
  )
  poll_loop_lem (suc left) u log s sum small some_group =
      let at = if leb (length u.groups) u.poll_index then 0 else u.poll_index in
      let (g, here) =
        get_elem?_total u.groups at (turn_lt (length u.groups) u.poll_index some_group) in
      let (front, xs, free, v, room) = Sound-at (spare + suc left * max_polls) u.groups at s here in
      let (inner, runs, polled, b) =
        poll_inner_lem cx poll_fn settles g log free front xs v (omega arith) in
      let (out, done, ended) =
        after_group_lem left u at log g free inner (poll_loop_lem left) here s sum small some_group
          polled b in
      (out, rw (here, runs, done), ended)

  -- A poll of a `FuturesUnordered` of fewer than 2^64 futures that settle, all of whose groups are
  -- valid and count `rem` futures together, never faults, if each reference count has room for 61
  -- wakers for each group and `spare` more: neither an index nor a debug assertion fails. An output
  -- takes one from the number of futures; the end comes only when there is none; a pending poll keeps
  -- them. The groups stay valid, with room for `spare` wakers, and `rem` counts them again.
  pub poll_groups_lem :
      (u : FuturesUnordered Cell F) (log : Log)
      → AllSound (spare + length u.groups * max_polls) u.groups
      → total u.groups ≡ u.rem
      → u.rem < usize_mod
      → (out : UnorderedOutcome Cell F O) × (poll_next cx poll_fn u log ≡ some out)
        × PolledGroups u.rem out
  unfolding poll_next
  poll_groups_lem u log s sum small = elim (Bool-cases (length u.groups == 0)) [
    | inl no_group ↦
        let none_left : total u.groups ≡ 0 = total_of_no_group u.groups (ground arith) in
        (
          (u, log, ready none),
          rw no_group refl,
          (
            sym sum ∙ none_left,
            sym sum ∙ none_left,
            (AllSound-le (spare + length u.groups * max_polls) spare u.groups (omega arith) s, sum),
          ),
        )
    | inr some_group ↦
        let (out, runs, polled) =
          poll_loop_lem (length u.groups) u log s sum small (ground arith) in
        (out, rw some_group runs, polled)
  ]
