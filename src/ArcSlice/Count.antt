-- ===== src/ArcSlice/Count.antt =====
-- The reference count: one for the `ArcSlice` and one for each waker.
use futures_buffered.Base.{
  ℕ, zero, ◌-◌, ltb, ◌==◌, if◌then◌else◌, inl, inr, Option, Bool-cases, suc, ◌+◌, ◌<◌, ◌≤◌, ◌≡◌,
  refl, none, some, arith, usize_mod,
}
use futures_buffered.ArcSlice.{
  Option, ArcSliceInner, Memory, live, freed, inc_strong, dec_strong, drop_handle, isize_max,
}

module _ {W : Type 0} where
  -- A new handle is counted, up to the limit past which the program is aborted.
  pub inc_strong_lem :
      (q : ArcSliceInner W)
      → q.strong ≤ isize_max
      → inc_strong q ≡ some (record q { strong = q.strong + 1 })
  unfolding inc_strong
  inc_strong_lem q h = ground arith

  pub drop_handle-more :
      (q : ArcSliceInner W)
      → 1 < q.strong
      → q.strong < usize_mod
      → drop_handle q ≡ live (record q { strong = q.strong - 1 })
  unfolding drop_handle dec_strong
  drop_handle-more q h k = ground arith

  pub drop_handle-last : (q : ArcSliceInner W) → q.strong ≡ 1 → drop_handle q ≡ freed
  unfolding drop_handle dec_strong
  drop_handle-last q h = ground arith

  -- `k` handles are dropped, one after the other; `none` is a drop of what has been freed.
  unfoldable pub drop_handles : ℕ → Memory W → Option (Memory W)
  drop_handles zero m = some m
  drop_handles (suc k) (live q) = drop_handles k (drop_handle q)
  drop_handles (suc k) freed = none

  drop_handles-freed : (k : ℕ) → drop_handles k freed ≡ (if k == 0 then some freed else none)
  unfolding drop_handles
  drop_handles-freed zero = refl
  drop_handles-freed (suc k) = ground arith

  -- Of `n` counted handles the first `n - 1` drops leave the allocation, with the count of those
  -- that remain; the last frees it, and any further one would use freed memory.
  pub drop_handles_lem :
      (k : ℕ) (q : ArcSliceInner W)
      → 0 < q.strong
      → q.strong < usize_mod
      → drop_handles k (live q) ≡ (
          if ltb k q.strong
          then some (live (record q { strong = q.strong - k }))
          else if k == q.strong
          then some freed
          else none)
  unfolding drop_handles
  drop_handles_lem zero q h b = ground arith
  drop_handles_lem (suc k) q h b = elim (Bool-cases (q.strong == 1)) [
    | inl e ↦ rw (drop_handle-last q (ground arith)) (ground (arith, drop_handles-freed k))
    | inr e ↦
        let less = record q { strong = q.strong - 1 } in
        rw (drop_handle-more q (ground arith) b)
          (ground (arith, drop_handles_lem k less (ground arith) (omega arith)))
  ]
