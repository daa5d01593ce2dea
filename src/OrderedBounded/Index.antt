-- ===== src/OrderedBounded/Index.antt =====
-- The housekeeping of the indices in `poll_next`.
use futures_buffered.OrderedBounded.{FuturesOrderedBounded, housekeep}
use futures_buffered.OrderWrapper.{OrderWrapper, BinaryHeap, cmp, msb, flip_msb, flip_entry}
use futures_buffered.Base.{
  inl, inr, Bool-cases, true, leb, ℕ, ◌<◌, ◌≡◌, refl, some, arith, ap, ◌∙◌, sub_usize, usize_mod,
}
use mathlib.Core.Option
use futures_buffered.SlotMap
use futures_buffered.SlotMap.Iter.{get-for_each_mut}

-- The difference of two indices, modulo 2^64, stays when the top bit of both is flipped.
sub_usize-flip :
    (a b : ℕ) → a < usize_mod → b < usize_mod → sub_usize (flip_msb a) (flip_msb b) ≡ sub_usize a b
sub_usize-flip a b h k = ground arith

flip_below : (i : ℕ) → i < usize_mod → leb msb i ≡ true → flip_msb i < msb
flip_below i h e = ground arith

module _ {W T O : Type 0} (bh : BinaryHeap (OrderWrapper O) cmp) where
  -- How far the future in a slot is from being the next, in two sets.
  abbrev pub SameTask :
      FuturesOrderedBounded W bh.Heap T → FuturesOrderedBounded W bh.Heap T → ℕ → Type 0
  SameTask q q' j =
      (t : OrderWrapper T)
      → SlotMap.get q.in_progress_queue.tasks j ≡ some t
      → (t' : OrderWrapper T) × (SlotMap.get q'.in_progress_queue.tasks j ≡ some t')
        × (t'.payload ≡ t.payload)
        × (sub_usize t'.index q'.next_outgoing_index ≡ sub_usize t.index q.next_outgoing_index)

  -- Housekeeping brings the next outgoing index below 2^63. It keeps every future in its slot, and the
  -- distance of its index from the next outgoing one, modulo 2^64, and that of the next incoming one.
  pub housekeep_lem :
      (q : FuturesOrderedBounded W bh.Heap T)
      → q.next_outgoing_index < usize_mod
      → q.next_incoming_index < usize_mod
      → ((j : ℕ)
          → (t : OrderWrapper T) → SlotMap.get q.in_progress_queue.tasks j ≡ some t
          → t.index < usize_mod)
      → ((housekeep bh q).next_outgoing_index < msb)
        × (sub_usize (housekeep bh q).next_incoming_index (housekeep bh q).next_outgoing_index
            ≡ sub_usize q.next_incoming_index q.next_outgoing_index)
        × ((j : ℕ) → SameTask q (housekeep bh q) j)
  unfolding housekeep flip_entry
  housekeep_lem q out inc small = elim (Bool-cases (leb msb q.next_outgoing_index)) [
    | inl high ↦ rw high (
      flip_below q.next_outgoing_index out high,
      sub_usize-flip q.next_incoming_index q.next_outgoing_index inc out,
      λ j t e. (
        flip_entry t,
        get-for_each_mut flip_entry q.in_progress_queue.tasks j
            ∙ ap (λ o. Option.map flip_entry o) e,
        refl,
        sub_usize-flip t.index q.next_outgoing_index (small j t e) out,
      ),
    )
    | inr low ↦ rw low (ground arith, refl, λ j t e. (t, e, refl, refl))
  ]
