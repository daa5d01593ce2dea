-- ===== src/JoinAll/Filling.antt =====
-- The invariant that joins the slots of the queue to the entries of the output buffer.
use futures_buffered.Base.{
  inr, inl, ◌==◌, arith, Bool-cases, none, some, Option, ℕ, ◌<◌, ◌≡◌, List, ◌∷◌, length,
  get_elem?-set, set, length-set,
}
use mathlib.Core.Path.{subst}
use futures_buffered.ArcSlice.Fifo.{Front}
use futures_buffered.ArcSlice.{Waker}
use futures_buffered.Task.{ready, AtomicWaker, Log}
use futures_buffered.SlotMap
use futures_buffered.UnorderedBounded.{FuturesUnorderedBounded, PollFn, capacity, len}
use futures_buffered.UnorderedBounded.Valid.{IsValid, is_some}
use futures_buffered.UnorderedBounded.Step.{Settles}
use futures_buffered.UnorderedBounded.Inner.{PolledInner}
use futures_buffered.UnorderedBounded.Trace.{Keeps}
use futures_buffered.JoinAll.Buffer.{
  WrittenAt, lt_of_get, none_of_same, get_of_no_value, capacity_of,
}

module _ {W F T : Type 0} (P : ℕ → F → Type 0) (R : ℕ → T → Type 0) where
  -- The set is valid and has a slot for each entry; the futures in it satisfy `P`, and every entry
  -- whose slot is free was written with a value that satisfies `R`.
  pub record IsFilling (q : FuturesUnorderedBounded W F) (output : List (Option T)) (front : Front)
      (xs free : List ℕ) : Type 0 where
    pub valid : IsValid q front xs free
    pub sized : length output ≡ capacity q
    pub kept : Keeps P q.tasks
    pub written : (i : ℕ) → i < length output → SlotMap.get q.tasks i ≡ none → WrittenAt R output i

  -- When the set is empty every entry was written.
  pub written_of_empty :
      (q : FuturesUnorderedBounded W F) (output : List (Option T)) (front : Front)
      (xs free : List ℕ)
      → IsFilling q output front xs free
      → len q ≡ 0
      → (i : ℕ) → i < length output
      → WrittenAt R output i
  unfolding len
  written_of_empty q output front xs free v e i lt =
      v.written i lt (get_of_no_value q.tasks free i v.valid.slots e)

module _ ⦃aw : AtomicWaker⦄ {F O T : Type 0} (P : ℕ → F → Type 0) (R : ℕ → T → Type 0) (cx : ℕ)
    (poll_fn : PollFn F O)
    (settles : (f : F) (w : Waker) → Settles w (poll_fn f w).result (poll_fn f w).events)
    (q : FuturesUnorderedBounded aw.Cell F) (log : Log) (free : List ℕ) where
  open aw use {Cell}

  -- An output is written to the entry of its slot, which is in range.
  pub set-IsFilling :
      (output : List (Option T)) (front : Front) (xs : List ℕ) (q' : FuturesUnorderedBounded Cell F)
      (log' : Log) (i : ℕ) (x : O) (y : T)
      → IsFilling P R q output front xs free
      → (p : PolledInner cx poll_fn settles q log free (q', log', ready (some (i, x))))
      → Keeps P q'.tasks
      → R i y
      → (i < length output)
        × (front' : Front) × (queued : List ℕ) × IsFilling P R q'
            (set output i (some y))
            front'
            queued
            (i ∷ free)
  unfolding capacity
  set-IsFilling output front xs q' log' i x y v p k r =
      let (held, freed, others, count, done, front', queued, valid') = p in
      let range : i < length output = omega (arith, lt_of_get q.tasks i held, v.sized) in
      (
        range,
        front',
        queued,
        record {
          valid = valid';
          sized = omega (
            arith,
            length-set output i (some y),
            v.sized,
            capacity_of q v.valid,
            capacity_of q' valid',
            count,
          );
          kept = k;
          written = λ j lt vacant. elim (Bool-cases (i == j)) [
            | inl same ↦
                let here : i ≡ j = ground arith in
                (
                  y,
                  ground (arith, get_elem?-set output i (some y) j range),
                  subst (λ n. R n y) here r,
                )
            | inr other ↦
                let before : SlotMap.get q.tasks j ≡ none =
                  none_of_same _ _ (others.0 j other) vacant in
                let (z, e, rz) = v.written j (omega (arith, length-set output i (some y))) before in
                (z, ground (arith, get_elem?-set output i (some y) j range), rz)
          ];
        },
      )

  -- A pending poll leaves the entries as they are, and no slot becomes free.
  pub pending-IsFilling :
      (output : List (Option T)) (front : Front) (xs : List ℕ) (q' : FuturesUnorderedBounded Cell F)
      (front' : Front) (queued : List ℕ)
      → IsFilling P R q output front xs free
      → len q' ≡ len q
      → IsValid q' front' queued free
      → Keeps P q'.tasks
      → ((j : ℕ) → is_some (SlotMap.get q'.tasks j) ≡ is_some (SlotMap.get q.tasks j))
      → IsFilling P R q' output front' queued free
  pending-IsFilling output front xs q' front' queued v same valid' k others = record {
    valid = valid';
    sized = omega (arith, v.sized, capacity_of q v.valid, capacity_of q' valid', same);
    kept = k;
    written = λ j lt vacant. v.written j lt (none_of_same _ _ (others j) vacant);
  }
