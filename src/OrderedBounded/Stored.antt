-- ===== src/OrderedBounded/Stored.antt =====
-- A future stored under a new index: what that changes of the indices and the places.
use mathlib.Core.Path.{subst}
use mathlib.Core.Option.{some-injective}
use futures_buffered.Base.{
  inl, inr, Bool-cases, false, ◌==◌, ℕ, ◌+◌, ◌<◌, ◌≡◌, sym, ap, ◌∙◌, none, some, List, [], ◌∷◌,
  arith, one_at, occurrences-change, All,
}
use futures_buffered.SlotMap
use futures_buffered.SlotMap.{SlotMap}
use futures_buffered.SlotMap.Lookup.{Inserted}
use futures_buffered.UnorderedBounded.Trace.{Keeps}
use futures_buffered.OrderWrapper.{OrderWrapper}
use futures_buffered.OrderWrapper.Held.{held, task_index, index_of}
use futures_buffered.OrderWrapper.Balance.{waits}

module _ {T : Type 0} (m m' : SlotMap (OrderWrapper T)) (x : OrderWrapper T) (key : ℕ)
    (ins : Inserted m x key m') where
  -- The new future counts at its index.
  pub held-insert : (i : ℕ) → held m' i ≡ held m i + one_at (some x.index) i
  held-insert i =
      let elsewhere =
        λ (j : ℕ) (other : (key == j) ≡ false). (rw other at (ap index_of (ins.lookup j))) in
      let change =
        occurrences-change (SlotMap.capacity m) (task_index m) (task_index m') i key ins.in_range
          elsewhere in
      let was : task_index m key ≡ none = ap index_of ins.vacant in
      let stored : SlotMap.get m' key ≡ some x = ground (arith, ins.lookup key) in
      let now : task_index m' key ≡ some x.index = ap index_of stored in
      rw ins.same_capacity
        (omega (arith, change, ap (λ r. one_at r i) was, ap (λ r. one_at r i) now))

  -- A predicate of the futures that holds of the new one, and of the old ones.
  pub Keeps-insert : (Q : ℕ → OrderWrapper T → Type 0) → Q key x → Keeps Q m → Keeps Q m'
  Keeps-insert Q new old j t e = elim (Bool-cases (key == j)) [
    | inl here ↦
        let at_key : key ≡ j = ground arith in
        let same : x ≡ t = some-injective x t (sym (rw here at (ins.lookup j)) ∙ e) in
        subst (λ k. Q k t) at_key (subst (Q key) same new)
    | inr other ↦ old j t (sym (rw other at (ins.lookup j)) ∙ e)
  ]

-- Of an output that waits, its index waits.
pub All-waiting :
    {O : Type 0} (A C : OrderWrapper O → Type 0) (es : List (OrderWrapper O))
    → ((e : OrderWrapper O) → 0 < waits es e.index → A e → C e)
    → All A es
    → All C es
All-waiting A C [] h a = tt
All-waiting A C (e ∷ es) h a =
    (h e (ground arith) a.0, All-waiting A C es (λ e' w. h e' (omega (arith, w))) a.1)
