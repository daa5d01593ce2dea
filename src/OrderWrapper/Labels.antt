-- ===== src/OrderWrapper/Labels.antt =====
-- The futures and outputs of an ordered queue by their labels, and what a poll preserves of them.
use mathlib.Core.Path.{subst}
use futures_buffered.Base.{
  ℕ, suc, ◌<◌, ◌≡◌, sym, List, [], ◌∷◌, length, All, add_usize, usize_mod, arith,
}
use futures_buffered.Task.{ready, AtomicWaker}
use futures_buffered.ArcSlice.{Waker}
use futures_buffered.SlotMap
use futures_buffered.UnorderedBounded.{PollFn, Outcome}
use futures_buffered.UnorderedBounded.Trace.{Keeps, Traced}
use futures_buffered.OrderWrapper.{OrderWrapper, poll_wrapped}
use futures_buffered.OrderWrapper.Held.{wrapped_output}
use futures_buffered.OrderWrapper.Places.{AtPlace, AtPlace-tail}

pub next_incoming :
    (i k n : ℕ)
    → i ≡ add_usize k (suc n)
    → k < usize_mod
    → n < usize_mod
    → i ≡ add_usize (add_usize k 1) n
next_incoming i k n e h s = ground arith

module _ {T O G : Type 0} (P : G → T → Type 0) (R : G → O → Type 0) where
  -- The futures and outputs by label, for the labels `gs` from the index `k` on.
  abbrev pub RunsAt : List G → ℕ → ℕ → OrderWrapper T → Type 0
  RunsAt gs k j t = AtPlace P gs k t.index t.payload

  abbrev pub WaitsAt : List G → ℕ → OrderWrapper O → Type 0
  WaitsAt gs k o = AtPlace R gs k o.index o.payload

  -- The labels of a queue whose first one is taken.
  pub tail_running :
      (g : G) (gs : List G) (k : ℕ) (m : SlotMap.SlotMap (OrderWrapper T))
      → k < usize_mod
      → suc (length gs) < usize_mod
      → Keeps (RunsAt (g ∷ gs) k) m
      → Keeps (RunsAt gs (add_usize k 1)) m
  tail_running g gs k m small few a j t e =
      AtPlace-tail P g gs k t.index t.payload small few (a j t e)

  pub tail_waiting :
      (g : G) (gs : List G) (k : ℕ) (es : List (OrderWrapper O))
      → k < usize_mod
      → suc (length gs) < usize_mod
      → All (WaitsAt (g ∷ gs) k) es
      → All (WaitsAt gs (add_usize k 1)) es
  tail_waiting g gs k [] small few a = tt
  tail_waiting g gs k (e ∷ es) small few a =
      (AtPlace-tail R g gs k e.index e.payload small few a.0, tail_waiting g gs k es small few a.1)

module _ ⦃aw : AtomicWaker⦄ {T O G : Type 0} (P : G → T → Type 0) (R : G → O → Type 0)
    (poll_fn : PollFn T O) (preserves : (g : G) (f : T) (w : Waker) → P g f → P g (poll_fn f w).fut)
    (gives : (g : G) (f : T) (w : Waker) (x : O)
      → P g f
      → (poll_fn f w).result ≡ ready x
      → R g x) where
  open aw use {Cell}

  pub label_preserved :
      (gs : List G) (k j : ℕ) (t : OrderWrapper T) (w : Waker)
      → RunsAt P R gs k j t
      → RunsAt P R gs k j (poll_wrapped poll_fn t w).fut
  unfolding poll_wrapped
  label_preserved gs k j t w a = (a.0, λ g e. preserves g t.payload w (a.1 g e))

  pub label_given :
      (gs : List G) (k j : ℕ) (t : OrderWrapper T) (w : Waker) (o : OrderWrapper O)
      → RunsAt P R gs k j t
      → (poll_wrapped poll_fn t w).result ≡ ready o
      → WaitsAt P R gs k o
  label_given gs k j t w o a e =
      let (same, result) = wrapped_output poll_fn t w o e in
      subst (λ i. AtPlace R gs k i o.payload) (sym same)
        (a.0, λ g h. gives g t.payload w o.payload (a.1 g h) result)

  abbrev pub LabelTraced : List G → ℕ → Outcome Cell (OrderWrapper T) (OrderWrapper O) → Type 0
  LabelTraced gs k =
      Traced (RunsAt P R gs k) (λ j o. WaitsAt P R gs k o) (poll_wrapped poll_fn)
        (label_preserved gs k) (label_given gs k)
