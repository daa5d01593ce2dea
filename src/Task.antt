-- ===== src/Task.antt =====
-- What the crate takes from `core::task` and `futures_util`: polls, wakers and the atomic waker cell.
-- A task waker (the `cx.waker()` of the code) is known by a number; the list of the task wakers that
-- have been called, in order, is passed through the functions that call them.
use futures_buffered.Base.{ℕ, ◌≡◌, List, [], ◌∷◌}

pub data Poll (A : Type 0) : Type 0 where
  ready : A → Poll A
  pending : Poll A

abbrev pub Log : Type 0
Log = List ℕ

-- `futures_util::task::AtomicWaker`: `wake` calls the waker that was registered last, and nothing
-- if none was; it gives the cell afterwards and the wakers called.
pub record AtomicWaker : Type 1 where
  pub Cell : Type 0
  pub new_cell : Cell
  pub register : Cell → ℕ → Cell
  pub wake : Cell → Cell × Log
  pub wake-new_cell : (wake new_cell).1 ≡ []
  pub wake-register : (c : Cell) (w : ℕ) → (wake (register c w)).1 ≡ w ∷ []
