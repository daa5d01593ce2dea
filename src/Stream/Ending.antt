-- ===== src/Stream/Ending.antt =====
-- What an adaptor tells of its stream when it has no output.
use futures_buffered.Base.{ℕ, ◌<◌, ◌≡◌, refl, Option, none, some}
use futures_buffered.Task.{Poll, ready, pending}
use futures_buffered.Stream.{ended}

module _ {S O : Type 0} where
  -- What the result tells of the stream and of the number that is held.
  abbrev pub Told : Poll (Option O) → Option S → ℕ → Type 0
  Told (ready none) stream held = (stream ≡ none) × (held ≡ 0)
  Told (ready (some x)) stream held = Unit
  Told pending none held = 0 < held
  Told pending (some s) held = Unit

module _ (O : Type 0) {S : Type 0} where
  pub Told-ended :
      (stream : Option S) (held : ℕ) → held ≡ 0 → Told (ended {O = O} stream) stream held
  unfolding ended
  Told-ended none held h = (refl, h)
  Told-ended (some s) held h = tt

  pub Told-pending : (stream : Option S) (held : ℕ) → 0 < held → Told {O = O} pending stream held
  Told-pending none held h = h
  Told-pending (some s) held h = tt
