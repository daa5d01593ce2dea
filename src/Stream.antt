-- ===== src/Stream.antt =====
-- The streams that the adaptors of src/buffered take their futures from, and what the adaptors share.
-- A stream is a parameter: polling it with the task's waker gives the stream afterwards, the task wakers
-- it called, and the result.
pub mod Ending
pub mod Served
use futures_buffered.Base.{
  if◌then◌else◌, ltb, ℕ, ◌+◌, ◌-◌, ◌≡◌, Option, none, some, List, [], ◌∷◌, usize_mod,
}
use futures_buffered.SlotMap.{Result, ok, err}
use futures_buffered.Task.{Poll, ready, pending, Log}

abbrev pub StreamFn : Type 0 → Type 0 → Type 0
StreamFn S F = S → ℕ → S × Log × Poll (Option F)

-- `usize::saturating_add`.
abbrev pub saturating_add : ℕ → ℕ → ℕ
saturating_add a b = if ltb (a + b) usize_mod then a + b else usize_mod - 1

-- `checked_add` of an upper bound that may be missing.
abbrev pub checked_add : Option ℕ → ℕ → Option ℕ
checked_add none b = none
checked_add (some a) b = if ltb (a + b) usize_mod then some (a + b) else none

-- The size hint, from that of the stream.
unfoldable pub stream_hint : {S : Type 0} → (S → ℕ × Option ℕ) → ℕ → Option S → ℕ × Option ℕ
stream_hint hint queue_len none = (0, some 0)
stream_hint hint queue_len (some s) =
    (saturating_add (hint s).0 queue_len, checked_add (hint s).1 queue_len)

module _ {S O : Type 0} where
  -- What is returned when no future is left.
  unfoldable pub ended : Option S → Poll (Option O)
  ended none = ready none
  ended (some s) = pending

module _ {S F : Type 0} (cx : ℕ) (next : StreamFn S F) where
  -- The stream, which is dropped at its end, gave these futures, polled until it gave no more or was
  -- left alone.
  pub data Took : Option S → List F → Option S → Type 0 where
    left_alone : {stream : Option S} → Took stream [] stream
    waited :
        {s s' : S} {called : Log} → next s cx ≡ (s', called, pending) → Took (some s) [] (some s')
    finished :
        {s s' : S} {called : Log} → next s cx ≡ (s', called, ready none) → Took (some s) [] none
    took :
        {s s' : S} {called : Log} {fut : F} {futs : List F} {stream : Option S}
        → next s cx ≡ (s', called, ready (some fut))
        → Took (some s') futs stream
        → Took (some s) (fut ∷ futs) stream

module _ {S F E : Type 0} (cx : ℕ) (next : StreamFn S (Result F E)) where
  -- The stream gave these futures, polled until it gave no more or was left alone, or gave the error.
  pub data TryTook : Option S → List F → Option S → Option E → Type 0 where
    try_left_alone : {stream : Option S} → TryTook stream [] stream none
    try_waited :
        {s s' : S} {called : Log}
        → next s cx ≡ (s', called, pending)
        → TryTook (some s) [] (some s') none
    try_finished :
        {s s' : S} {called : Log}
        → next s cx ≡ (s', called, ready none)
        → TryTook (some s) [] none none
    failed :
        {s s' : S} {called : Log} {e : E}
        → next s cx ≡ (s', called, ready (some (err e)))
        → TryTook (some s) [] (some s') (some e)
    try_took :
        {s s' : S} {called : Log} {fut : F} {futs : List F} {stream : Option S} {error : Option E}
        → next s cx ≡ (s', called, ready (some (ok fut)))
        → TryTook (some s') futs stream error
        → TryTook (some s) (fut ∷ futs) stream error
