-- ===== src/Stream/Served.antt =====
-- What a poll of an adaptor gives, once it has filled its queue of futures with those of the stream.
use futures_buffered.Base.{
  ℕ, ◌+◌, ◌<◌, ◌≡◌, ◌⊎◌, inl, inr, refl, Option, none, some, List, [], ◌∷◌, ◌>>=◌, sym, ◌∙◌,
}
use futures_buffered.Task.{Poll, ready, pending, AtomicWaker, Log}
use futures_buffered.Stream.{ended}
use futures_buffered.UnorderedBounded
use futures_buffered.UnorderedBounded.{FuturesUnorderedBounded, PollFn, len}

module _ {W F : Type 0} where
  -- Pushing the futures of a list, the first one first.
  abbrev pub push_each : List F → FuturesUnorderedBounded W F → Option (FuturesUnorderedBounded W F)
  push_each [] q = some q
  push_each (f ∷ fs) q = do pushed ← UnorderedBounded.push q f; push_each fs pushed

module _ ⦃aw : AtomicWaker⦄ {F O : Type 0} (cx : ℕ) (poll_fn : PollFn F O) where
  open aw use {Cell}

  -- A poll of the queue `q` returns `r` and leaves `q'`.
  abbrev pub Gives :
      FuturesUnorderedBounded Cell F
      → FuturesUnorderedBounded Cell F
      → Log
      → Poll (Option O)
      → Type 0
  Gives q q' log' r =
      (log : Log) × (UnorderedBounded.poll_next cx poll_fn q log ≡ some (q', log', r))

  module _ {S : Type 0} where
    -- What the result tells of the stream, and of the queue `q` of which `q'` is left: one poll of `q` gave
    -- the output, or was pending, or found the queue empty.
    abbrev pub Served :
        Poll (Option O)
        → Option S
        → FuturesUnorderedBounded Cell F
        → FuturesUnorderedBounded Cell F
        → Log
        → Type 0
    Served (ready none) stream q q' log' =
        (stream ≡ none) × (len q ≡ 0) × (len q' ≡ 0) × Gives q q' log' (ready none)
    Served (ready (some x)) stream q q' log' =
        (len q' + 1 ≡ len q) × Gives q q' log' (ready (some x))
    Served pending none q q' log' = (len q' ≡ len q) × (0 < len q) × Gives q q' log' pending
    Served pending (some s) q q' log' =
        (len q' ≡ len q)
        × (((len q ≡ 0) × Gives q q' log' (ready none)) ⊎ ((0 < len q) × Gives q q' log' pending))

    pub Served-ended :
        (stream : Option S) (q q' : FuturesUnorderedBounded Cell F) (log' : Log)
        → len q ≡ 0
        → len q' ≡ 0
        → Gives q q' log' (ready none)
        → Served (ended stream) stream q q' log'
    unfolding ended
    Served-ended none q q' log' h h' g = (refl, h, h', g)
    Served-ended (some s) q q' log' h h' g = (h' ∙ sym h, inl (h, g))

    pub Served-pending :
        (stream : Option S) (q q' : FuturesUnorderedBounded Cell F) (log' : Log)
        → len q' ≡ len q
        → 0 < len q
        → Gives q q' log' pending
        → Served pending stream q q' log'
    Served-pending none q q' log' e h g = (e, h, g)
    Served-pending (some s) q q' log' e h g = (e, inr (h, g))
