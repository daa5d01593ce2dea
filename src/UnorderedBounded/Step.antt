-- ===== src/UnorderedBounded/Step.antt =====
-- One round of the poll loop: a slot is taken from the queue and its future is polled.
use futures_buffered.Base.{
  ==-refl, ℕ, ◌+◌, ◌<◌, ◌≤◌, ◌≡◌, refl, false, some, List, [], ◌∷◌, ◌++◌, arith, has, inl, inr, ◌⊎◌,
}
use futures_buffered.Task.{Poll, ready, pending, AtomicWaker, Log}
use futures_buffered.ArcSlice
use futures_buffered.ArcSlice.{
  load_index, ArcSliceInner, ReadySlot, Waker, WakerEvent, cloned, woken_by_ref, run_events,
  run_event, drop_handle, alive, isize_max, wake_by_ref, clone_waker,
}
use futures_buffered.ArcSlice.Fifo.{Front, unwritten, stub, inline, Holds, Indexed, Spells}
use futures_buffered.ArcSlice.Push.{pushed, front_pushed, push-Holds, pushed-Indexed}
use futures_buffered.ArcSlice.Pop.{popped-Indexed, popped, pop-Holds}
use futures_buffered.ArcSlice.Count.{inc_strong_lem}

module _ {O : Type 0} where
  -- What a future does that is polled with the waker `w` and does not misuse it: when it finishes it
  -- leaves the waker alone; otherwise it does nothing with it, or keeps a clone, or wakes itself once.
  abbrev pub Settles : Waker → Poll O → List WakerEvent → Type 0
  Settles w (ready x) es = es ≡ []
  Settles w pending es = (es ≡ []) ⊎ ((es ≡ cloned w ∷ []) ⊎ (es ≡ woken_by_ref w ∷ []))

  abbrev pub IfReady : Poll O → Type 0 → Type 0
  IfReady (ready x) P = P
  IfReady pending P = Unit

  if_ready : {P : Type 0} (r : Poll O) → P → IfReady r P
  if_ready (ready x) h = h
  if_ready pending h = tt

abbrev pub IsWritten : Front → Type 0
IsWritten unwritten = ⊥
IsWritten stub = Unit
IsWritten inline = Unit

pub written_pushed : (front : Front) → IsWritten (front_pushed front)
written_pushed unwritten = tt
written_pushed stub = tt
written_pushed inline = tt

module _ {W : Type 0} where
  -- The queue does not look at the reference count and the task's waker.
  meta-Spells :
      (q : ArcSliceInner W) (front : Front) (xs : List ℕ) (n : ℕ) (c : W)
      → Spells q front xs
      → Spells (record q { strong = n; waker = c }) front xs
  meta-Spells q unwritten [] n c s = s
  meta-Spells q unwritten (x ∷ xs) n c s = s
  meta-Spells q stub xs n c s = s
  meta-Spells q inline [] n c s = s
  meta-Spells q inline (x ∷ xs) n c s = s

  pub meta-Holds :
      (q : ArcSliceInner W) (front : Front) (xs : List ℕ) (n : ℕ) (c : W)
      → Holds q front xs
      → Holds (record q { strong = n; waker = c }) front xs
  meta-Holds q front xs n c v = record {
    size = v.size;
    below = v.below;
    distinct = v.distinct;
    spells = meta-Spells q front xs n c v.spells;
  }

  pub same_len-popped : (q : ArcSliceInner W) (xs : List ℕ) → (popped q xs).len ≡ q.len
  same_len-popped q [] = refl
  same_len-popped q (x ∷ xs) = refl

  pub same_waker-popped : (q : ArcSliceInner W) (xs : List ℕ) → (popped q xs).waker ≡ q.waker
  same_waker-popped q [] = refl
  same_waker-popped q (x ∷ xs) = refl

  same_strong-popped : (q : ArcSliceInner W) (xs : List ℕ) → (popped q xs).strong ≡ q.strong
  same_strong-popped q [] = refl
  same_strong-popped q (x ∷ xs) = refl

  -- `ArcSlice::pop` also counts the waker that it hands out.
  pub pop-ready :
      (q : ArcSliceInner W) (front : Front) (i : ℕ) (rest : List ℕ)
      → Holds q front (i ∷ rest)
      → Indexed q
      → q.strong ≤ isize_max
      → ArcSlice.pop q
        ≡ some (record (popped q rest) { strong = q.strong + 1 }, ReadySlot.ready (i, i))
  unfolding ArcSlice.pop ArcSlice.with_waker ArcSlice.get
  pop-ready q front i rest v iv h =
      let strong = same_strong-popped q rest in
      let own : load_index (popped q rest).slice i ≡ some i =
        popped-Indexed q rest iv i (omega (arith, same_len-popped q rest, v.below.0)) in
      rw
        (
          (pop-Holds q front i rest v).0,
          inc_strong_lem (popped q rest) (omega arith),
          strong,
          own,
          ==-refl i,
        )
        refl

module _ ⦃aw : AtomicWaker⦄ where
  open aw use {Cell}

  -- The task's waker cell and the wakers called, after some calls of `wake` on the cell.
  pub data Woke : Cell → Log → Cell → Log → Type 0 where
    unwoken : {c : Cell} {log : Log} → Woke c log c log
    woke :
        {c c' : Cell} {log log' : Log}
        → Woke (aw.wake c).0 (log ++ (aw.wake c).1) c' log'
        → Woke c log c' log'

  pub Woke-trans : {c d e : Cell} {l m n : Log} → Woke c l d m → Woke d m e n → Woke c l e n
  Woke-trans unwoken t = t
  Woke-trans (woke r) t = woke (Woke-trans r t)

module _ ⦃aw : AtomicWaker⦄ {O : Type 0} where
  open aw use {Cell}

  -- What the events of a poll that settles leave of the shared state `p`, whose queue held `xs`.
  pub record Ran (p : ArcSliceInner Cell) (log : Log) (es : List WakerEvent) (xs : List ℕ) (i : ℕ)
      (r : Poll O) : Type 0 where
    pub after : ArcSliceInner Cell
    pub log_after : Log
    pub front : Front
    pub queued : List ℕ
    pub runs : run_events es (p, log) ≡ some (after, log_after)
    pub queue : Holds after front queued
    pub written : IsWritten front
    pub indexed : Indexed after
    pub same_len : after.len ≡ p.len
    pub strong_low : p.strong ≤ after.strong
    pub strong_high : after.strong ≤ p.strong + 1
    pub grown : (queued ≡ xs) ⊎ (queued ≡ xs ++ i ∷ [])
    pub unless_ready : IfReady r (queued ≡ xs)
    pub calls : Woke p.waker log after.waker log_after

  module _ (p : ArcSliceInner Cell) (log : Log) (front : Front) (xs : List ℕ) (i : ℕ)
      (v : Holds p front xs) (w : IsWritten front) (iv : Indexed p) (h : p.strong ≤ isize_max)
      (lt : i < p.len) (out : has i xs ≡ false) where
    Ran-nothing : (es : List WakerEvent) (r : Poll O) → es ≡ [] → Ran p log es xs i r
    unfolding run_events
    Ran-nothing es r e = record {
      after = p;
      log_after = log;
      front = front;
      queued = xs;
      runs = rw e;
      queue = v;
      written = w;
      indexed = iv;
      same_len = refl;
      strong_low = omega arith;
      strong_high = omega arith;
      grown = inl refl;
      unless_ready = if_ready r refl;
      calls = unwoken;
    }

    Ran-clone : (es : List WakerEvent) → es ≡ cloned i ∷ [] → Ran p log es xs i pending
    unfolding run_events run_event clone_waker
    Ran-clone es e = record {
      after = record p { strong = p.strong + 1 };
      log_after = log;
      front = front;
      queued = xs;
      runs = rw (e, inc_strong_lem p h);
      queue = meta-Holds p front xs (p.strong + 1) p.waker v;
      written = w;
      indexed = iv;
      same_len = refl;
      strong_low = omega arith;
      strong_high = omega arith;
      grown = inl refl;
      unless_ready = tt;
      calls = unwoken;
    }

    Ran-wake : (es : List WakerEvent) → es ≡ woken_by_ref i ∷ [] → Ran p log es xs i pending
    unfolding run_events run_event wake_by_ref
    Ran-wake es e =
        let (runs, queue) = push-Holds p front xs i v lt out in
        record {
          after = record (pushed p i) { waker = (aw.wake p.waker).0 };
          log_after = log ++ (aw.wake p.waker).1;
          front = front_pushed front;
          queued = xs ++ i ∷ [];
          runs = rw (e, iv i lt, runs);
          queue =
              meta-Holds (pushed p i) (front_pushed front) (xs ++ i ∷ []) p.strong
                (aw.wake p.waker).0 queue;
          written = written_pushed front;
          indexed = pushed-Indexed p i iv;
          same_len = refl;
          strong_low = omega arith;
          strong_high = omega arith;
          grown = inr refl;
          unless_ready = tt;
          calls = woke unwoken;
        }

    pub Ran-settled : (r : Poll O) (es : List WakerEvent) → Settles i r es → Ran p log es xs i r
    Ran-settled (ready x) es s = Ran-nothing es (ready x) s
    Ran-settled pending es (inl e) = Ran-nothing es pending e
    Ran-settled pending es (inr (inl e)) = Ran-clone es e
    Ran-settled pending es (inr (inr e)) = Ran-wake es e
