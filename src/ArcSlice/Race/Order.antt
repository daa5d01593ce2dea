-- ===== src/ArcSlice/Race/Order.antt =====
-- The invariant of the queue while producers are between their accesses.
use futures_buffered.ArcSlice.Slots.{load_next-set_next}
use futures_buffered.ArcSlice.{some, load_next, set_next, ArcSlotInner}
use futures_buffered.Base.{
  ne_of_has, true, has-append, ℕ, ◌+◌, ◌<◌, ◌≡◌, refl, ap, false, List, [], ◌∷◌, ◌++◌, arith,
  length, has, Distinct, AllBelow, has-below,
}
use futures_buffered.ArcSlice.Race.{Producer, Machine}
use futures_buffered.ArcSlice.Race.Links.{Link, slots, gaps, slots-append, Leads, missing}

-- What `list_tail` points at, the stub or a slot, and the slots behind it.
pub data Order : Type 0 where
  at_stub : List Link → Order
  at_slot : ℕ → List Link → Order

-- The slots that are queued, in the order of the swaps.
abbrev pub contents : Order → List ℕ
contents (at_stub ys) = slots ys
contents (at_slot x ys) = x ∷ slots ys

abbrev pub front : ℕ → Order → ℕ
front len (at_stub ys) = len
front len (at_slot x ys) = x

abbrev pub behind : Order → List Link
behind (at_stub ys) = ys
behind (at_slot x ys) = ys

abbrev pub replaced : Order → List Link → Order
replaced (at_stub ys) zs = at_stub zs
replaced (at_slot x ys) zs = at_slot x zs

-- The weight of the links that producers still have to write.
abbrev pub owed : (ℕ → ℕ → ℕ) → List Producer → ℕ
owed w [] = 0
owed w (p ∷ ps) = w p.prev p.index + owed w ps

pub owed-ones : (ps : List Producer) → owed (λ a b. 1) ps ≡ length ps
owed-ones [] = refl
owed-ones (p ∷ ps) = omega (arith, owed-ones ps)

-- The slots `is` are not queued, and their links are cleared.
abbrev pub AllCleared : ℕ → List ArcSlotInner → List ℕ → List ℕ → Type 0
AllCleared n s queued [] = Unit
AllCleared n s queued (i ∷ is) =
    (i < n) × (has i queued ≡ false) × (load_next s i ≡ some (n + 1)) × AllCleared n s queued is

-- The slots of the order stand in the queue, each once; the links that are missing are those that the
-- producers still have to write.
pub record Racing {W : Type 0} (m : Machine W) (order : Order) : Type 0 where
  pub size : length m.queue.slice ≡ m.queue.len + 1
  pub below : AllBelow m.queue.len (contents order)
  pub distinct : Distinct (contents order)
  pub tail : m.queue.list_tail ≡ front m.queue.len order
  pub leads :
      Leads
        (m.queue.len + 1)
        m.queue.slice
        (front m.queue.len order)
        (behind order)
        m.queue.list_head
  pub clears : AllCleared m.queue.len m.queue.slice (contents order) m.clearing
  pub apart : Distinct m.clearing
  pub owes : (w : ℕ → ℕ → ℕ) → owed w m.producers ≡ gaps w (front m.queue.len order) (behind order)

pub contents-swap :
    (order : Order) (i : ℕ)
    → contents (replaced order (behind order ++ missing i ∷ [])) ≡ contents order ++ i ∷ []
contents-swap (at_stub ys) i = slots-append ys i
contents-swap (at_slot x ys) i = ap (λ zs. x ∷ zs) (slots-append ys i)

pub contents-replaced :
    (order : Order) (zs : List Link)
    → slots zs ≡ slots (behind order)
    → contents (replaced order zs) ≡ contents order
contents-replaced (at_stub ys) zs e = e
contents-replaced (at_slot x ys) zs e = ap (λ l. x ∷ l) e

pub front-replaced :
    (n : ℕ) (order : Order) (zs : List Link) → front n (replaced order zs) ≡ front n order
front-replaced n (at_stub ys) zs = refl
front-replaced n (at_slot x ys) zs = refl

pub behind-replaced : (order : Order) (zs : List Link) → behind (replaced order zs) ≡ zs
behind-replaced (at_stub ys) zs = refl
behind-replaced (at_slot x ys) zs = refl

-- A slot that is not queued is none of the list's.
pub not_in_list :
    (n : ℕ) (order : Order) (i : ℕ)
    → i < n
    → has i (contents order) ≡ false
    → has i (front n order ∷ slots (behind order)) ≡ false
not_in_list n (at_stub ys) i lt out = ground arith
not_in_list n (at_slot x ys) i lt out = out

pub Distinct-list :
    (n : ℕ) (order : Order)
    → AllBelow n (contents order)
    → Distinct (contents order)
    → Distinct (front n order ∷ slots (behind order))
Distinct-list n (at_stub ys) b d = (has-below n (slots ys) b, d)
Distinct-list n (at_slot x ys) b d = d

-- What the list goes through has no cleared slot.
pub not_cleared :
    (n : ℕ) (s : List ArcSlotInner) (order : Order) (is : List ℕ) (p : ℕ)
    → AllCleared n s (contents order) is
    → has p (front n order ∷ slots (behind order)) ≡ true
    → has p is ≡ false
not_cleared n s order [] p c h = refl
not_cleared n s order (i ∷ is) p c h =
    let ne =
      ne_of_has p i (front n order ∷ slots (behind order)) h (not_in_list n order i c.0 c.1) in
    ground (arith, not_cleared n s order is p c.3 h)

-- The stub is no cleared slot.
pub stub_not_cleared :
    (n : ℕ) (s : List ArcSlotInner) (queued is : List ℕ)
    → AllCleared n s queued is
    → has n is ≡ false
stub_not_cleared n s queued [] c = refl
stub_not_cleared n s queued (i ∷ is) c = ground (arith, stub_not_cleared n s queued is c.3)

-- A write elsewhere leaves the cleared links.
pub AllCleared-set :
    (n : ℕ) (s : List ArcSlotInner) (queued is : List ℕ) (p v : ℕ)
    → p < length s
    → has p is ≡ false
    → AllCleared n s queued is
    → AllCleared n (set_next s p v) queued is
AllCleared-set n s queued [] p v h out c = tt
AllCleared-set n s queued (i ∷ is) p v h out c = (
  c.0,
  c.1,
  ground (arith, load_next-set_next s p v i h),
  AllCleared-set n s queued is p v h (ground arith) c.3,
)

-- Another slot is queued, last.
pub AllCleared-snoc :
    (n : ℕ) (s : List ArcSlotInner) (queued is : List ℕ) (j : ℕ)
    → has j is ≡ false
    → AllCleared n s queued is
    → AllCleared n s (queued ++ j ∷ []) is
AllCleared-snoc n s queued [] j out c = tt
AllCleared-snoc n s queued (i ∷ is) j out c = (
  c.0,
  ground (arith, has-append i queued (j ∷ [])),
  c.2,
  AllCleared-snoc n s queued is j (ground arith) c.3,
)

-- The first slot is queued no more.
pub AllCleared-tail :
    (n : ℕ) (s : List ArcSlotInner) (x : ℕ) (queued is : List ℕ)
    → AllCleared n s (x ∷ queued) is
    → AllCleared n s queued is
AllCleared-tail n s x queued [] c = tt
AllCleared-tail n s x queued (i ∷ is) c =
    (c.0, ground arith, c.2, AllCleared-tail n s x queued is c.3)
