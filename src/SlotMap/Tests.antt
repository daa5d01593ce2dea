-- ===== src/SlotMap/Tests.antt =====
-- A map of three slots, runs of the operations on it, and the theorems at that map.
use futures_buffered.SlotMap.RoundTrip.{insert_with-remove}
use futures_buffered.SlotMap.Lookup.{insert_with_lem, get-remove, Outcome, get-put, len-remove}
use futures_buffered.SlotMap.Iter.{get-from_iter, drain-values, drain}
use futures_buffered.SlotMap.Valid.{new-IsValid, remove-IsValid, put-IsValid, IsValid}
use futures_buffered.Base.{refl, none, arith, some, ◌≡◌, ◌+◌}
use futures_buffered.SlotMap
use futures_buffered.SlotMap.{ok, err, occupied, List, next_free, [], Result, ℕ, ◌∷◌, SlotMap}

-- Slot 1 is occupied; the free ones are 2, then 0.
abbrev three : SlotMap ℕ
three = record { slots = next_free 3 ∷ occupied 7 ∷ next_free 0 ∷ []; free_head = 2; filled = 1 }

three-IsValid : IsValid three (2 ∷ 0 ∷ [])
three-IsValid = record {
  head = refl;
  linked = (refl, (refl, tt));
  distinct = (refl, (refl, tt));
  total = omega arith;
  counted = refl;
  small = omega arith;
}

-- A closure that numbers what it stores.
abbrev number : ℕ → ℕ → ℕ × ℕ
number s x = (x + s, s + 1)

insert_with_runs :
    SlotMap.insert_with three 10 5 number
    ≡ some (
      record { slots = next_free 3 ∷ occupied 7 ∷ occupied 15 ∷ []; free_head = 0; filled = 2 },
      11,
      ok 2,
    )
unfolding SlotMap.insert_with
insert_with_runs = refl

insert_with_full :
    SlotMap.insert_with (SlotMap.from_iter (4 ∷ [])) 10 5 number
    ≡ some (SlotMap.from_iter (4 ∷ []), 10, err 5)
unfolding SlotMap.insert_with SlotMap.from_iter
insert_with_full = refl

insert_with_lem_example :
    (out : SlotMap ℕ × ℕ × Result ℕ ℕ) × (free : List ℕ) × (SlotMap.insert_with three 10 5 number
      ≡ some out)
    × IsValid out.0 free
    × Outcome three 10 5 number out
insert_with_lem_example = insert_with_lem three 10 5 number (2 ∷ 0 ∷ []) three-IsValid

get-remove_example : SlotMap.get (SlotMap.remove three 1) 1 ≡ none
get-remove_example = get-remove three 1 1

remove-IsValid_example : IsValid (SlotMap.remove three 1) (1 ∷ 2 ∷ 0 ∷ [])
unfolding SlotMap.get
remove-IsValid_example = remove-IsValid three (2 ∷ 0 ∷ []) 1 three-IsValid

len-remove_example :
    (SlotMap.len (SlotMap.remove three 1) + 1 ≡ 1) × (SlotMap.capacity (SlotMap.remove three 1) ≡ 3)
unfolding SlotMap.get SlotMap.len SlotMap.capacity
len-remove_example = len-remove three (2 ∷ 0 ∷ []) 1 {f = 7} three-IsValid refl

put-IsValid_example : IsValid (SlotMap.put three 1 9) (2 ∷ 0 ∷ [])
unfolding SlotMap.get
put-IsValid_example = put-IsValid three (2 ∷ 0 ∷ []) 1 9 {f = 7} three-IsValid refl

get-put_example : SlotMap.get (SlotMap.put three 1 9) 1 ≡ some 9
unfolding SlotMap.get
get-put_example = get-put three 1 9 {f = 7} 1 refl

drain-values_example : drain 4 three.slots ≡ 7 ∷ []
drain-values_example = drain-values three.slots 4 (omega arith)

new-IsValid_example : IsValid (SlotMap.new {F = ℕ} 3) (0 ∷ 1 ∷ 2 ∷ [])
new-IsValid_example = new-IsValid 3 (omega arith)

get-from_iter_example : SlotMap.get {F = ℕ} (SlotMap.from_iter (4 ∷ 5 ∷ [])) 1 ≡ some 5
get-from_iter_example = get-from_iter (4 ∷ 5 ∷ []) 1

insert_with-remove_example :
    (m' : SlotMap ℕ) × (key : ℕ) × (SlotMap.insert_with three 10 5 number
      ≡ some (m', (number 10 5).1, ok key))
    × ((j : ℕ) → SlotMap.get (SlotMap.remove m' key) j ≡ SlotMap.get three j)
    × (SlotMap.len (SlotMap.remove m' key) ≡ SlotMap.len three)
    × (SlotMap.capacity (SlotMap.remove m' key) ≡ SlotMap.capacity three)
    × IsValid (SlotMap.remove m' key) (2 ∷ 0 ∷ [])
insert_with-remove_example =
    insert_with-remove three 10 5 number (2 ∷ 0 ∷ []) three-IsValid
      (unfold SlotMap.len SlotMap.capacity in omega arith)
