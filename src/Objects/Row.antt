-- ===== src/Objects/Row.antt =====
-- The strings of the program and its `map<string, string>`: pairs in the order of their keys, which
-- std::string compares byte by byte.
pub mod Order
use Prim.Native.Nat.{compare, Ordering}
use zql.Prelude.{ℕ, zero, suc, Option, none, some, List, [], ◌∷◌, Bool, true, false}

abbrev pub Str : Type 0
Str = List ℕ

abbrev pub Row : Type 0
Row = List (Str × Str)

-- `a.compare(b)`: unsigned bytes first, then the lengths.
unfoldable pub compare_str : Str → Str → Ordering
compare_str [] [] = Ordering.eq
compare_str [] (b ∷ y) = Ordering.lt
compare_str (a ∷ x) [] = Ordering.gt
compare_str (a ∷ x) (b ∷ y) = elim (compare a b) [
  | Ordering.lt ↦ Ordering.lt
  | Ordering.gt ↦ Ordering.gt
  | Ordering.eq ↦ compare_str x y
]

abbrev pub same_str : Str → Str → Bool
same_str x y = elim (compare_str x y) [ Ordering.eq ↦ true | _ ↦ false ]

-- `m[k] = v`.
unfoldable pub assign : Str → Str → Row → Row
assign k v [] = (k, v) ∷ []
assign k v ((j, w) ∷ m) = elim (compare_str k j) [
  | Ordering.lt ↦ (k, v) ∷ (j, w) ∷ m
  | Ordering.eq ↦ (j, v) ∷ m
  | Ordering.gt ↦ (j, w) ∷ assign k v m
]

-- `m.find(k)`.
unfoldable pub find : Str → Row → Option Str
find k [] = none
find k ((j, w) ∷ m) = elim (compare_str k j) [
  | Ordering.lt ↦ none
  | Ordering.eq ↦ some w
  | Ordering.gt ↦ find k m
]
