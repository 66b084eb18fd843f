-- ===== src/Objects/Row/Order.antt =====
-- The order of strings, and rows kept in it.
use Prim.Native.Nat.{Ordering}
use zql.Prelude.{
  flip, if◌then◌else◌, ◌≡◌, refl, sym, ap, ◌∙◌, some, [], ◌∷◌, ◌++◌, append_assoc, append-nil,
  arith, All,
}
use zql.Objects.Row.{Str, Row, compare_str, assign, find, same_str}

pub compare_str_refl : (x : Str) → compare_str x x ≡ Ordering.eq
unfolding compare_str
compare_str_refl [] = refl
compare_str_refl (a ∷ x) = ground (arith, compare_str_refl x)

pub compare_str_flip : (x y : Str) → compare_str x y ≡ Ordering.lt → compare_str y x ≡ Ordering.gt
unfolding compare_str
compare_str_flip [] [] h = cc
compare_str_flip [] (b ∷ y) h = refl
compare_str_flip (a ∷ x) [] h = cc
compare_str_flip (a ∷ x) (b ∷ y) h = ground (arith, compare_str_flip x y)

pub compare_str_flip_gt :
    (x y : Str) → compare_str x y ≡ Ordering.gt → compare_str y x ≡ Ordering.lt
unfolding compare_str
compare_str_flip_gt [] [] h = cc
compare_str_flip_gt [] (b ∷ y) h = cc
compare_str_flip_gt (a ∷ x) [] h = refl
compare_str_flip_gt (a ∷ x) (b ∷ y) h = ground (arith, compare_str_flip_gt x y)

pub compare_str-eq : (x y : Str) → compare_str x y ≡ Ordering.eq → x ≡ y
unfolding compare_str
compare_str-eq [] [] h = refl
compare_str-eq [] (b ∷ y) h = cc
compare_str-eq (a ∷ x) [] h = cc
compare_str-eq (a ∷ x) (b ∷ y) h = ground (arith, compare_str-eq x y)

pub compare_str_trans :
    (x y z : Str)
    → compare_str x y ≡ Ordering.lt
    → compare_str y z ≡ Ordering.lt
    → compare_str x z ≡ Ordering.lt
unfolding compare_str
compare_str_trans [] [] z h k = cc
compare_str_trans [] (b ∷ y) [] h k = cc
compare_str_trans [] (b ∷ y) (c ∷ z) h k = refl
compare_str_trans (a ∷ x) [] z h k = cc
compare_str_trans (a ∷ x) (b ∷ y) [] h k = cc
compare_str_trans (a ∷ x) (b ∷ y) (c ∷ z) h k = ground (arith, compare_str_trans x y z)

-- Every key of the row is above `k`.
abbrev pub Above : Str → Row → Type 0
Above k [] = Unit
Above k ((j, w) ∷ m) = (compare_str k j ≡ Ordering.lt) × Above k m

-- A row holds its keys in order, each once.
abbrev pub IsSorted : Row → Type 0
IsSorted [] = Unit
IsSorted ((k, v) ∷ m) = Above k m × IsSorted m

-- A lookup after an assignment to a key gives the assigned value for that key, and for any other
-- what it gave before.
pub find-assign :
    (j k v : Str) (m : Row) → find j (assign k v m) ≡ (if same_str j k then some v else find j m)
unfolding find assign
find-assign j k v [] = ground (arith, compare_str_refl k)
find-assign j k v ((i, w) ∷ m) = ground (
  arith,
  compare_str_refl k,
  compare_str-eq j k,
  compare_str-eq k i,
  compare_str_trans j k i,
  compare_str_flip_gt j k,
  find-assign j k v m,
)

-- A key above all others goes to the end.
assign_last :
    (k v : Str) (m : Row)
    → All (λ e. compare_str e.0 k ≡ Ordering.lt) m
    → assign k v m ≡ m ++ (k, v) ∷ []
unfolding assign
assign_last k v [] h = refl
assign_last k v ((j, w) ∷ m) (first, rest) =
    rw (compare_str_flip j k first, assign) (ap (λ n. (j, w) ∷ n) (assign_last k v m rest))

-- Assigning the pairs of a row one after the other.
unfoldable pub assign_all : Row → Row → Row
assign_all m [] = m
assign_all m ((k, v) ∷ r) = assign_all (assign k v m) r

keys_below :
    (m : Row) (k v : Str) (r : Row)
    → IsSorted (m ++ (k, v) ∷ r)
    → All (λ e. compare_str e.0 k ≡ Ordering.lt) m
keys_below [] k v r s = tt
keys_below ((j, w) ∷ m) k v r (above, s) = (at_key m above, keys_below m k v r s)
  where
    at_key : (m : Row) → Above j (m ++ (k, v) ∷ r) → compare_str j k ≡ Ordering.lt
    at_key [] a = a.0
    at_key ((i, u) ∷ m) a = at_key m a.1

assign_all-append : (m r : Row) → IsSorted (m ++ r) → assign_all m r ≡ m ++ r
unfolding assign_all
assign_all-append m [] s = sym (append-nil m)
assign_all-append m ((k, v) ∷ r) s = rw (assign_last k v m (keys_below m k v r s)) (
    assign_all-append (m ++ (k, v) ∷ []) r (rw (append_assoc m ((k, v) ∷ []) r) s)
    ∙ append_assoc m ((k, v) ∷ []) r)

-- A sorted row is rebuilt from its pairs.
pub assign_all_lem : (r : Row) → IsSorted r → assign_all [] r ≡ r
assign_all_lem r s = assign_all-append [] r s

pub compare_str_swap : (x y : Str) → compare_str y x ≡ flip (compare_str x y)
unfolding compare_str
compare_str_swap [] [] = refl
compare_str_swap [] (b ∷ y) = refl
compare_str_swap (a ∷ x) [] = refl
compare_str_swap (a ∷ x) (b ∷ y) = ground (arith, compare_str_swap x y)

-- Above what is above.
pub compare_str_trans_gt :
    (x y z : Str)
    → compare_str x y ≡ Ordering.gt
    → compare_str y z ≡ Ordering.gt
    → compare_str x z ≡ Ordering.gt
compare_str_trans_gt x y z p q =
    compare_str_flip z x
      (compare_str_trans z y x (compare_str_flip_gt y z q) (compare_str_flip_gt x y p))
