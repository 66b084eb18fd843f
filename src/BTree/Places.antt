-- ===== src/BTree/Places.antt =====
-- Places of a tree as lists of turns, and their order.
use Prim.Native.Nat.{Ordering}
use zql.Prelude.{
  flip, ◌≡◌, ◌≢◌, refl, sym, ap, ◌∙◌, ◌⊎◌, inl, inr, List, [], ◌∷◌, ◌++◌, append_assoc,
}
use zql.BTree.Nodes.{Side, left, right}
use zql.BTree.Codes.{from_root, compare_places}

-- How a node stands to what is on one of its sides: smaller places are on the left.
abbrev pub turn_order : Side → Ordering
turn_order left = Ordering.lt
turn_order right = Ordering.gt

pub compare_places-flip : (x y : List Side) → compare_places y x ≡ flip (compare_places x y)
unfolding compare_places
compare_places-flip [] [] = refl
compare_places-flip [] (left ∷ y) = refl
compare_places-flip [] (right ∷ y) = refl
compare_places-flip (left ∷ x) [] = refl
compare_places-flip (right ∷ x) [] = refl
compare_places-flip (left ∷ x) (left ∷ y) = compare_places-flip x y
compare_places-flip (left ∷ x) (right ∷ y) = refl
compare_places-flip (right ∷ x) (left ∷ y) = refl
compare_places-flip (right ∷ x) (right ∷ y) = compare_places-flip x y

pub compare_places_refl : (x : List Side) → compare_places x x ≡ Ordering.eq
unfolding compare_places
compare_places_refl [] = refl
compare_places_refl (left ∷ x) = compare_places_refl x
compare_places_refl (right ∷ x) = compare_places_refl x

pub compare_places-append :
    (x y z : List Side) → compare_places (x ++ y) (x ++ z) ≡ compare_places y z
unfolding compare_places
compare_places-append [] y z = refl
compare_places-append (left ∷ x) y z = compare_places-append x y z
compare_places-append (right ∷ x) y z = compare_places-append x y z

-- A place goes on from another, the first turn first.
abbrev pub GoesOn : List Side → List Side → Type 0
GoesOn x y = (rest : List Side) × (y ≡ x ++ rest)

abbrev pub Parts : List Side → List Side → Type 0
Parts x y = (rest : List Side) → y ≢ x ++ rest

pub GoesOn-or-Parts : (x y : List Side) → GoesOn x y ⊎ Parts x y
GoesOn-or-Parts [] y = inl (y, refl)
GoesOn-or-Parts (d ∷ x) [] = inr (λ rest e. cc)
GoesOn-or-Parts (left ∷ x) (right ∷ y) = inr (λ rest e. cc)
GoesOn-or-Parts (right ∷ x) (left ∷ y) = inr (λ rest e. cc)
GoesOn-or-Parts (left ∷ x) (left ∷ y) = elim (GoesOn-or-Parts x y) [
  | inl (rest, e) ↦ inl (rest, ap (λ z. left ∷ z) e)
  | inr f ↦ inr (λ rest e. f rest (cc))
]
GoesOn-or-Parts (right ∷ x) (right ∷ y) = elim (GoesOn-or-Parts x y) [
  | inl (rest, e) ↦ inl (rest, ap (λ z. right ∷ z) e)
  | inr f ↦ inr (λ rest e. f rest (cc))
]

-- Where two places part, what follows makes no difference.
pub compare_places-Parts :
    (x y z : List Side) → Parts x z → compare_places (x ++ y) z ≡ compare_places x z
unfolding compare_places
compare_places-Parts [] y z f = absurd (f z refl)
compare_places-Parts (left ∷ x) y [] f = refl
compare_places-Parts (right ∷ x) y [] f = refl
compare_places-Parts (left ∷ x) y (right ∷ z) f = refl
compare_places-Parts (right ∷ x) y (left ∷ z) f = refl
compare_places-Parts (left ∷ x) y (left ∷ z) f =
    compare_places-Parts x y z (λ rest e. f rest (ap (λ w. left ∷ w) e))
compare_places-Parts (right ∷ x) y (right ∷ z) f =
    compare_places-Parts x y z (λ rest e. f rest (ap (λ w. right ∷ w) e))

pub from_root-acc : (s acc : List Side) → from_root s acc ≡ from_root s [] ++ acc
unfolding from_root
from_root-acc [] acc = refl
from_root-acc (d ∷ s) acc =
    from_root-acc s (d ∷ acc)
    ∙ sym
        (ap (λ x. x ++ acc) (from_root-acc s (d ∷ [])) ∙ append_assoc (from_root s []) (d ∷ []) acc)

from_root-from_root : (s acc : List Side) → from_root (from_root s acc) [] ≡ from_root acc s
unfolding from_root
from_root-from_root [] acc = refl
from_root-from_root (d ∷ s) acc = from_root-from_root s (d ∷ acc)

from_root-append : (x y acc : List Side) → from_root (x ++ y) acc ≡ from_root y (from_root x acc)
unfolding from_root
from_root-append [] y acc = refl
from_root-append (d ∷ x) y acc = from_root-append x y (d ∷ acc)

pub from_root_twice : (s : List Side) → from_root (from_root s []) [] ≡ s
unfolding from_root
from_root_twice s = from_root-from_root s []

-- A place that goes on from another has the other's turns, and then its own.
pub GoesOn-turns :
    (s t rest : List Side) → from_root t [] ≡ from_root s [] ++ rest → t ≡ from_root rest s
GoesOn-turns s t rest e =
    sym (from_root_twice t)
    ∙ ap (λ x. from_root x []) e
    ∙ from_root-append (from_root s []) rest []
    ∙ ap (λ x. from_root rest x) (from_root_twice s)

pub compare_places-onto : (x y : List Side) → compare_places x (x ++ y) ≡ compare_places [] y
unfolding compare_places
compare_places-onto [] y = refl
compare_places-onto (left ∷ x) y = compare_places-onto x y
compare_places-onto (right ∷ x) y = compare_places-onto x y

pub compare_places_turn : (d : Side) → compare_places (d ∷ []) [] ≡ turn_order d
unfolding compare_places
compare_places_turn left = refl
compare_places_turn right = refl
