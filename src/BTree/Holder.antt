-- ===== src/BTree/Holder.antt =====
-- lib/BTree.cpp: `BTreeTraverseHolder`, the walks of the clients under the ids of their requests.
-- A pointer to a walk is an index into the list of all walks; `none` there is a deleted one, and a
-- `none` in the map is the NULL that `operator[]` puts under a missing key.
use zql.Prelude.{
  ◌<◌, get_elem?, get_elem?-append_at, get_elem?-append_below, ℕ, ◌≡◌, refl, Option, none, some,
  List, [], ◌∷◌, ◌++◌, arith, if◌then◌else◌, ◌==◌, length, set,
}
use zql.Objects.Response.{Ciphertext}
use zql.BTree.{BTreeTraverse}
use zql.BTree.Traverse.{new_traverse}

pub record BTreeTraverseHolder : Type 0 where
  pub traverses : List (ℕ × Option ℕ)
  pub heap : List (Option BTreeTraverse)

-- `_traverses.find(id)`: NULL may stand there.
unfoldable pub find_traverse : ℕ → List (ℕ × Option ℕ) → Option (Option ℕ)
find_traverse id [] = none
find_traverse id ((k, p) ∷ m) = if id == k then some p else find_traverse id m

unfoldable pub assign_traverse : ℕ → Option ℕ → List (ℕ × Option ℕ) → List (ℕ × Option ℕ)
assign_traverse id p [] = (id, p) ∷ []
assign_traverse id p ((k, q) ∷ m) =
    let rest = assign_traverse id p m in if id == k then (k, p) ∷ m else (k, q) ∷ rest

-- `_traverses.erase(it)`: a map has a key once, and the list is searched to its end.
unfoldable pub erase_traverse : ℕ → List (ℕ × Option ℕ) → List (ℕ × Option ℕ)
erase_traverse id [] = []
erase_traverse id ((k, q) ∷ m) =
    let rest = erase_traverse id m in if id == k then rest else (k, q) ∷ rest

-- `_traverses[requestId]`, which adds NULL under a key that is missing.
unfoldable pub get_traverse : ℕ → BTreeTraverseHolder → Option ℕ × BTreeTraverseHolder
get_traverse id h = elim (find_traverse id h.traverses) [
  | some p ↦ (p, h)
  | none ↦ (none, record h { traverses = assign_traverse id none h.traverses })
]

unfoldable pub create_traverse :
    ℕ → ℕ → Option Ciphertext → BTreeTraverseHolder → ℕ × BTreeTraverseHolder
create_traverse id root ciphertext h = (
  length h.heap,
  record {
    traverses = assign_traverse id (some (length h.heap)) h.traverses;
    heap = h.heap ++ (some (new_traverse root ciphertext) ∷ []);
  },
)

-- `delete traverse`, and the destructor's `delete _requestAdd` with it; nothing for NULL.
unfoldable pub delete_traverse :
    Option ℕ → List (Option BTreeTraverse) → List (Option BTreeTraverse)
delete_traverse none heap = heap
delete_traverse (some a) heap = set heap a none

-- The source reads `it->second` after the erasure; the value is the one that stood there.
unfoldable pub remove_traverse : ℕ → BTreeTraverseHolder → BTreeTraverseHolder
remove_traverse id h = elim (find_traverse id h.traverses) [
  | none ↦ h
  | some p ↦ record { traverses = erase_traverse id h.traverses; heap = delete_traverse p h.heap }
]

pub find_traverse-assign_traverse :
    (i j : ℕ) (p : Option ℕ) (m : List (ℕ × Option ℕ))
    → find_traverse j (assign_traverse i p m) ≡ (if j == i then some p else find_traverse j m)
unfolding find_traverse assign_traverse
find_traverse-assign_traverse i j p [] = refl
find_traverse-assign_traverse i j p ((k, q) ∷ m) =
    ground (arith, find_traverse-assign_traverse i j p m)

pub find_traverse-erase_traverse :
    (i j : ℕ) (m : List (ℕ × Option ℕ))
    → find_traverse j (erase_traverse i m) ≡ (if j == i then none else find_traverse j m)
unfolding find_traverse erase_traverse
find_traverse-erase_traverse i j [] = ground arith
find_traverse-erase_traverse i j ((k, q) ∷ m) = ground (arith, find_traverse-erase_traverse i j m)

-- After a walk is made under an id, a lookup gives a new address under that id and what it gave
-- before under any other. The new walk stands there at the root, and a walk at an address that was
-- there is as it was.
pub get-create_traverse :
    (i j root a : ℕ) (c : Option Ciphertext) (h : BTreeTraverseHolder)
    → a < length h.heap
    → let after = (create_traverse i root c h).1 in
      ((get_traverse j after).0 ≡ (if j == i then some (length h.heap) else (get_traverse j h).0))
      × (get_elem? after.heap (length h.heap) ≡ some (some (new_traverse root c)))
      × (get_elem? after.heap a ≡ get_elem? h.heap a)
unfolding get_traverse create_traverse
get-create_traverse i j root a c h old = (
  ground (arith, find_traverse-assign_traverse i j (some (length h.heap)) h.traverses),
  get_elem?-append_at h.heap (some (new_traverse root c)),
  get_elem?-append_below h.heap (some (new_traverse root c) ∷ []) a old,
)
