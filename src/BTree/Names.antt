-- ===== src/BTree/Names.antt =====
-- The names of trees in the forest of lib/BTree.cpp.
use Prim.Native.Nat.{Ordering}
use zql.Prelude.{ℕ, ◌≡◌, refl, sym, ◌∙◌, none, some, List, [], ◌∷◌, arith, if◌then◌else◌}
use mathlib.Core.Path.{subst}
use zql.Objects.Row.{Str, same_str, compare_str}
use zql.Objects.Row.Order.{compare_str_refl, compare_str-eq}
use zql.BTree.{find_tree, assign_tree}

pub find_tree-assign_tree :
    (j id : Str) (n : ℕ) (m : List (Str × ℕ))
    → find_tree j (assign_tree id n m) ≡ (if same_str j id then some n else find_tree j m)
unfolding find_tree assign_tree
find_tree-assign_tree j id n [] = ground (arith, compare_str_refl id)
find_tree-assign_tree j id n ((k, o) ∷ m) = ground (
  arith,
  compare_str_refl id,
  compare_str-eq j id,
  compare_str-eq id k,
  compare_str-eq j k,
  find_tree-assign_tree j id n m,
)

-- A new name leaves the roots of the other names as they are.
pub find_tree_kept :
    (id : Str) (n : ℕ) (m : List (Str × ℕ))
    → find_tree id m ≡ none
    → (j : Str) (q : ℕ) → find_tree j m ≡ some q
    → find_tree j (assign_tree id n m) ≡ some q
unfolding find_tree
find_tree_kept id n m new j q h = find_tree-assign_tree j id n m ∙ by_order (compare_str j id) refl
  where
    by_order :
        (o : Ordering)
        → compare_str j id ≡ o
        → (if same_str j id then some n else find_tree j m) ≡ some q
    by_order Ordering.lt e = rw (e, same_str) h
    by_order Ordering.gt e = rw (e, same_str) h
    by_order Ordering.eq e =
        let same : j ≡ id = compare_str-eq j id e in
        let gone : find_tree j m ≡ none = subst (λ k. find_tree k m ≡ none) (sym same) new in
        absurd (cc)
