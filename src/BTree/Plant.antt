-- ===== src/BTree/Plant.antt =====
-- lib/BTree.cpp: a new tree in the forest, and a new walk in it.
use zql.Prelude.{
  ℕ, ◌<◌, ◌≡◌, ◌≢◌, refl, sym, ◌∙◌, Option, none, some, List, [], ◌∷◌, ◌++◌, arith, length,
  length-append, get_elem?-append_at, get_elem?-append_below,
}
use mathlib.Core.Path.{subst}
use zql.Objects.Row.{Str}
use zql.Objects.Row.Order.{compare_str_refl}
use zql.Objects.Response.{Ciphertext}
use zql.BTree.{
  BTreeForest, BTreeNode, new_node, create_tree, get_tree, find_tree, assign_tree, tree_id,
}
use zql.BTree.Traverse.{new_traverse}
use zql.BTree.Nodes.{Side, left, right, child, child_of, Reaches, at_root, turn, IsTree}
use zql.BTree.Insert.{child-some, child-inside}
use zql.BTree.Codes.{bits}
use zql.BTree.Step.{IsAt}

-- Every pointer of the nodes is to one of them.
abbrev pub IsLinked : List BTreeNode → Type 0
IsLinked nodes = (d : Side) (n m : ℕ) → child nodes d n ≡ some m → m < length nodes

module _ (nodes : List BTreeNode) (c : Option Ciphertext) (linked : IsLinked nodes) where
  abbrev pub seed : BTreeNode
  seed = record new_node { ciphertext = c }

  abbrev pub planted : List BTreeNode
  planted = nodes ++ (seed ∷ [])

  seed-none : (e : Side) (a : ℕ) → length nodes ≡ a → child planted e a ≡ none
  unfolding child_of new_node
  seed-none e a same =
      subst (λ b. child planted e b ≡ none) same
        (child-some planted e (length nodes) 0 seed (get_elem?-append_at nodes seed) ∙ leaf e)
    where
      leaf : (e : Side) → child_of e seed ≡ none
      leaf left = refl
      leaf right = refl

  pub only_root :
      {s : List Side} {m : ℕ} → Reaches planted (length nodes) s m → (s ≡ []) × (length nodes ≡ m)
  only_root at_root = (refl, refl)
  only_root (turn {n = k} {m} e way h) = absurd (differ (sym (seed-none e k (only_root way).1) ∙ h))
    where
      differ : none ≢ some m
      differ x = cc

  pub planted-IsLinked : IsLinked planted
  unfolding child
  planted-IsLinked e a m h = ground (
    arith,
    length-append nodes (seed ∷ []),
    child-inside planted e a m h,
    seed-none e a,
    get_elem?-append_below nodes (seed ∷ []) a,
    linked e a m,
  )

  pub planted-IsTree : IsTree planted (length nodes)
  planted-IsTree = record {
    rooted = omega (arith, length-append nodes (seed ∷ []));
    linked = planted-IsLinked;
    single = λ s t m p q. (only_root p).0 ∙ sym (only_root q).0;
  }

find-assign_tree :
    (id : Str) (n : ℕ) (m : List (Str × ℕ)) → find_tree id (assign_tree id n m) ≡ some n
unfolding find_tree assign_tree
find-assign_tree id n [] = ground (arith, compare_str_refl id)
find-assign_tree id n ((k, o) ∷ m) = ground (arith, compare_str_refl id, find-assign_tree id n m)

-- A tree that is made is found under its name and is a tree, and a walk that starts there stands at
-- its root.
pub create_tree-IsTree :
    (database table : Str) (c d : Option Ciphertext) (f : BTreeForest)
    → IsLinked f.nodes
    → (get_tree database table (create_tree database table c f) ≡ some (length f.nodes))
      × IsTree (create_tree database table c f).nodes (length f.nodes)
      × IsAt
          (create_tree database table c f).nodes
          (length f.nodes)
          []
          (new_traverse (length f.nodes) d)
unfolding create_tree get_tree new_traverse bits
create_tree-IsTree database table c d f linked = (
  find-assign_tree (tree_id database table) (length f.nodes) f.forest,
  planted-IsTree f.nodes c linked,
  record { reaches = at_root; path = refl; path_length = refl },
)
