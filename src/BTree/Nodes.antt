-- ===== src/BTree/Nodes.antt =====
-- The trees that the nodes of lib/BTree.cpp form: ways from a root, and what a new child does to
-- them.
use zql.Prelude.{
  ℕ, zero, suc, ◌<◌, ◌≡◌, ◌≢◌, refl, ap, ◌∙◌, ◌⊎◌, inl, inr, Option, none, some, List, [], ◌∷◌,
  ◌++◌, arith, length, get_elem?, set, length-set, length-append, get_elem?-append_at,
  get_elem?-append_below, get_elem?-below, get_elem?-set_at, get_elem?-set_other,
}
use zql.BTree.{BTreeNode}

pub data Side : Type 0 where
  left : Side
  right : Side

unfoldable pub child_of : Side → BTreeNode → Option ℕ
child_of left n = n.left
child_of right n = n.right

unfoldable pub link : Side → BTreeNode → ℕ → BTreeNode
link left n a = record n { left = some a }
link right n a = record n { right = some a }

-- The child of the node at an address, where there are such.
unfoldable pub child : List BTreeNode → Side → ℕ → Option ℕ
child nodes d a = elim (get_elem? nodes a) [ none ↦ none | some n ↦ child_of d n ]

-- A way from a root to a node, the last turn first.
pub data Reaches (nodes : List BTreeNode) (root : ℕ) : List Side → ℕ → Type 0 where
  at_root : Reaches nodes root [] root
  turn :
      {s : List Side} {n m : ℕ} (d : Side)
      → Reaches nodes root s n
      → child nodes d n ≡ some m
      → Reaches nodes root (d ∷ s) m

-- Each node of a tree is reached in one way, and pointers point to nodes.
pub record IsTree (nodes : List BTreeNode) (root : ℕ) : Type 0 where
  pub rooted : root < length nodes
  pub linked : (d : Side) (n m : ℕ) → child nodes d n ≡ some m → m < length nodes
  pub single : (s t : List Side) (n : ℕ) → Reaches nodes root s n → Reaches nodes root t n → s ≡ t

-- The nodes after the child `d` of `n` has been made.
abbrev pub grown : List BTreeNode → Side → ℕ → BTreeNode → BTreeNode → List BTreeNode
grown nodes d n node created = set (nodes ++ (created ∷ [])) n (link d node (length nodes))

-- What making a missing child of the node at `n` starts from.
pub record Missing (nodes : List BTreeNode) (d : Side) (n : ℕ) (node : BTreeNode) : Type 0 where
  pub here : get_elem? nodes n ≡ some node
  pub missing : child_of d node ≡ none

module _ (nodes : List BTreeNode) (d : Side) (n : ℕ) (node created : BTreeNode)
    (gap : Missing nodes d n node) where
  pub length-grown : length (grown nodes d n node created) ≡ suc (length nodes)
  length-grown = omega (
    arith,
    length-set (nodes ++ (created ∷ [])) n (link d node (length nodes)),
    length-append nodes (created ∷ []),
  )

  pub inside : n < length nodes
  inside = get_elem?-below nodes n node gap.here

  pub elem-at : get_elem? (grown nodes d n node created) n ≡ some (link d node (length nodes))
  elem-at =
      get_elem?-set_at (nodes ++ (created ∷ [])) n (link d node (length nodes))
        (omega (arith, length-append nodes (created ∷ []), inside))

  pub elem-below :
      (a : ℕ)
      → n ≢ a
      → a < length nodes
      → get_elem? (grown nodes d n node created) a ≡ get_elem? nodes a
  elem-below a other h =
      get_elem?-set_other (nodes ++ (created ∷ [])) n a (link d node (length nodes)) other
      ∙ get_elem?-append_below nodes (created ∷ []) a h

  pub elem-new : get_elem? (grown nodes d n node created) (length nodes) ≡ some created
  elem-new =
      get_elem?-set_other (nodes ++ (created ∷ [])) n (length nodes) (link d node (length nodes))
        (λ e. absurd (omega (arith, e, inside)))
      ∙ get_elem?-append_at nodes created

pub same-or-other : (a b : ℕ) → (a ≡ b) ⊎ (a ≢ b)
same-or-other zero zero = inl refl
same-or-other zero (suc b) = inr (λ e. absurd (omega (arith, e)))
same-or-other (suc a) zero = inr (λ e. absurd (omega (arith, e)))
same-or-other (suc a) (suc b) = elim (same-or-other a b) [
  | inl e ↦ inl (ap suc e)
  | inr f ↦ inr (λ e. f (omega (arith, e)))
]

pub child-link :
    (d e : Side) (node : BTreeNode) (a m : ℕ)
    → child_of d node ≡ none
    → child_of e (link d node a) ≡ some m
    → (child_of e node ≡ some m) ⊎ ((e ≡ d) × (m ≡ a))
unfolding child_of link
child-link left left node a m h k = inr (refl, ground arith)
child-link left right node a m h k = inl k
child-link right left node a m h k = inl k
child-link right right node a m h k = inr (refl, ground arith)

pub link-child :
    (d e : Side) (node : BTreeNode) (a m : ℕ)
    → child_of d node ≡ none
    → child_of e node ≡ some m
    → child_of e (link d node a) ≡ some m
unfolding child_of link
link-child left left node a m h k = cc
link-child left right node a m h k = k
link-child right left node a m h k = k
link-child right right node a m h k = cc

pub link_self : (d : Side) (node : BTreeNode) (a : ℕ) → child_of d (link d node a) ≡ some a
unfolding child_of link
link_self left node a = refl
link_self right node a = refl
