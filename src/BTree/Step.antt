-- ===== src/BTree/Step.antt =====
-- A turn of a walk in lib/BTree.cpp, as a way through a tree.
use zql.Prelude.{
  ℕ, ◌+◌, ◌*◌, ◌-◌, ◌^◌, ◌≤◌, ◌<◌, ◌≡◌, refl, ap, ◌∙◌, ◌⊎◌, inl, inr, Bool, true, false, Option,
  none, some, List, ◌∷◌, arith, length, get_elem?, bit_or, bit_or_shifted, le→leb, get_elem?-inside,
}
use native.Mathlib.Nat.{pow-le-pow_right}
use zql.BTree.{BTreeNode, BTreeTraverse, new_node}
use zql.BTree.Traverse.{shl, insert, go_to_left, go_to_right}
use zql.BTree.Nodes.{
  Side, left, right, child_of, link, child, Reaches, turn, IsTree, grown, Missing, elem-new,
}
use zql.BTree.Insert.{Reaches-kept, child-created}
use zql.BTree.Shape.{Reaches-inside, Reaches-back, grown-IsTree}
use zql.BTree.Codes.{bits, code, bits_bound, turn_bit, code_bound}

abbrev pub go :
    Side → List BTreeNode → BTreeTraverse → Option (Bool × BTreeTraverse × List BTreeNode)
go left = go_to_left
go right = go_to_right

-- A walk that has followed the way `s` from `root`.
pub record IsAt (nodes : List BTreeNode) (root : ℕ) (s : List Side) (t : BTreeTraverse)
    : Type 0 where
  pub reaches : Reaches nodes root s t.current
  pub path : t.path ≡ bits s
  pub path_length : t.path_length ≡ length s

-- What a turn of a walk leaves alone.
pub record Same (t t' : BTreeTraverse) : Type 0 where
  pub ciphertext : t'.ciphertext ≡ t.ciphertext
  pub request_add : t'.request_add ≡ t.request_add

-- The nodes after `t` has made the child `d` of the place `s`.
pub record Inserted (nodes : List BTreeNode) (root : ℕ) (s : List Side) (d : Side)
    (t t' : BTreeTraverse) (after : List BTreeNode) : Type 0 where
  pub tree : IsTree after root
  pub kept : (w : List Side) (m : ℕ) → Reaches nodes root w m → Reaches after root w m
  pub reaches : Reaches after root (d ∷ s) t'.current
  pub only :
      (w : List Side) (m : ℕ) → Reaches after root w m → (Reaches nodes root w m) ⊎ (w ≡ d ∷ s)
  pub node : get_elem? after t'.current ≡ some (record new_node { ciphertext = t.ciphertext })
  pub path : t'.path ≡ code (d ∷ s)
  pub parent : BTreeNode
  pub gap : Missing nodes d t.current parent
  pub grew : after ≡ grown nodes d t.current parent (record new_node { ciphertext = t.ciphertext })
  pub moved : t'.current ≡ length nodes
  pub same : Same t t'

pub data Turned (nodes : List BTreeNode) (root : ℕ) (s : List Side) (d : Side) (t : BTreeTraverse)
    : Option (Bool × BTreeTraverse × List BTreeNode) → Type 0 where
  went :
      (t' : BTreeTraverse)
      → IsAt nodes root (d ∷ s) t'
      → Same t t'
      → Turned nodes root s d t (some (true, t', nodes))
  made :
      (t' : BTreeTraverse) (after : List BTreeNode)
      → Inserted nodes root s d t t' after
      → Turned nodes root s d t (some (false, t', after))

pow_mono : {i j : ℕ} → i ≤ j → 2 ^ i ≤ 2 ^ j
pow_mono h = pow-le-pow_right (omega arith) h

shl_one : (x : ℕ) → x < 2 ^ 63 → shl x 1 ≡ 2 * x
unfolding shl
shl_one x h = omega arith

or_one : (x : ℕ) → bit_or (2 * x) 1 ≡ 2 * x + 1
or_one x = ap (λ (y : ℕ). bit_or y 1) twice ∙ bit_or_shifted 1 x 1 (omega arith) ∙ omega arith
  where
    twice : 2 * x ≡ x * 2 ^ 1
    twice = omega arith

bits_small : (s : List Side) → length s ≤ 63 → bits s < 2 ^ 63
bits_small s h = omega (arith, bits_bound s, pow_mono h)

-- The shift to the top of the word drops no bit.
code_shift :
    (s : List Side) → length s ≤ 63 → shl (bit_or (shl (bits s) 1) 1) (63 - length s) ≡ code s
unfolding code shl
code_shift s h =
    rw (shl_one (bits s) (bits_small s h), or_one (bits s)) (omega (arith, code_bound s h))

module _ (nodes : List BTreeNode) (root : ℕ) (s : List Side) (t : BTreeTraverse)
    (tree : IsTree nodes root) (at : IsAt nodes root s t) (room : length s < 63) where
  insert-Turned :
      (d : Side) (p n : ℕ) (node : BTreeNode)
      → p ≡ bits (d ∷ s)
      → n ≡ length (d ∷ s)
      → Missing nodes d t.current node
      → Turned nodes root s d t
          (insert (link d) nodes (record t { path = p; path_length = n }) node)
  unfolding insert child_of new_node
  insert-Turned d p n node same_p same_n gap = rw (le→leb n 63 (omega arith)) (
      made _ (grown nodes d t.current node created) (record {
        tree = grown-IsTree nodes root d t.current node created gap leaf tree;
        kept = λ w m way. Reaches-kept nodes d t.current node created gap way;
        reaches =
            turn d (Reaches-kept nodes d t.current node created gap at.reaches)
              (child-created nodes d t.current node created gap);
        only = only;
        node = elem-new nodes d t.current node created gap;
        path = rw (same_p, same_n) (code_shift (d ∷ s) (omega arith));
        parent = node;
        gap = gap;
        grew = refl;
        moved = refl;
        same = record { ciphertext = refl; request_add = refl };
      }))
    where
      created : BTreeNode
      created = record new_node { ciphertext = t.ciphertext }

      leaf : (e : Side) → child_of e created ≡ none
      leaf left = refl
      leaf right = refl

      only :
          (w : List Side) (m : ℕ)
          → Reaches (grown nodes d t.current node created) root w m
          → (Reaches nodes root w m) ⊎ (w ≡ d ∷ s)
      only w m way = elim (Reaches-back nodes root d t.current node created gap leaf tree way) [
        | inl old ↦ inl old
        | inr new ↦ inr (new.2 ∙ ap (λ x. d ∷ x) (tree.single new.1 s t.current new.3 at.reaches))
      ]

  path_small : bits s < 2 ^ 63
  path_small = bits_small s (omega arith)

  path_left : shl t.path 1 ≡ bits (left ∷ s)
  unfolding bits turn_bit
  path_left = rw at.path (shl_one (bits s) path_small ∙ omega arith)

  path_right : bit_or (shl t.path 1) 1 ≡ bits (right ∷ s)
  unfolding bits turn_bit
  path_right = rw (at.path, shl_one (bits s) path_small) (or_one (bits s))

  deeper : (d : Side) → t.path_length + 1 ≡ length (d ∷ s)
  deeper d = omega (arith, at.path_length)

  way_to :
      (d : Side) (node : BTreeNode) (m : ℕ)
      → get_elem? nodes t.current ≡ some node
      → child_of d node ≡ some m
      → Reaches nodes root (d ∷ s) m
  unfolding child
  way_to d node m here e = turn d at.reaches (rw (here, child) e)

  left-Turned :
      (node : BTreeNode) (c : Option ℕ)
      → get_elem? nodes t.current ≡ some node
      → node.left ≡ c
      → Turned nodes root s left t (go_to_left nodes t)
  unfolding go_to_left child_of link
  left-Turned node (some m) here e =
      rw (here, go_to_left, e)
        (went _
          (record {
            reaches = way_to left node m here e;
            path = path_left;
            path_length = deeper left;
          })
          (record { ciphertext = refl; request_add = refl }))
  left-Turned node none here e =
      rw (here, go_to_left, e)
        (insert-Turned left _ _ node path_left (deeper left) (record { here = here; missing = e }))

  right-Turned :
      (node : BTreeNode) (c : Option ℕ)
      → get_elem? nodes t.current ≡ some node
      → node.right ≡ c
      → Turned nodes root s right t (go_to_right nodes t)
  unfolding go_to_right child_of link
  right-Turned node (some m) here e =
      rw (here, go_to_right, e)
        (went _
          (record {
            reaches = way_to right node m here e;
            path = path_right;
            path_length = deeper right;
          })
          (record { ciphertext = refl; request_add = refl }))
  right-Turned node none here e =
      rw (here, go_to_right, e)
        (insert-Turned right _ _ node path_right (deeper right)
          (record { here = here; missing = e }))

  -- A turn of a walk that stands at a place of depth below 63 in a tree is defined. Where the child is
  -- there, the walk stands at it. Where it is missing, a leaf with the walk's ciphertext is made
  -- there: the nodes stay a tree, each old place stays, the new one is the only other, and the
  -- walk's path is the code of the new place.
  pub go-Turned : (d : Side) → Turned nodes root s d t (go d nodes t)
  go-Turned left =
      let found = get_elem?-inside nodes t.current (Reaches-inside tree at.reaches) in
      left-Turned found.0 found.0.left found.1 refl
  go-Turned right =
      let found = get_elem?-inside nodes t.current (Reaches-inside tree at.reaches) in
      right-Turned found.0 found.0.right found.1 refl
