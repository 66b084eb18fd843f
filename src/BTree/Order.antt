-- ===== src/BTree/Order.antt =====
-- The codes that lib/BTree.cpp gives to new rows, against the order of their places.
use Prim.Native.Nat.{compare}
use zql.Prelude.{sym, ◌∙◌, ℕ, ◌<◌, ◌≡◌, false, some, List, [], ◌∷◌, length, arith}
use zql.BTree.{BTreeNode, BTreeTraverse}
use zql.BTree.Nodes.{Side, IsTree}
use zql.BTree.Codes.{code, compare_places, from_root, compare-code}
use zql.BTree.Step.{IsAt, Turned, made, go, go-Turned}

-- A walk at the place `s` of a tree whose next turn `d` makes a node, with the code it gets.
pub record Makes (nodes : List BTreeNode) (root : ℕ) (s : List Side) (d : Side) (key : ℕ)
    : Type 0 where
  pub before : BTreeTraverse
  pub after : BTreeTraverse
  pub nodes_after : List BTreeNode
  pub tree : IsTree nodes root
  pub at : IsAt nodes root s before
  pub room : length s < 63
  pub ends : go d nodes before ≡ some (false, after, nodes_after)
  pub path : after.path ≡ key

made_code :
    {nodes : List BTreeNode} {root : ℕ} {s : List Side} {d : Side} {t t' : BTreeTraverse}
    {after : List BTreeNode}
    → Turned nodes root s d t (some (false, t', after))
    → t'.path ≡ code (d ∷ s)
made_code (made t' after inserted) = inserted.path

Makes-code :
    {nodes : List BTreeNode} {root : ℕ} {s : List Side} {d : Side} {path : ℕ}
    → Makes nodes root s d path
    → path ≡ code (d ∷ s)
Makes-code {nodes} {root} {s} {d} m =
    sym m.path ∙ made_code (rw m.ends at (go-Turned nodes root s m.before m.tree m.at m.room d))

-- The codes of two nodes that walks of trees have made, at depth 63 at most, compare as their places
-- do: what stands left of a node has a smaller code, what stands right of it a larger one. The walks
-- may belong to different times and trees.
pub compare-Makes :
    (nodes nodes' : List BTreeNode) (root root' : ℕ) (s t : List Side) (d e : Side) (x y : ℕ)
    → Makes nodes root s d x
    → Makes nodes' root' t e y
    → compare x y ≡ compare_places (from_root (d ∷ s) []) (from_root (e ∷ t) [])
compare-Makes nodes nodes' root root' s t d e x y a b =
    rw (Makes-code a, Makes-code b)
      (compare-code (d ∷ s) (e ∷ t) (omega (arith, a.room)) (omega (arith, b.room)))
