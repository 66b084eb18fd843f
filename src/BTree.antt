-- ===== src/BTree.antt =====
-- lib/BTree.h, and the forest of lib/BTree.cpp: the nodes of the search trees, the walk that a
-- client steers through one, and the walks of the clients.
-- A pointer to a node is an index into the list of all nodes, which `new BTreeNode()` appends to:
-- nothing frees a node. The `Ciphertext` of a node stands for the bytes that its pointer leads to at
-- the time: BTree/Memory has what becomes of them once the request is gone whose string they are of.
pub mod Traverse
pub mod Holder
pub mod Nodes
pub mod Insert
pub mod Codes
pub mod Shape
pub mod Step
pub mod Order
pub mod Plant
pub mod Places
pub mod Search
pub mod Values
pub mod Forest
pub mod Names
pub mod Planting
pub mod Spread
pub mod Memory
pub mod Growth
use zql.Prelude.{
  ℕ, Bool, true, false, Option, none, some, List, [], ◌∷◌, ◌++◌, if◌then◌else◌, length,
}
use zql.Objects.Row.{Str, same_str}
use zql.Objects.Request.{RequestAdd}
use zql.Objects.Response.{Ciphertext}

pub record BTreeNode : Type 0 where
  pub left : Option ℕ
  pub right : Option ℕ
  pub ciphertext : Option Ciphertext

-- `BTreeNode::BTreeNode`
unfoldable pub new_node : BTreeNode
new_node = record { left = none; right = none; ciphertext = none }

pub record BTreeForest : Type 0 where
  pub forest : List (Str × ℕ)
  pub nodes : List BTreeNode

pub record BTreeTraverse : Type 0 where
  pub ciphertext : Option Ciphertext
  pub current : ℕ
  pub path : ℕ
  pub path_length : ℕ
  pub request_add : Option RequestAdd

-- `_forest.find` and `_forest[id] = tree`
unfoldable pub find_tree : Str → List (Str × ℕ) → Option ℕ
find_tree id [] = none
find_tree id ((k, n) ∷ m) = if same_str id k then some n else find_tree id m

unfoldable pub assign_tree : Str → ℕ → List (Str × ℕ) → List (Str × ℕ)
assign_tree id n [] = (id, n) ∷ []
assign_tree id n ((k, o) ∷ m) =
    let rest = assign_tree id n m in if same_str id k then (k, n) ∷ m else (k, o) ∷ rest

-- `database + "." + table`
unfoldable pub tree_id : Str → Str → Str
tree_id database table = database ++ (46 ∷ table)

unfoldable pub get_tree : Str → Str → BTreeForest → Option ℕ
get_tree database table f = find_tree (tree_id database table) f.forest

unfoldable pub create_tree : Str → Str → Option Ciphertext → BTreeForest → BTreeForest
create_tree database table ciphertext f =
    let tree = record new_node { ciphertext = ciphertext } in
    record {
      forest = assign_tree (tree_id database table) (length f.nodes) f.forest;
      nodes = f.nodes ++ (tree ∷ []);
    }
