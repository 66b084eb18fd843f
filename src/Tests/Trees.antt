-- ===== src/Tests/Trees.antt =====
-- lib/BTree.cpp: a tree of one node and a turn in it.
use zql.Prelude.{
  get_elem?, refl, ◌*◌, ◌^◌, if◌then◌else◌, ◌==◌, ◌≡◌, [], ◌∷◌, arith, some, none, Option,
}
use Prim.Native.Nat.{compare}
use zql.Objects.Response.{Ciphertext}
use zql.BTree.{BTreeTraverse, BTreeNode, new_node, BTreeForest, create_tree, get_tree}
use zql.BTree.Traverse.{new_traverse}
use zql.BTree.Nodes.{left, right, IsTree, child}
use zql.BTree.Step.{IsAt, Turned, go, go-Turned}
use zql.BTree.Plant.{IsLinked, create_tree-IsTree}
use zql.BTree.Codes.{from_root, compare_places}
use zql.BTree.Order.{Makes, compare-Makes}
use zql.BTree.Traverse.{go_to_left, go_to_right, insert, shl}
use zql.BTree.Holder.{BTreeTraverseHolder, get_traverse, create_traverse, get-create_traverse}

abbrev cipher : Option Ciphertext
cipher = some (5 ∷ [])

abbrev empty_forest : BTreeForest
empty_forest = record { forest = []; nodes = [] }

abbrev planted : BTreeForest
planted = create_tree (100 ∷ []) (116 ∷ []) cipher empty_forest

none-IsLinked : IsLinked []
unfolding child
none-IsLinked d n m e = cc

planted_lem :
    (get_tree (100 ∷ []) (116 ∷ []) planted ≡ some 0)
    × IsTree planted.nodes 0
    × IsAt planted.nodes 0 [] (new_traverse 0 (some (3 ∷ [])))
planted_lem =
    create_tree-IsTree (100 ∷ []) (116 ∷ []) cipher (some (3 ∷ [])) empty_forest none-IsLinked

-- The second row of a table, at the left of the first.
go-Turned_example :
    Turned planted.nodes 0 [] left
      (new_traverse 0 (some (3 ∷ [])))
      (go left planted.nodes (new_traverse 0 (some (3 ∷ []))))
go-Turned_example =
    go-Turned planted.nodes 0 [] (new_traverse 0 (some (3 ∷ []))) planted_lem.1 planted_lem.2
      (omega arith) left

-- Turns to both sides of the first row, and the codes that the new rows get.
abbrev walk : BTreeTraverse
walk = new_traverse 0 (some (3 ∷ []))

abbrev ended : BTreeTraverse
ended = record walk { current = 1; path = 2 ^ 62; path_length = 1 }

abbrev child_node : BTreeNode
child_node = record new_node { ciphertext = some (3 ∷ []) }

to_left : Makes planted.nodes 0 [] left (2 ^ 62)
unfolding go_to_left create_tree new_traverse new_node insert shl
to_left = record {
  before = walk;
  after = ended;
  nodes_after = record { left = some 1; right = none; ciphertext = cipher } ∷ child_node ∷ [];
  tree = planted_lem.1;
  at = planted_lem.2;
  room = omega arith;
  ends = refl;
  path = refl;
}

to_right : Makes planted.nodes 0 [] right (3 * 2 ^ 62)
unfolding go_to_right create_tree new_traverse new_node insert shl
to_right = record {
  before = walk;
  after = record ended { path = 3 * 2 ^ 62 };
  nodes_after = record { left = none; right = some 1; ciphertext = cipher } ∷ child_node ∷ [];
  tree = planted_lem.1;
  at = planted_lem.2;
  room = omega arith;
  ends = refl;
  path = refl;
}

compare-Makes_example :
    compare (2 ^ 62) (3 * 2 ^ 62)
    ≡ compare_places (from_root (left ∷ []) []) (from_root (right ∷ []) [])
compare-Makes_example =
    compare-Makes planted.nodes planted.nodes 0 0 [] [] left right (2 ^ 62) (3 * 2 ^ 62) to_left
      to_right

abbrev no_walks : BTreeTraverseHolder
no_walks = record { traverses = []; heap = [] }

abbrev one_walk : BTreeTraverseHolder
one_walk = (create_traverse 7 0 cipher no_walks).1

get-create_traverse_example :
    let after = (create_traverse 8 0 cipher one_walk).1 in
    ((get_traverse 7 after).0 ≡ (if 7 == 8 then some 1 else (get_traverse 7 one_walk).0))
    × (get_elem? after.heap 1 ≡ some (some (new_traverse 0 cipher)))
    × (get_elem? after.heap 0 ≡ get_elem? one_walk.heap 0)
unfolding create_traverse
get-create_traverse_example = get-create_traverse 8 7 0 0 cipher one_walk (omega arith)
