-- ===== src/Tests/Insertions.antt =====
-- An insertion at the worker of plugin/Worker.cpp by the client of plugin/test.cpp, at concrete
-- values.
use zql.Tests.Rows.{rows}
use zql.Prelude.{ℕ, ◌≡◌, ◌≢◌, refl, ap, none, some, List, [], ◌∷◌, length, arith, zero, suc, false}
use zql.Objects.Row.{Str, Row, compare_str}
use zql.BTree.{
  BTreeForest, BTreeNode, BTreeTraverse, new_node, find_tree, assign_tree, tree_id, get_tree,
}
use zql.BTree.Traverse.{new_traverse}
use zql.BTree.Holder.{BTreeTraverseHolder, find_traverse}
use zql.BTree.Nodes.{Side, right, child, at_root}
use zql.BTree.Codes.{bits}
use zql.BTree.Plant.{only_root}
use zql.BTree.Search.{Holds, Guided, start, guided}
use zql.BTree.Forest.{IsForest}
use zql.BTree.Values.{Grew}
use zql.BTree.Growth.{go-IsForest}
use zql.BTree.Memory.{IsPlanted}
use zql.BTree.Step.{IsAt, go}
use zql.BTree.Traverse.{go_to_right, insert, shl}
use zql.BTree.{create_tree}
use zql.Objects.Response.{Response, Ciphertext}
use zql.Worker.Holding.{IsKept}
use zql.Worker.Faults.{IsHeld, answer_continue-IsHeld}
use zql.BTree.Planting.{plot, plot-IsForest, Holds-seed, create_tree-IsForest}
use zql.Worker.{WorkerState}
use zql.Worker.Fields.{first_ope, last_ope, has_ending}
use zql.Worker.Answer.{answer_continue}
use zql.Worker.Walks.{Walking, Continued}
use zql.Worker.Turns.{answer_continue-Continued, honest}
use zql.Client.{InsertExecutor}
use zql.Client.{new_insert_executor}
use zql.Client.Executor.{ope_count, first_ope-new_insert_executor}
use zql.Client.Conversation.{insert_row}
use zql.Client.Insertion.{insert_row-Placed, Placed, row_request}
use zql.BTree.Spread.{IsShallow}

abbrev pub empty : BTreeForest
empty = record { forest = []; nodes = [] }

pub empty-IsForest : IsForest empty
unfolding find_tree child
empty-IsForest = record {
  linked = λ d n m e. cc;
  filled = λ a n e. absurd (cc);
  tree = λ id r e. absurd (cc);
  search = λ id r e. absurd (cc);
  apart = λ i j r q e e' s t n x y. cc;
}

-- "d.t"
abbrev pub name : Str
name = 100 ∷ 46 ∷ 116 ∷ []

abbrev pub one_tree : BTreeForest
one_tree = plot empty name (53 ∷ []) empty-IsForest.linked

pub one_tree-IsForest : IsForest one_tree
one_tree-IsForest = plot-IsForest empty name (53 ∷ []) empty-IsForest

at_top : Holds one_tree.nodes 0 [] (53 ∷ [])
at_top = Holds-seed empty name (53 ∷ []) empty-IsForest.linked

abbrev pub root_node : BTreeNode
root_node = record new_node { ciphertext = some (53 ∷ []) }

abbrev second_node : BTreeNode
second_node = record new_node { ciphertext = some (51 ∷ []) }

-- "p_ope" with the value "3"
abbrev pub second_row : Row
second_row = (112 ∷ 95 ∷ 111 ∷ 112 ∷ 101 ∷ [], 51 ∷ []) ∷ []

abbrev pub second_client : InsertExecutor
second_client = record {
  database = 100 ∷ [];
  table = 116 ∷ [];
  row = second_row;
  ope_value = 51 ∷ [];
}

abbrev pub second_walk : BTreeTraverse
second_walk = record (new_traverse 0 (some (51 ∷ []))) {
  request_add = some (row_request second_client);
}

abbrev pub held : BTreeTraverseHolder
held = record { traverses = (7, some 0) ∷ []; heap = some second_walk ∷ [] }

abbrev pub busy : WorkerState (List Row)
busy = record { database = []; forest = one_tree; holder = held; replies = [] }

second-Walking : Walking one_tree held 7 0 (row_request second_client) (51 ∷ []) []
unfolding find_traverse find_tree assign_tree new_traverse bits compare_str
second-Walking = record {
  address = 0;
  traverse = second_walk;
  held = refl;
  stands = refl;
  table = name;
  named = refl;
  at = record { reaches = at_root; path = refl; path_length = refl };
  way = start;
  ciphertext = refl;
  request = refl;
}

answer_continue-Continued_example :
    Continued rows busy 7 8 0
      (row_request second_client)
      (51 ∷ [])
      (53 ∷ [])
      []
      (answer_continue rows 8 (honest 7 (53 ∷ []) (51 ∷ [])) busy)
answer_continue-Continued_example =
    answer_continue-Continued rows busy 7 8 0 (row_request second_client) (51 ∷ []) (53 ∷ []) []
      one_tree-IsForest second-Walking at_top (omega arith)

abbrev pub idle : WorkerState (List Row)
idle = record busy { holder = record { traverses = []; heap = [] } }

pub idle-IsShallow :
    (root : ℕ)
    → get_tree (100 ∷ []) (116 ∷ []) one_tree ≡ some root
    → IsShallow one_tree.nodes root 0
unfolding get_tree tree_id find_tree assign_tree compare_str
idle-IsShallow zero named s n way =
    omega (arith, ap length (only_root [] (some (53 ∷ [])) empty-IsForest.linked way).0)
idle-IsShallow (suc root) named s n way = absurd (cc)

none_yet : get_tree (100 ∷ []) (116 ∷ []) empty ≡ none
unfolding get_tree find_tree
none_yet = refl

one_tree-IsPlanted : IsPlanted one_tree
one_tree-IsPlanted = record {
  linked = one_tree-IsForest.linked;
  filled = one_tree-IsForest.filled;
  tree = one_tree-IsForest.tree;
}

pub second_ope : first_ope second_row ≡ some (last_ope [] second_row, 51 ∷ [])
unfolding first_ope last_ope has_ending compare_str
second_ope = refl

fresh_ids : (k : ℕ) → (suc k ≢ 0) × (find_traverse (suc k) idle.holder.traverses ≡ none)
unfolding find_traverse
fresh_ids k = (λ e. omega (arith, e), refl)

-- The bytes of every value are overwritten before each message.
insert_row-Placed_example :
    (root : ℕ) × (s' : WorkerState (List Row)) × (insert_row rows
        (λ k. k)
        (λ k a c. 0 ∷ [])
        second_client
        2
        idle
      ≡ some s')
    × (get_tree (100 ∷ []) (116 ∷ []) s'.forest ≡ some root)
    × Placed rows one_tree [] root (row_request second_client) s'
insert_row-Placed_example =
    insert_row-Placed rows (λ k. k) (λ k a c. 0 ∷ []) second_client 0 idle (51 ∷ []) (omega arith)
      one_tree-IsPlanted second_ope fresh_ids idle-IsShallow

create_tree-IsForest_example :
    let f' = create_tree (100 ∷ []) (116 ∷ []) (some (53 ∷ [])) empty in
    IsForest f'
    × (get_tree (100 ∷ []) (116 ∷ []) f' ≡ some 0)
    × Holds f'.nodes 0 [] (53 ∷ [])
    × ((s : List Side) (c : Ciphertext) → Holds f'.nodes 0 s c → (s ≡ []) × (c ≡ 53 ∷ []))
    × ((j : Str) (q : ℕ) → find_tree j empty.forest ≡ some q → find_tree j f'.forest ≡ some q)
    × Grew empty.nodes f'.nodes
create_tree-IsForest_example =
    create_tree-IsForest (100 ∷ []) (116 ∷ []) (53 ∷ []) empty empty-IsForest none_yet

abbrev turned_walk : BTreeTraverse
turned_walk = record (new_traverse 0 (some (51 ∷ []))) {
  current = 1;
  path = 13835058055282163712;
  path_length = 1;
}

abbrev grown_nodes : List BTreeNode
grown_nodes = record root_node { right = some 1 } ∷ second_node ∷ []

at_start : IsAt one_tree.nodes 0 [] (new_traverse 0 (some (51 ∷ [])))
unfolding new_traverse bits
at_start = record { reaches = at_root; path = refl; path_length = refl }

to_right : Guided one_tree.nodes 0 (51 ∷ []) (right ∷ [])
unfolding compare_str
to_right = guided right (53 ∷ []) start at_top refl

one_tree-named : find_tree name one_tree.forest ≡ some 0
unfolding find_tree assign_tree compare_str
one_tree-named = refl

walk-value : (new_traverse 0 (some (51 ∷ []))).ciphertext ≡ some (51 ∷ [])
unfolding new_traverse
walk-value = refl

right_turn :
    go right one_tree.nodes (new_traverse 0 (some (51 ∷ [])))
    ≡ some (false, turned_walk, grown_nodes)
unfolding go_to_right insert shl new_node new_traverse
right_turn = refl

go-IsForest_example :
    IsForest (record one_tree { nodes = grown_nodes })
    × Holds grown_nodes 0 (right ∷ []) (51 ∷ [])
    × Grew one_tree.nodes grown_nodes
go-IsForest_example =
    go-IsForest one_tree name 0 [] right (new_traverse 0 (some (51 ∷ []))) turned_walk (51 ∷ [])
      grown_nodes one_tree-IsForest one_tree-named at_start (omega arith) walk-value to_right
      right_turn

held-IsKept : IsKept held
unfolding find_traverse
held-IsKept = record { inside = λ i a e. ground arith; apart = λ i j a e e'. ground arith }

answer_continue-IsHeld_example :
    (response : Response) × (s' : WorkerState (List Row)) × (answer_continue rows 8
        (honest 7 (53 ∷ []) (51 ∷ []))
        busy
      ≡ some (response, s'))
    × IsHeld s'.holder 7
answer_continue-IsHeld_example =
    answer_continue-IsHeld rows busy 7 8 0 (row_request second_client) (51 ∷ []) (53 ∷ []) []
      one_tree-IsForest held-IsKept second-Walking at_top (omega arith)
      (λ e. absurd (omega (arith, e)))

abbrev mixed_row : Row
mixed_row = (97 ∷ [], 49 ∷ []) ∷ second_row

mixed_row-ope_count : ope_count mixed_row ≡ 1
unfolding has_ending compare_str
mixed_row-ope_count = refl

first_ope-new_insert_executor_example :
    let e = new_insert_executor (100 ∷ []) (116 ∷ []) mixed_row in
    first_ope e.row ≡ some (last_ope [] e.row, e.ope_value)
first_ope-new_insert_executor_example =
    first_ope-new_insert_executor (100 ∷ []) (116 ∷ []) mixed_row mixed_row-ope_count
