-- ===== src/Tests/Clients.antt =====
-- Two clients at the worker of plugin/Worker.cpp: the first row of a table, and one that waits.
use zql.Tests.Rows.{rows}
use zql.Prelude.{negsuc, ◌≡◌, refl, none, some, List, [], ◌∷◌, arith}
use zql.Objects.Row.{Str, Row, compare_str}
use zql.Objects.Request.{RequestAdd}
use zql.BTree.{
  BTreeNode, BTreeTraverse, get_tree, tree_id, find_tree, assign_tree, create_tree, new_node,
}
use zql.BTree.Traverse.{new_traverse, value}
use zql.BTree.Holder.{create_traverse, assign_traverse}
use zql.Worker.{WorkerState}
use zql.Worker.Fields.{first_ope, has_ending, format_path}
use zql.Worker.Answer.{
  answer_add, answer_continue, plant, store_row, start_walk, load_traverse, store_traverse, ask,
}
use zql.BTree.Memory.{fade}
use zql.BTree.Holder.{find_traverse}
use zql.Worker.Clients.{
  Inserter, Inserters, put, adds, starts, fades, Reached, first, then_step, IsServing,
}
use zql.Worker.Decimal.{number_of, number_of-format_path}
use zql.Worker.Serving.Reach.{Answers, Reached-IsServing, Reached-answer_continue}

abbrev blank : WorkerState (List Row)
blank = record {
  database = [];
  forest = record { forest = []; nodes = [] };
  holder = record { traverses = []; heap = [] };
  replies = [];
}

-- "p_ope"
abbrev field : Str
field = 112 ∷ 95 ∷ 111 ∷ 112 ∷ 101 ∷ []

abbrev first_request : RequestAdd
first_request = record { database = 100 ∷ []; table = 116 ∷ []; row = (field, 53 ∷ []) ∷ [] }

abbrev second_request : RequestAdd
second_request = record { database = 100 ∷ []; table = 116 ∷ []; row = (field, 51 ∷ []) ∷ [] }

abbrev one_row : WorkerState (List Row)
one_row = plant rows first_request field (53 ∷ []) blank

one_row-Reached : Reached rows [] one_row (λ i. none)
unfolding answer_add first_ope has_ending get_tree find_tree compare_str
one_row-Reached = then_step first (adds 1 first_request one_row refl)

abbrev second_walk : BTreeTraverse
second_walk = record (new_traverse 0 (some (51 ∷ []))) { request_add = some second_request }

abbrev root_node : BTreeNode
root_node = record new_node { ciphertext = some (53 ∷ []) }

abbrev waiting : WorkerState (List Row)
waiting = record one_row {
  holder = record { traverses = (2, some 0) ∷ []; heap = some second_walk ∷ [] };
}

abbrev second_client : Inserter
second_client = record { root = 0; request = second_request; place = [] }

abbrev clients : Inserters
clients = put 2 (some second_client) (λ i. none)

waiting-Reached : Reached rows [] waiting clients
unfolding answer_add start_walk load_traverse store_traverse create_traverse new_traverse
    assign_traverse ask value first_ope has_ending get_tree tree_id find_tree assign_tree
    create_tree plant store_row compare_str new_node
waiting-Reached =
    then_step one_row-Reached
      (starts 2 second_request field (51 ∷ []) 0 (53 ∷ []) waiting refl refl refl refl)

-- The bytes of the first value are overwritten.
abbrev overwritten : WorkerState (List Row)
overwritten = record waiting { forest = fade (λ a c. 0 ∷ []) waiting.forest }

overwritten-Reached : Reached rows [] overwritten clients
overwritten-Reached = then_step waiting-Reached (fades (λ a c. 0 ∷ []))

Reached-IsServing_example : IsServing rows overwritten clients
Reached-IsServing_example = Reached-IsServing rows [] overwritten clients overwritten-Reached

three_is_new : find_traverse 3 overwritten.holder.traverses ≡ none
unfolding find_traverse
three_is_new = refl

Reached-answer_continue_example :
    Answers rows (
      answer_continue rows 3
        (record { init_request_id = 2; compare_result = negsuc 0 })
        overwritten)
Reached-answer_continue_example =
    Reached-answer_continue rows [] overwritten clients 2 3
      (record { init_request_id = 2; compare_result = negsuc 0 }) second_client overwritten-Reached
      refl three_is_new refl (omega arith)

number_of-format_path_example :
    number_of 0 (format_path 13835058055282163712) ≡ 13835058055282163712
number_of-format_path_example = number_of-format_path 13835058055282163712 (omega arith)
