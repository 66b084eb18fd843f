-- ===== src/Worker/Answer.antt =====
-- The handlers of plugin/Worker.cpp up to the response that they send. `none` is where the program
-- does what C++ does not define: a NULL that is dereferenced, or a shift by a negative number.
use zql.Prelude.{
  [], ℕ, pos, negsuc, eqb_ℤ, ◌^◌, Bool, true, false, Option, none, some, List, if◌then◌else◌,
  get_elem?, set,
}
use zql.Objects.Row.{Row, assign}
use zql.Objects.Request.{
  RequestGet, RequestAdd, RequestAddContinue, Request, get, add, add_continue,
}
use zql.Objects.Response.{Response, get_ok, get_empty, add_ok, add_traverse}
use zql.BTree.{BTreeNode, BTreeTraverse, get_tree, create_tree}
use zql.BTree.Traverse.{go_to_left, go_to_right, value}
use zql.BTree.Holder.{BTreeTraverseHolder, get_traverse, create_traverse, remove_traverse}
use zql.Worker.{Database, WorkerState}
use zql.Worker.Fields.{first_ope, last_ope, format_path}

-- A walk behind a pointer, and its change.
unfoldable pub load_traverse : ℕ → BTreeTraverseHolder → Option BTreeTraverse
load_traverse a h = elim (get_elem? h.heap a) [ none ↦ none | some t ↦ t ]

unfoldable pub store_traverse : ℕ → BTreeTraverse → BTreeTraverseHolder → BTreeTraverseHolder
store_traverse a t h = record h { heap = set h.heap a (some t) }

-- ResponseAddTraverse with the ciphertext of the node where a walk stands.
unfoldable pub ask : ℕ → List BTreeNode → BTreeTraverse → Option Response
ask id nodes t = elim (value nodes t) [
  | none ↦ none
  | some none ↦ none
  | some (some ciphertext) ↦
      some (add_traverse (record { init_request_id = id; ciphertext = ciphertext }))
]

module _ {ℓ} {D : Type ℓ} (db : Database D) where
  abbrev pub Answered : Type ℓ
  Answered = Option (Response × WorkerState D)

  unfoldable pub answer_get : RequestGet → WorkerState D → Answered
  answer_get r s = elim (db.get r.database r.table r.pk s.database) [
    | none ↦ none
    | some (found, values, database) ↦ some (
      if found then get_ok (record { values = values }) else get_empty,
      record s { database = database },
    )
  ]

  unfoldable pub store_row : RequestAdd → Row → WorkerState D → WorkerState D
  store_row r row s = record s { database = (db.add r.database r.table row s.database).1 }

  -- The first value of a table becomes the root of its tree, with the code of the root. The root points
  -- to the bytes of `opeValue`, which is gone when the handler has returned (BTree/Memory).
  unfoldable pub plant : RequestAdd → (field value : List ℕ) → WorkerState D → WorkerState D
  plant r field value s =
      store_row r (assign field (format_path (2 ^ 63)) r.row)
        (record s { forest = create_tree r.database r.table (some value) s.forest })

  -- Any other starts a walk at the root, which points to the bytes of its `opeValue` likewise.
  unfoldable pub start_walk : ℕ → RequestAdd → List ℕ → ℕ → WorkerState D → Answered
  start_walk id r value root s =
      let (address, made) = create_traverse id root (some value) s.holder in
      elim (load_traverse address made) [
        | none ↦ none
        | some t ↦
            let traverse = record t { request_add = some r } in
            elim (ask id s.forest.nodes traverse) [
              | none ↦ none
              | some response ↦
                  some (response, record s { holder = store_traverse address traverse made })
            ]
      ]

  unfoldable pub answer_add : ℕ → RequestAdd → WorkerState D → Answered
  unfolding store_row plant start_walk
  answer_add id r s = elim (first_ope r.row) [
    | none ↦ some (add_ok, store_row r r.row s)
    | some (field, value) ↦ elim (get_tree r.database r.table s.forest) [
      | none ↦ some (add_ok, plant r field value s)
      | some root ↦ start_walk id r value root s
    ]
  ]

  -- `result == 0`: the row goes to the table with the code of its place.
  unfoldable pub finish_walk : (id address : ℕ) → BTreeTraverse → WorkerState D → Answered
  finish_walk id address t s = elim t.request_add [
    | none ↦ none
    | some r ↦
        let row = assign (last_ope [] r.row) (format_path t.path) r.row in
        let kept = record t { request_add = some (record r { row = row }) } in
        some (
          add_ok,
          record (store_row r row s) {
            holder = remove_traverse id (store_traverse address kept s.holder);
          },
        )
  ]

  -- After `goToLeft` or `goToRight`.
  unfoldable pub after_turn :
      (id : ℕ)
      → RequestAddContinue
      → (address : ℕ) → Option (Bool × BTreeTraverse × List BTreeNode)
      → WorkerState D
      → Answered
  unfolding finish_walk
  after_turn id r address none s = none
  after_turn id r address (some (true, t, nodes)) s =
      let turned = record s {
        forest = record s.forest { nodes = nodes };
        holder = store_traverse address t s.holder;
      } in
      elim (ask r.init_request_id nodes t) [ none ↦ none | some response ↦ some (response, turned) ]
  after_turn id r address (some (false, t, nodes)) s =
      finish_walk id address t (record s { forest = record s.forest { nodes = nodes } })

  -- A turn of the walk behind a pointer, which may be NULL.
  unfoldable pub turn_walk :
      (List BTreeNode → BTreeTraverse → Option (Bool × BTreeTraverse × List BTreeNode))
      → ℕ
      → RequestAddContinue
      → Option ℕ
      → WorkerState D
      → Answered
  unfolding after_turn
  turn_walk go id r none s = none
  turn_walk go id r (some address) s = elim (load_traverse address s.holder) [
    | none ↦ none
    | some t ↦ after_turn id r address (go s.forest.nodes t) s
  ]

  unfoldable pub answer_continue : ℕ → RequestAddContinue → WorkerState D → Answered
  unfolding turn_walk
  answer_continue id r s =
      let (traverse, holder) = get_traverse r.init_request_id s.holder in
      let looked = record s { holder = holder } in
      if eqb_ℤ r.compare_result (negsuc 0)
      then turn_walk go_to_left id r traverse looked
      else (if eqb_ℤ r.compare_result (pos 1)
          then turn_walk go_to_right id r traverse looked
          else some (add_ok, looked))

  unfoldable pub answer : ℕ → Request → WorkerState D → Answered
  unfolding answer_get answer_add answer_continue
  answer id (get r) s = answer_get r s
  answer id (add r) s = answer_add id r s
  answer id (add_continue r) s = answer_continue id r s
