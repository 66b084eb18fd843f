-- ===== src/Worker/Serving/Requests.antt =====
-- `OnRequestGet` and `OnRequestAdd` of plugin/Worker.cpp with several clients.
use zql.Prelude.{ℕ, ◌≡◌, refl, sym, ◌∙◌, Bool, Option, none, some, [], length, if◌then◌else◌}
use mathlib.Core.Path.{subst}
use zql.Objects.Row.{Str, Row}
use zql.Objects.Request.{RequestGet, RequestAdd}
use zql.Objects.Response.{Ciphertext, Response, get_ok, get_empty, add_ok, add_traverse}
use zql.BTree.{get_tree, create_tree, tree_id}
use zql.BTree.Planting.{planted-Grew}
use zql.BTree.Memory.{create_tree-IsPlanted}
use zql.Worker.Standing.{Standing}
use zql.BTree.Names.{find_tree_kept}
use zql.Worker.{Database, WorkerState}
use zql.Worker.Fields.{first_ope}
use zql.Worker.Answer.{answer_get, answer_add, plant, store_row}
use zql.Worker.Starts.{started, started-IsKept, Standing-started, start_walk_lem, started-Standing}
use zql.Worker.Clients.{Inserter, Inserters, put, IsServing}
use zql.Worker.Serving.{same_answer, unmoved, grown_trees, renewed}

module _ {ℓ} {D : Type ℓ} (db : Database D) {s : WorkerState D} {live : Inserters}
    (ok : IsServing db s live) where
  pub gets-IsServing :
      (r : RequestGet) (response : Response) (s' : WorkerState D)
      → answer_get db r s ≡ some (response, s')
      → IsServing db s' live
  unfolding answer_get
  gets-IsServing r response s' = by_row (db.get r.database r.table r.pk s.database) refl
    where
      by_row :
          (o : Option (Bool × Row × D))
          → db.get r.database r.table r.pk s.database ≡ o
          → answer_get db r s ≡ some (response, s')
          → IsServing db s' live
      by_row none e h =
          let gone : answer_get db r s ≡ none = rw (e, answer_get) refl in
          let both : ◌≡◌ {A = Option (Response × WorkerState D)} none (some (response, s')) =
            sym gone ∙ h in
          absurd (cc)
      by_row (some (found, values, database)) e h =
          subst (λ t. IsServing db t live)
            (same_answer {x = if found then get_ok (record { values = values }) else get_empty}
              {y = response} {a = record s { database = database }} {b = s'}
              (rw (e, answer_get) refl) h).1
            (unmoved db ok _ refl refl)

  pub adds-IsServing :
      (id : ℕ) (r : RequestAdd) (s' : WorkerState D)
      → answer_add db id r s ≡ some (add_ok, s')
      → IsServing db s' live
  unfolding answer_add store_row plant create_tree get_tree
  adds-IsServing id r s' h = by_field (first_ope r.row) refl
    where
      is :
          {a : WorkerState D}
          → IsServing db a live
          → answer_add db id r s ≡ some (add_ok, a)
          → IsServing db s' live
      is {a} good e =
          subst (λ t. IsServing db t live)
            (same_answer {x = add_ok} {y = add_ok} {a = a} {b = s'} e h).1 good

      by_tree :
          (field value : Str)
          → first_ope r.row ≡ some (field, value)
          → (t : Option ℕ) → get_tree r.database r.table s.forest ≡ t
          → IsServing db s' live
      by_tree field value e none none_yet =
          let name = tree_id r.database r.table in
          is {a = plant db r field value s}
            (grown_trees db ok (plant db r field value s)
              (create_tree-IsPlanted r.database r.table value s.forest ok.forest)
              (planted-Grew s.forest name value ok.forest.linked).reaches
              (find_tree_kept name (length s.forest.nodes) s.forest.forest none_yet) refl)
            (rw (e, none_yet, answer_add) refl)
      by_tree field value e (some root) named =
          let (c, asks_top) =
            start_walk_lem db s ok.forest id root r value (tree_id r.database r.table) named in
          let asked : answer_add db id r s
              ≡ some (
                add_traverse (record { init_request_id = id; ciphertext = c }),
                started db s ok.forest id root r value (tree_id r.database r.table) named,
              ) =
            rw (e, named, asks_top, answer_add) refl in
          let same : add_ok ≡ add_traverse (record { init_request_id = id; ciphertext = c }) =
            (same_answer {a = s'}
              {b = started db s ok.forest id root r value (tree_id r.database r.table) named} h
              asked).0 in
          absurd (cc)

      by_field : (o : Option (Str × Str)) → first_ope r.row ≡ o → IsServing db s' live
      by_field none e =
          is {a = store_row db r r.row s} (unmoved db ok _ refl refl) (rw (e, answer_add) refl)
      by_field (some (field, value)) e =
          by_tree field value e (get_tree r.database r.table s.forest) refl

  pub starts-IsServing :
      (id : ℕ) (r : RequestAdd) (field value : Str) (root : ℕ) (c : Ciphertext) (s' : WorkerState D)
      → live id ≡ none
      → first_ope r.row ≡ some (field, value)
      → get_tree r.database r.table s.forest ≡ some root
      → answer_add db id r s
        ≡ some (add_traverse (record { init_request_id = id; ciphertext = c }), s')
      → IsServing db s' (put id (some (record { root = root; request = r; place = [] })) live)
  unfolding answer_add get_tree
  starts-IsServing id r field value root c s' new e named h =
      let table = tree_id r.database r.table in
      let (top, asks_top) = start_walk_lem db s ok.forest id root r value table named in
      let begun : WorkerState D = started db s ok.forest id root r value table named in
      let walk = started-Standing db s ok.forest id root r value table named in
      let same =
        same_answer {x = add_traverse (record { init_request_id = id; ciphertext = top })}
          {y = add_traverse (record { init_request_id = id; ciphertext = c })} {a = begun} {b = s'}
          (rw (e, named, asks_top, answer_add) refl) h in
      let one : Inserter = record { root = root; request = r; place = [] } in
      subst (λ t. IsServing db t (put id (some one) live)) same.1
        (renewed db ok begun id (some one) ok.forest
          (started-IsKept db s ok.forest id root r value table named ok.kept)
          (λ w k.
            let this : one ≡ w = cc in
            subst (λ x. Standing begun.forest begun.holder id x.root x.request x.place) this walk)
          (λ j w other k.
            Standing-started db s ok.forest id root r value table named ok.kept (ok.walking j w k)
              other))
