-- ===== src/Client/Insertion.antt =====
-- The insertion of a row by a client of plugin/test.cpp at a worker of plugin/Worker.cpp, whatever
-- becomes of the bytes of the ciphertexts in the trees.
use zql.Prelude.{
  ℕ, zero, suc, ◌+◌, ◌<◌, ◌≡◌, ◌≢◌, refl, sym, ◌∙◌, ◌⊎◌, inl, inr, Option, none, some, List, [],
  ◌∷◌, length, arith,
}
use mathlib.Core.Path.{subst}
use zql.Objects.Row.{Str}
use zql.Objects.Row.Order.{compare_str_refl}
use zql.Objects.Request.{RequestAdd, RequestAddContinue, add_continue}
use zql.Objects.Response.{Ciphertext}
use zql.BTree.{BTreeForest, get_tree, find_tree, tree_id, create_tree}
use zql.BTree.Holder.{find_traverse}
use zql.BTree.Nodes.{Side, Reaches, at_root}
use zql.BTree.Codes.{code, bits}
use zql.BTree.Names.{find_tree-assign_tree, find_tree_kept}
use zql.BTree.Planting.{planted-Grew}
use zql.BTree.Spread.{IsShallow}
use zql.BTree.Memory.{
  IsPlanted, fade, fade-IsPlanted, Reaches-overwrite, overwrite-Reaches, create_tree-IsPlanted,
}
use zql.Worker.{Database, WorkerState}
use zql.Worker.Fields.{first_ope, last_ope}
use zql.Worker.Answer.{Answered, answer, answer_add, answer_continue, plant, store_row}
use zql.Worker.Walks.{coded_row}
use zql.Worker.Standing.{Standing, Steered, asks, stores, ignores}
use zql.Worker.Steering.{answer_continue-Steered}
use zql.Worker.Holding.{Standing-trees}
use zql.Worker.Starts.{started, start_walk_lem, started-Standing}
use zql.Client.{InsertExecutor, continue_request, run_request}
use zql.Client.Conversation.{converse, on_response, insert_row, faded}

-- What an insertion of the row of `r` has led to, from the trees `f` and the database `base`.
pub record Placed {ℓ} {D : Type ℓ} (db : Database D) (f : BTreeForest) (base : D) (root : ℕ)
    (r : RequestAdd) (s' : WorkerState D) : Type ℓ where
  pub forest : IsPlanted s'.forest
  pub kept : (top m : ℕ) (w : List Side) → Reaches f.nodes top w m → Reaches s'.forest.nodes top w m
  pub found :
      (j : Str) (q : ℕ) → find_tree j f.forest ≡ some q → find_tree j s'.forest.forest ≡ some q
  pub effect :
      ((place : List Side) × (a : ℕ) × Reaches s'.forest.nodes root place a
        × (s'.database ≡ (db.add r.database r.table (coded_row r place) base).1))
      ⊎ (s'.database ≡ base)

abbrev pub row_request : InsertExecutor → RequestAdd
row_request e = record { database = e.database; table = e.table; row = e.row }

module _ {ℓ} {D : Type ℓ} (db : Database D) (rand : ℕ → ℕ)
    (memory : ℕ → ℕ → Ciphertext → Ciphertext) (e : InsertExecutor) (i root : ℕ) (r : RequestAdd)
    (deep : ℕ) (enough : deep < 63) where
  -- From an answer of the client on, the conversation ends within the depth that is left.
  question-Placed :
      (fuel k : ℕ) (s : WorkerState D) (place : List Side) (q : RequestAddContinue)
      → q.init_request_id ≡ i
      → IsPlanted s.forest
      → Standing s.forest s.holder i root r place
      → IsShallow s.forest.nodes root deep
      → deep < fuel + length place
      → (s' : WorkerState D) × (converse db rand memory e fuel k (add_continue q) s ≡ some s')
        × Placed db s.forest s.database root r s'
  unfolding converse on_response faded fade answer continue_request
  question-Placed zero k s place q asked ok w shallow more =
      absurd (omega (arith, shallow place w.traverse.current w.at.reaches))
  question-Placed (suc fuel) k s place q asked ok w shallow more =
      after (answer_continue db (rand k) q now)
        (answer_continue-Steered db now (fade-IsPlanted (memory k) s.forest ok) i (rand k) root r q
          place still asked (omega (arith, shallow place w.traverse.current w.at.reaches)))
        (λ s1 d b.
          question-Placed fuel (suc k) s1 (d ∷ place)
            (continue_request e (record { init_request_id = i; ciphertext = b })) refl)
    where
      now : WorkerState D
      now = record s { forest = fade (memory k) s.forest }

      still : Standing now.forest now.holder i root r place
      still =
          Standing-trees w now.forest (λ p m way. Reaches-overwrite (memory k) way)
            (λ table named. named)

      shallow_now : IsShallow now.forest.nodes root deep
      shallow_now p m way = shallow p m (overwrite-Reaches (memory k) way)

      after :
          (o : Answered db)
          → Steered db now i (rand k) root r q place o
          → ((s1 : WorkerState D) (d : Side) (b : Ciphertext)
              → IsPlanted s1.forest
              → Standing s1.forest s1.holder i root r (d ∷ place)
              → IsShallow s1.forest.nodes root deep
              → deep < fuel + length (d ∷ place)
              → (s' : WorkerState D) × (converse db rand memory e fuel
                    (suc k)
                    (add_continue
                      (continue_request e (record { init_request_id = i; ciphertext = b })))
                    s1
                  ≡ some s')
                × Placed db s1.forest s1.database root r s')
          → (s' : WorkerState D) × (on_response db rand memory e
                (λ x. converse db rand memory e fuel (suc k) x)
                o
              ≡ some s')
            × Placed db s.forest s.database root r s'
      after o (asks s1 d b turned same base walk changed) next =
          let (s', ran, done) =
            next s1 d b (subst IsPlanted (sym same) (fade-IsPlanted (memory k) s.forest ok))
              (subst (λ g. Standing g s1.holder i root r (d ∷ place)) (sym same) walk)
              (subst (λ g. IsShallow g.nodes root deep) (sym same) shallow_now)
              (omega (arith, more)) in
          (
            s',
            ran,
            record {
              forest = done.forest;
              kept = λ top m p way. done.kept top m p (
                  subst (λ g. Reaches g.nodes top p m) (sym same)
                    (Reaches-overwrite (memory k) way));
              found = λ j x named.
                  done.found j x (subst (λ g. find_tree j g.forest ≡ some x) (sym same) named);
              effect =
                  subst
                    (λ x.
                      ((p : List Side) × (a : ℕ) × Reaches s'.forest.nodes root p a
                        × (s'.database ≡ (db.add r.database r.table (coded_row r p) x).1))
                      ⊎ (s'.database ≡ x))
                    base done.effect;
            },
          )
      after o (stores s1 d a turned same base grown there grew between changed removed) next = (
        s1,
        refl,
        record {
          forest = grown;
          kept = λ top m p way. grew top m p (Reaches-overwrite (memory k) way);
          found = λ j x named. subst (λ m. find_tree j m ≡ some x) (sym same) named;
          effect = inl (d ∷ place, a, there, base);
        },
      )
      after o (ignores s1 equal same base untouched) next = (
        s1,
        refl,
        record {
          forest = subst IsPlanted (sym same) (fade-IsPlanted (memory k) s.forest ok);
          kept = λ top m p way.
              subst (λ g. Reaches g.nodes top p m) (sym same) (Reaches-overwrite (memory k) way);
          found = λ j x named. subst (λ g. find_tree j g.forest ≡ some x) (sym same) named;
          effect = inr base;
        },
      )

module _ {ℓ} {D : Type ℓ} (db : Database D) (rand : ℕ → ℕ)
    (memory : ℕ → ℕ → Ciphertext → Ciphertext) (e : InsertExecutor) (deep : ℕ) (s : WorkerState D)
    (enough : deep < 63) (ok : IsPlanted s.forest) (value : Str)
    (one_ope : first_ope e.row ≡ some (last_ope [] e.row, value)) where
  abbrev now : WorkerState D
  now = faded db rand memory e 0 s

  abbrev Outcome : ℕ → Type ℓ
  Outcome root =
      (s' : WorkerState D) × (insert_row db rand memory e (suc (suc deep)) s ≡ some s')
      × (get_tree e.database e.table s'.forest ≡ some root)
      × Placed db s.forest s.database root (row_request e) s'

  now-IsPlanted : IsPlanted now.forest
  unfolding faded
  now-IsPlanted = fade-IsPlanted (memory 0) s.forest ok

  first_row : get_tree e.database e.table s.forest ≡ none → Outcome (length now.forest.nodes)
  unfolding insert_row converse on_response faded fade run_request answer answer_add plant store_row
      create_tree code bits get_tree
  first_row none_yet =
      let id = tree_id e.database e.table in
      let made =
        create_tree-IsPlanted e.database e.table value (fade (memory 0) s.forest)
          (fade-IsPlanted (memory 0) s.forest ok) in
      (
        plant db (row_request e) (last_ope [] e.row) value now,
        rw (one_ope, answer_add, none_yet) refl,
        find_tree-assign_tree id id (length now.forest.nodes) s.forest.forest
            ∙ ground (arith, compare_str_refl id),
        record {
          forest = made;
          kept = λ top m w way.
              (planted-Grew now.forest id value now-IsPlanted.linked).reaches top w m
                (Reaches-overwrite (memory 0) way);
          found = λ j q named.
              find_tree_kept id (length now.forest.nodes) s.forest.forest none_yet j q named;
          effect = inl ([], length now.forest.nodes, at_root, refl);
        },
      )

  next_row :
      (root : ℕ)
      → get_tree e.database e.table s.forest ≡ some root
      → IsShallow s.forest.nodes root deep
      → Outcome root
  unfolding insert_row converse on_response faded fade run_request answer answer_add get_tree
      continue_request
  next_row root named shallow =
      let table = tree_id e.database e.table in
      let (c, asks_top) =
        start_walk_lem db now now-IsPlanted (rand 0) root (row_request e) value table named in
      let (s', rest, done) =
        question-Placed db rand memory e (rand 0) root (row_request e) deep enough (suc deep) 1
          (started db now now-IsPlanted (rand 0) root (row_request e) value table named) []
          (continue_request e (record { init_request_id = rand 0; ciphertext = c })) refl
          now-IsPlanted
          (started-Standing db now now-IsPlanted (rand 0) root (row_request e) value table named)
          (λ p m way. shallow p m (overwrite-Reaches (memory 0) way)) (omega arith) in
      (
        s',
        rw (one_ope, answer_add, named, asks_top) rest,
        done.found table root named,
        record {
          forest = done.forest;
          kept = λ top m w way. done.kept top m w (Reaches-overwrite (memory 0) way);
          found = done.found;
          effect = done.effect;
        },
      )

-- A client inserts a row with one field whose values are kept in order, and the tree of its table,
-- if there is one, has no place below a depth under 63. The ids of its later requests are other than
-- that of the first and such that no walk is held under them. With no other client in between, and whatever
-- becomes of the bytes of the ciphertexts in the trees between two messages, the conversation ends
-- within two requests more than that depth. After it the trees of all tables are trees with the
-- places that they had, and the table has one. The database got the row under the code of a place of
-- that tree, or it is as it was.
pub insert_row-Placed {ℓ} :
    {D : Type ℓ} (db : Database D) (rand : ℕ → ℕ) (memory : ℕ → ℕ → Ciphertext → Ciphertext)
    (e : InsertExecutor) (deep : ℕ) (s : WorkerState D) (value : Str)
    → deep < 63
    → IsPlanted s.forest
    → first_ope e.row ≡ some (last_ope [] e.row, value)
    → ((k : ℕ) → (rand (suc k) ≢ rand 0) × (find_traverse (rand (suc k)) s.holder.traverses ≡ none))
    → ((root : ℕ)
        → get_tree e.database e.table s.forest ≡ some root
        → IsShallow s.forest.nodes root deep)
    → (root : ℕ) × (s' : WorkerState D) × (insert_row db rand memory e (suc (suc deep)) s ≡ some s')
      × (get_tree e.database e.table s'.forest ≡ some root)
      × Placed db s.forest s.database root (row_request e) s'
insert_row-Placed {D = D} db rand memory e deep s value enough ok one_ope fresh shallow =
    by_root (get_tree e.database e.table s.forest) refl
  where
    by_root :
        (o : Option ℕ)
        → get_tree e.database e.table s.forest ≡ o
        → (root : ℕ) × (s' : WorkerState D) × (insert_row db rand memory e (suc (suc deep)) s
            ≡ some s')
          × (get_tree e.database e.table s'.forest ≡ some root)
          × Placed db s.forest s.database root (row_request e) s'
    by_root none h =
        let (s', ran, named, done) = first_row db rand memory e deep s enough ok value one_ope h in
        (_, s', ran, named, done)
    by_root (some root) h =
        let (s', ran, named, done) =
          next_row db rand memory e deep s enough ok value one_ope root h (shallow root h) in
        (root, s', ran, named, done)
