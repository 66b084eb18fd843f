-- ===== src/Worker/Steering.antt =====
-- A turn of a walk at the worker of plugin/Worker.cpp, whatever the client answers.
use zql.Prelude.{
  ℕ, pos, negsuc, eqb_ℤ, ◌<◌, ◌≡◌, refl, sym, ap, ◌∙◌, Bool, true, false, Option, some, List, [],
  ◌∷◌, length, get_elem?, get_elem?-below, get_elem?-inside, get_elem?-set_at, if◌then◌else◌,
}
use mathlib.Core.Path.{subst}
use zql.Objects.Row.{assign}
use zql.Objects.Request.{RequestAdd, RequestAddContinue}
use zql.Objects.Response.{Ciphertext, add_ok}
use zql.BTree.{BTreeForest, BTreeNode, BTreeTraverse, new_node, find_tree}
use zql.BTree.Traverse.{go_to_left, go_to_right}
use zql.BTree.Holder.{get_traverse, find_traverse}
use zql.BTree.Nodes.{Side, left, right, Reaches}
use zql.BTree.Insert.{Reaches-kept}
use zql.BTree.Shape.{Reaches-inside}
use zql.BTree.Step.{IsAt, Inserted, Turned, went, made, Same, go, go-Turned}
use zql.BTree.Memory.{IsPlanted, grown-IsPlanted}
use zql.BTree.Growth.{new_leaf}
use zql.Worker.{Database, WorkerState}
use zql.Worker.Fields.{last_ope, format_path}
use zql.Worker.Answer.{
  answer_continue, load_traverse, store_traverse, store_row, finish_walk, after_turn, turn_walk,
}
use zql.Worker.Walks.{ask_lem}
use zql.Worker.Standing.{Standing, Steered, asks, stores, ignores, turn_of}

-- The node at a place has a ciphertext.
pub has_ciphertext :
    (f : BTreeForest) (ok : IsPlanted f) {root : ℕ} {place : List Side} {a : ℕ}
    → (id : List ℕ) → find_tree id f.forest ≡ some root
    → Reaches f.nodes root place a
    → (n : BTreeNode) × (get_elem? f.nodes a ≡ some n) × (c : Ciphertext) × (n.ciphertext ≡ some c)
has_ciphertext f ok {root} {place} {a} id named way =
    let (n, here) = get_elem?-inside f.nodes a (Reaches-inside (ok.tree id root named) way) in
    let (c, e) = ok.filled a n here in (n, here, c, e)

module _ {ℓ} {D : Type ℓ} (db : Database D) (s : WorkerState D) (ok : IsPlanted s.forest)
    (i id root : ℕ) (r : RequestAdd) (q : RequestAddContinue) (place : List Side)
    (w : Standing s.forest s.holder i root r place) (asked : q.init_request_id ≡ i)
    (room : length place < 63) where
  goes_on :
      (d : Side) (t' : BTreeTraverse)
      → turn_of q.compare_result ≡ some d
      → IsAt s.forest.nodes root (d ∷ place) t'
      → Same w.traverse t'
      → Steered db s i id root r q place
          (after_turn db id q w.address (some (true, t', s.forest.nodes)) s)
  unfolding after_turn store_traverse
  goes_on d t' turned at same =
      let (n, there, b, e) = has_ciphertext s.forest ok w.table w.named at.reaches in
      rw (asked, ask_lem i s.forest.nodes t' n b there e, after_turn)
        (asks _ d b turned refl refl
          (record {
            address = w.address;
            traverse = t';
            held = w.held;
            stands =
                get_elem?-set_at s.holder.heap w.address (some t')
                  (get_elem?-below s.holder.heap w.address (some w.traverse) w.stands);
            table = w.table;
            named = w.named;
            at = at;
            value = w.value;
            ciphertext = same.ciphertext ∙ w.ciphertext;
            request = same.request_add ∙ w.request;
          })
          (record { address = w.address; traverse = t'; held = w.held; stored = refl }))

  ends :
      (d : Side) (t' : BTreeTraverse) (after : List BTreeNode)
      → turn_of q.compare_result ≡ some d
      → Inserted s.forest.nodes root place d w.traverse t' after
      → Steered db s i id root r q place (after_turn db id q w.address (some (false, t', after)) s)
  unfolding after_turn finish_walk store_row
  ends d t' after turned ins =
      rw (ins.same.request_add ∙ w.request, finish_walk)
        (stores _ d t'.current turned refl
          (ap
            (λ (x : ℕ).
              (db.add r.database r.table (assign (last_ope [] r.row) (format_path x) r.row)
                s.database).1)
            ins.path)
          (subst (λ ns. IsPlanted (record s.forest { nodes = ns })) (sym ins.grew)
            (grown-IsPlanted s.forest w.table root d w.traverse.current ins.parent created w.value
              ok w.named ins.gap (new_leaf w.traverse.ciphertext) w.ciphertext))
          ins.reaches
          (λ top m way old.
            subst (λ ns. Reaches ns top way m) (sym ins.grew)
              (Reaches-kept s.forest.nodes d w.traverse.current ins.parent created ins.gap old))
          _ (record { address = w.address; traverse = _; held = w.held; stored = refl }) refl)
    where
      created : BTreeNode
      created = record new_node { ciphertext = w.traverse.ciphertext }

  after_turn-Steered :
      (d : Side) (o : Option (Bool × BTreeTraverse × List BTreeNode))
      → turn_of q.compare_result ≡ some d
      → Turned s.forest.nodes root place d w.traverse o
      → Steered db s i id root r q place (after_turn db id q w.address o s)
  after_turn-Steered d o turned (went t' at same) = goes_on d t' turned at same
  after_turn-Steered d o turned (made t' after ins) = ends d t' after turned ins

  turn_walk-Steered :
      (d : Side)
      → turn_of q.compare_result ≡ some d
      → Steered db s i id root r q place (turn_walk db (go d) id q (some w.address) s)
  unfolding turn_walk load_traverse
  turn_walk-Steered d turned =
      rw (w.stands, load_traverse, turn_walk)
        (after_turn-Steered d (go d s.forest.nodes w.traverse) turned (
          go-Turned s.forest.nodes root place w.traverse (ok.tree w.table root w.named) w.at room
            d))

  -- An answer of a client whose walk stands above depth 63, whatever it says and whatever the bytes
  -- of the ciphertexts are: the walk goes on to the side that the answer says, or it ends with a new
  -- place there and the row stored under its code, or the trees and the database are left as they
  -- are.
  pub answer_continue-Steered : Steered db s i id root r q place (answer_continue db id q s)
  unfolding answer_continue get_traverse
  answer_continue-Steered =
      rw (answer_continue, get_traverse, found)
        (by_test (eqb_ℤ q.compare_result (negsuc 0)) refl (eqb_ℤ q.compare_result (pos 1)) refl)
    where
      found : find_traverse q.init_request_id s.holder.traverses ≡ some (some w.address)
      found = ap (λ (j : ℕ). find_traverse j s.holder.traverses) asked ∙ w.held

      by_test :
          (b : Bool)
          → eqb_ℤ q.compare_result (negsuc 0) ≡ b
          → (c : Bool) → eqb_ℤ q.compare_result (pos 1) ≡ c
          → Steered db s i id root r q place (
              if b
              then turn_walk db go_to_left id q (some w.address) s
              else (if c
                  then turn_walk db go_to_right id q (some w.address) s
                  else some (add_ok, s)))
      by_test true e c e' = turn_walk-Steered left (rw e refl)
      by_test false e true e' = turn_walk-Steered right (rw (e, e') refl)
      by_test false e false e' = ignores s (rw (e, e') refl) refl refl refl
