-- ===== src/Worker/Turns.antt =====
-- A turn of a walk at the worker of plugin/Worker.cpp: `OnRequestAddContinue` up to its response.
use Prim.Native.Nat.{Ordering}
use zql.Prelude.{
  ℕ, pos, negsuc, ◌<◌, ◌≡◌, refl, sym, ap, ◌∙◌, Bool, true, false, Option, none, some, List, [],
  ◌∷◌, length, get_elem?-below, get_elem?-set_at,
}
use mathlib.Core.Path.{subst}
use zql.Objects.Row.{assign, compare_str}
use zql.Objects.Request.{RequestAdd, RequestAddContinue}
use zql.Objects.Response.{Ciphertext}
use zql.BTree.{BTreeNode, BTreeTraverse, new_node}
use zql.BTree.Holder.{get_traverse}
use zql.BTree.Nodes.{Side, left, right, child_of}
use zql.BTree.Step.{IsAt, Inserted, Turned, went, made, Same, go, go-Turned}
use zql.BTree.Places.{turn_order}
use zql.BTree.Search.{Holds, guided}
use zql.BTree.Values.{Grew, grown-Grew}
use zql.BTree.Spread.{Spreads, grown-Spreads}
use zql.BTree.Forest.{IsForest, Grows, grown-IsForest}
use zql.Worker.{Database, WorkerState}
use zql.Worker.Fields.{last_ope, format_path}
use zql.Client.{compare}
use zql.Worker.Answer.{
  answer_continue, load_traverse, store_traverse, store_row, finish_walk, after_turn, turn_walk,
}
use zql.Worker.Walks.{Walking, Continued, asks, stores, ignores, ask_lem, holds_value}

module _ {ℓ} {D : Type ℓ} (db : Database D) (s : WorkerState D) (ok : IsForest s.forest)
    (i id root : ℕ) (r : RequestAdd) (q : RequestAddContinue) (v c : Ciphertext) (place : List Side)
    (w : Walking s.forest s.holder i root r v place) (here : Holds s.forest.nodes root place c)
    (asked : q.init_request_id ≡ i) (room : length place < 63) where
  goes_on :
      (d : Side) (t' : BTreeTraverse)
      → compare_str c v ≡ turn_order d
      → IsAt s.forest.nodes root (d ∷ place) t'
      → Same w.traverse t'
      → Continued db s i id root r v c place
          (after_turn db id q w.address (some (true, t', s.forest.nodes)) s)
  unfolding after_turn store_traverse
  goes_on d t' turned at same =
      let (n, there, b, e) =
        holds_value s.forest ok w.table root w.named (d ∷ place) t'.current at.reaches in
      rw (asked, ask_lem i s.forest.nodes t' n b there e, after_turn)
        (asks _ d b turned refl refl refl
          (record { address = t'.current; node = n; way = at.reaches; at = there; value = e })
          (record {
            address = w.address;
            traverse = t';
            held = w.held;
            stands =
                get_elem?-set_at s.holder.heap w.address (some t')
                  (get_elem?-below s.holder.heap w.address (some w.traverse) w.stands);
            table = w.table;
            named = w.named;
            at = at;
            way = guided d c w.way here turned;
            ciphertext = same.ciphertext ∙ w.ciphertext;
            request = same.request_add ∙ w.request;
          })
          (record { address = w.address; traverse = t'; held = w.held; stored = refl }))

  ends :
      (d : Side) (t' : BTreeTraverse) (after : List BTreeNode)
      → compare_str c v ≡ turn_order d
      → Inserted s.forest.nodes root place d w.traverse t' after
      → Continued db s i id root r v c place
          (after_turn db id q w.address (some (false, t', after)) s)
  unfolding after_turn finish_walk store_row child_of new_node
  ends d t' after turned ins =
      rw (ins.same.request_add ∙ w.request, finish_walk)
        (stores _ d turned refl
          (ap
            (λ (x : ℕ).
              (db.add r.database r.table (assign (last_ope [] r.row) (format_path x) r.row)
                s.database).1)
            ins.path)
          refl
          (subst (λ ns. IsForest (record s.forest { nodes = ns })) (sym ins.grew)
            (grown-IsForest s.forest w.table root place d w.traverse.current ins.parent created v ok
              grows))
          (record {
            address = t'.current;
            node = created;
            way = ins.reaches;
            at = ins.node;
            value = w.ciphertext;
          })
          (subst (λ ns. Grew s.forest.nodes ns) (sym ins.grew)
            (grown-Grew s.forest.nodes d w.traverse.current ins.parent created ins.gap))
          (subst (λ ns. Spreads s.forest (record s.forest { nodes = ns }) v) (sym ins.grew)
            (grown-Spreads s.forest d w.traverse.current ins.parent created v ok ins.gap leaf
              w.ciphertext))
          _ (record { address = w.address; traverse = _; held = w.held; stored = refl }) refl)
    where
      created : BTreeNode
      created = record new_node { ciphertext = w.traverse.ciphertext }

      leaf : (e : Side) → child_of e created ≡ none
      leaf left = refl
      leaf right = refl

      grows : Grows s.forest w.table root place d w.traverse.current ins.parent created v
      grows = record {
        named = w.named;
        gap = ins.gap;
        leaf = leaf;
        value = w.ciphertext;
        way = w.at.reaches;
        guided = guided d c w.way here turned;
      }

  after_turn-Continued :
      (d : Side) (o : Option (Bool × BTreeTraverse × List BTreeNode))
      → compare_str c v ≡ turn_order d
      → Turned s.forest.nodes root place d w.traverse o
      → Continued db s i id root r v c place (after_turn db id q w.address o s)
  after_turn-Continued d o turned (went t' at same) = goes_on d t' turned at same
  after_turn-Continued d o turned (made t' after ins) = ends d t' after turned ins

  pub turn_walk-Continued :
      (d : Side)
      → compare_str c v ≡ turn_order d
      → Continued db s i id root r v c place (turn_walk db (go d) id q (some w.address) s)
  unfolding turn_walk load_traverse
  turn_walk-Continued d turned =
      rw (w.stands, load_traverse, turn_walk)
        (after_turn-Continued d (go d s.forest.nodes w.traverse) turned (
          go-Turned s.forest.nodes root place w.traverse (ok.tree w.table root w.named) w.at room
            d))

-- The answer of a client whose own value is `v` to the question how `c` compares with it.
abbrev pub honest : ℕ → Ciphertext → Ciphertext → RequestAddContinue
honest i c v = record { init_request_id = i; compare_result = compare c v }

-- A client's comparison of the value at the place of its walk, above depth 63, with its own value
-- takes the walk to the left or to the right of the place: there it goes on, or it ends with a new
-- place for the value and the row stored under its code. If the values are equal, the trees and the
-- database are left as they are.
pub answer_continue-Continued {ℓ} :
    {D : Type ℓ} (db : Database D) (s : WorkerState D) (i id root : ℕ) (r : RequestAdd)
    (v c : Ciphertext) (place : List Side)
    → IsForest s.forest
    → Walking s.forest s.holder i root r v place
    → Holds s.forest.nodes root place c
    → length place < 63
    → Continued db s i id root r v c place (answer_continue db id (honest i c v) s)
unfolding answer_continue get_traverse compare
answer_continue-Continued db s i id root r v c place ok w here room =
    by_order (compare_str c v) refl
  where
    by_order :
        (o : Ordering)
        → compare_str c v ≡ o
        → Continued db s i id root r v c place (answer_continue db id (honest i c v) s)
    by_order Ordering.lt e =
        rw (answer_continue, get_traverse, w.held, compare, e)
          (turn_walk-Continued db s ok i id root r
            (record { init_request_id = i; compare_result = negsuc 0 }) v c place w here refl room
            left e)
    by_order Ordering.gt e =
        rw (answer_continue, get_traverse, w.held, compare, e)
          (turn_walk-Continued db s ok i id root r
            (record { init_request_id = i; compare_result = pos 1 }) v c place w here refl room
            right e)
    by_order Ordering.eq e =
        rw (answer_continue, get_traverse, w.held, compare, e) (ignores s e refl refl refl refl)
