-- ===== src/Worker/Standing.antt =====
-- A walk at the worker of plugin/Worker.cpp, whatever bytes the ciphertexts of the nodes point to and
-- whatever the client answers.
use zql.Prelude.{
  ℕ, ℤ, pos, negsuc, eqb_ℤ, ◌≡◌, Option, none, some, List, ◌∷◌, get_elem?, if◌then◌else◌,
}
use zql.Objects.Row.{Str}
use zql.Objects.Request.{RequestAdd, RequestAddContinue}
use zql.Objects.Response.{Ciphertext, add_ok, add_traverse}
use zql.BTree.{BTreeForest, BTreeTraverse, find_tree}
use zql.BTree.Holder.{BTreeTraverseHolder, find_traverse, remove_traverse}
use zql.BTree.Nodes.{Side, left, right, Reaches}
use zql.BTree.Step.{IsAt}
use zql.BTree.Memory.{IsPlanted}
use zql.Worker.{Database, WorkerState}
use zql.Worker.Answer.{Answered}
use zql.Worker.Walks.{Changed, coded_row}

-- Under the id `i` a walk is held that has come to `place` in the tree of `root`, for the row of `r`.
pub record Standing (f : BTreeForest) (h : BTreeTraverseHolder) (i root : ℕ) (r : RequestAdd)
    (place : List Side) : Type 0 where
  pub address : ℕ
  pub traverse : BTreeTraverse
  pub held : find_traverse i h.traverses ≡ some (some address)
  pub stands : get_elem? h.heap address ≡ some (some traverse)
  pub table : Str
  pub named : find_tree table f.forest ≡ some root
  pub at : IsAt f.nodes root place traverse
  pub value : Ciphertext
  pub ciphertext : traverse.ciphertext ≡ some value
  pub request : traverse.request_add ≡ some r

-- The turn that a comparison asks for.
abbrev pub turn_of : ℤ → Option Side
turn_of z = if eqb_ℤ z (negsuc 0) then some left else (if eqb_ℤ z (pos 1) then some right else none)

module _ {ℓ} {D : Type ℓ} (db : Database D) where
  -- What the answer `q` of a client whose walk has come to `place` leads to, as the request `id`.
  pub data Steered (s : WorkerState D) (i id root : ℕ) (r : RequestAdd) (q : RequestAddContinue)
      (place : List Side) : Answered db → Type ℓ where
    asks :
        (s' : WorkerState D) (d : Side) (b : Ciphertext)
        → turn_of q.compare_result ≡ some d
        → s'.forest ≡ s.forest
        → s'.database ≡ s.database
        → Standing s.forest s'.holder i root r (d ∷ place)
        → Changed s.holder i s'.holder
        → Steered s i id root r q place
            (some (add_traverse (record { init_request_id = i; ciphertext = b }), s'))
    stores :
        (s' : WorkerState D) (d : Side) (a : ℕ)
        → turn_of q.compare_result ≡ some d
        → s'.forest.forest ≡ s.forest.forest
        → s'.database ≡ (db.add r.database r.table (coded_row r (d ∷ place)) s.database).1
        → IsPlanted s'.forest
        → Reaches s'.forest.nodes root (d ∷ place) a
        → ((top m : ℕ) (w : List Side)
            → Reaches s.forest.nodes top w m
            → Reaches s'.forest.nodes top w m)
        → (between : BTreeTraverseHolder) → Changed s.holder i between
        → s'.holder ≡ remove_traverse id between
        → Steered s i id root r q place (some (add_ok, s'))
    ignores :
        (s' : WorkerState D)
        → turn_of q.compare_result ≡ none
        → s'.forest ≡ s.forest
        → s'.database ≡ s.database
        → s'.holder ≡ s.holder
        → Steered s i id root r q place (some (add_ok, s'))
