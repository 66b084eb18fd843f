-- ===== src/Worker/Walks.antt =====
-- A walk of a client at the worker of plugin/Worker.cpp, in the order of the client's comparisons.
use Prim.Native.Nat.{Ordering}
use zql.Prelude.{ℕ, ◌≡◌, some, List, [], ◌∷◌, get_elem?, get_elem?-inside, arith}
use zql.Objects.Row.{Str, Row, compare_str, assign}
use zql.Objects.Request.{RequestAdd}
use zql.Objects.Response.{Ciphertext, add_ok, add_traverse}
use zql.BTree.{BTreeForest, BTreeNode, BTreeTraverse, find_tree}
use zql.BTree.Traverse.{value}
use zql.BTree.Holder.{BTreeTraverseHolder, find_traverse, remove_traverse}
use zql.BTree.Nodes.{Side, Reaches}
use zql.BTree.Codes.{code}
use zql.BTree.Shape.{Reaches-inside}
use zql.BTree.Step.{IsAt}
use zql.BTree.Places.{turn_order}
use zql.BTree.Search.{Holds, Guided}
use zql.BTree.Values.{Grew}
use zql.BTree.Spread.{Spreads}
use zql.BTree.Forest.{IsForest}
use zql.Worker.{Database, WorkerState}
use zql.Worker.Fields.{last_ope, format_path}
use zql.Worker.Answer.{store_traverse, Answered, ask}

-- Under the id `i` a walk is held that looks for the place of `v` in the tree of `root`, and has
-- come to `place`.
pub record Walking (f : BTreeForest) (h : BTreeTraverseHolder) (i root : ℕ) (r : RequestAdd)
    (v : Ciphertext) (place : List Side) : Type 0 where
  pub address : ℕ
  pub traverse : BTreeTraverse
  pub held : find_traverse i h.traverses ≡ some (some address)
  pub stands : get_elem? h.heap address ≡ some (some traverse)
  pub table : Str
  pub named : find_tree table f.forest ≡ some root
  pub at : IsAt f.nodes root place traverse
  pub way : Guided f.nodes root v place
  pub ciphertext : traverse.ciphertext ≡ some v
  pub request : traverse.request_add ≡ some r

-- A holder after a change to the walk under the id `i`.
pub record Changed (h : BTreeTraverseHolder) (i : ℕ) (h' : BTreeTraverseHolder) : Type 0 where
  pub address : ℕ
  pub traverse : BTreeTraverse
  pub held : find_traverse i h.traverses ≡ some (some address)
  pub stored : h' ≡ store_traverse address traverse h

-- The row as it goes to the table, with the code of a place.
abbrev pub coded_row : RequestAdd → List Side → Row
coded_row r place = assign (last_ope [] r.row) (format_path (code place)) r.row

module _ {ℓ} {D : Type ℓ} (db : Database D) where
  -- What a turn of a walk leads to, as the answer to the request `id`.
  pub data Continued (s : WorkerState D) (i id root : ℕ) (r : RequestAdd) (v c : Ciphertext)
      (place : List Side) : Answered db → Type ℓ where
    asks :
        (s' : WorkerState D) (d : Side) (b : Ciphertext)
        → compare_str c v ≡ turn_order d
        → s'.forest ≡ s.forest
        → s'.database ≡ s.database
        → s'.replies ≡ s.replies
        → Holds s.forest.nodes root (d ∷ place) b
        → Walking s.forest s'.holder i root r v (d ∷ place)
        → Changed s.holder i s'.holder
        → Continued s i id root r v c place
            (some (add_traverse (record { init_request_id = i; ciphertext = b }), s'))
    stores :
        (s' : WorkerState D) (d : Side)
        → compare_str c v ≡ turn_order d
        → s'.forest.forest ≡ s.forest.forest
        → s'.database ≡ (db.add r.database r.table (coded_row r (d ∷ place)) s.database).1
        → s'.replies ≡ s.replies
        → IsForest s'.forest
        → Holds s'.forest.nodes root (d ∷ place) v
        → Grew s.forest.nodes s'.forest.nodes
        → Spreads s.forest s'.forest v
        → (between : BTreeTraverseHolder) → Changed s.holder i between
        → s'.holder ≡ remove_traverse id between
        → Continued s i id root r v c place (some (add_ok, s'))
    ignores :
        (s' : WorkerState D)
        → compare_str c v ≡ Ordering.eq
        → s'.forest ≡ s.forest
        → s'.database ≡ s.database
        → s'.replies ≡ s.replies
        → s'.holder ≡ s.holder
        → Continued s i id root r v c place (some (add_ok, s'))

pub ask_lem :
    (i : ℕ) (nodes : List BTreeNode) (t : BTreeTraverse) (n : BTreeNode) (c : Ciphertext)
    → get_elem? nodes t.current ≡ some n
    → n.ciphertext ≡ some c
    → ask i nodes t ≡ some (add_traverse (record { init_request_id = i; ciphertext = c }))
unfolding ask value
ask_lem i nodes t n c here e = ground arith

-- The node at a place has a value.
pub holds_value :
    (f : BTreeForest) (ok : IsForest f) (table : Str) (root : ℕ)
    → find_tree table f.forest ≡ some root
    → (place : List Side) (a : ℕ) → Reaches f.nodes root place a
    → (n : BTreeNode) × (get_elem? f.nodes a ≡ some n) × (c : Ciphertext) × (n.ciphertext ≡ some c)
holds_value f ok table root named place a way =
    let (n, here) = get_elem?-inside f.nodes a (Reaches-inside (ok.tree table root named) way) in
    let (c, e) = ok.filled a n here in (n, here, c, e)
