-- ===== src/Worker/Starts.antt =====
-- The start of a walk at the worker of plugin/Worker.cpp: `OnRequestAdd` where the table has a tree.
use zql.Prelude.{
  ℕ, ◌≡◌, ◌≢◌, refl, ◌∙◌, ◌++◌, some, List, [], ◌∷◌, length, length-append, arith,
  get_elem?-append_at, get_elem?-set_at,
}
use zql.Objects.Row.{Str}
use zql.Objects.Request.{RequestAdd}
use zql.Objects.Response.{Ciphertext, add_traverse}
use zql.BTree.{BTreeTraverse, find_tree}
use zql.BTree.Traverse.{new_traverse}
use zql.BTree.Holder.{create_traverse, find_traverse-assign_traverse}
use zql.BTree.Nodes.{Side, at_root}
use zql.BTree.Codes.{bits}
use zql.BTree.Memory.{IsPlanted}
use zql.Worker.{Database, WorkerState}
use zql.Worker.Answer.{start_walk, load_traverse, store_traverse}
use zql.Worker.Holding.{
  IsKept, store_traverse-IsKept, create_traverse-IsKept, Standing-store_traverse,
  Standing-create_traverse,
}
use zql.Worker.Walks.{ask_lem}
use zql.Worker.Standing.{Standing}
use zql.Worker.Steering.{has_ciphertext}

module _ {ℓ} {D : Type ℓ} (db : Database D) (s : WorkerState D) (ok : IsPlanted s.forest)
    (id root : ℕ) (r : RequestAdd) (v : Ciphertext) (table : Str)
    (named : find_tree table s.forest.forest ≡ some root) where
  abbrev pub new_walk : BTreeTraverse
  new_walk = record (new_traverse root (some v)) { request_add = some r }

  abbrev pub started : WorkerState D
  started = record s {
    holder =
        store_traverse (length s.holder.heap) new_walk
          (create_traverse id root (some v) s.holder).1;
  }

  pub start_walk_lem :
      (c : Ciphertext) × (start_walk db id r v root s
        ≡ some (add_traverse (record { init_request_id = id; ciphertext = c }), started))
  unfolding start_walk load_traverse store_traverse create_traverse new_traverse
  start_walk_lem =
      let (n, here, c, value) = has_ciphertext s.forest ok table named at_root in
      (
        c,
        rw
            (
              get_elem?-append_at s.holder.heap (some (new_traverse root (some v))),
              start_walk,
              load_traverse,
              ask_lem id s.forest.nodes new_walk n c here value,
            )
            refl,
      )

  pub started-Standing : Standing s.forest started.holder id root r []
  unfolding store_traverse create_traverse new_traverse bits
  started-Standing = record {
    address = length s.holder.heap;
    traverse = new_walk;
    held =
        find_traverse-assign_traverse id id (some (length s.holder.heap)) s.holder.traverses
        ∙ ground arith;
    stands =
        get_elem?-set_at (s.holder.heap ++ (some (new_traverse root (some v)) ∷ []))
          (length s.holder.heap) (some new_walk)
          (omega (arith, length-append s.holder.heap (some (new_traverse root (some v)) ∷ [])));
    table = table;
    named = named;
    at = record { reaches = at_root; path = refl; path_length = refl };
    value = v;
    ciphertext = refl;
    request = refl;
  }

  module _ (kept : IsKept s.holder) where
    pub started-IsKept : IsKept started.holder
    started-IsKept =
        store_traverse-IsKept (create_traverse id root (some v) s.holder).1 (length s.holder.heap)
          new_walk (create_traverse-IsKept s.holder id root (some v) kept)

    -- The walk of another client.
    pub Standing-started :
        {j top : ℕ} {q : RequestAdd} {place : List Side}
        → Standing s.forest s.holder j top q place
        → id ≢ j
        → Standing s.forest started.holder j top q place
    unfolding create_traverse
    Standing-started walk other =
        Standing-store_traverse (Standing-create_traverse walk id root (some v) kept other) id
          (length s.holder.heap) new_walk (create_traverse-IsKept s.holder id root (some v) kept)
          (find_traverse-assign_traverse id id (some (length s.holder.heap)) s.holder.traverses
            ∙ ground arith)
          other
