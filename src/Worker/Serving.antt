-- ===== src/Worker/Serving.antt =====
-- What holds of the worker of plugin/Worker.cpp whatever the order of its clients' messages, what they
-- answer, and the bytes of the ciphertexts.
pub mod Requests
pub mod Answers
pub mod Reach
use zql.Prelude.{
  ℕ, ◌≡◌, ◌≢◌, refl, sym, ap, ◌∙◌, ◌==◌, ◌⊎◌, inl, inr, Option, none, some, List, if◌then◌else◌,
  arith,
}
use mathlib.Core.Path.{subst}
use zql.Objects.Row.{Str}
use zql.Objects.Response.{Response}
use zql.BTree.{find_tree}
use zql.BTree.Nodes.{Side, Reaches, same-or-other}
use zql.BTree.Memory.{IsPlanted}
use zql.Worker.{Database, WorkerState}
use zql.Worker.Standing.{Standing}
use zql.Worker.Holding.{IsKept, Standing-trees}
use zql.Worker.Clients.{Inserter, Inserters, put, IsServing}

-- There is one answer.
pub same_answer {ℓ} :
    {D : Type ℓ} {o : Option (Response × WorkerState D)} {x y : Response} {a b : WorkerState D}
    → o ≡ some (x, a)
    → o ≡ some (y, b)
    → (x ≡ y) × (a ≡ b)
same_answer {D = D} {x = x} {y} {a} {b} p q =
    let both : ◌≡◌ {A = Option (Response × WorkerState D)} (some (x, a)) (some (y, b)) =
      sym p ∙ q in
    (cc, cc)

pub put_cases :
    (i : ℕ) (o : Option Inserter) (live : Inserters) (j : ℕ) (w : Inserter)
    → put i o live j ≡ some w
    → ((i ≡ j) × (o ≡ some w)) ⊎ ((i ≢ j) × (live j ≡ some w))
put_cases i o live j w e = elim (same-or-other i j) [
  | inl same ↦ inl (same, ground arith)
  | inr other ↦ inr (other, ground (arith, other))
]

module _ {ℓ} {D : Type ℓ} (db : Database D) {s : WorkerState D} {live : Inserters}
    (ok : IsServing db s live) where
  -- The same trees and walks, whatever the database and the replies.
  pub unmoved :
      (s' : WorkerState D) → s'.forest ≡ s.forest → s'.holder ≡ s.holder → IsServing db s' live
  unmoved s' trees walks = record {
    forest = subst IsPlanted (sym trees) ok.forest;
    kept = subst IsKept (sym walks) ok.kept;
    walking = λ i w e.
        subst (λ f. Standing f s'.holder i w.root w.request w.place) (sym trees)
          (subst (λ h. Standing s.forest h i w.root w.request w.place) (sym walks)
            (ok.walking i w e));
  }

  -- Trees that have grown.
  pub grown_trees :
      (s' : WorkerState D)
      → IsPlanted s'.forest
      → ((root : ℕ) (p : List Side) (m : ℕ)
          → Reaches s.forest.nodes root p m
          → Reaches s'.forest.nodes root p m)
      → ((j : Str) (q : ℕ)
          → find_tree j s.forest.forest ≡ some q
          → find_tree j s'.forest.forest ≡ some q)
      → s'.holder ≡ s.holder
      → IsServing db s' live
  grown_trees s' trees grew found walks = record {
    forest = trees;
    kept = subst IsKept (sym walks) ok.kept;
    walking = λ i w e.
        Standing-trees
          (subst (λ h. Standing s.forest h i w.root w.request w.place) (sym walks)
            (ok.walking i w e))
          s'.forest (grew w.root) (λ table. found table w.root);
  }

  -- The client under `i` is new, has moved or has gone, and the others are as they were.
  pub renewed :
      (s' : WorkerState D) (i : ℕ) (o : Option Inserter)
      → IsPlanted s'.forest
      → IsKept s'.holder
      → ((w : Inserter) → o ≡ some w → Standing s'.forest s'.holder i w.root w.request w.place)
      → ((j : ℕ) (w : Inserter)
          → i ≢ j
          → live j ≡ some w
          → Standing s'.forest s'.holder j w.root w.request w.place)
      → IsServing db s' (put i o live)
  renewed s' i o trees kept one others = record {
    forest = trees;
    kept = kept;
    walking = λ j w e. serves j w e;
  }
    where
      serves :
          (j : ℕ) (w : Inserter)
          → put i o live j ≡ some w
          → Standing s'.forest s'.holder j w.root w.request w.place
      serves j w e = elim (put_cases i o live j w e) [
        | inl here ↦
            subst (λ k. Standing s'.forest s'.holder k w.root w.request w.place) here.0
              (one w here.1)
        | inr there ↦ others j w there.0 there.1
      ]
