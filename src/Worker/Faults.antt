-- ===== src/Worker/Faults.antt =====
-- Walks that are not there, and walks that stay, at the worker of plugin/Worker.cpp.
use zql.Prelude.{
  ℕ, ◌≡◌, ◌≢◌, ◌<◌, refl, sym, ◌∙◌, Option, none, some, List, length, get_elem?, get_elem?-set_at,
  get_elem?-set_other, arith,
}
use mathlib.Core.Path.{subst}
use zql.Objects.Request.{RequestAdd}
use zql.Objects.Response.{Ciphertext, Response}
use zql.BTree.{BTreeTraverse}
use zql.BTree.Holder.{
  BTreeTraverseHolder, find_traverse, erase_traverse, delete_traverse, remove_traverse,
  find_traverse-erase_traverse,
}
use zql.BTree.Nodes.{Side}
use zql.BTree.Search.{Holds}
use zql.BTree.Forest.{IsForest}
use zql.Worker.{Database, WorkerState}
use zql.Worker.Answer.{answer_continue, Answered, store_traverse}
use zql.Worker.Walks.{Walking, Changed, Continued, asks, stores, ignores}
use zql.Worker.Turns.{honest, answer_continue-Continued}
use zql.Worker.Holding.{IsKept, store_traverse-IsKept}

-- A walk is held under an id.
pub record IsHeld (h : BTreeTraverseHolder) (i : ℕ) : Type 0 where
  pub address : ℕ
  pub traverse : BTreeTraverse
  pub held : find_traverse i h.traverses ≡ some (some address)
  pub stands : get_elem? h.heap address ≡ some (some traverse)

Changed-IsHeld : (h h' : BTreeTraverseHolder) (i : ℕ) → IsKept h → Changed h i h' → IsHeld h' i
unfolding store_traverse
Changed-IsHeld h h' i ok c =
    subst (λ x. IsHeld x i) (sym c.stored)
      (record {
        address = c.address;
        traverse = c.traverse;
        held = c.held;
        stands = get_elem?-set_at h.heap c.address (some c.traverse) (ok.inside i c.address c.held);
      })

remove_traverse-IsHeld :
    (h : BTreeTraverseHolder) (id i : ℕ)
    → IsKept h
    → IsHeld h i
    → id ≢ i
    → IsHeld (remove_traverse id h) i
unfolding remove_traverse delete_traverse
remove_traverse-IsHeld h id i ok w other = by_lookup (find_traverse id h.traverses) refl
  where
    erased : find_traverse i (erase_traverse id h.traverses) ≡ some (some w.address)
    erased = find_traverse-erase_traverse id i h.traverses ∙ ground (arith, other, w.held)

    by_lookup :
        (o : Option (Option ℕ)) → find_traverse id h.traverses ≡ o → IsHeld (remove_traverse id h) i
    by_lookup none e = rw (e, remove_traverse) w
    by_lookup (some none) e =
        rw (e, remove_traverse)
          (record { address = w.address; traverse = w.traverse; held = erased; stands = w.stands })
    by_lookup (some (some a)) e =
        rw (e, remove_traverse)
          (record {
            address = w.address;
            traverse = w.traverse;
            held = erased;
            stands =
                get_elem?-set_other h.heap a w.address none (λ k. other (
                  ok.apart id i a e
                    (subst (λ b. find_traverse i h.traverses ≡ some (some b)) (sym k) w.held)))
                ∙ w.stands;
          })

-- Whatever a client's comparison leads to, its walk is still held afterwards under the id of its
-- first request, also when the walk has ended, if the id of the last request is another one.
pub answer_continue-IsHeld {ℓ} :
    {D : Type ℓ} (db : Database D) (s : WorkerState D) (i id root : ℕ) (r : RequestAdd)
    (v c : Ciphertext) (place : List Side)
    → IsForest s.forest
    → IsKept s.holder
    → Walking s.forest s.holder i root r v place
    → Holds s.forest.nodes root place c
    → length place < 63
    → id ≢ i
    → (response : Response) × (s' : WorkerState D) × (answer_continue db id (honest i c v) s
        ≡ some (response, s'))
      × IsHeld s'.holder i
answer_continue-IsHeld {D = D} db s i id root r v c place ok kept w here room other =
    after (answer_continue db id (honest i c v) s)
      (answer_continue-Continued db s i id root r v c place ok w here room)
  where
    after :
        (o : Answered db)
        → Continued db s i id root r v c place o
        → (response : Response) × (s' : WorkerState D) × (o ≡ some (response, s'))
          × IsHeld s'.holder i
    after o (asks s1 e x turned trees base quiet there walk changed) =
        (_, s1, refl, Changed-IsHeld s.holder s1.holder i kept changed)
    after o (stores s1 e turned same base quiet grown there grew spread between changed removed) = (
      _,
      s1,
      refl,
      subst (λ h. IsHeld h i) (sym removed)
          (remove_traverse-IsHeld between id i
            (subst IsKept (sym changed.stored)
              (store_traverse-IsKept s.holder changed.address changed.traverse kept))
            (Changed-IsHeld s.holder between i kept changed) other),
    )
    after o (ignores s1 equal trees base quiet untouched) = (
      _,
      s1,
      refl,
      subst (λ h. IsHeld h i) (sym untouched)
          (record { address = w.address; traverse = w.traverse; held = w.held; stands = w.stands }),
    )
