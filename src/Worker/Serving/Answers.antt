-- ===== src/Worker/Serving/Answers.antt =====
-- `OnRequestAddContinue` of plugin/Worker.cpp with several clients.
use zql.Prelude.{ℕ, ◌≡◌, ◌≢◌, refl, sym, ◌∙◌, ◌<◌, Option, none, some, ◌∷◌, length}
use mathlib.Core.Path.{subst}
use mathlib.Core.Option.{some-injective}
use zql.Objects.Request.{RequestAddContinue}
use zql.Objects.Response.{Ciphertext, add_ok, add_traverse}
use zql.BTree.{find_tree}
use zql.BTree.Holder.{BTreeTraverseHolder, find_traverse}
use zql.BTree.Nodes.{Side}
use zql.BTree.Memory.{IsPlanted}
use zql.Worker.{Database, WorkerState}
use zql.Worker.Answer.{Answered, answer_continue}
use zql.Worker.Walks.{Changed}
use zql.Worker.Standing.{Standing, Steered, asks, stores, ignores, turn_of}
use zql.Worker.Steering.{answer_continue-Steered}
use zql.Worker.Holding.{
  IsKept, store_traverse-IsKept, remove_traverse-IsKept, Standing-store_traverse,
  Standing-remove_traverse, Standing-trees,
}
use zql.Worker.Clients.{Inserter, Inserters, put, IsServing}
use zql.Worker.Serving.{same_answer, unmoved, renewed}

module _ {ℓ} {D : Type ℓ} (db : Database D) {s : WorkerState D} {live : Inserters}
    (ok : IsServing db s live) where
  -- The client `w` under `i` answers, and the holder's change is to its walk.
  module _ (i id : ℕ) (w : Inserter) (q : RequestAddContinue) (waits : live i ≡ some w)
      (asked : q.init_request_id ≡ i) (room : length w.place < 63) where
    steered : Steered db s i id w.root w.request q w.place (answer_continue db id q s)
    steered =
        answer_continue-Steered db s ok.forest i id w.root w.request q w.place
          (ok.walking i w waits) asked room

    Changed-IsKept : (h : BTreeTraverseHolder) → Changed s.holder i h → IsKept h
    Changed-IsKept h c =
        subst IsKept (sym c.stored) (store_traverse-IsKept s.holder c.address c.traverse ok.kept)

    Standing-Changed :
        (h : BTreeTraverseHolder) (j : ℕ) (u : Inserter)
        → Changed s.holder i h
        → i ≢ j
        → live j ≡ some u
        → Standing s.forest h j u.root u.request u.place
    Standing-Changed h j u c other e =
        subst (λ x. Standing s.forest x j u.root u.request u.place) (sym c.stored)
          (Standing-store_traverse (ok.walking j u e) i c.address c.traverse ok.kept c.held other)

    pub goes_on-IsServing :
        (d : Side) (b : Ciphertext) (s' : WorkerState D)
        → turn_of q.compare_result ≡ some d
        → answer_continue db id q s
          ≡ some (add_traverse (record { init_request_id = i; ciphertext = b }), s')
        → IsServing db s' (put i (some (record w { place = d ∷ w.place })) live)
    goes_on-IsServing d b s' turned h = after (answer_continue db id q s) steered h
      where
        moves : Side → Inserter
        moves e = record w { place = e ∷ w.place }

        after :
            (o : Answered db)
            → Steered db s i id w.root w.request q w.place o
            → o ≡ some (add_traverse (record { init_request_id = i; ciphertext = b }), s')
            → IsServing db s' (put i (some (record w { place = d ∷ w.place })) live)
        after o (asks s1 e x turned' trees base walk changed) k =
            let same =
              same_answer {x = add_traverse (record { init_request_id = i; ciphertext = x })}
                {y = add_traverse (record { init_request_id = i; ciphertext = b })} {a = s1}
                {b = s'} refl k in
            let side : e ≡ d = some-injective e d (sym turned' ∙ turned) in
            subst (λ t. IsServing db t (put i (some (moves d)) live)) same.1
              (subst (λ p. IsServing db s1 (put i (some (moves p)) live)) side
                (renewed db ok s1 i (some (moves e)) (subst IsPlanted (sym trees) ok.forest)
                  (Changed-IsKept s1.holder changed)
                  (λ u n.
                    let this : moves e ≡ u = cc in
                    subst (λ z. Standing s1.forest s1.holder i z.root z.request z.place) this
                      (subst (λ f. Standing f s1.holder i w.root w.request (e ∷ w.place))
                        (sym trees) walk))
                  (λ j u other n.
                    subst (λ f. Standing f s1.holder j u.root u.request u.place) (sym trees)
                      (Standing-Changed s1.holder j u changed other n))))
        after o (stores s1 e a turned' same base grown there grew between changed removed) k =
            let no : add_ok ≡ add_traverse (record { init_request_id = i; ciphertext = b }) =
              (same_answer {x = add_ok}
                {y = add_traverse (record { init_request_id = i; ciphertext = b })} {a = s1}
                {b = s'} refl k).0 in
            absurd (cc)
        after o (ignores s1 equal same base untouched) k =
            let no : add_ok ≡ add_traverse (record { init_request_id = i; ciphertext = b }) =
              (same_answer {x = add_ok}
                {y = add_traverse (record { init_request_id = i; ciphertext = b })} {a = s1}
                {b = s'} refl k).0 in
            absurd (cc)

    pub ends-IsServing :
        (s' : WorkerState D)
        → find_traverse id s.holder.traverses ≡ none
        → answer_continue db id q s ≡ some (add_ok, s')
        → IsServing db s' (put i none live)
    ends-IsServing s' new h = after (answer_continue db id q s) steered h
      where
        none_is_none : (u : Inserter) → ◌≢◌ {A = Option Inserter} none (some u)
        none_is_none u x = cc

        apart_from : (j : ℕ) (u : Inserter) → live j ≡ some u → id ≢ j
        apart_from j u e same =
            let held =
              subst
                (λ k. find_traverse k s.holder.traverses ≡ some (some (ok.walking j u e).address))
                (sym same) (ok.walking j u e).held in
            differ _ (sym new ∙ held)
          where
            differ : (a : ℕ) → ◌≢◌ {A = Option (Option ℕ)} none (some (some a))
            differ a x = cc

        after :
            (o : Answered db)
            → Steered db s i id w.root w.request q w.place o
            → o ≡ some (add_ok, s')
            → IsServing db s' (put i none live)
        after o (asks s1 e x turned' trees base walk changed) k =
            let no : add_traverse (record { init_request_id = i; ciphertext = x }) ≡ add_ok =
              (same_answer {x = add_traverse (record { init_request_id = i; ciphertext = x })}
                {y = add_ok} {a = s1} {b = s'} refl k).0 in
            absurd (cc)
        after o (stores s1 e a turned' same base grown there grew between changed removed) k =
            subst (λ t. IsServing db t (put i none live))
              (same_answer {x = add_ok} {y = add_ok} {a = s1} {b = s'} refl k).1
              (renewed db ok s1 i none grown
                (subst IsKept (sym removed)
                  (remove_traverse-IsKept between id (Changed-IsKept between changed)))
                (λ u n. absurd (none_is_none u n))
                (λ j u other n.
                  Standing-trees
                    (subst (λ x. Standing s.forest x j u.root u.request u.place) (sym removed)
                      (Standing-remove_traverse (Standing-Changed between j u changed other n) id
                        (Changed-IsKept between changed) (apart_from j u n)))
                    s1.forest (λ p m old. grew u.root m p old)
                    (λ table m. subst (λ x. find_tree table x ≡ some u.root) (sym same) m)))
        after o (ignores s1 equal trees base untouched) k =
            let calm = unmoved db ok s1 trees untouched in
            subst (λ t. IsServing db t (put i none live))
              (same_answer {x = add_ok} {y = add_ok} {a = s1} {b = s'} refl k).1
              (renewed db ok s1 i none calm.forest calm.kept (λ u n. absurd (none_is_none u n))
                (λ j u other n. calm.walking j u n))
