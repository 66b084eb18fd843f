-- ===== src/Client/Queue/Safety.antt =====
-- plugin/test.cpp: executors delete themselves, and nothing of them is called after that.
use zql.Prelude.{
  ℕ, ◌<◌, ◌≡◌, refl, sym, ap, ◌∙◌, inl, inr, some, List, [], ◌∷◌, ◌++◌, length, length-append,
  get_elem?, get_elem?-append, take, arith,
}
use mathlib.Core.Path.{subst}
use mathlib.Core.Option.{some-injective}
use zql.Worker.Fields.{digits_of}
use zql.Client.{InsertExecutor}
use zql.Client.Listener.{
  ClientState, run_executor, executor_add_ok, executor_add_traverse, hand_over,
}
use zql.Client.Queue.{
  ClientProcess, run_at, Reachable, started, tests, sends, takes, runs, hears_ok, hears_traverse,
}
use zql.Client.Queue.Order.{
  IsInOrder, Reachable-IsInOrder, hand_over_cases, send_request-some, Option-cases,
}
use zql.Client.Queue.Upto.{upto, get_elem?-upto, length-upto}
use zql.Client.Queue.Heeding.{
  IsAlive, Heeds, Heeds-new, Heeds-executor_add_ok, Heeds-executor_add_traverse, Heeds-run_at,
}

-- Every response is handed to an executor that is alive or to none, and the next executor that `main`
-- runs is alive.
pub record IsSafe (memory : ℕ → List ℕ) (rand : ℕ → ℕ) (p : ClientProcess) : Type 0 where
  pub hands_over :
      (id : ℕ) (act : ℕ → InsertExecutor → ClientState → ClientState)
      → (c : ClientState) × (hand_over memory rand id act p.client ≡ some c)
  pub runs_next :
      (a : ℕ) (rest : List ℕ)
      → p.taken ≡ a ∷ rest
      → (c : ClientState) × (run_at memory rand a p.client ≡ some c)

-- The first of those that are taken is the next one after those that have been run.
next_of :
    (p : ClientProcess) (a : ℕ) (rest : List ℕ)
    → IsInOrder p
    → p.taken ≡ a ∷ rest
    → (a ≡ length p.begun) × (a < length p.client.executors)
next_of p a rest h first = (is, omega (arith, is, inside))
  where
    later : List ℕ
    later = rest ++ take p.queue.offset p.queue.cells

    all : p.begun ++ (a ∷ later) ≡ upto (length p.client.executors) 0
    all = ap (λ l. p.begun ++ (l ++ take p.queue.offset p.queue.cells)) (sym first) ∙ h.order

    inside : length p.begun < length p.client.executors
    inside = omega (
      arith,
      length-append p.begun (a ∷ later),
      ap length all,
      length-upto (length p.client.executors) 0,
    )

    is : a ≡ length p.begun
    is = some-injective _ _ (
        sym (get_elem?-append p.begun a later)
        ∙ ap (λ l. get_elem? l (length p.begun)) all
        ∙ get_elem?-upto (length p.client.executors) 0 (length p.begun) inside
        ∙ ap some (omega arith))

module _ (memory : ℕ → List ℕ) (rand : ℕ → ℕ) where
  heeds :
      (cells : List ℕ) (p : ClientProcess)
      → length cells ≡ 1000
      → Reachable memory rand cells p
      → Heeds p.client (length p.begun)
  heeds cells p size started = record {
    run = λ id a at. absurd (cc);
    alive = λ id a at. absurd (cc);
    once = λ i j a at at'. absurd (cc);
    waiting = λ a from inside. absurd (omega (arith, inside));
  }
  heeds cells p size (tests {p = q} r unseen more short) = heeds cells q size r
  heeds cells p size (sends {p = q} {p' = q'} r seen e) =
      let h = Reachable-IsInOrder memory rand cells q size r in
      let made =
        send_request-some memory rand q.next (digits_of 5 q.next []) q
          (omega (arith, h.seen_short seen, h.size)) in
      subst (λ x. Heeds x.client (length x.begun)) (some-injective _ _ (sym made ∙ e))
        (Heeds-new (length q.begun) q.client _ (heeds cells q size r))
  heeds cells p size (takes {p = q} r idle) = heeds cells q size r
  heeds cells p size (runs {p = q} {a = a} {rest = rest} {c = c} r first e) =
      let h = heeds cells q size r in
      let (is, inside) = next_of q a rest (Reachable-IsInOrder memory rand cells q size r) first in
      subst (λ n. Heeds c n) (omega (arith, is, length-append q.begun (a ∷ [])))
        (Heeds-run_at memory rand a q.client c (subst (λ n. Heeds q.client n) (sym is) h) e
          (h.waiting a (omega (arith, is)) inside))
  heeds cells p size (hears_ok {p = q} {c = c} id r idle e) =
      let h = heeds cells q size r in
      elim (hand_over_cases memory rand id (executor_add_ok memory rand id) q.client c e) [
        | inl same ↦ subst (λ k. Heeds k (length q.begun)) (sym same) h
        | inr (a, x, at, here, is) ↦
            subst (λ k. Heeds k (length q.begun)) (sym is)
              (Heeds-executor_add_ok memory rand id a (length q.begun) x q.client h at)
      ]
  heeds cells p size (hears_traverse {p = q} {c = c} id response r idle e) =
      let h = heeds cells q size r in
      elim (hand_over_cases memory rand id
        (λ a x k. executor_add_traverse memory rand id a response x k) q.client c e) [
          | inl same ↦ subst (λ k. Heeds k (length q.begun)) (sym same) h
          | inr (a, x, at, here, is) ↦
              subst (λ k. Heeds k (length q.begun)) (sym is)
                (Heeds-executor_add_traverse memory rand id a (length q.begun) response x q.client h
                  at)
        ]

  handed :
      (id begun : ℕ) (act : ℕ → InsertExecutor → ClientState → ClientState) (c : ClientState)
      → Heeds c begun
      → (c' : ClientState) × (hand_over memory rand id act c ≡ some c')
  unfolding hand_over
  handed id begun act c h = elim (Option-cases (c.listeners id)) [
    | inl missing ↦ (c, rw (missing, hand_over) refl)
    | inr (a, at) ↦ let (e, here) = h.alive id a at in (act a e c, rw (at, here, hand_over) refl)
  ]

  ran :
      (a : ℕ) (c : ClientState)
      → IsAlive a c
      → (c' : ClientState) × (run_at memory rand a c ≡ some c')
  unfolding run_at
  ran a c (e, here) = (run_executor memory rand a e c, rw (here, run_at) refl)

  -- Whatever ids `rand` gives, whatever responses come and in whatever order the steps of the two
  -- threads are, no method of an executor is called that is deleted: a response is handed to an
  -- executor that is alive or to none, and the next executor that `main` runs is alive.
  pub Reachable-IsSafe :
      (cells : List ℕ) (p : ClientProcess)
      → length cells ≡ 1000
      → Reachable memory rand cells p
      → IsSafe memory rand p
  Reachable-IsSafe cells p size r =
      let h = heeds cells p size r in
      record {
        hands_over = λ id act. handed id (length p.begun) act p.client h;
        runs_next = λ a rest first.
            let (is, inside) =
              next_of p a rest (Reachable-IsInOrder memory rand cells p size r) first in
            ran a p.client (h.waiting a (omega (arith, is)) inside);
      }
