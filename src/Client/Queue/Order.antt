-- ===== src/Client/Queue/Order.antt =====
-- plugin/test.cpp: the bounds of the queue of executors and the order in which they are run.
use zql.Prelude.{
  ◌⊎◌, inl, inr, ℕ, suc, ◌<◌, ◌≤◌, ◌≡◌, refl, sym, ap, ◌∙◌, true, false, Option, none, some, List,
  [], ◌∷◌, ◌++◌, append_assoc, append-nil, length, length-set, take, set, get_elem?, arith,
}
use mathlib.Core.Path.{subst}
use mathlib.Core.Option.{some-injective}
use zql.Objects.Row.{Str}
use zql.Worker.Fields.{digits_of}
use zql.Objects.Response.{ResponseAddTraverse}
use zql.Client.{InsertExecutor, new_insert_executor}
use zql.Client.Listener.{
  ClientState, run_executor, post_request, put_listener, executor_add_ok, executor_add_traverse,
  hand_over,
}
use zql.Client.Queue.{
  test_database, test_table, request_row, ExecutorQueue, add_executor, take_executors,
  ClientProcess, new_process, send_request, run_at, Reachable, started, tests, sends, takes, runs,
  hears_ok, hears_traverse,
}
use zql.Client.Queue.Upto.{upto, one_more, more_queued}

-- The offset stays within the cells, with room for one more executor; and the executors that have been
-- run, those that are taken and those in the queue are all that were made, in the order in which
-- they were made.
pub record IsInOrder (p : ClientProcess) : Type 0 where
  pub size : length p.queue.cells ≡ 1000
  pub short : p.queue.offset ≤ 900
  pub seen_short : p.seen ≡ true → p.queue.offset < 900
  pub order :
      p.begun ++ (p.taken ++ take p.queue.offset p.queue.cells) ≡ upto (length p.client.executors) 0
  pub next : p.next ≡ suc (length p.client.executors)
  pub adds : (a : ℕ) → (q : ExecutorQueue) × (add_executor a p.queue ≡ some q)

pub Option-cases {ℓ} : {A : Type ℓ} → (o : Option A) → (o ≡ none) ⊎ ((a : A) × (o ≡ some a))
Option-cases none = inl refl
Option-cases (some a) = inr (a, refl)

add_executor-some :
    (a : ℕ) (q : ExecutorQueue)
    → q.offset < length q.cells
    → add_executor a q ≡ some (record { cells = set q.cells q.offset a; offset = suc q.offset })
unfolding add_executor
add_executor-some a q inside = ground arith

in_order :
    (p : ClientProcess)
    → length p.queue.cells ≡ 1000
    → p.queue.offset ≤ 900
    → (p.seen ≡ true → p.queue.offset < 900)
    → p.begun ++ (p.taken ++ take p.queue.offset p.queue.cells) ≡ upto (length p.client.executors) 0
    → p.next ≡ suc (length p.client.executors)
    → IsInOrder p
in_order p size short seen_short order next = record {
  size = size;
  short = short;
  seen_short = seen_short;
  order = order;
  next = next;
  adds = λ a. (_, add_executor-some a p.queue (omega arith));
}

-- A step of the client that makes no executor.
keeps_order :
    (p : ClientProcess) (c : ClientState)
    → length c.executors ≡ length p.client.executors
    → IsInOrder p
    → IsInOrder (record p { client = c })
keeps_order p c same h =
    in_order (record p { client = c }) h.size h.short h.seen_short
      (h.order ∙ ap (λ n. upto n 0) (sym same)) (h.next ∙ ap suc (sym same))

-- What `send_request` makes.
abbrev pub after_send : (id : ℕ) → (value : Str) → ClientProcess → ClientProcess
after_send id value p = record p {
  client = record p.client {
    executors =
        p.client.executors
        ++ (some (new_insert_executor test_database test_table (request_row id value)) ∷ []);
  };
  queue = record {
    cells = set p.queue.cells p.queue.offset (length p.client.executors);
    offset = suc p.queue.offset;
  };
}

module _ (memory : ℕ → List ℕ) (rand : ℕ → ℕ) where
  -- A response for no executor, or for one that is alive.
  pub hand_over_cases :
      (id : ℕ) (act : ℕ → InsertExecutor → ClientState → ClientState) (c c' : ClientState)
      → hand_over memory rand id act c ≡ some c'
      → (c' ≡ c)
        ⊎ ((a : ℕ) × (e : InsertExecutor) × (c.listeners id ≡ some a)
            × (get_elem? c.executors a ≡ some (some e))
            × (c' ≡ act a e c))
  unfolding hand_over
  hand_over_cases id act c c' h = elim (Option-cases (c.listeners id)) [
    | inl missing ↦ inl (ground arith)
    | inr (a, at) ↦ elim (Option-cases (get_elem? c.executors a)) [
      | inl outside ↦ absurd (ground arith)
      | inr (none, gone) ↦ absurd (ground arith)
      | inr (some e, here) ↦ inr (a, e, at, here, ground arith)
    ]
  ]

  pub length-hand_over :
      (id : ℕ) (act : ℕ → InsertExecutor → ClientState → ClientState) (c c' : ClientState)
      → ((a : ℕ) (e : InsertExecutor) → length (act a e c).executors ≡ length c.executors)
      → hand_over memory rand id act c ≡ some c'
      → length c'.executors ≡ length c.executors
  length-hand_over id act c c' keeps h = elim (hand_over_cases id act c c' h) [
    | inl same ↦ ap (λ x. length x.executors) same
    | inr (a, e, at, here, is) ↦ ap (λ x. length x.executors) is ∙ keeps a e
  ]

  length-run_at :
      (a : ℕ) (c c' : ClientState)
      → run_at memory rand a c ≡ some c'
      → length c'.executors ≡ length c.executors
  unfolding run_at run_executor post_request put_listener
  length-run_at a c c' h = ground arith

  after_take :
      (p : ClientProcess)
      → p.taken ≡ []
      → IsInOrder p
      → IsInOrder
          (record p { queue = (take_executors p.queue).1; taken = (take_executors p.queue).0 })
  unfolding take_executors
  after_take p idle h =
      in_order (record p { queue = (take_executors p.queue).1; taken = (take_executors p.queue).0 })
        h.size (omega arith) (λ e. omega arith)
        (ap (λ l. p.begun ++ l) (append-nil (take p.queue.offset p.queue.cells))
          ∙ ap (λ l. p.begun ++ (l ++ take p.queue.offset p.queue.cells)) (sym idle)
          ∙ h.order)
        h.next

  length-executor_add_ok :
      (id a : ℕ) (e : InsertExecutor) (c : ClientState)
      → length (executor_add_ok memory rand id a e c).executors ≡ length c.executors
  unfolding executor_add_ok put_listener
  length-executor_add_ok id a e c = length-set c.executors a none

  length-executor_add_traverse :
      (id a : ℕ) (r : ResponseAddTraverse) (e : InsertExecutor) (c : ClientState)
      → length (executor_add_traverse memory rand id a r e c).executors ≡ length c.executors
  unfolding executor_add_traverse post_request put_listener
  length-executor_add_traverse id a r e c = refl

  pub send_request-some :
      (id : ℕ) (value : List ℕ) (p : ClientProcess)
      → p.queue.offset < length p.queue.cells
      → send_request id value p ≡ some (after_send id value p)
  unfolding send_request
  send_request-some id value p inside =
      rw (add_executor-some (length p.client.executors) p.queue inside, send_request) refl

  after_send-IsInOrder :
      (id : ℕ) (value : List ℕ) (p : ClientProcess)
      → IsInOrder p
      → p.seen ≡ true
      → IsInOrder (record (after_send id value p) { seen = false; next = suc p.next })
  after_send-IsInOrder id value p h seen =
      in_order (record (after_send id value p) { seen = false; next = suc p.next })
        (length-set p.queue.cells p.queue.offset (length p.client.executors) ∙ h.size)
        (omega (arith, h.seen_short seen)) (λ e. absurd (cc))
        (more_queued p.begun p.taken p.queue.cells p.queue.offset (length p.client.executors)
            (omega (arith, h.seen_short seen, h.size)) h.order
          ∙ ap (λ n. upto n 0) (sym (one_more p.client.executors _)))
        (ap suc (h.next ∙ sym (one_more p.client.executors _)))

  -- However the thread that makes executors and the loop that runs them alternate, every executor is
  -- added within the cells of the queue, and they are run in the order in which they were made, each
  -- once and none left out: those that were made are the ones that have been run, the ones that are
  -- taken and the ones in the queue, one after the other.
  pub Reachable-IsInOrder :
      (cells : List ℕ) (p : ClientProcess)
      → length cells ≡ 1000
      → Reachable memory rand cells p
      → IsInOrder p
  Reachable-IsInOrder cells p size started =
      in_order (new_process cells) size (omega arith) (λ e. absurd (cc)) refl refl
  Reachable-IsInOrder cells p size (tests {p = q} r unseen more short) =
      let h = Reachable-IsInOrder cells q size r in
      in_order (record q { seen = true }) h.size h.short (λ e. short) h.order h.next
  Reachable-IsInOrder cells p size (sends {p = q} {p' = q'} r seen e) =
      let h = Reachable-IsInOrder cells q size r in
      let made =
        send_request-some q.next (digits_of 5 q.next []) q
          (omega (arith, h.seen_short seen, h.size)) in
      subst (λ x. IsInOrder (record x { seen = false; next = suc q.next }))
        (some-injective _ _ (sym made ∙ e))
        (after_send-IsInOrder q.next (digits_of 5 q.next []) q h seen)
  Reachable-IsInOrder cells p size (takes {p = q} r idle) =
      let h = Reachable-IsInOrder cells q size r in after_take q idle h
  Reachable-IsInOrder cells p size (runs {p = q} {a = a} {rest = rest} {c = c} r first e) =
      let h = Reachable-IsInOrder cells q size r in
      let moved : IsInOrder (record q { taken = rest; begun = q.begun ++ (a ∷ []) }) =
        in_order (record q { taken = rest; begun = q.begun ++ (a ∷ []) }) h.size h.short
          h.seen_short
          (append_assoc q.begun (a ∷ []) (rest ++ take q.queue.offset q.queue.cells)
            ∙ ap (λ l. q.begun ++ (l ++ take q.queue.offset q.queue.cells)) (sym first)
            ∙ h.order)
          h.next in
      keeps_order (record q { taken = rest; begun = q.begun ++ (a ∷ []) }) c
        (length-run_at a q.client c e) moved
  Reachable-IsInOrder cells p size (hears_ok {p = q} {c = c} id r idle e) =
      keeps_order q c
        (length-hand_over id (executor_add_ok memory rand id) q.client c
          (λ a e. length-executor_add_ok id a e q.client) e)
        (Reachable-IsInOrder cells q size r)
  Reachable-IsInOrder cells p size (hears_traverse {p = q} {c = c} id response r idle e) =
      keeps_order q c
        (length-hand_over id (λ a e c. executor_add_traverse memory rand id a response e c) q.client
          c (λ a e. length-executor_add_traverse id a response e q.client) e)
        (Reachable-IsInOrder cells q size r)
