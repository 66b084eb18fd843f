-- ===== src/Client/Queue.antt =====
-- plugin/test.cpp: the thread that makes executors, the queue that they go through, and the loop of
-- `main` that runs them.
mod Upto
pub mod Order
mod Heeding
pub mod Safety
use zql.Prelude.{
  ℕ, zero, suc, ◌+◌, ◌%◌, ◌^◌, ◌<◌, ◌≤◌, ◌≡◌, ltb, Bool, true, false, Option, none, some, List, [],
  ◌∷◌, ◌++◌, length, get_elem?, take, set, if◌then◌else◌,
}
use zql.Objects.Row.{Str, Row, assign}
use zql.Objects.Response.{ResponseAddTraverse}
use zql.Worker.Fields.{digits_of}
use zql.Client.{InsertExecutor, new_insert_executor}
use zql.Client.Listener.{
  ClientState, run_executor, executor_add_ok, executor_add_traverse, hand_over,
}

-- `executorQueue` with what its cells hold, which are addresses of executors, and
-- `executorQueueOffset`.
pub record ExecutorQueue : Type 0 where
  pub cells : List ℕ
  pub offset : ℕ

-- `none` is a write behind the cells.
unfoldable pub add_executor : ℕ → ExecutorQueue → Option ExecutorQueue
add_executor a q =
    if ltb q.offset (length q.cells)
    then some (record { cells = set q.cells q.offset a; offset = suc q.offset })
    else none

-- The part of the loop of `main` under the mutex: the executors that are copied.
unfoldable pub take_executors : ExecutorQueue → List ℕ × ExecutorQueue
take_executors q = (take q.offset q.cells, record q { offset = 0 })

-- "id", "data_ope", "testdatabase" and "testtable2"
abbrev pub id_key : Str
id_key = 105 ∷ 100 ∷ []

abbrev pub data_key : Str
data_key = 100 ∷ 97 ∷ 116 ∷ 97 ∷ 95 ∷ 111 ∷ 112 ∷ 101 ∷ []

abbrev pub test_database : Str
test_database = 116 ∷ 101 ∷ 115 ∷ 116 ∷ 100 ∷ 97 ∷ 116 ∷ 97 ∷ 98 ∷ 97 ∷ 115 ∷ 101 ∷ []

abbrev pub test_table : Str
test_table = 116 ∷ 101 ∷ 115 ∷ 116 ∷ 116 ∷ 97 ∷ 98 ∷ 108 ∷ 101 ∷ 50 ∷ []

-- The row of `send_request`: the assignment of an int to a string is that of the character.
unfoldable pub request_row : (id : ℕ) → (value : Str) → Row
request_row id value = assign data_key value (assign id_key ((id % 2 ^ 8) ∷ []) [])

-- The client with its queue. `next` is the number of `client_thread`, `seen` says whether the thread
-- has found the queue short enough for it. `taken` are the executors that `main` has taken from the
-- queue and not run yet, and `begun` those that it has run.
pub record ClientProcess : Type 0 where
  pub client : ClientState
  pub queue : ExecutorQueue
  pub next : ℕ
  pub seen : Bool
  pub taken : List ℕ
  pub begun : List ℕ

-- The new executor's address is the next one.
unfoldable pub send_request : (id : ℕ) → (value : Str) → ClientProcess → Option ClientProcess
unfolding add_executor request_row
send_request id value p =
    let e = new_insert_executor test_database test_table (request_row id value) in
    let a = length p.client.executors in
    elim (add_executor a p.queue) [
      | none ↦ none
      | some q ↦ some (record p {
        client = record p.client { executors = p.client.executors ++ (some e ∷ []) };
        queue = q;
      })
    ]

-- `main` has called `rand` for its identity.
abbrev pub new_process : (cells : List ℕ) → ClientProcess
new_process cells = record {
  client = record { executors = []; listeners = λ j. none; sent = []; successes = 0; rands = 0 };
  queue = record { cells = cells; offset = 0 };
  next = 1;
  seen = false;
  taken = [];
  begun = [];
}

module _ (memory : ℕ → List ℕ) (rand : ℕ → ℕ) where
  -- `Run` of an executor of the queue, and `none` for one that is deleted.
  unfoldable pub run_at : ℕ → ClientState → Option ClientState
  unfolding run_executor
  run_at a c = elim (get_elem? c.executors a) [
    | none ↦ none
    | some none ↦ none
    | some (some e) ↦ some (run_executor memory rand a e c)
  ]

  -- The steps of `client_thread` and of `main`, in any order. The thread reads the offset without the
  -- mutex, adds under it, and counts on; `main` takes the queue under the mutex, runs what it took one
  -- by one, and then its listener may get a response, of any id.
  pub data Reachable (cells : List ℕ) : ClientProcess → Type 0 where
    started : Reachable cells (new_process cells)
    tests :
        {p : ClientProcess}
        → Reachable cells p
        → p.seen ≡ false
        → p.next < 100000
        → p.queue.offset < 900
        → Reachable cells (record p { seen = true })
    sends :
        {p p' : ClientProcess}
        → Reachable cells p
        → p.seen ≡ true
        → send_request p.next (digits_of 5 p.next []) p ≡ some p'
        → Reachable cells (record p' { seen = false; next = suc p.next })
    takes :
        {p : ClientProcess}
        → Reachable cells p
        → p.taken ≡ []
        → Reachable cells
            (record p { queue = (take_executors p.queue).1; taken = (take_executors p.queue).0 })
    runs :
        {p : ClientProcess} {a : ℕ} {rest : List ℕ} {c : ClientState}
        → Reachable cells p
        → p.taken ≡ a ∷ rest
        → run_at a p.client ≡ some c
        → Reachable cells (record p { client = c; taken = rest; begun = p.begun ++ (a ∷ []) })
    hears_ok :
        {p : ClientProcess} {c : ClientState} (id : ℕ)
        → Reachable cells p
        → p.taken ≡ []
        → hand_over memory rand id (executor_add_ok memory rand id) p.client ≡ some c
        → Reachable cells (record p { client = c })
    hears_traverse :
        {p : ClientProcess} {c : ClientState} (id : ℕ) (r : ResponseAddTraverse)
        → Reachable cells p
        → p.taken ≡ []
        → hand_over memory rand id (λ a e c. executor_add_traverse memory rand id a r e c) p.client
          ≡ some c
        → Reachable cells (record p { client = c })
