-- ===== src/Tests/Queue.antt =====
-- The client of plugin/test.cpp makes an executor, runs it, and hears of its success.
use zql.Prelude.{ℕ, refl, true, false, List, [], ◌∷◌, replicate, arith}
use zql.Client.{InsertExecutor, new_insert_executor}
use zql.Client.Listener.{
  ClientState, executor_add_ok, hand_over, run_executor, post_request, put_listener,
}
use zql.Client.Queue.{
  ClientProcess, new_process, run_at, take_executors, Reachable, started, tests, sends, takes, runs,
  hears_ok, request_row, test_database, test_table,
}
use zql.Client.Queue.Order.{IsInOrder, Reachable-IsInOrder, after_send, send_request-some}
use zql.Client.Queue.Safety.{IsSafe, Reachable-IsSafe}
use zql.Worker.Fields.{digits_of}

abbrev cells : List ℕ
cells = replicate 1000 0

abbrev buffers : ℕ → List ℕ
buffers n = replicate n 0

-- the same id each time
abbrev ids : ℕ → ℕ
ids k = 7

abbrev ready : ClientProcess
ready = record (new_process cells) { seen = true }

abbrev one_sent : ClientProcess
one_sent = record (after_send 1 (digits_of 5 1 []) ready) { seen = false; next = 2 }

abbrev ready_again : ClientProcess
ready_again = record one_sent { seen = true }

abbrev two_sent : ClientProcess
two_sent = record (after_send 2 (digits_of 5 2 []) ready_again) { seen = false; next = 3 }

two_are_sent : Reachable buffers ids cells two_sent
two_are_sent =
    sends
      (tests
        (sends (tests started refl (omega arith) (omega arith)) refl
          (send_request-some buffers ids 1 (digits_of 5 1 []) ready (omega arith)))
        refl (omega arith) (omega arith))
      refl (send_request-some buffers ids 2 (digits_of 5 2 []) ready_again (omega arith))

abbrev both_taken : ClientProcess
both_taken = record two_sent {
  queue = (take_executors two_sent.queue).1;
  taken = (take_executors two_sent.queue).0;
}

both_are_taken : Reachable buffers ids cells both_taken
both_are_taken = takes two_are_sent refl

Reachable-IsInOrder_example : IsInOrder both_taken
Reachable-IsInOrder_example = Reachable-IsInOrder buffers ids cells both_taken refl both_are_taken

abbrev executor : ℕ → InsertExecutor
executor id = new_insert_executor test_database test_table (request_row id (digits_of 5 id []))

abbrev first_run : ClientState
first_run = run_executor buffers ids 0 (executor 1) both_taken.client

abbrev both_run : ClientState
both_run = run_executor buffers ids 1 (executor 2) first_run

abbrev heard : ClientState
heard = executor_add_ok buffers ids 7 1 (executor 2) both_run

-- The second executor has the id of the first.
abbrev second_deleted : ClientProcess
second_deleted = record both_taken { client = heard; taken = []; begun = 0 ∷ 1 ∷ [] }

second_is_deleted : Reachable buffers ids cells second_deleted
unfolding run_at hand_over run_executor post_request put_listener take_executors
second_is_deleted =
    hears_ok {p = record both_taken { client = both_run; taken = []; begun = 0 ∷ 1 ∷ [] }}
      {c = heard} 7
      (runs {p = record both_taken { client = first_run; taken = 1 ∷ []; begun = 0 ∷ [] }} {a = 1}
        {rest = []} {c = both_run}
        (runs {p = both_taken} {a = 0} {rest = 1 ∷ []} {c = first_run} both_are_taken refl refl)
        refl refl)
      refl refl

Reachable-IsSafe_example : IsSafe buffers ids second_deleted
Reachable-IsSafe_example = Reachable-IsSafe buffers ids cells second_deleted refl second_is_deleted
