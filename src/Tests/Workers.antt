-- ===== src/Tests/Workers.antt =====
-- Two threads of workers begin at a server with two threads of its own, and one of them ends.
use zql.Prelude.{[], ◌∷◌, arith}
use zql.Tests.Storage.{Store, lists, one_row}
use zql.Database.Threads.{
  Thd, Globals, ThreadServer, init_thread, deinit_thread, Ran, none_yet, begins, leaves, IsCounted,
  Ran-IsCounted,
}

abbrev plain : ThreadServer Store
plain = record {
  my_thread_init = λ s. s;
  my_thread_end = λ s. s;
  new_thd = λ s. (record { thread_stack = 0; system_thread = 0; thread_id = 0 }, s);
  delete_thd = λ t s. s;
  clear_net = λ t s. s;
  store_globals = λ t s. s;
  setspecific = λ t s. s;
  lock_thread_count = λ s. s;
  unlock_thread_count = λ s. s;
  append_thread = λ t s. s;
  lex_start = λ t s. s;
}

abbrev two_threads : Globals Store
two_threads = record { thread_id = 7; thread_count = 2; rest = one_row }

abbrev one : Thd × Globals Store
one = init_thread lists plain 4096 two_threads

abbrev two : Thd × Globals Store
two = init_thread lists plain 8192 one.1

both_inside : Ran lists plain two_threads (two.0 ∷ one.0 ∷ []) two.1
unfolding init_thread
both_inside =
    begins 8192 (begins 4096 (none_yet (omega arith)) (omega arith) (omega arith)) (omega arith)
      (omega arith)

Ran-IsCounted_example :
    IsCounted lists plain two_threads (two.0 ∷ []) (deinit_thread lists plain one.0 two.1)
Ran-IsCounted_example =
    Ran-IsCounted lists plain two_threads (deinit_thread lists plain one.0 two.1) (two.0 ∷ [])
      (leaves (two.0 ∷ []) [] one.0 both_inside)
