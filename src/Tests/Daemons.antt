-- ===== src/Tests/Daemons.antt =====
-- The start and the end of the plugin at a system that keeps the threads in a list.
use zql.Prelude.{ℕ, suc, ◌+◌, ◌≤◌, ◌≡◌, ◌≢◌, refl, none, some, List, [], ◌∷◌, ◌++◌, All, arith}
use mathlib.Core.Path.{subst}
use zql.Daemon.{
  Start, daemonize, System, ZqlDaemon, WorkerThread, open_daemon, open_sockets, start_daemon,
  new_workers, new_worker, daemon_zql_init, daemon_zql_deinit,
}
use zql.Daemon.Threads.{Threads, without, KeepsThreads, numbered, starts, starts-daemon_zql_deinit}

abbrev total : Threads → ℕ
total [] = 0
total (t ∷ ts) = t.0 + total ts

-- A thread's number is above the sum of those that run.
abbrev listed : System Threads
listed = record {
  pthread_create = λ size st s. (some (suc (total s)), s ++ ((suc (total s), st) ∷ []));
  pthread_cancel = λ h s. s;
  pthread_join = λ h s. without h s;
  zmq_ctx_new = λ s. (1, s);
  zmq_socket = λ c k s. (2, s);
  zmq_bind = λ c e s. s;
  zmq_proxy = λ f b s. s;
  zmq_close = λ c s. s;
  zmq_ctx_destroy = λ c s. s;
}

total_above : (n : ℕ) (ts : Threads) → total ts ≤ n → All (λ t. t.0 ≢ suc n) ts
total_above n [] below = tt
total_above n (t ∷ ts) below =
    (λ e. omega (arith, e, below), total_above n ts (omega (arith, below)))

created_head :
    (st : Start) (s : Threads) (h : ℕ)
    → some (suc (total s)) ≡ some h
    → s ++ ((suc (total s), st) ∷ []) ≡ s ++ ((h, st) ∷ [])
created_head st s h e = cc

created_fresh : (s : Threads) (h : ℕ) → some (suc (total s)) ≡ some h → All (λ t. t.0 ≢ h) s
created_fresh s h e =
    subst (λ k. All (λ t. t.0 ≢ k) s) number (total_above (total s) s (omega arith))
  where
    number : suc (total s) ≡ h
    number = cc

listed-KeepsThreads : KeepsThreads listed (λ s. s)
listed-KeepsThreads = record {
  created = λ size st s h e. created_head st s h e;
  fresh = λ size st s h e. created_fresh s h e;
  ended = λ h s. refl;
  context = λ s. refl;
  socket = λ c k s. refl;
  bound = λ c e s. refl;
}

-- the thread of another daemon
abbrev before : Threads
before = (5, daemonize) ∷ []

abbrev with_daemon : Threads
with_daemon = before ++ ((6, daemonize) ∷ [])

abbrev the_daemon : ZqlDaemon
the_daemon = record { thread = 6; context = none; frontend_socket = none; backend_socket = none }

begun_is : daemon_zql_init listed before ≡ some (the_daemon, with_daemon)
unfolding daemon_zql_init start_daemon
begun_is = refl

abbrev opened : List WorkerThread × ZqlDaemon × Threads
opened = elim (open_daemon listed the_daemon with_daemon) [
  | none ↦ ([], the_daemon, [])
  | some r ↦ r
]

opened_is : open_daemon listed the_daemon with_daemon ≡ some opened
unfolding open_daemon open_sockets new_workers new_worker
opened_is = refl

starts-daemon_zql_deinit_example :
    starts (daemon_zql_deinit listed opened.1 opened.2) ≡ daemonize ∷ numbered 30 1
starts-daemon_zql_deinit_example =
    starts-daemon_zql_deinit listed (λ s. s) listed-KeepsThreads the_daemon opened.1 before
      with_daemon opened.2 opened.0 begun_is opened_is
