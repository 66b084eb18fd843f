-- ===== src/Daemon.antt =====
-- plugin/ZqlDaemon.h and ZqlDaemon.cpp, the plugin's entry in plugin/zql.cpp, and the threads of the
-- workers of plugin/Worker.cpp. What the threads and the sockets do is an argument.
pub mod Threads
use zql.Prelude.{ℕ, zero, suc, ◌+◌, ◌*◌, Option, none, some, List, [], ◌∷◌}
use zql.Objects.Row.{Str}

-- What a thread runs: `daemonize`, or `start_worker` with the worker of a number.
pub data Start : Type 0 where
  daemonize : Start
  start_worker : ℕ → Start

pub data Kind : Type 0 where
  router dealer : Kind

-- The calls of the threads and of ZeroMQ. Sockets, contexts and threads go by numbers.
pub record System {ℓ} (S : Type ℓ) : Type ℓ where
  -- with the stack size that is set, if one is; `none` where it fails
  pub pthread_create : (stack_size : Option ℕ) → Start → S → Option ℕ × S
  pub pthread_cancel : ℕ → S → S
  pub pthread_join : ℕ → S → S
  pub zmq_ctx_new : S → ℕ × S
  pub zmq_socket : (context : ℕ) → Kind → S → ℕ × S
  pub zmq_bind : (socket : ℕ) → (endpoint : Str) → S → S
  pub zmq_proxy : (frontend backend : ℕ) → S → S
  pub zmq_close : ℕ → S → S
  pub zmq_ctx_destroy : ℕ → S → S

-- "tcp://*:9990" and "inproc://zql"
abbrev pub frontend_endpoint : Str
frontend_endpoint = 116 ∷ 99 ∷ 112 ∷ 58 ∷ 47 ∷ 47 ∷ 42 ∷ 58 ∷ 57 ∷ 57 ∷ 57 ∷ 48 ∷ []

abbrev pub backend_endpoint : Str
backend_endpoint = 105 ∷ 110 ∷ 112 ∷ 114 ∷ 111 ∷ 99 ∷ 58 ∷ 47 ∷ 47 ∷ 122 ∷ 113 ∷ 108 ∷ []

abbrev pub worker_count : ℕ
worker_count = 30

-- The daemon after `start`, with the members that `run` sets.
pub record ZqlDaemon : Type 0 where
  pub thread : ℕ
  pub context : Option ℕ
  pub frontend_socket : Option ℕ
  pub backend_socket : Option ℕ

-- A worker with its thread.
pub record WorkerThread : Type 0 where
  pub number : ℕ
  pub thread : ℕ

module _ {ℓ} {S : Type ℓ} (system : System S) where
  -- `Worker::Worker`: `none` is `exit(0)`.
  unfoldable pub new_worker : (number : ℕ) → S → Option (WorkerThread × S)
  new_worker number s =
      let (thread, s1) = system.pthread_create (some (256 * 1024)) (start_worker number) s in
      elim thread [ none ↦ none | some t ↦ some (record { number = number; thread = t }, s1) ]

  -- `Worker::~Worker`
  unfoldable pub delete_worker : WorkerThread → S → S
  delete_worker w s = system.pthread_join w.thread (system.pthread_cancel w.thread s)

  -- `ZqlDaemon::start`
  unfoldable pub start_daemon : S → Option (ZqlDaemon × S)
  start_daemon s =
      let (thread, s1) = system.pthread_create none daemonize s in
      elim thread [
        | none ↦ none
        | some t ↦ some (
          record { thread = t; context = none; frontend_socket = none; backend_socket = none },
          s1,
        )
      ]

  -- `ZqlDaemon::~ZqlDaemon`
  unfoldable pub delete_daemon : ZqlDaemon → S → S
  delete_daemon d s = system.pthread_join d.thread (system.pthread_cancel d.thread s)

  -- The workers of `run`, as many as are left to make, from the number of the next one.
  unfoldable pub new_workers : (count number : ℕ) → S → Option (List WorkerThread × S)
  unfolding new_worker
  new_workers zero number s = some ([], s)
  new_workers (suc count) number s = elim (new_worker number s) [
    | none ↦ none
    | some (w, s1) ↦ elim (new_workers count (suc number) s1) [
      | none ↦ none
      | some (ws, s2) ↦ some (w ∷ ws, s2)
    ]
  ]

  -- The context and the sockets of `run`, bound.
  unfoldable pub open_sockets : S → ℕ × ℕ × ℕ × S
  open_sockets s =
      let (context, s1) = system.zmq_ctx_new s in
      let (frontend, s2) = system.zmq_socket context router s1 in
      let (backend, s3) = system.zmq_socket context dealer s2 in
      let s4 = system.zmq_bind frontend frontend_endpoint s3 in
      (context, frontend, backend, system.zmq_bind backend backend_endpoint s4)

  -- `ZqlDaemon::run` up to `zmq_proxy`, which does not return while the sockets live.
  unfoldable pub open_daemon : ZqlDaemon → S → Option (List WorkerThread × ZqlDaemon × S)
  unfolding new_workers open_sockets
  open_daemon d s =
      let (context, frontend, backend, s4) = open_sockets s in
      elim (new_workers worker_count 1 s4) [
        | none ↦ none
        | some (workers, s5) ↦ some (
          workers,
          record d {
            context = some context;
            frontend_socket = some frontend;
            backend_socket = some backend;
          },
          s5,
        )
      ]

  -- The rest of `ZqlDaemon::run`, for the sockets that it has opened.
  unfoldable pub close_daemon : (context frontend backend : ℕ) → S → S
  close_daemon context frontend backend s =
      system.zmq_ctx_destroy context
        (system.zmq_close backend (system.zmq_close frontend (system.zmq_proxy frontend backend s)))

  -- `daemon_zql_init`, with the daemon that it puts into `plugin->data`.
  unfoldable pub daemon_zql_init : S → Option (ZqlDaemon × S)
  unfolding start_daemon
  daemon_zql_init s = start_daemon s

  -- `daemon_zql_deinit`
  unfoldable pub daemon_zql_deinit : ZqlDaemon → S → S
  unfolding delete_daemon
  daemon_zql_deinit d s = delete_daemon d s
