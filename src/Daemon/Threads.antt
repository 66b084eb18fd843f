-- ===== src/Daemon/Threads.antt =====
-- The threads that plugin/zql.cpp, plugin/ZqlDaemon.cpp and plugin/Worker.cpp start and end.
use zql.Prelude.{
  ℕ, zero, suc, ◌≡◌, ◌≢◌, refl, sym, ap, ◌∙◌, Option, none, some, List, [], ◌∷◌, ◌++◌, append_assoc,
  append-nil, All, ◌==◌, ◌*◌, if◌then◌else◌, arith,
}
use mathlib.Core.Path.{subst}
use zql.Objects.Row.{Str}
use zql.Daemon.{
  Start, daemonize, start_worker, Kind, System, ZqlDaemon, WorkerThread, new_worker, new_workers,
  open_daemon, open_sockets, start_daemon, delete_daemon, daemon_zql_init, daemon_zql_deinit,
  worker_count,
}

abbrev pub Threads : Type 0
Threads = List (ℕ × Start)

abbrev pub without : ℕ → Threads → Threads
without h [] = []
without h (t ∷ ts) = if t.0 == h then without h ts else t ∷ without h ts

-- What the daemon relies on. A thread that is created runs beside those that run, under a number that
-- is none of theirs; one that is cancelled and joined runs no more; and sockets change no thread.
pub record KeepsThreads {ℓ} {S : Type ℓ} (system : System S) (running : S → Threads) : Type ℓ where
  pub created :
      (size : Option ℕ) (st : Start) (s : S) (h : ℕ)
      → (system.pthread_create size st s).0 ≡ some h
      → running (system.pthread_create size st s).1 ≡ running s ++ ((h, st) ∷ [])
  pub fresh :
      (size : Option ℕ) (st : Start) (s : S) (h : ℕ)
      → (system.pthread_create size st s).0 ≡ some h
      → All (λ t. t.0 ≢ h) (running s)
  pub ended :
      (h : ℕ) (s : S)
      → running (system.pthread_join h (system.pthread_cancel h s)) ≡ without h (running s)
  pub context : (s : S) → running (system.zmq_ctx_new s).1 ≡ running s
  pub socket : (c : ℕ) (k : Kind) (s : S) → running (system.zmq_socket c k s).1 ≡ running s
  pub bound : (c : ℕ) (e : Str) (s : S) → running (system.zmq_bind c e s) ≡ running s

-- The workers of the numbers from one on, and their threads.
abbrev pub numbered : (count number : ℕ) → List Start
numbered zero number = []
numbered (suc count) number = start_worker number ∷ numbered count (suc number)

abbrev pub starts : Threads → List Start
starts [] = []
starts (t ∷ ts) = t.1 ∷ starts ts

starts-append : (xs ys : Threads) → starts (xs ++ ys) ≡ starts xs ++ starts ys
starts-append [] ys = refl
starts-append (x ∷ xs) ys = ap (λ l. x.1 ∷ l) (starts-append xs ys)

without_others : (h : ℕ) (ts : Threads) → All (λ t. t.0 ≢ h) ts → without h ts ≡ ts
without_others h [] f = refl
without_others h (t ∷ ts) (other, f) = ground (arith, without_others h ts f, other)

without-append : (h : ℕ) (xs ys : Threads) → without h (xs ++ ys) ≡ without h xs ++ without h ys
without-append h [] ys = refl
without-append h (x ∷ xs) ys = ground (arith, without-append h xs ys)

All-middle :
    (h g : ℕ) (st : Start) (xs ys : Threads) → All (λ t. t.0 ≢ g) (xs ++ ((h, st) ∷ ys)) → h ≢ g
All-middle h g st [] ys (other, f) = other
All-middle h g st (x ∷ xs) ys (other, f) = All-middle h g st xs ys f

without_head : (h : ℕ) (st : Start) (ts : Threads) → without h ((h, st) ∷ ts) ≡ without h ts
without_head h st ts = ground arith

without_middle :
    (h : ℕ) (st : Start) (xs ys : Threads)
    → All (λ t. t.0 ≢ h) xs
    → All (λ t. t.0 ≢ h) ys
    → without h ((xs ++ ((h, st) ∷ [])) ++ ys) ≡ xs ++ ys
without_middle h st xs ys before after =
    ap (without h) (append_assoc xs ((h, st) ∷ []) ys)
    ∙ without-append h xs ((h, st) ∷ ys)
    ∙ ap (λ l. l ++ without h ((h, st) ∷ ys)) (without_others h xs before)
    ∙ ap (λ l. xs ++ l) (without_head h st ys ∙ without_others h ys after)

module _ {ℓ} {S : Type ℓ} (system : System S) (running : S → Threads)
    (laws : KeepsThreads system running) where
  -- The threads that new workers add, none of which has the number of one that runs.
  record Added (h : ℕ) (before after : Threads) (made : List Start) : Type 0 where
    added : Threads
    whole : after ≡ before ++ added
    of_workers : starts added ≡ made
    others : All (λ t. t.0 ≢ h) added

  -- What a result of two steps says of each.
  both_made {ℓ₁ ℓ₂} :
      {A : Type ℓ₁} {B : Type ℓ₂} (f : A → Option B) (o : Option A) (b : B)
      → elim o [ none ↦ none | some a ↦ f a ] ≡ some b
      → (a : A) × (o ≡ some a) × (f a ≡ some b)
  both_made f none b e = cc
  both_made f (some a) b e = (a, refl, e)

  Added-more :
      (h g : ℕ) (made : Start) (more : List Start) (first middle last : Threads)
      → g ≢ h
      → middle ≡ first ++ ((g, made) ∷ [])
      → Added h middle last more
      → Added h first last (made ∷ more)
  Added-more h g made more first middle last differ m rest = record {
    added = (g, made) ∷ rest.added;
    whole =
        rest.whole ∙ ap (λ l. l ++ rest.added) m ∙ append_assoc first ((g, made) ∷ []) rest.added;
    of_workers = ap (λ l. made ∷ l) rest.of_workers;
    others = (differ, rest.others);
  }

  new_workers-Added :
      (count number h : ℕ) (st : Start) (xs ys : Threads) (s s' : S) (ws : List WorkerThread)
      → running s ≡ xs ++ ((h, st) ∷ ys)
      → new_workers system count number s ≡ some (ws, s')
      → Added h (running s) (running s') (numbered count number)
  unfolding new_workers new_worker
  new_workers-Added zero number h st xs ys s s' ws e made =
      let same : running s' ≡ running s = cc in
      record {
        added = [];
        whole = same ∙ sym (append-nil (running s));
        of_workers = refl;
        others = tt;
      }
  new_workers-Added (suc count) number h st xs ys s s' ws e made =
      let (w, one, rest) = both_made _ (new_worker system number s) (ws, s') made in
      let call : Option ℕ × S = system.pthread_create (some (256 * 1024)) (start_worker number) s in
      let (g, created, same) = both_made _ call.0 w one in
      let (more, made_more, _) =
        both_made _ (new_workers system count (suc number) w.1) (ws, s') rest in
      let at : w.1 ≡ call.1 = cc in
      let last : more.1 ≡ s' = cc in
      let ran = laws.created (some (256 * 1024)) (start_worker number) s g created in
      let other = All-middle h g st xs ys (
        subst (All (λ t. t.0 ≢ g)) e
          (laws.fresh (some (256 * 1024)) (start_worker number) s g created)) in
      Added-more h g (start_worker number) (numbered count (suc number)) (running s)
        (running call.1) (running s') (λ p. other (sym p)) ran
        (new_workers-Added count (suc number) h st xs (ys ++ ((g, start_worker number) ∷ [])) call.1
          s' more.0
          (ran
            ∙ ap (λ l. l ++ ((g, start_worker number) ∷ [])) e
            ∙ append_assoc xs ((h, st) ∷ ys) ((g, start_worker number) ∷ []))
          (cc))

  running-open_sockets : (s : S) → running (open_sockets system s).3 ≡ running s
  unfolding open_sockets
  running-open_sockets s =
      laws.bound _ _ _ ∙ laws.bound _ _ _ ∙ laws.socket _ _ _ ∙ laws.socket _ _ _ ∙ laws.context s

  -- After the plugin's start, the whole of the daemon's opening and the plugin's end, the threads that
  -- run are those that ran before and the 30 workers: the plugin's end stops the daemon's own thread
  -- and no worker.
  pub starts-daemon_zql_deinit :
      (d1 d2 : ZqlDaemon) (s0 s1 s2 : S) (workers : List WorkerThread)
      → daemon_zql_init system s0 ≡ some (d1, s1)
      → open_daemon system d1 s1 ≡ some (workers, d2, s2)
      → starts (running (daemon_zql_deinit system d2 s2)) ≡ starts (running s0) ++ numbered 30 1
  unfolding daemon_zql_init daemon_zql_deinit start_daemon delete_daemon open_daemon
  starts-daemon_zql_deinit d1 d2 s0 s1 s2 workers begun opened =
      let call : Option ℕ × S = system.pthread_create none daemonize s0 in
      let (h, created, as_is) = both_made _ call.0 (d1, s1) begun in
      let fresh : d1.thread ≡ h = cc in
      let at : s1 ≡ call.1 = cc in
      let s4 : S = (open_sockets system s1).3 in
      let (made, workers_made, all) =
        both_made _ (new_workers system worker_count 1 s4) (workers, d2, s2) opened in
      let last : made.1 ≡ s2 = cc in
      let same : d2.thread ≡ h = cc in
      let before : running s4 ≡ running s0 ++ ((h, daemonize) ∷ []) =
        running-open_sockets s1 ∙ ap running at ∙ laws.created none daemonize s0 h created in
      let more =
        new_workers-Added worker_count 1 h daemonize (running s0) [] s4 made.1 made.0 before
          workers_made in
      let after : running s2 ≡ (running s0 ++ ((h, daemonize) ∷ [])) ++ more.added =
        ap running (sym last) ∙ more.whole ∙ ap (λ l. l ++ more.added) before in
      let left = ap starts (
        laws.ended d2.thread s2
        ∙ ap (λ t. without t (running s2)) same
        ∙ ap (without h) after
        ∙ without_middle h daemonize (running s0) more.added
            (laws.fresh none daemonize s0 h created) more.others) in
      left
      ∙ starts-append (running s0) more.added
      ∙ ap (λ l. starts (running s0) ++ l) more.of_workers
