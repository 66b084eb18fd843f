-- ===== src/Database/Threads.antt =====
-- Threads of workers at the MySQL server: `initThread` and `deinitThread` of plugin/Database.cpp, and
-- the object of plugin/Worker.cpp that calls them when a worker's thread begins and ends.
use zql.Prelude.{
  ℕ, ◌+◌, ◌-◌, ◌^◌, ◌≤◌, ◌<◌, ◌≡◌, Option, none, some, List, [], ◌∷◌, ◌++◌, ◌%◌, length-append,
  length, arith, All,
}
use zql.Database.{Server}
use zql.Database.Access.{unlock_tables}

-- The members of a THD that the code sets.
pub record Thd : Type 0 where
  pub thread_stack : ℕ
  pub system_thread : ℕ
  pub thread_id : ℕ

-- The variables of the server that the code changes, of 64 bits, with the rest of its state.
pub record Globals {ℓ} (S : Type ℓ) : Type ℓ where
  pub thread_id : ℕ
  pub thread_count : ℕ
  pub rest : S

-- The calls of the server.
pub record ThreadServer {ℓ} (S : Type ℓ) : Type ℓ where
  pub my_thread_init : S → S
  pub my_thread_end : S → S
  -- `new THD`, of which nothing is said, and its deletion
  pub new_thd : S → Thd × S
  pub delete_thd : Thd → S → S
  -- `memset(&thd->net, 0, …)`
  pub clear_net : Thd → S → S
  pub store_globals : Thd → S → S
  -- `my_pthread_setspecific_ptr(THR_THD, thd)`
  pub setspecific : Option Thd → S → S
  -- `mysql_mutex_lock(&LOCK_thread_count)`
  pub lock_thread_count : S → S
  pub unlock_thread_count : S → S
  pub append_thread : Thd → S → S
  pub lex_start : Thd → S → S

-- The newest first, and their ids falling.
abbrev pub IsFalling : List Thd → Type 0
IsFalling [] = Unit
IsFalling (t ∷ ts) = All (λ u. u.thread_id < t.thread_id) ts × IsFalling ts

All-drop :
    (P : Thd → Type 0) (before after : List Thd) (t : Thd)
    → All P (before ++ (t ∷ after))
    → All P (before ++ after)
All-drop P [] after t (p, ps) = ps
All-drop P (x ∷ before) after t (p, ps) = (p, All-drop P before after t ps)

IsFalling-drop :
    (before after : List Thd) (t : Thd)
    → IsFalling (before ++ (t ∷ after))
    → IsFalling (before ++ after)
IsFalling-drop [] after t (less, falls) = falls
IsFalling-drop (x ∷ before) after t (less, falls) = (
  All-drop (λ u. u.thread_id < x.thread_id) before after t less,
  IsFalling-drop before after t falls,
)

All-map : (P Q : Thd → Type 0) (ts : List Thd) → ((t : Thd) → P t → Q t) → All P ts → All Q ts
All-map P Q [] f h = tt
All-map P Q (t ∷ ts) f (p, ps) = (f t p, All-map P Q ts f ps)

module _ {ℓ} {S : Type ℓ} (handle : Server S) (server : ThreadServer S) where
  unfoldable pub init_thread : (stack_bottom : ℕ) → Globals S → Thd × Globals S
  init_thread stack_bottom g =
      let (fresh, s1) = server.new_thd (server.my_thread_init g.rest) in
      let stacked = record fresh { thread_stack = stack_bottom } in
      let system = record stacked { system_thread = 2 ^ 30 } in
      let s2 = server.clear_net system (server.store_globals stacked s1) in
      let s3 = server.lock_thread_count (server.setspecific (some system) s2) in
      let thd = record system { thread_id = g.thread_id } in
      let s4 = server.unlock_thread_count (server.append_thread thd s3) in
      (
        thd,
        record {
          thread_id = (g.thread_id + 1) % 2 ^ 64;
          thread_count = (g.thread_count + 1) % 2 ^ 64;
          rest = server.lex_start thd s4;
        },
      )

  unfoldable pub deinit_thread : Thd → Globals S → Globals S
  unfolding unlock_tables
  deinit_thread thd g =
      let s1 = server.setspecific none (unlock_tables handle g.rest) in
      let s2 = server.delete_thd thd (server.lock_thread_count s1) in
      record g {
        thread_count = (g.thread_count + (2 ^ 64 - 1)) % 2 ^ 64;
        rest = server.my_thread_end (server.unlock_thread_count s2);
      }

  -- The threads of workers begin and end in any order. What a thread changes of the counters is under
  -- the mutex, so a beginning and an end are a step each. The counters do not overflow.
  pub data Ran (start : Globals S) : List Thd → Globals S → Type ℓ where
    none_yet : start.thread_count < 2 ^ 64 → Ran start [] start
    begins :
        {inside : List Thd} {g : Globals S} (stack_bottom : ℕ)
        → Ran start inside g
        → g.thread_id + 1 < 2 ^ 64
        → g.thread_count + 1 < 2 ^ 64
        → Ran start ((init_thread stack_bottom g).0 ∷ inside) (init_thread stack_bottom g).1
    leaves :
        (before after : List Thd) {g : Globals S} (thd : Thd)
        → Ran start (before ++ (thd ∷ after)) g
        → Ran start (before ++ after) (deinit_thread thd g)

  pub record IsCounted (start : Globals S) (inside : List Thd) (g : Globals S) : Type 0 where
    pub later : start.thread_id ≤ g.thread_id
    pub fits : g.thread_count < 2 ^ 64
    pub count : g.thread_count ≡ start.thread_count + length inside
    pub ids : All (λ t. (start.thread_id ≤ t.thread_id) × (t.thread_id < g.thread_id)) inside
    pub distinct : IsFalling inside

  -- However the threads of workers begin and end, while the counters do not overflow, the count of threads is larger by those that are
  -- inside, and these have ids that differ from each other and from those that the server gave out
  -- before.
  pub Ran-IsCounted :
      (start g : Globals S) (inside : List Thd) → Ran start inside g → IsCounted start inside g
  unfolding init_thread deinit_thread
  Ran-IsCounted start g inside (none_yet below) = record {
    later = omega arith;
    fits = below;
    count = omega arith;
    ids = tt;
    distinct = tt;
  }
  Ran-IsCounted start g inside
        (begins {inside = others} {g = before} stack_bottom ran some_ids some_counts) =
      let ih = Ran-IsCounted start before others ran in
      record {
        later = omega (arith, ih.later);
        fits = omega arith;
        count = omega (arith, ih.count);
        ids = (
          (ih.later, omega arith),
          All-map (λ t. (start.thread_id ≤ t.thread_id) × (t.thread_id < before.thread_id))
              (λ t.
                (start.thread_id ≤ t.thread_id) × (t.thread_id < (before.thread_id + 1) % 2 ^ 64))
              others (λ t p. (p.0, omega (arith, p.1, some_ids))) ih.ids,
        );
        distinct = (
          All-map (λ t. (start.thread_id ≤ t.thread_id) × (t.thread_id < before.thread_id))
              (λ t. t.thread_id < before.thread_id) others (λ t p. p.1) ih.ids,
          ih.distinct,
        );
      }
  Ran-IsCounted start g inside (leaves before after {g = earlier} thd ran) =
      let ih = Ran-IsCounted start earlier (before ++ (thd ∷ after)) ran in
      record {
        later = ih.later;
        fits = omega arith;
        count = omega (
          arith,
          ih.count,
          ih.fits,
          length-append before after,
          length-append before (thd ∷ after),
        );
        ids = All-drop _ before after thd ih.ids;
        distinct = IsFalling-drop before after thd ih.distinct;
      }
