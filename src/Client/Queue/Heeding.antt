-- ===== src/Client/Queue/Heeding.antt =====
-- plugin/test.cpp: the executors under the ids of requests, and which of them are deleted.
use zql.Prelude.{
  ℕ, suc, ◌<◌, ◌≤◌, ◌≡◌, ◌≢◌, refl, sym, ap, ◌∙◌, ◌⊎◌, inl, inr, Option, none, some, List, [], ◌∷◌,
  ◌++◌, length, length-append, length-set, get_elem?, set, get_elem?-set_other, get_elem?-below,
  get_elem?-append_below, get_elem?-append_at, arith,
}
use mathlib.Core.Path.{subst}
use mathlib.Core.Option.{some-injective}
use zql.Objects.Request.{Request}
use zql.Objects.Response.{ResponseAddTraverse}
use zql.BTree.Nodes.{same-or-other}
use zql.Client.{InsertExecutor}
use zql.Client.Listener.{
  ClientState, run_executor, post_request, put_listener, executor_add_ok, executor_add_traverse,
}
use zql.Client.Queue.{run_at}

abbrev pub IsAlive : ℕ → ClientState → Type 0
IsAlive a c = (e : InsertExecutor) × (get_elem? c.executors a ≡ some (some e))

-- The executors under the ids have been run and are alive, none is under two ids, and those that have
-- not been run are alive.
pub record Heeds (c : ClientState) (begun : ℕ) : Type 0 where
  pub run : (id a : ℕ) → c.listeners id ≡ some a → a < begun
  pub alive : (id a : ℕ) → c.listeners id ≡ some a → IsAlive a c
  pub once : (i j a : ℕ) → c.listeners i ≡ some a → c.listeners j ≡ some a → i ≡ j
  pub waiting : (a : ℕ) → begun ≤ a → a < length c.executors → IsAlive a c

put_same : (id : ℕ) (p : Option ℕ) (c : ClientState) → (put_listener id p c).listeners id ≡ p
unfolding put_listener
put_same id p c = ground arith

put_other :
    (id j : ℕ) (p : Option ℕ) (c : ClientState)
    → id ≢ j
    → (put_listener id p c).listeners j ≡ c.listeners j
unfolding put_listener
put_other id j p c other = ground (arith, other)

-- An id under which an executor is after an id is set to another.
under :
    (id j a b : ℕ) (c : ClientState)
    → (put_listener id (some b) c).listeners j ≡ some a
    → ((id ≡ j) × (a ≡ b)) ⊎ ((id ≢ j) × (c.listeners j ≡ some a))
under id j a b c at = elim (same-or-other id j) [
  | inl same ↦ inl (
    same,
    some-injective a b (
        sym at
        ∙ ap (λ k. (put_listener id (some b) c).listeners k) (sym same)
        ∙ put_same id (some b) c),
  )
  | inr other ↦ inr (other, sym (put_other id j (some b) c other) ∙ at)
]

not_under :
    (id j a : ℕ) (c : ClientState)
    → (put_listener id none c).listeners j ≡ some a
    → (id ≢ j) × (c.listeners j ≡ some a)
not_under id j a c at = elim (same-or-other id j) [
  | inl same ↦ absurd (
      missing
        (sym at ∙ ap (λ k. (put_listener id none c).listeners k) (sym same) ∙ put_same id none c))
  | inr other ↦ (other, sym (put_other id j none c other) ∙ at)
]
  where
    missing : some a ≡ none → ⊥
    missing e = cc

-- An id is given to an executor that is under none.
Heeds-put :
    (id a begun : ℕ) (c : ClientState)
    → Heeds c begun
    → a < begun
    → IsAlive a c
    → ((j : ℕ) → c.listeners j ≢ some a)
    → Heeds (put_listener id (some a) c) begun
unfolding put_listener
Heeds-put id a begun c h ran lives free = record {
  run = λ j b at. elim (under id j b a c at) [
    | inl (same, is) ↦ omega (arith, is)
    | inr (other, before) ↦ h.run j b before
  ];
  alive = λ j b at. elim (under id j b a c at) [
    | inl (same, is) ↦ subst (λ k. IsAlive k c) (sym is) lives
    | inr (other, before) ↦ h.alive j b before
  ];
  once = λ i j b ati atj. elim (under id i b a c ati) [
    | inl (same, is) ↦ elim (under id j b a c atj) [
      | inl (same', is') ↦ sym same ∙ same'
      | inr (other, before) ↦ absurd (free j (before ∙ ap some is))
    ]
    | inr (other, before) ↦ elim (under id j b a c atj) [
      | inl (same', is') ↦ absurd (free i (before ∙ ap some is'))
      | inr (other', before') ↦ h.once i j b before before'
    ]
  ];
  waiting = h.waiting;
}

Heeds-erase :
    (id begun : ℕ) (c : ClientState) → Heeds c begun → Heeds (put_listener id none c) begun
unfolding put_listener
Heeds-erase id begun c h = record {
  run = λ j b at. h.run j b (not_under id j b c at).1;
  alive = λ j b at. h.alive j b (not_under id j b c at).1;
  once = λ i j b ati atj. h.once i j b (not_under id i b c ati).1 (not_under id j b c atj).1;
  waiting = h.waiting;
}

Heeds-begin : (begun : ℕ) (c : ClientState) → Heeds c begun → Heeds c (suc begun)
Heeds-begin begun c h = record {
  run = λ id a at. omega (arith, h.run id a at);
  alive = h.alive;
  once = h.once;
  waiting = λ a from inside. h.waiting a (omega (arith, from)) inside;
}

-- A new executor.
pub Heeds-new :
    (begun : ℕ) (c : ClientState) (e : InsertExecutor)
    → Heeds c begun
    → Heeds (record c { executors = c.executors ++ (some e ∷ []) }) begun
Heeds-new begun c e h = record {
  run = h.run;
  alive = λ id a at. kept a (h.alive id a at);
  once = h.once;
  waiting = λ a from inside. elim (same-or-other (length c.executors) a) [
    | inl is ↦
        subst (λ k. IsAlive k (record c { executors = c.executors ++ (some e ∷ []) })) is
          (e, get_elem?-append_at c.executors (some e))
    | inr other ↦
        kept a
          (h.waiting a from (omega (arith, other, inside, length-append c.executors (some e ∷ []))))
  ];
}
  where
    kept : (a : ℕ) → IsAlive a c → IsAlive a (record c { executors = c.executors ++ (some e ∷ []) })
    kept a (x, here) = (
      x,
      get_elem?-append_below c.executors (some e ∷ []) a
            (get_elem?-below c.executors a (some x) here)
          ∙ here,
    )

-- An executor that is under no id is deleted.
Heeds-delete :
    (a begun done : ℕ) (c : ClientState)
    → Heeds c begun
    → a < begun
    → ((j : ℕ) → c.listeners j ≢ some a)
    → Heeds (record c { successes = done; executors = set c.executors a none }) begun
Heeds-delete a begun done c h ran free = record {
  run = h.run;
  alive = λ id b at. kept b (λ is. free id (at ∙ ap some (sym is))) (h.alive id b at);
  once = h.once;
  waiting = λ b from inside.
      kept b (λ is. omega (arith, is, from, ran))
        (h.waiting b from (omega (arith, inside, length-set c.executors a none)));
}
  where
    kept :
        (b : ℕ)
        → a ≢ b
        → IsAlive b c
        → IsAlive b (record c { successes = done; executors = set c.executors a none })
    kept b other (x, here) = (x, get_elem?-set_other c.executors a b none other ∙ here)

module _ (memory : ℕ → List ℕ) (rand : ℕ → ℕ) where
  Heeds-post :
      (a begun : ℕ) (r : Request) (c : ClientState)
      → Heeds c begun
      → a < begun
      → IsAlive a c
      → ((j : ℕ) → c.listeners j ≢ some a)
      → Heeds (post_request memory rand a r c) begun
  unfolding post_request put_listener
  Heeds-post a begun r c h ran lives free =
      let put = Heeds-put (rand c.rands) a begun c h ran lives free in
      record { run = put.run; alive = put.alive; once = put.once; waiting = put.waiting }

  erased_free :
      (id a begun : ℕ) (c : ClientState)
      → Heeds c begun
      → c.listeners id ≡ some a
      → (j : ℕ) → (put_listener id none c).listeners j ≢ some a
  erased_free id a begun c h at j still =
      (not_under id j a c still).0 (h.once id j a at (not_under id j a c still).1)

  pub Heeds-executor_add_ok :
      (id a begun : ℕ) (e : InsertExecutor) (c : ClientState)
      → Heeds c begun
      → c.listeners id ≡ some a
      → Heeds (executor_add_ok memory rand id a e c) begun
  unfolding executor_add_ok put_listener
  Heeds-executor_add_ok id a begun e c h at =
      Heeds-delete a begun (suc c.successes) (put_listener id none c) (Heeds-erase id begun c h)
        (h.run id a at) (erased_free id a begun c h at)

  pub Heeds-executor_add_traverse :
      (id a begun : ℕ) (r : ResponseAddTraverse) (e : InsertExecutor) (c : ClientState)
      → Heeds c begun
      → c.listeners id ≡ some a
      → Heeds (executor_add_traverse memory rand id a r e c) begun
  unfolding executor_add_traverse put_listener
  Heeds-executor_add_traverse id a begun r e c h at =
      Heeds-post a begun _ (put_listener id none c) (Heeds-erase id begun c h) (h.run id a at)
        (h.alive id a at) (erased_free id a begun c h at)

  pub Heeds-run_at :
      (a : ℕ) (c c' : ClientState)
      → Heeds c a
      → run_at memory rand a c ≡ some c'
      → IsAlive a c
      → Heeds c' (suc a)
  unfolding run_at run_executor
  Heeds-run_at a c c' h e (x, here) =
      let made : run_at memory rand a c ≡ some (run_executor memory rand a x c) =
        rw (here, run_at) refl in
      subst (λ k. Heeds k (suc a)) (some-injective _ _ (sym made ∙ e))
        (Heeds-post a (suc a) _ c (Heeds-begin a c h) (omega arith) (x, here)
          (λ j at. omega (arith, h.run j a at)))
