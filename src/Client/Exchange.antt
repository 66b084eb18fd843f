-- ===== src/Client/Exchange.antt =====
-- A client of plugin/test.cpp and a worker of plugin/Worker.cpp over the bytes of their messages.
use zql.Prelude.{ℕ, zero, suc, ℤ, ◌+◌, ◌*◌, Option, none, some, List, [], ◌∷◌, length}
use zql.Objects.Parser.{ObjectParser}
use zql.Worker.{Database, WorkerState}
use zql.Worker.Listener.{receive}
use zql.Client.Listener.{ClientState, receive_all}

module _ {ℓ} {D : Type ℓ} (db : Database D) (memory : ℕ → List ℕ) (rand : ℕ → ℕ) (unset : ℤ)
    (parser : ObjectParser) where
  -- The worker takes the oldest message of the client, and the client what the worker replies, until
  -- there is no message left: a unit of fuel for each message and one for the end. ZeroMQ carries
  -- each message once and in order. `none` is also where the fuel runs out.
  unfoldable pub exchange :
      (fuel : ℕ) → ClientState → WorkerState D → Option (ClientState × WorkerState D)
  unfolding receive receive_all
  exchange zero c s = none
  exchange (suc fuel) c s = elim c.sent [
    | [] ↦ some (c, s)
    | bytes ∷ rest ↦ elim (receive db memory (2 * length bytes + 1) unset parser bytes s) [
      | none ↦ none
      | some s1 ↦
          elim (receive_all memory rand unset parser s1.replies (record c { sent = rest })) [
            | none ↦ none
            | some c1 ↦ exchange fuel c1 (record s1 { replies = [] })
          ]
    ]
  ]
