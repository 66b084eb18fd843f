-- ===== src/Client/Conversation.antt =====
-- A client of plugin/test.cpp and a worker of plugin/Worker.cpp in turn: the insertion of one row,
-- with no other client in between.
use zql.Prelude.{ℕ, zero, suc, Option, none, some}
use zql.Objects.Request.{Request, add_continue}
use zql.Objects.Response.{Ciphertext, get_ok, get_empty, add_ok, add_traverse}
use zql.BTree.Memory.{fade}
use zql.Worker.{Database, WorkerState}
use zql.Worker.Answer.{answer, Answered}
use zql.Client.{InsertExecutor, run_request, continue_request}

-- `memory k a c` are the bytes that the ciphertext of the node at `a` points to when the `k`th message
-- comes, where they were `c` before: the string that they were of is gone with its request.
module _ {ℓ} {D : Type ℓ} (db : Database D) (rand : ℕ → ℕ)
    (memory : ℕ → ℕ → Ciphertext → Ciphertext) (e : InsertExecutor) where
  -- What the client does with a response: `OnResponseAddOk` ends the insertion, and
  -- `OnResponseAddTraverse` sends the next request. `none` for a response that ends nothing.
  unfoldable pub on_response :
      (Request → WorkerState D → Option (WorkerState D)) → Answered db → Option (WorkerState D)
  on_response next none = none
  on_response next (some (get_ok values, s)) = none
  on_response next (some (get_empty, s)) = none
  on_response next (some (add_ok, s)) = some s
  on_response next (some (add_traverse question, s)) =
      next (add_continue (continue_request e question)) s

  unfoldable pub faded : ℕ → WorkerState D → WorkerState D
  faded k s = record s { forest = fade (memory k) s.forest }

  -- The rest of a conversation, from a request whose id was the `k`th number of `rand`. `none` is
  -- also where the fuel runs out: a unit for each request.
  unfoldable pub converse : (fuel k : ℕ) → Request → WorkerState D → Option (WorkerState D)
  unfolding on_response faded
  converse zero k request s = none
  converse (suc fuel) k request s =
      on_response (λ r. converse fuel (suc k) r) (answer db (rand k) request (faded k s))

  unfoldable pub insert_row : (fuel : ℕ) → WorkerState D → Option (WorkerState D)
  unfolding converse run_request
  insert_row fuel s = converse fuel zero (run_request e) s
