-- ===== src/Client/Listener.antt =====
-- plugin/test.cpp: the executors under the ids of their last requests, and the listener that hands
-- each response to the executor that waits for it.
use zql.Prelude.{
  ℕ, suc, ℤ, ◌+◌, ◌*◌, ◌==◌, Option, none, some, List, [], ◌∷◌, ◌++◌, length, get_elem?, set,
  if◌then◌else◌,
}
use zql.Cbor.Input.{new_input}
use zql.Cbor.Reader.{Result, finished}
use zql.Objects.Request.{Request, add_continue}
use zql.Objects.Response.{ResponseAddTraverse}
use zql.Objects.Parser.{ObjectListener, ObjectParser, Parsing}
use zql.Objects.Parser.Run.{run}
use zql.Worker.Wire.{request_bytes}
use zql.Client.{InsertExecutor, run_request, continue_request}

-- `executors` are those that were made, and `none` one that is deleted. `listeners` is
-- `requestListeners`, where a missing key is as good as NULL: `operator[]` puts it there. `sent` are
-- the messages that `zmq_send` was given and that have not come to a worker, the oldest first, and
-- `successes` counts the calls of OnSuccess. `rands` counts the calls of rand.
pub record ClientState : Type 0 where
  pub executors : List (Option InsertExecutor)
  pub listeners : ℕ → Option ℕ
  pub sent : List (List ℕ)
  pub successes : ℕ
  pub rands : ℕ

-- `requestListeners[id] = p` and `requestListeners.erase(id)`
unfoldable pub put_listener : ℕ → Option ℕ → ClientState → ClientState
put_listener id p c = record c { listeners = λ j. if j == id then p else c.listeners j }

-- `memory capacity` is what `new unsigned char[capacity]` returns, with any contents.
module _ (memory : ℕ → List ℕ) (rand : ℕ → ℕ) where
  -- A request of the executor at an address, from `rand()` on.
  unfoldable pub post_request : ℕ → Request → ClientState → ClientState
  unfolding put_listener
  post_request a request c =
      let id = rand c.rands in
      let bytes = request_bytes (memory 10000) (record { id = id; request = request }) in
      let kept = put_listener id (some a) (record c { rands = suc c.rands }) in
      record kept { sent = c.sent ++ (bytes ∷ []) }

  -- `InsertExecutor::Run`
  unfoldable pub run_executor : ℕ → InsertExecutor → ClientState → ClientState
  unfolding post_request
  run_executor a e c = post_request a (run_request e) c

  -- `InsertExecutor::OnResponseAddOk`
  unfoldable pub executor_add_ok : (id a : ℕ) → InsertExecutor → ClientState → ClientState
  unfolding put_listener
  executor_add_ok id a e c = record (put_listener id none c) {
    successes = suc c.successes;
    executors = set c.executors a none;
  }

  -- `InsertExecutor::OnResponseAddTraverse`
  unfoldable pub executor_add_traverse :
      (id a : ℕ) → ResponseAddTraverse → InsertExecutor → ClientState → ClientState
  unfolding put_listener post_request
  executor_add_traverse id a response e c =
      post_request a (add_continue (continue_request e response)) (put_listener id none c)

  -- The methods of GlobalResponseListener: nothing for NULL, and `none` for an executor that is
  -- deleted.
  unfoldable pub hand_over :
      ℕ → (ℕ → InsertExecutor → ClientState → ClientState) → ClientState → Option ClientState
  hand_over id act c = elim (c.listeners id) [
    | none ↦ some c
    | some a ↦ elim (get_elem? c.executors a) [
      | none ↦ none
      | some none ↦ none
      | some (some e) ↦ some (act a e c)
    ]
  ]

  abbrev pub alive : (ClientState → Option ClientState) → Option ClientState → Option ClientState
  alive f none = none
  alive f (some c) = f c

  -- The other methods of InsertExecutor are empty.
  unfoldable pub client : ObjectListener (Option ClientState)
  unfolding hand_over executor_add_ok executor_add_traverse
  client = record {
    on_request_get = λ id r. alive (hand_over id (λ a e c. c));
    on_response_get_empty = λ id. alive (hand_over id (λ a e c. c));
    on_response_get_ok = λ id r. alive (hand_over id (λ a e c. c));
    on_request_add = λ id r. alive (hand_over id (λ a e c. c));
    on_response_add_ok = λ id. alive (hand_over id (executor_add_ok id));
    on_response_add_traverse =
        λ id r. alive (hand_over id (λ a e c. executor_add_traverse id a r e c));
    on_request_add_continue = λ id r. alive (hand_over id (λ a e c. c));
    on_error = λ e c. c;
  }

  abbrev pub client_parsed : Result (Parsing (Option ClientState)) → Option ClientState
  client_parsed (finished r (some (p, c))) = c
  client_parsed _ = none

  -- A message in the loop of `main`, under a parser of its own.
  unfoldable pub client_receive :
      (fuel : ℕ) (unset : ℤ) → ObjectParser → List ℕ → ClientState → Option ClientState
  unfolding client
  client_receive fuel unset parser bytes c =
      client_parsed (run fuel client unset (new_input bytes (length bytes)) parser (some c))

  -- The messages that have come.
  unfoldable pub receive_all : ℤ → ObjectParser → List (List ℕ) → ClientState → Option ClientState
  unfolding client_receive
  receive_all unset parser [] c = some c
  receive_all unset parser (bytes ∷ messages) c =
      alive (receive_all unset parser messages)
        (client_receive (2 * length bytes + 1) unset parser bytes c)
