-- ===== src/Worker/Listener.antt =====
-- The worker as the listener of its parser, and its loop: plugin/Worker.cpp. The callbacks for
-- responses and errors only log.
use zql.Prelude.{◌+◌, ◌*◌, ℕ, ℤ, Option, none, some, List, [], ◌∷◌, ◌++◌, length}
use zql.Cbor.Input.{new_input}
use zql.Cbor.Output.{new_output, sent}
use zql.Cbor.Reader.{Result, finished}
use zql.Objects.Response.{Response, serialize_response_wrapper}
use zql.Objects.Request.{
  RequestGet, RequestAdd, RequestAddContinue, Request, get, add, add_continue,
}
use zql.Objects.Parser.{ObjectListener, ObjectParser, Parsing}
use zql.Objects.Parser.Run.{run}
use zql.Worker.{Database, WorkerState}
use zql.Worker.Answer.{answer_get, answer_add, answer_continue, Answered}

-- `memory capacity` is what `new unsigned char[capacity]` returns, with any contents.
module _ {ℓ} {D : Type ℓ} (db : Database D) (memory : ℕ → List ℕ) where
  -- The bytes of a response with the id of its request.
  unfoldable pub message : (capacity id : ℕ) → Response → List ℕ
  message capacity id response = sent (
      serialize_response_wrapper (record { id = id; response = response })
        (new_output (memory capacity) capacity))

  unfoldable pub reply : (capacity id : ℕ) → Answered db → Option (WorkerState D)
  unfolding message
  reply capacity id none = none
  reply capacity id (some (response, s)) =
      some (record s { replies = s.replies ++ (message capacity id response ∷ []) })

  unfoldable pub on_request_get : ℕ → RequestGet → WorkerState D → Option (WorkerState D)
  unfolding reply
  on_request_get id r s = reply 9000 id (answer_get db r s)

  unfoldable pub on_request_add : ℕ → RequestAdd → WorkerState D → Option (WorkerState D)
  unfolding reply
  on_request_add id r s = reply 9000 id (answer_add db id r s)

  unfoldable pub on_request_add_continue :
      ℕ → RequestAddContinue → WorkerState D → Option (WorkerState D)
  unfolding reply
  on_request_add_continue id r s = reply 10000 id (answer_continue db id r s)

  abbrev pub alive :
      (WorkerState D → Option (WorkerState D)) → Option (WorkerState D) → Option (WorkerState D)
  alive f none = none
  alive f (some s) = f s

  unfoldable pub worker : ObjectListener (Option (WorkerState D))
  unfolding on_request_get on_request_add on_request_add_continue
  worker = record {
    on_request_get = λ id r. alive (on_request_get id r);
    on_response_get_empty = λ id s. s;
    on_response_get_ok = λ id r s. s;
    on_request_add = λ id r. alive (on_request_add id r);
    on_response_add_ok = λ id s. s;
    on_response_add_traverse = λ id r s. s;
    on_request_add_continue = λ id r. alive (on_request_add_continue id r);
    on_error = λ e s. s;
  }

  -- What the handler of a request does.
  abbrev pub handle : ℕ → Request → WorkerState D → Option (WorkerState D)
  handle id (get r) = on_request_get id r
  handle id (add r) = on_request_add id r
  handle id (add_continue r) = on_request_add_continue id r

  abbrev pub parsed : Result (Parsing (Option (WorkerState D))) → Option (WorkerState D)
  parsed (finished r (some (p, s))) = s
  parsed _ = none

  -- The body of the loop in `Worker::run`: a message under a parser of its own, whose other members
  -- hold anything. `none` also where the parser or the reader dies or does not end in the fuel.
  unfoldable pub receive :
      (fuel : ℕ) (unset : ℤ) → ObjectParser → List ℕ → WorkerState D → Option (WorkerState D)
  unfolding worker
  receive fuel unset parser bytes s =
      parsed (run fuel worker unset (new_input bytes (length bytes)) parser (some s))

  -- `while(!_disposed)`, for the messages that come, each with two rounds of the reader for a byte
  -- and one more.
  unfoldable pub serve : ℤ → ObjectParser → List (List ℕ) → WorkerState D → Option (WorkerState D)
  unfolding receive
  serve unset parser [] s = some s
  serve unset parser (bytes ∷ messages) s =
      alive (serve unset parser messages) (receive (2 * length bytes + 1) unset parser bytes s)
