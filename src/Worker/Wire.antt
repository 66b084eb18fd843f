-- ===== src/Worker/Wire.antt =====
-- The messages of clients at the worker of plugin/Worker.cpp: what the loop does with their bytes.
use zql.Prelude.{
  ℕ, ℤ, ◌+◌, ◌*◌, ◌≤◌, ◌<◌, ◌≡◌, refl, ap, ◌∙◌, Option, none, some, List, [], ◌∷◌, length, arith,
  All,
}
use zql.Cbor.Output.{new_output, sent}
use zql.Cbor.Output.Append.{sent_of_new}
use zql.Objects.Request.{Request, RequestWrapper, get, add, add_continue, serialize_request_wrapper}
use zql.Objects.Parser.{ObjectParser}
use zql.Objects.Wire.Encoding.{encode_request_wrapper, IsId, IsWritable}
use zql.Objects.Wire.Requests.{request_wrapper-Carries, call_request}
use zql.Objects.Wire.RoundTrip.{run-serialize_request}
use zql.Worker.{Database, WorkerState}
use zql.Worker.Listener.{worker, alive, handle, parsed, receive, serve}

-- A request that the format carries, in a buffer of the client's that has room for it.
pub record IsSent (memory : List ℕ) (w : RequestWrapper) : Type 0 where
  pub id : IsId w.id
  pub writable : IsWritable w.request
  pub allocated : length memory ≡ 10000
  pub fits : length (encode_request_wrapper w) ≤ 10000

-- The bytes that the client sends.
unfoldable pub request_bytes : List ℕ → RequestWrapper → List ℕ
request_bytes memory w = sent (serialize_request_wrapper w (new_output memory 10000))

module _ {ℓ} {D : Type ℓ} (db : Database D) (memory : ℕ → List ℕ) where
  call_request-worker :
      (id : ℕ) (request : Request) (s : WorkerState D)
      → call_request (worker db memory) id request (some s) ≡ handle db memory id request s
  unfolding worker
  call_request-worker id (get r) s = refl
  call_request-worker id (add r) s = refl
  call_request-worker id (add_continue r) s = refl

  pub request_bytes_lem :
      (buffer : List ℕ) (w : RequestWrapper)
      → IsSent buffer w
      → request_bytes buffer w ≡ encode_request_wrapper w
  unfolding request_bytes
  request_bytes_lem buffer w ok =
      let (effect, carried, delivered) =
        request_wrapper-Carries (worker db memory) w ok.id ok.writable in
      sent_of_new buffer 10000 carried.writes ok.allocated ok.fits

  pub receive-request_bytes :
      (buffer : List ℕ) (w : RequestWrapper) (fuel : ℕ) (unset : ℤ) (p : ObjectParser)
      (s : WorkerState D)
      → IsSent buffer w
      → 2 * length (encode_request_wrapper w) < fuel
      → receive db memory fuel unset p (request_bytes buffer w) s
        ≡ handle db memory w.id w.request s
  unfolding receive request_bytes
  receive-request_bytes buffer w fuel unset p s ok enough =
      let (r, p', whole, back) =
        run-serialize_request (worker db memory) w buffer 10000 fuel unset p (some s) ok.id
          ok.writable ok.allocated ok.fits enough in
      ap (parsed db memory) whole ∙ call_request-worker w.id w.request s

  -- Handling requests one after the other.
  unfoldable pub handle_all : List RequestWrapper → WorkerState D → Option (WorkerState D)
  handle_all [] s = some s
  handle_all (w ∷ ws) s = alive db memory (handle_all ws) (handle db memory w.id w.request s)

  unfoldable pub bytes_of : List ℕ → List RequestWrapper → List (List ℕ)
  bytes_of buffer [] = []
  bytes_of buffer (w ∷ ws) = request_bytes buffer w ∷ bytes_of buffer ws

  -- The loop of the worker, over the bytes of requests that clients have serialized, does what the
  -- handlers do with the requests, one after the other. The requests are such that the format
  -- carries them and that fit the client's buffer of 10000 bytes.
  pub serve-bytes_of :
      (buffer : List ℕ) (ws : List RequestWrapper) (unset : ℤ) (p : ObjectParser)
      (s : WorkerState D)
      → All (IsSent buffer) ws
      → serve db memory unset p (bytes_of buffer ws) s ≡ handle_all ws s
  unfolding serve bytes_of handle_all
  serve-bytes_of buffer [] unset p s ok = refl
  serve-bytes_of buffer (w ∷ ws) unset p s (first, rest) =
      rw
        (receive-request_bytes buffer w (2 * length (request_bytes buffer w) + 1) unset p s first
          (enough (request_bytes buffer w) (request_bytes_lem buffer w first)))
        (after (λ s'. serve-bytes_of buffer ws unset p s' rest) (handle db memory w.id w.request s))
    where
      after :
          ((s' : WorkerState D)
            → serve db memory unset p (bytes_of buffer ws) s' ≡ handle_all ws s')
          → (o : Option (WorkerState D))
          → alive db memory (serve db memory unset p (bytes_of buffer ws)) o
            ≡ alive db memory (handle_all ws) o
      after same none = refl
      after same (some s') = same s'

      enough :
          (bytes : List ℕ)
          → bytes ≡ encode_request_wrapper w
          → 2 * length (encode_request_wrapper w) < 2 * length bytes + 1
      enough bytes e = omega (arith, ap length e)
