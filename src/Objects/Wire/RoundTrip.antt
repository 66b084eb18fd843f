-- ===== src/Objects/Wire/RoundTrip.antt =====
-- A message of lib/objects from its serializer to the listener on the other side.
use zql.Prelude.{ℕ, ◌*◌, ◌<◌, ◌≤◌, ◌≡◌, ◌∙◌, ap, ℤ, some, List, length}
use zql.Cbor.Input.{new_input}
use zql.Cbor.Output.{new_output, sent}
use zql.Cbor.Output.Append.{sent_of_new}
use zql.Cbor.Reader.{CborReader, finished}
use zql.Cbor.Reader.Items.{run-Reads}
use zql.Objects.Request.{RequestWrapper, serialize_request_wrapper}
use zql.Objects.Response.{ResponseWrapper, serialize_response_wrapper}
use zql.Objects.Parser.{ObjectListener, ObjectParser, init}
use zql.Objects.Parser.Run.{callbacks, run}
use zql.Objects.Wire.Encoding.{
  encode_request_wrapper, encode_response_wrapper, IsId, IsWritable, IsWritableResponse,
}
use zql.Objects.Wire.Requests.{request_wrapper-Carries, call_request}
use zql.Objects.Wire.Responses.{response_wrapper-Carries, call_response}

-- A request that is serialized into a buffer with room for it, and parsed with two rounds of the
-- reader for each byte and one more, comes to the listener unchanged, in one call that is the only
-- one, and leaves the parser in its initial state. Its strings are shorter than 2^31 bytes, its ids
-- are 32-bit, its row is a map with 1 to 2^31 - 1 pairs, and its primary key is below 2^31 and not
-- between 256 and 65535.
pub run-serialize_request {ℓ} :
    {M : Type ℓ} (listener : ObjectListener M) (w : RequestWrapper) (memory : List ℕ)
    (capacity fuel : ℕ) (unset : ℤ) (p : ObjectParser) (m : M)
    → IsId w.id
    → IsWritable w.request
    → length memory ≡ capacity
    → length (encode_request_wrapper w) ≤ capacity
    → 2 * length (encode_request_wrapper w) < fuel
    → let bytes = sent (serialize_request_wrapper w (new_output memory capacity)) in
      (r : CborReader) × (p' : ObjectParser) × (run fuel listener unset
          (new_input bytes (length bytes))
          p
          m
        ≡ finished r (some (p', call_request listener w.id w.request m)))
      × (p'.state ≡ init)
unfolding run
run-serialize_request listener w memory capacity fuel unset p m id_ok ok allocated fits enough =
    let (effect, carried, delivered) = request_wrapper-Carries listener w id_ok ok in
    let (p', called, back) = delivered p m in
    let (r, whole) =
      run-Reads (callbacks listener) carried.reads fuel unset (some (record p { state = init }, m))
        enough in
    rw (sent_of_new memory capacity carried.writes allocated fits)
      (r, p', whole ∙ ap (λ l. finished r l) called, back)

-- A response that is serialized into a buffer with room for it, and parsed with two rounds of the
-- reader for each byte and one more, comes to the listener unchanged, in one call that is the only
-- one, and leaves the parser in its initial state. Its ids are 32-bit, its values are a map with 1 to
-- 2^31 - 1 pairs of strings shorter than 2^31 bytes, and its ciphertext is that short.
pub run-serialize_response {ℓ} :
    {M : Type ℓ} (listener : ObjectListener M) (w : ResponseWrapper) (memory : List ℕ)
    (capacity fuel : ℕ) (unset : ℤ) (p : ObjectParser) (m : M)
    → IsId w.id
    → IsWritableResponse w.response
    → length memory ≡ capacity
    → length (encode_response_wrapper w) ≤ capacity
    → 2 * length (encode_response_wrapper w) < fuel
    → let bytes = sent (serialize_response_wrapper w (new_output memory capacity)) in
      (r : CborReader) × (p' : ObjectParser) × (run fuel listener unset
          (new_input bytes (length bytes))
          p
          m
        ≡ finished r (some (p', call_response listener w.id w.response m)))
      × (p'.state ≡ init)
unfolding run
run-serialize_response listener w memory capacity fuel unset p m id_ok ok allocated fits enough =
    let (effect, carried, delivered) = response_wrapper-Carries listener w id_ok ok in
    let (p', called, back) = delivered p m in
    let (r, whole) =
      run-Reads (callbacks listener) carried.reads fuel unset (some (record p { state = init }, m))
        enough in
    rw (sent_of_new memory capacity carried.writes allocated fits)
      (r, p', whole ∙ ap (λ l. finished r l) called, back)
