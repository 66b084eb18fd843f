-- ===== src/Tests/Messages.antt =====
-- Messages of lib/objects on the wire and in the parser, at concrete values.
use zql.Prelude.{to_uint32, ℕ, ◌+◌, ◌≡◌, refl, pos, List, [], ◌∷◌, length, replicate, arith, some}
use zql.Cbor.Input.{new_input}
use zql.Cbor.Output.{new_output, sent}
use zql.Cbor.Reader.{CborReader, finished}
use zql.Cbor.Writer.Heads.{head}
use zql.Cbor.Writer.Items.{item_string, item_bytes}
use zql.Objects.Row.{Row, compare_str}
use zql.Cbor.Output.Bounds.{IsSafe}
use zql.Objects.Wire.Bounds.{serialize_request_wrapper-IsSafe, serialize_response_wrapper-IsSafe}
use zql.Objects.Row.Order.{IsSorted}
use zql.Objects.Request.{RequestWrapper, add, serialize_request_wrapper}
use zql.Objects.Response.{ResponseWrapper, add_traverse, serialize_response_wrapper}
use zql.Objects.Parser.{ObjectListener, ObjectParser, Object, init}
use zql.Objects.Parser.Run.{run, callbacks}
use zql.Objects.Parser.Casts.{Sound}
use zql.Objects.Parser.Sound.{Rounds-Sound}
use zql.Objects.Parser.Machine
use zql.Cbor.Reader.{new_reader, state_type}
use zql.Cbor.Reader.Head
use zql.Cbor.Reader.Body
use zql.Cbor.Reader.Loop.{Rounds, here, next, step, step_in}
use zql.Objects.Parser.{request_get_array}
use zql.Cbor.Input.{has_bytes, get_byte, get_short, peek, advance}
use zql.Objects.Wire.Encoding.{
  IsWritableRow, encode_row, encode_request, encode_response, encode_request_wrapper,
  encode_response_wrapper,
}
use zql.Objects.Wire.Requests.{call_request}
use zql.Objects.Wire.Responses.{call_response}
use zql.Objects.Wire.RoundTrip.{run-serialize_request, run-serialize_response}

-- A listener that counts its calls.
abbrev counting : ObjectListener ℕ
counting = record {
  on_request_get = λ id r n. n + 1;
  on_response_get_empty = λ id n. n + 1;
  on_response_get_ok = λ id r n. n + 1;
  on_request_add = λ id r n. n + 1;
  on_response_add_ok = λ id n. n + 1;
  on_response_add_traverse = λ id r n. n + 1;
  on_request_add_continue = λ id r n. n + 1;
  on_error = λ e n. n + 1;
}

abbrev price_row : Row
price_row = (97 ∷ [], 49 ∷ []) ∷ (98 ∷ 95 ∷ [], 50 ∷ []) ∷ []

abbrev add_request : RequestWrapper
add_request = record {
  id = 300;
  request = add (record { database = 100 ∷ []; table = 116 ∷ []; row = price_row });
}

abbrev traverse_response : ResponseWrapper
traverse_response = record {
  id = 300;
  response = add_traverse (record { init_request_id = 7; ciphertext = 1 ∷ 2 ∷ [] });
}

abbrev memory : List ℕ
memory = replicate 64 0

abbrev idle : ObjectParser
idle = record {
  current_key = [];
  elements = pos 0;
  state = init;
  current_object = Object.unset;
  current_request_id = 0;
}

price_row-IsSorted : IsSorted price_row
unfolding compare_str
price_row-IsSorted = ((refl, tt), (tt, tt))

price_row-IsWritableRow : IsWritableRow price_row
price_row-IsWritableRow = record {
  sorted = price_row-IsSorted;
  some_pair = λ e. cc;
  few = omega arith;
  short = ((omega arith, omega arith), ((omega arith, omega arith), tt));
}

request_length : length (encode_request_wrapper add_request) ≡ 25
unfolding encode_request_wrapper encode_request encode_row head item_string
request_length = refl

run-serialize_request_example :
    let bytes = sent (serialize_request_wrapper add_request (new_output memory 64)) in
    (r : CborReader) × (p' : ObjectParser) × (run 200 counting
        (pos 0)
        (new_input bytes (length bytes))
        idle
        0
      ≡ finished r (some (p', call_request counting 300 add_request.request 0)))
    × (p'.state ≡ init)
run-serialize_request_example =
    run-serialize_request counting add_request memory 64 200 (pos 0) idle 0 (omega arith)
      (omega arith, omega arith, price_row-IsWritableRow) refl (omega (arith, request_length))
      (omega (arith, request_length))

response_length : length (encode_response_wrapper traverse_response) ≡ 15
unfolding encode_response_wrapper encode_response head item_bytes
response_length = refl

run-serialize_response_example :
    let bytes = sent (serialize_response_wrapper traverse_response (new_output memory 64)) in
    (r : CborReader) × (p' : ObjectParser) × (run 200 counting
        (pos 0)
        (new_input bytes (length bytes))
        idle
        0
      ≡ finished r (some (p', call_response counting 300 traverse_response.response 0)))
    × (p'.state ≡ init)
run-serialize_response_example =
    run-serialize_response counting traverse_response memory 64 200 (pos 0) idle 0 (omega arith)
      (omega arith, omega arith) refl (omega (arith, response_length))
      (omega (arith, response_length))

-- The wrapper's tag, its array and id, and the tag of a get request, which makes the object that
-- the later states cast to.
abbrev get_start : List ℕ
get_start = 0xd9 ∷ 0x03 ∷ 0xe8 ∷ 0x82 ∷ 0x01 ∷ 0xd9 ∷ 0x04 ∷ 0x4c ∷ []

abbrev in_get : ObjectParser
in_get = record {
  current_key = [];
  elements = pos 0;
  state = request_get_array;
  current_object = Object.request_get (record { database = []; table = []; pk = 0 });
  current_request_id = 1;
}

abbrev after_start : CborReader
after_start = record {
  input = record { bytes = get_start; size = 8; offset = 8 };
  state = state_type;
  current_length = pos 2;
}

to_get :
    Rounds
      (callbacks counting)
      (new_reader (new_input get_start 8) (pos 0))
      (some (record idle { state = init }, 0))
      after_start
      (some (in_get, 0))
unfolding step step_in Head.read_type Head.switch_major Head.type_tag Head.type_array Head.type_pint
    Body.read_tag has_bytes get_byte get_short peek advance new_reader new_input callbacks
    Machine.on_tag Machine.on_array Machine.on_integer to_uint32
to_get = next (next (next (next (next (next here refl) refl) refl) refl) refl) refl

Rounds-Sound_example : Sound {M = ℕ} (some (in_get, 0))
Rounds-Sound_example = Rounds-Sound counting (new_input get_start 8) (pos 0) idle 0 to_get

serialize_request_wrapper-IsSafe_example : IsSafe (serialize_request_wrapper add_request)
serialize_request_wrapper-IsSafe_example =
    serialize_request_wrapper-IsSafe add_request
      (omega arith, omega arith, ((omega arith, omega arith), ((omega arith, omega arith), tt)))

serialize_response_wrapper-IsSafe_example : IsSafe (serialize_response_wrapper traverse_response)
serialize_response_wrapper-IsSafe_example =
    serialize_response_wrapper-IsSafe traverse_response (omega arith)
