-- ===== src/Objects/Parser/Machine.antt =====
-- The callbacks of ObjectParser, one for each kind of item.
use zql.Prelude.{
  ℕ, ℤ, pos, eqb_ℤ, pred_int32, some, List, [], ◌==◌, if◌then◌else◌, to_uint32, to_uint64,
}
use Prim.Native.String.{String}
use zql.Objects.Row.{Str, assign}
use zql.Objects.Request.{tag_request_add, tag_request_add_continue}
use zql.Objects.Response.{set_value, tag_response_add_ok, tag_response_add_traverse}
use zql.Objects.Parser.{
  ObjectListener, ObjectParserState, Object, ObjectParser, Parsing, init, request_wrapper_array,
  request_wrapper_id, request_wrapper_body, request_get_array, request_get_database,
  request_get_table, request_get_pk, response_wrapper_array, response_wrapper_id,
  response_wrapper_body, response_get_empty_map, response_get_ok_map, response_get_ok_map_key,
  response_get_ok_map_value, request_add_array, request_add_database, request_add_table,
  request_add_row_map, request_add_row_map_key, request_add_row_map_value, response_add_ok_map,
  response_add_traverse_array, response_add_traverse_init_request_id,
  response_add_traverse_ciphertext, request_add_continue_array,
  request_add_continue_init_request_id, request_add_continue_compare_result, as_request_get,
  as_request_add, as_request_add_continue, as_response_get_ok, as_response_add_traverse,
}

-- New objects. The members that C++ leaves unset are 0 or empty here; the parser sets each of them
-- before it hands the object over.
abbrev new_request_get : Object
new_request_get = Object.request_get (record { database = []; table = []; pk = 0 })

abbrev new_request_add : Object
new_request_add = Object.request_add (record { database = []; table = []; row = [] })

abbrev new_request_add_continue : Object
new_request_add_continue =
    Object.request_add_continue (record { init_request_id = 0; compare_result = pos 0 })

abbrev new_response_get_ok : Object
new_response_get_ok = Object.response_get_ok (record { values = [] })

abbrev new_response_add_traverse : Object
new_response_add_traverse =
    Object.response_add_traverse (record { init_request_id = 0; ciphertext = [] })

module _ {ℓ} {M : Type ℓ} (listener : ObjectListener M) where
  abbrev error : String → ObjectParser → M → Parsing M
  error message p m = some (p, listener.on_error message m)

  unfoldable pub on_integer : ObjectParserState → ℤ → ObjectParser → M → Parsing M
  on_integer request_wrapper_id value p m =
      some (record p { current_request_id = to_uint32 value; state = request_wrapper_body }, m)
  on_integer request_get_pk value p m = as_request_get p.current_object λ r.
      let r' = record r { pk = to_uint64 value } in
      some (
        record p { current_object = Object.request_get r'; state = init },
        listener.on_request_get p.current_request_id r' m,
      )
  on_integer response_wrapper_id value p m =
      some (record p { current_request_id = to_uint32 value; state = response_wrapper_body }, m)
  on_integer response_add_traverse_init_request_id value p m =
      as_response_add_traverse p.current_object λ r. some (
        record p {
          current_object =
              Object.response_add_traverse (record r { init_request_id = to_uint32 value });
          state = response_add_traverse_ciphertext;
        },
        m,
      )
  on_integer request_add_continue_init_request_id value p m =
      as_request_add_continue p.current_object λ r. some (
        record p {
          current_object =
              Object.request_add_continue (record r { init_request_id = to_uint32 value });
          state = request_add_continue_compare_result;
        },
        m,
      )
  on_integer request_add_continue_compare_result value p m =
      as_request_add_continue p.current_object λ r.
        let r' = record r { compare_result = value } in
        some (
          record p { current_object = Object.request_add_continue r'; state = init },
          listener.on_request_add_continue p.current_request_id r' m,
        )
  on_integer _ value p m = error "unknown integer" p m

  unfoldable pub on_bytes : ObjectParserState → List ℕ → ObjectParser → M → Parsing M
  on_bytes response_add_traverse_ciphertext bytes p m =
      as_response_add_traverse p.current_object λ r.
        let r' = record r { ciphertext = bytes } in
        some (
          record p { current_object = Object.response_add_traverse r'; state = init },
          listener.on_response_add_traverse p.current_request_id r' m,
        )
  on_bytes _ bytes p m = error "unknown bytes" p m

  unfoldable pub on_string : ObjectParserState → Str → ObjectParser → M → Parsing M
  on_string request_get_database str p m = as_request_get p.current_object λ r. some (
    record p {
      current_object = Object.request_get (record r { database = str });
      state = request_get_table;
    },
    m,
  )
  on_string request_get_table str p m = as_request_get p.current_object λ r. some (
    record p {
      current_object = Object.request_get (record r { table = str });
      state = request_get_pk;
    },
    m,
  )
  on_string response_get_ok_map_key str p m =
      some (record p { current_key = str; state = response_get_ok_map_value }, m)
  on_string response_get_ok_map_value str p m = as_response_get_ok p.current_object λ r.
      let r' = set_value p.current_key str r in
      let left = pred_int32 p.elements in
      let p' = record p { current_object = Object.response_get_ok r'; elements = left } in
      if eqb_ℤ left (pos 0)
      then some (record p' { state = init }, listener.on_response_get_ok p.current_request_id r' m)
      else some (record p' { state = response_get_ok_map_key }, m)
  on_string request_add_database str p m = as_request_add p.current_object λ r. some (
    record p {
      current_object = Object.request_add (record r { database = str });
      state = request_add_table;
    },
    m,
  )
  on_string request_add_table str p m = as_request_add p.current_object λ r. some (
    record p {
      current_object = Object.request_add (record r { table = str });
      state = request_add_row_map;
    },
    m,
  )
  on_string request_add_row_map_key str p m =
      some (record p { current_key = str; state = request_add_row_map_value }, m)
  on_string request_add_row_map_value str p m = as_request_add p.current_object λ r.
      let r' = record r { row = assign p.current_key str r.row } in
      let left = pred_int32 p.elements in
      let p' = record p { current_object = Object.request_add r'; elements = left } in
      if eqb_ℤ left (pos 0)
      then some (record p' { state = init }, listener.on_request_add p.current_request_id r' m)
      else some (record p' { state = request_add_row_map_key }, m)
  on_string _ str p m = error "unknown string" p m

  abbrev expect_size : ℤ → ℕ → ObjectParserState → String → ObjectParser → M → Parsing M
  expect_size size expected next message p m =
      if eqb_ℤ size (pos expected) then some (record p { state = next }, m) else error message p m

  unfoldable pub on_array : ObjectParserState → ℤ → ObjectParser → M → Parsing M
  on_array request_wrapper_array size = expect_size size 2 request_wrapper_id "unknown wrapper size"
  on_array request_get_array size = expect_size size 3 request_get_database "unknown wrapper size"
  on_array response_wrapper_array size =
      expect_size size 2 response_wrapper_id "unknown wrapper size"
  on_array request_add_array size = expect_size size 3 request_add_database "unknown wrapper size"
  on_array response_add_traverse_array size =
      expect_size size 2 response_add_traverse_init_request_id "unknown array size"
  on_array request_add_continue_array size =
      expect_size size 2 request_add_continue_init_request_id "unknown array size"
  on_array _ size = error "unknown array"

  unfoldable pub on_map : ObjectParserState → ℤ → ObjectParser → M → Parsing M
  on_map response_get_empty_map size p m =
      if eqb_ℤ size (pos 0)
      then some (record p { state = init }, listener.on_response_get_empty p.current_request_id m)
      else error "invalid map size" p m
  on_map response_get_ok_map size p m = some (
    record p {
      elements = size;
      current_object = new_response_get_ok;
      state = response_get_ok_map_key;
    },
    m,
  )
  on_map request_add_row_map size p m =
      some (record p { elements = size; state = request_add_row_map_key }, m)
  on_map response_add_ok_map size p m =
      if eqb_ℤ size (pos 0)
      then some (record p { state = init }, listener.on_response_add_ok p.current_request_id m)
      else error "invalid map size" p m
  on_map _ size p m = error "invalid map" p m

  unfoldable pub on_tag : ObjectParserState → ℕ → ObjectParser → M → Parsing M
  on_tag init tag p m =
      if tag == 1000
      then some (record p { state = request_wrapper_array }, m)
      else (if tag == 2000
          then some (record p { state = response_wrapper_array }, m)
          else error "unknown tag" p m)
  on_tag request_wrapper_body tag p m =
      if tag == 1100
      then some (record p { state = request_get_array; current_object = new_request_get }, m)
      else (if tag == tag_request_add
          then some (record p { state = request_add_array; current_object = new_request_add }, m)
          else (if tag == tag_request_add_continue
              then some (
                record p {
                  state = request_add_continue_array;
                  current_object = new_request_add_continue;
                },
                m,
              )
              else error "unknown tag" p m))
  on_tag response_wrapper_body tag p m =
      if tag == 2101
      then some (record p { state = response_get_empty_map }, m)
      else (if tag == 2100
          then some (record p { state = response_get_ok_map }, m)
          else (if tag == tag_response_add_ok
              then some (record p { state = response_add_ok_map }, m)
              else (if tag == tag_response_add_traverse
                  then some (
                    record p {
                      state = response_add_traverse_array;
                      current_object = new_response_add_traverse;
                    },
                    m,
                  )
                  else error "unknown tag" p m)))
  on_tag _ tag p m = error "unknown tag" p m

  unfoldable pub on_special : ℤ → ObjectParser → M → Parsing M
  on_special code p m = error "unknown special" p m

  unfoldable pub on_error : String → ObjectParser → M → Parsing M
  on_error message p m = error message p m
