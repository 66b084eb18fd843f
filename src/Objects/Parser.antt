-- ===== src/Objects/Parser.antt =====
-- ObjectParser of lib/objects/ObjectParser.cpp: a state machine over the items of a message, which
-- hands each whole request or response to its listener. The listener is the record of the
-- callbacks of class ObjectListener, over a state `M`.
pub mod Machine
pub mod Run
pub mod Casts
pub mod Sound
use zql.Prelude.{ℕ, ℤ, Option, none, some, List, []}
use Prim.Native.String.{String}
use zql.Objects.Row.{Str}
use zql.Objects.Request.{RequestGet, RequestAdd, RequestAddContinue}
use zql.Objects.Response.{ResponseGetOk, ResponseAddTraverse}

pub record ObjectListener {ℓ} (M : Type ℓ) : Type ℓ where
  pub on_request_get : ℕ → RequestGet → M → M
  pub on_response_get_empty : ℕ → M → M
  pub on_response_get_ok : ℕ → ResponseGetOk → M → M
  pub on_request_add : ℕ → RequestAdd → M → M
  pub on_response_add_ok : ℕ → M → M
  pub on_response_add_traverse : ℕ → ResponseAddTraverse → M → M
  pub on_request_add_continue : ℕ → RequestAddContinue → M → M
  pub on_error : String → M → M

-- OBJECT_PARSER_STATE_…
pub data ObjectParserState : Type 0 where
  init : ObjectParserState
  request_wrapper_array request_wrapper_id request_wrapper_body : ObjectParserState
  request_get_array request_get_database request_get_table request_get_pk : ObjectParserState
  response_wrapper_array response_wrapper_id response_wrapper_body : ObjectParserState
  response_get_empty_map : ObjectParserState
  response_get_ok_map response_get_ok_map_key response_get_ok_map_value : ObjectParserState
  request_add_array request_add_database request_add_table : ObjectParserState
  request_add_row_map request_add_row_map_key request_add_row_map_value : ObjectParserState
  response_add_ok_map : ObjectParserState
  response_add_traverse_array response_add_traverse_init_request_id : ObjectParserState
  response_add_traverse_ciphertext : ObjectParserState
  request_add_continue_array request_add_continue_init_request_id : ObjectParserState
  request_add_continue_compare_result : ObjectParserState

-- What `void *currentObject` points to.
pub data Object : Type 0 where
  unset : Object
  request_get : RequestGet → Object
  request_add : RequestAdd → Object
  request_add_continue : RequestAddContinue → Object
  response_get_ok : ResponseGetOk → Object
  response_add_traverse : ResponseAddTraverse → Object

pub record ObjectParser : Type 0 where
  pub current_key : Str
  pub elements : ℤ
  pub state : ObjectParserState
  pub current_object : Object
  pub current_request_id : ℕ

-- The parser and the listener behind it; `none` if a member was accessed through a pointer cast to
-- a class that the object is not of, which C++ leaves undefined.
abbrev pub Parsing {ℓ} : Type ℓ → Type ℓ
Parsing M = Option (ObjectParser × M)

module _ {ℓ} {M : Type ℓ} where
  -- The casts of `currentObject`.
  abbrev pub as_request_get : Object → (RequestGet → Parsing M) → Parsing M
  as_request_get (request_get r) k = k r
  as_request_get _ k = none

  abbrev pub as_request_add : Object → (RequestAdd → Parsing M) → Parsing M
  as_request_add (request_add r) k = k r
  as_request_add _ k = none

  abbrev pub as_request_add_continue : Object → (RequestAddContinue → Parsing M) → Parsing M
  as_request_add_continue (request_add_continue r) k = k r
  as_request_add_continue _ k = none

  abbrev pub as_response_get_ok : Object → (ResponseGetOk → Parsing M) → Parsing M
  as_response_get_ok (response_get_ok r) k = k r
  as_response_get_ok _ k = none

  abbrev pub as_response_add_traverse : Object → (ResponseAddTraverse → Parsing M) → Parsing M
  as_response_add_traverse (response_add_traverse r) k = k r
  as_response_add_traverse _ k = none
