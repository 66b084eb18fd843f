-- ===== src/Objects/Response.antt =====
-- lib/objects/Response.h and Response.cpp: the responses and how they are written. A Ciphertext of
-- lib/BTree.h, a pointer with a size, is the list of the bytes that it leads to when it is written.
use zql.Prelude.{ℕ, List, length}
use zql.Cbor.Output.{Write, ◌>>◌}
use zql.Cbor.Writer.{write_tag, write_array, write_map, write_uint32, write_bytes}
use zql.Objects.Row.{Str, Row, assign}
use zql.Objects.Request.{write_row}

abbrev pub Ciphertext : Type 0
Ciphertext = List ℕ

abbrev pub tag_response_wrapper : ℕ
tag_response_wrapper = 2000

abbrev pub tag_response_get_ok : ℕ
tag_response_get_ok = 2100

abbrev pub tag_response_get_not_found : ℕ
tag_response_get_not_found = 2101

abbrev pub tag_response_add_ok : ℕ
tag_response_add_ok = 2200

abbrev pub tag_response_add_traverse : ℕ
tag_response_add_traverse = 2201

pub record ResponseGetOk : Type 0 where
  pub values : Row

pub record ResponseAddTraverse : Type 0 where
  pub init_request_id : ℕ
  pub ciphertext : Ciphertext

-- The subclasses of class Response.
pub data Response : Type 0 where
  get_ok : ResponseGetOk → Response
  get_empty : Response
  add_ok : Response
  add_traverse : ResponseAddTraverse → Response

pub record ResponseWrapper : Type 0 where
  pub id : ℕ
  pub response : Response

unfoldable pub set_value : Str → Str → ResponseGetOk → ResponseGetOk
set_value key value r = record { values = assign key value r.values }

unfoldable pub serialize_get_ok : ResponseGetOk → Write
serialize_get_ok r = do
  write_tag tag_response_get_ok
  write_map (length r.values)
  write_row r.values

unfoldable pub serialize_get_empty : Write
serialize_get_empty = do write_tag tag_response_get_not_found; write_map 0

unfoldable pub serialize_add_ok : Write
serialize_add_ok = do write_tag tag_response_add_ok; write_map 0

unfoldable pub serialize_add_traverse : ResponseAddTraverse → Write
serialize_add_traverse r = do
  write_tag tag_response_add_traverse
  write_array 2
  write_uint32 r.init_request_id
  write_bytes r.ciphertext

-- `response->Serialize(writer)`, by the class of the response.
unfoldable pub serialize_response : Response → Write
serialize_response (get_ok r) = serialize_get_ok r
serialize_response get_empty = serialize_get_empty
serialize_response add_ok = serialize_add_ok
serialize_response (add_traverse r) = serialize_add_traverse r

unfoldable pub serialize_response_wrapper : ResponseWrapper → Write
serialize_response_wrapper w = do
  write_tag tag_response_wrapper
  write_array 2
  write_uint32 w.id
  serialize_response w.response
