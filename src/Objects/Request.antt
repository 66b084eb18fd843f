-- ===== src/Objects/Request.antt =====
-- lib/objects/Request.h and Request.cpp: the requests and how they are written. The tags are those
-- of lib/objects/Tags.h.
use zql.Prelude.{ℕ, ℤ, [], ◌∷◌, length}
use zql.Cbor.Output.{Write, ◌>>◌}
use zql.Cbor.Writer.{
  write_tag, write_array, write_map, write_string, write_uint32, write_uint64, write_int32,
}
use zql.Objects.Row.{Str, Row}

abbrev pub tag_request_wrapper : ℕ
tag_request_wrapper = 1000

abbrev pub tag_request_get : ℕ
tag_request_get = 1100

abbrev pub tag_request_add : ℕ
tag_request_add = 1200

abbrev pub tag_request_add_continue : ℕ
tag_request_add_continue = 3100

pub record RequestGet : Type 0 where
  pub database : Str
  pub table : Str
  pub pk : ℕ

pub record RequestAdd : Type 0 where
  pub database : Str
  pub table : Str
  pub row : Row

pub record RequestAddContinue : Type 0 where
  pub init_request_id : ℕ
  pub compare_result : ℤ

-- The subclasses of class Request.
pub data Request : Type 0 where
  get : RequestGet → Request
  add : RequestAdd → Request
  add_continue : RequestAddContinue → Request

pub record RequestWrapper : Type 0 where
  pub id : ℕ
  pub request : Request

-- The loop over a map in its order; the responses have the same one.
unfoldable pub write_row : Row → Write
write_row [] = λ o. o
write_row ((key, value) ∷ row) = do write_string key; write_string value; write_row row

unfoldable pub serialize_get : RequestGet → Write
serialize_get r = do
  write_tag tag_request_get
  write_array 3
  write_string r.database
  write_string r.table
  write_uint64 r.pk

unfoldable pub serialize_add : RequestAdd → Write
serialize_add r = do
  write_tag tag_request_add
  write_array 3
  write_string r.database
  write_string r.table
  write_map (length r.row)
  write_row r.row

unfoldable pub serialize_add_continue : RequestAddContinue → Write
serialize_add_continue r = do
  write_tag tag_request_add_continue
  write_array 2
  write_uint32 r.init_request_id
  write_int32 r.compare_result

-- `request->Serialize(writer)`, by the class of the request.
unfoldable pub serialize_request : Request → Write
serialize_request (get r) = serialize_get r
serialize_request (add r) = serialize_add r
serialize_request (add_continue r) = serialize_add_continue r

unfoldable pub serialize_request_wrapper : RequestWrapper → Write
serialize_request_wrapper w = do
  write_tag tag_request_wrapper
  write_array 2
  write_uint32 w.id
  serialize_request w.request
