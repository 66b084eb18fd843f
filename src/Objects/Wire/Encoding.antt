-- ===== src/Objects/Wire/Encoding.antt =====
-- The bytes of each request and response, as a sequence of items, and the values that the format
-- carries unchanged.
use zql.Prelude.{ℕ, suc, ◌≤◌, ◌<◌, ◌^◌, ◌⊎◌, ◌≢◌, ℤ, pos, negsuc, List, [], ◌∷◌, ◌++◌, length, All}
use zql.Cbor.Writer.Heads.{head}
use zql.Cbor.Writer.Items.{item_string, item_bytes, item_int32}
use zql.Objects.Row.{Row}
use zql.Objects.Row.Order.{IsSorted}
use zql.Objects.Request.{Request, RequestWrapper, get, add, add_continue}
use zql.Objects.Response.{Response, ResponseWrapper, get_ok, get_empty, add_ok, add_traverse}

unfoldable pub encode_row : Row → List ℕ
encode_row [] = []
encode_row ((key, value) ∷ row) = item_string key ++ (item_string value ++ encode_row row)

unfoldable pub encode_request : Request → List ℕ
encode_request (get r) =
    head 6 1100 ++ (head 4 3 ++ (item_string r.database ++ (item_string r.table ++ head 0 r.pk)))
encode_request (add r) =
    head 6 1200
    ++ (head 4 3
        ++ (item_string r.database
            ++ (item_string r.table ++ (head 5 (length r.row) ++ encode_row r.row))))
encode_request (add_continue r) =
    head 6 3100 ++ (head 4 2 ++ (head 0 r.init_request_id ++ item_int32 r.compare_result))

unfoldable pub encode_response : Response → List ℕ
encode_response (get_ok r) = head 6 2100 ++ (head 5 (length r.values) ++ encode_row r.values)
encode_response get_empty = head 6 2101 ++ head 5 0
encode_response add_ok = head 6 2200 ++ head 5 0
encode_response (add_traverse r) =
    head 6 2201 ++ (head 4 2 ++ (head 0 r.init_request_id ++ item_bytes r.ciphertext))

unfoldable pub encode_request_wrapper : RequestWrapper → List ℕ
encode_request_wrapper w = head 6 1000 ++ (head 4 2 ++ (head 0 w.id ++ encode_request w.request))

unfoldable pub encode_response_wrapper : ResponseWrapper → List ℕ
encode_response_wrapper w = head 6 2000 ++ (head 4 2 ++ (head 0 w.id ++ encode_response w.response))

abbrev pub IsId : ℕ → Type 0
IsId n = n < 2 ^ 32

abbrev pub IsShort : List ℕ → Type 0
IsShort str = length str < 2 ^ 31

-- A map of 1 to 2^31 - 1 pairs.
pub record IsWritableRow (row : Row) : Type 0 where
  pub sorted : IsSorted row
  pub some_pair : row ≢ []
  pub few : length row < 2 ^ 31
  pub short : All (λ e. IsShort e.0 × IsShort e.1) row

-- A primary key below 2^31 that does not take the two-byte form.
abbrev pub IsWritableKey : ℕ → Type 0
IsWritableKey pk = (pk < 2 ^ 31) × ((pk < 256) ⊎ (65536 ≤ pk))

abbrev pub IsInt32 : ℤ → Type 0
IsInt32 (pos n) = n < 2 ^ 31
IsInt32 (negsuc n) = suc n ≤ 2 ^ 31

abbrev pub IsWritable : Request → Type 0
IsWritable (get r) = IsShort r.database × IsShort r.table × IsWritableKey r.pk
IsWritable (add r) = IsShort r.database × IsShort r.table × IsWritableRow r.row
IsWritable (add_continue r) = IsId r.init_request_id × IsInt32 r.compare_result

abbrev pub IsWritableResponse : Response → Type 0
IsWritableResponse (get_ok r) = IsWritableRow r.values
IsWritableResponse get_empty = Unit
IsWritableResponse add_ok = Unit
IsWritableResponse (add_traverse r) = IsId r.init_request_id × IsShort r.ciphertext
