-- ===== src/Objects/Wire/Bounds.antt =====
-- The serializers of lib/objects/Request.cpp and Response.cpp against the buffer they write into.
use zql.Prelude.{ℕ, ◌≤◌, List, [], ◌∷◌, length, All}
use zql.Cbor.Output.Bounds.{most, IsSafe, IsSafe->>, IsSafe-nothing}
use zql.Cbor.Writer.Items.{
  write_uint32-IsSafe, write_uint64-IsSafe, write_int32-IsSafe, write_string-IsSafe,
  write_bytes-IsSafe, write_array-IsSafe, write_map-IsSafe, write_tag-IsSafe,
}
use zql.Objects.Row.{Row}
use zql.Objects.Request.{
  Request, RequestWrapper, get, add, add_continue, write_row, serialize_get, serialize_add,
  serialize_add_continue, serialize_request, serialize_request_wrapper,
}
use zql.Objects.Response.{
  Response, ResponseWrapper, get_ok, get_empty, add_ok, add_traverse, serialize_get_ok,
  serialize_get_empty, serialize_add_ok, serialize_add_traverse, serialize_response,
  serialize_response_wrapper,
}

abbrev IsFew : List ℕ → Type 0
IsFew str = length str ≤ most

-- No string of the message is longer than 2^30 bytes.
abbrev pub HasShort : Request → Type 0
HasShort (get r) = IsFew r.database × IsFew r.table
HasShort (add r) = IsFew r.database × IsFew r.table × All (λ e. IsFew e.0 × IsFew e.1) r.row
HasShort (add_continue r) = Unit

abbrev pub HasShortResponse : Response → Type 0
HasShortResponse (get_ok r) = All (λ e. IsFew e.0 × IsFew e.1) r.values
HasShortResponse get_empty = Unit
HasShortResponse add_ok = Unit
HasShortResponse (add_traverse r) = IsFew r.ciphertext

write_row-IsSafe : (row : Row) → All (λ e. IsFew e.0 × IsFew e.1) row → IsSafe (write_row row)
unfolding write_row
write_row-IsSafe [] few = IsSafe-nothing
write_row-IsSafe ((k, v) ∷ row) (few, rest) =
    IsSafe->> _ _ (write_string-IsSafe k few.0)
      (IsSafe->> _ _ (write_string-IsSafe v few.1) (write_row-IsSafe row rest))

serialize_request-IsSafe : (r : Request) → HasShort r → IsSafe (serialize_request r)
unfolding serialize_request serialize_get serialize_add serialize_add_continue
serialize_request-IsSafe (get r) few = IsSafe->> _ _ (write_tag-IsSafe _) (
    IsSafe->> _ _ (write_array-IsSafe _) (
      IsSafe->> _ _ (write_string-IsSafe _ few.0)
        (IsSafe->> _ _ (write_string-IsSafe _ few.1) (write_uint64-IsSafe _))))
serialize_request-IsSafe (add r) few = IsSafe->> _ _ (write_tag-IsSafe _) (
    IsSafe->> _ _ (write_array-IsSafe _) (
      IsSafe->> _ _ (write_string-IsSafe _ few.0) (
        IsSafe->> _ _ (write_string-IsSafe _ few.1)
          (IsSafe->> _ _ (write_map-IsSafe _) (write_row-IsSafe r.row few.2)))))
serialize_request-IsSafe (add_continue r) few = IsSafe->> _ _ (write_tag-IsSafe _) (
    IsSafe->> _ _ (write_array-IsSafe _)
      (IsSafe->> _ _ (write_uint32-IsSafe _) (write_int32-IsSafe _)))

serialize_response-IsSafe : (r : Response) → HasShortResponse r → IsSafe (serialize_response r)
unfolding serialize_response serialize_get_ok serialize_get_empty serialize_add_ok
    serialize_add_traverse
serialize_response-IsSafe (get_ok r) few =
    IsSafe->> _ _ (write_tag-IsSafe _)
      (IsSafe->> _ _ (write_map-IsSafe _) (write_row-IsSafe r.values few))
serialize_response-IsSafe get_empty few = IsSafe->> _ _ (write_tag-IsSafe _) (write_map-IsSafe _)
serialize_response-IsSafe add_ok few = IsSafe->> _ _ (write_tag-IsSafe _) (write_map-IsSafe _)
serialize_response-IsSafe (add_traverse r) few = IsSafe->> _ _ (write_tag-IsSafe _) (
    IsSafe->> _ _ (write_array-IsSafe _)
      (IsSafe->> _ _ (write_uint32-IsSafe _) (write_bytes-IsSafe _ few)))

-- Serializing a request whose strings have 2^30 bytes at most, into a buffer of at most that
-- capacity and whatever room, keeps the buffer valid: its size and its capacity stay, the offset
-- stays within the capacity, and what was written before stays in front of what is written.
pub serialize_request_wrapper-IsSafe :
    (w : RequestWrapper) → HasShort w.request → IsSafe (serialize_request_wrapper w)
unfolding serialize_request_wrapper
serialize_request_wrapper-IsSafe w few = IsSafe->> _ _ (write_tag-IsSafe _) (
    IsSafe->> _ _ (write_array-IsSafe _)
      (IsSafe->> _ _ (write_uint32-IsSafe _) (serialize_request-IsSafe w.request few)))

-- Serializing a response whose strings have 2^30 bytes at most, into a buffer of at most that
-- capacity and whatever room, keeps the buffer valid: its size and its capacity stay, the offset
-- stays within the capacity, and what was written before stays in front of what is written.
pub serialize_response_wrapper-IsSafe :
    (w : ResponseWrapper) → HasShortResponse w.response → IsSafe (serialize_response_wrapper w)
unfolding serialize_response_wrapper
serialize_response_wrapper-IsSafe w few = IsSafe->> _ _ (write_tag-IsSafe _) (
    IsSafe->> _ _ (write_array-IsSafe _)
      (IsSafe->> _ _ (write_uint32-IsSafe _) (serialize_response-IsSafe w.response few)))
