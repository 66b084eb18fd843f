-- ===== src/Objects/Wire/Responses.antt =====
-- The responses of lib/objects/Response.cpp between the serializer and the parser.
use zql.Prelude.{ℕ, ◌≡◌, refl, pos, some, [], ◌∷◌, arith, length, to_uint32-to_int32}
use zql.Objects.Row.{Row}
use zql.Objects.Row.Order.{assign_all_lem}
use zql.Objects.Response.{
  Response, ResponseWrapper, get_ok, get_empty, add_ok, add_traverse, serialize_get_ok,
  serialize_get_empty, serialize_add_ok, serialize_add_traverse, serialize_response,
  serialize_response_wrapper,
}
use zql.Objects.Parser.{ObjectListener, ObjectParser, Parsing, init, response_wrapper_body}
use zql.Objects.Parser.Run.{callbacks}
use zql.Objects.Wire.Carries.{
  Carries, Carries->>, Carries-tag, Carries-array, Carries-map, Carries-id, Carries-bytes,
}
use zql.Objects.Wire.Encoding.{
  encode_response, encode_response_wrapper, IsId, IsWritableResponse, IsWritableRow,
}
use zql.Objects.Wire.Rows.{call_row, Carries-row, call_row-get_ok}
use zql.Objects.Wire.Requests.{Delivers}

module _ {ℓ} {M : Type ℓ} (listener : ObjectListener M) where
  -- Inside a wrapper with this id.
  abbrev DeliversBody : ℕ → (Parsing M → Parsing M) → (M → M) → Type ℓ
  DeliversBody id effect call =
      (p : ObjectParser) (m : M)
      → (p' : ObjectParser) × (effect
            (some (record p { state = response_wrapper_body; current_request_id = id }, m))
          ≡ some (p', call m))
        × (p'.state ≡ init)

  -- The callback for a response, by its class.
  abbrev pub call_response : ℕ → Response → M → M
  call_response id (get_ok r) = listener.on_response_get_ok id r
  call_response id get_empty = listener.on_response_get_empty id
  call_response id add_ok = listener.on_response_add_ok id
  call_response id (add_traverse r) = listener.on_response_add_traverse id r

  delivers_row :
      (id : ℕ) (row : Row)
      → IsWritableRow row
      → DeliversBody id
          (λ l.
            call_row
              (callbacks listener)
              row
              ((callbacks listener).on_map (pos (length row)) ((callbacks listener).on_tag 2100 l)))
          (listener.on_response_get_ok id (record { values = row }))
  unfolding callbacks
  delivers_row id [] ok p m = absurd (ok.some_pair refl)
  delivers_row id (pair ∷ row) ok p m =
      rw (assign_all_lem (pair ∷ row) ok.sorted) at
        (call_row-get_ok listener pair row p.current_key id (record { values = [] }) m)

  body :
      (id : ℕ) (response : Response)
      → IsWritableResponse response
      → (effect : Parsing M → Parsing M) × Carries
          (callbacks listener)
          (encode_response response)
          (serialize_response response)
          effect
        × DeliversBody id effect (call_response id response)
  unfolding encode_response serialize_response serialize_get_ok serialize_get_empty serialize_add_ok
      serialize_add_traverse callbacks
  body id (get_ok r) ok = (
    _,
    Carries->> (callbacks listener) (Carries-tag _ 2100 (omega arith)) (
        Carries->> (callbacks listener) (Carries-map _ (length r.values) ok.few)
          (Carries-row (callbacks listener) r.values ok.short)),
    delivers_row id r.values ok,
  )
  body id get_empty ok = (
    _,
    Carries->> (callbacks listener) (Carries-tag _ 2101 (omega arith))
        (Carries-map _ 0 (omega arith)),
    λ p m. (_, refl, refl),
  )
  body id add_ok ok = (
    _,
    Carries->> (callbacks listener) (Carries-tag _ 2200 (omega arith))
        (Carries-map _ 0 (omega arith)),
    λ p m. (_, refl, refl),
  )
  body id (add_traverse r) (init_id, short) = (
    _,
    Carries->> (callbacks listener) (Carries-tag _ 2201 (omega arith)) (
        Carries->> (callbacks listener) (Carries-array _ 2 (omega arith)) (
          Carries->> (callbacks listener) (Carries-id _ r.init_request_id init_id)
            (Carries-bytes _ r.ciphertext short))),
    λ p m. rw (to_uint32-to_int32 r.init_request_id init_id) (_, refl, refl),
  )

  -- A serialized response is read back as one call with the same response.
  pub response_wrapper-Carries :
      (w : ResponseWrapper)
      → IsId w.id
      → IsWritableResponse w.response
      → (effect : Parsing M → Parsing M) × Carries
          (callbacks listener)
          (encode_response_wrapper w)
          (serialize_response_wrapper w)
          effect
        × Delivers listener effect (call_response w.id w.response)
  unfolding encode_response_wrapper serialize_response_wrapper callbacks
  response_wrapper-Carries w id_ok ok =
      let (effect, carried, delivered) = body w.id w.response ok in
      (
        _,
        Carries->> (callbacks listener) (Carries-tag _ 2000 (omega arith)) (
            Carries->> (callbacks listener) (Carries-array _ 2 (omega arith))
              (Carries->> (callbacks listener) (Carries-id _ w.id id_ok) carried)),
        λ p m. rw (to_uint32-to_int32 w.id id_ok) (delivered p m),
      )
