-- ===== src/Objects/Wire/Requests.antt =====
-- The requests of lib/objects/Request.cpp between the serializer and the parser.
use zql.Prelude.{
  ℕ, ◌≡◌, refl, ◌<◌, ◌^◌, pos, some, [], ◌∷◌, arith, length, to_int32, to_uint64,
  to_uint32-to_int32,
}
use zql.Objects.Row.{Str, Row}
use zql.Objects.Row.Order.{assign_all_lem}
use zql.Objects.Request.{
  RequestGet, RequestAdd, RequestAddContinue, Request, RequestWrapper, get, add, add_continue,
  serialize_get, serialize_add, serialize_add_continue, serialize_request,
  serialize_request_wrapper,
}
use zql.Objects.Parser.{ObjectListener, ObjectParser, Parsing, init, request_wrapper_body}
use zql.Objects.Parser.Run.{callbacks}
use zql.Objects.Wire.Carries.{
  Carries, Carries->>, Carries-tag, Carries-array, Carries-map, Carries-id, Carries-key,
  Carries-int32, Carries-string,
}
use zql.Objects.Wire.Encoding.{
  encode_request, encode_request_wrapper, IsId, IsWritable, IsWritableRow,
}
use zql.Objects.Wire.Rows.{call_row, Carries-row, call_row-add}

pub to_uint64-to_int32 : (v : ℕ) → v < 2 ^ 31 → to_uint64 (to_int32 v) ≡ v
unfolding to_uint64 to_int32
to_uint64-to_int32 v h = ground arith

module _ {ℓ} {M : Type ℓ} (listener : ObjectListener M) where
  -- From the initial state `effect` makes one call of the listener, and the state is initial again.
  abbrev pub Delivers : (Parsing M → Parsing M) → (M → M) → Type ℓ
  Delivers effect call =
      (p : ObjectParser) (m : M)
      → (p' : ObjectParser) × (effect (some (record p { state = init }, m)) ≡ some (p', call m))
        × (p'.state ≡ init)

  -- Inside a wrapper with this id.
  abbrev DeliversBody : ℕ → (Parsing M → Parsing M) → (M → M) → Type ℓ
  DeliversBody id effect call =
      (p : ObjectParser) (m : M)
      → (p' : ObjectParser) × (effect
            (some (record p { state = request_wrapper_body; current_request_id = id }, m))
          ≡ some (p', call m))
        × (p'.state ≡ init)

  -- The callback for a request, by its class.
  abbrev pub call_request : ℕ → Request → M → M
  call_request id (get r) = listener.on_request_get id r
  call_request id (add r) = listener.on_request_add id r
  call_request id (add_continue r) = listener.on_request_add_continue id r

  body_get :
      (id : ℕ) (r : RequestGet)
      → IsWritable (get r)
      → (effect : Parsing M → Parsing M) × Carries
          (callbacks listener)
          (encode_request (get r))
          (serialize_get r)
          effect
        × DeliversBody id effect (call_request id (get r))
  unfolding encode_request serialize_get callbacks
  body_get id r (database, table, key) = (
    _,
    Carries->> (callbacks listener) (Carries-tag _ 1100 (omega arith)) (
        Carries->> (callbacks listener) (Carries-array _ 3 (omega arith)) (
          Carries->> (callbacks listener) (Carries-string _ r.database database) (
            Carries->> (callbacks listener) (Carries-string _ r.table table)
              (Carries-key _ r.pk key)))),
    λ p m. rw (to_uint64-to_int32 r.pk key.0) (_, refl, refl),
  )

  delivers_row :
      (id : ℕ) (database table : Str) (row : Row)
      → IsWritableRow row
      → DeliversBody id
          (λ l. call_row (callbacks listener) row (
            (callbacks listener).on_map (pos (length row)) (
              (callbacks listener).on_string table (
                (callbacks listener).on_string database
                  ((callbacks listener).on_array (pos 3) ((callbacks listener).on_tag 1200 l))))))
          (listener.on_request_add id (record { database = database; table = table; row = row }))
  unfolding callbacks
  delivers_row id database table [] ok p m = absurd (ok.some_pair refl)
  delivers_row id database table (pair ∷ row) ok p m =
      rw (assign_all_lem (pair ∷ row) ok.sorted) at (
        call_row-add listener pair row p.current_key id
          (record { database = database; table = table; row = [] }) m)

  body_add :
      (id : ℕ) (r : RequestAdd)
      → IsWritable (add r)
      → (effect : Parsing M → Parsing M) × Carries
          (callbacks listener)
          (encode_request (add r))
          (serialize_add r)
          effect
        × DeliversBody id effect (call_request id (add r))
  unfolding encode_request serialize_add
  body_add id r (database, table, ok) = (
    _,
    Carries->> (callbacks listener) (Carries-tag _ 1200 (omega arith)) (
        Carries->> (callbacks listener) (Carries-array _ 3 (omega arith)) (
          Carries->> (callbacks listener) (Carries-string _ r.database database) (
            Carries->> (callbacks listener) (Carries-string _ r.table table) (
              Carries->> (callbacks listener) (Carries-map _ (length r.row) ok.few)
                (Carries-row (callbacks listener) r.row ok.short))))),
    delivers_row id r.database r.table r.row ok,
  )

  body_add_continue :
      (id : ℕ) (r : RequestAddContinue)
      → IsWritable (add_continue r)
      → (effect : Parsing M → Parsing M) × Carries
          (callbacks listener)
          (encode_request (add_continue r))
          (serialize_add_continue r)
          effect
        × DeliversBody id effect (call_request id (add_continue r))
  unfolding encode_request serialize_add_continue callbacks
  body_add_continue id r (init_id, result) = (
    _,
    Carries->> (callbacks listener) (Carries-tag _ 3100 (omega arith)) (
        Carries->> (callbacks listener) (Carries-array _ 2 (omega arith)) (
          Carries->> (callbacks listener) (Carries-id _ r.init_request_id init_id)
            (Carries-int32 _ r.compare_result result))),
    λ p m. rw (to_uint32-to_int32 r.init_request_id init_id) (_, refl, refl),
  )

  body :
      (id : ℕ) (request : Request)
      → IsWritable request
      → (effect : Parsing M → Parsing M) × Carries
          (callbacks listener)
          (encode_request request)
          (serialize_request request)
          effect
        × DeliversBody id effect (call_request id request)
  unfolding serialize_request
  body id (get r) ok = body_get id r ok
  body id (add r) ok = body_add id r ok
  body id (add_continue r) ok = body_add_continue id r ok

  -- A serialized request is read back as one call with the same request.
  pub request_wrapper-Carries :
      (w : RequestWrapper)
      → IsId w.id
      → IsWritable w.request
      → (effect : Parsing M → Parsing M) × Carries
          (callbacks listener)
          (encode_request_wrapper w)
          (serialize_request_wrapper w)
          effect
        × Delivers effect (call_request w.id w.request)
  unfolding encode_request_wrapper serialize_request_wrapper callbacks
  request_wrapper-Carries w id_ok ok =
      let (effect, carried, delivered) = body w.id w.request ok in
      (
        _,
        Carries->> (callbacks listener) (Carries-tag _ 1000 (omega arith)) (
            Carries->> (callbacks listener) (Carries-array _ 2 (omega arith))
              (Carries->> (callbacks listener) (Carries-id _ w.id id_ok) carried)),
        λ p m. rw (to_uint32-to_int32 w.id id_ok) (delivered p m),
      )
