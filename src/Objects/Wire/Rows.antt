-- ===== src/Objects/Wire/Rows.antt =====
-- The pairs of a map, written one after the other and assigned one after the other.
use zql.Prelude.{ℕ, suc, ◌≡◌, refl, pos, eqb_ℤ, some, [], ◌∷◌, arith, length, All, false}
use zql.Cbor.Reader.{CborListener}
use zql.Objects.Row.{Str, Row, assign}
use zql.Objects.Row.Order.{assign_all}
use zql.Objects.Request.{RequestAdd, write_row}
use zql.Objects.Response.{ResponseGetOk, set_value}
use zql.Objects.Parser.{
  ObjectListener, Object, ObjectParser, init, request_add_row_map_key, response_get_ok_map_key,
}
use zql.Objects.Parser.Run.{callbacks}
use zql.Objects.Wire.Carries.{Carries, Carries->>, Carries-nothing, Carries-string}
use zql.Objects.Wire.Encoding.{encode_row, IsShort}

module _ {ℓ} {L : Type ℓ} (listener : CborListener L) where
  -- The calls for the pairs of a row.
  unfoldable pub call_row : Row → L → L
  call_row [] l = l
  call_row ((key, value) ∷ row) l =
      call_row row (listener.on_string value (listener.on_string key l))

  pub Carries-row :
      (row : Row)
      → All (λ e. IsShort e.0 × IsShort e.1) row
      → Carries listener (encode_row row) (write_row row) (call_row row)
  unfolding encode_row write_row call_row
  Carries-row [] h = Carries-nothing listener
  Carries-row ((key, value) ∷ row) (short, rest) =
      Carries->> listener (Carries-string listener key short.0)
        (Carries->> listener (Carries-string listener value short.1) (Carries-row row rest))

not_last : (n : ℕ) → eqb_ℤ (pos (suc n)) (pos 0) ≡ false
not_last n = ground arith

module _ {ℓ} {M : Type ℓ} (listener : ObjectListener M) where
  -- At the last pair of an add request the request is handed over, with all pairs assigned.
  pub call_row-add :
      (pair : Str × Str) (row : Row) (key : Str) (id : ℕ) (r : RequestAdd) (m : M)
      → (p : ObjectParser) × (call_row (callbacks listener) (pair ∷ row) (
            some (
              record {
                current_key = key;
                elements = pos (length (pair ∷ row));
                state = request_add_row_map_key;
                current_object = Object.request_add r;
                current_request_id = id;
              },
              m,
            ))
          ≡ some
              (p, listener.on_request_add id (record r { row = assign_all r.row (pair ∷ row) }) m))
        × (p.state ≡ init)
  unfolding call_row callbacks assign_all
  call_row-add (k, v) [] key id r m = (_, refl, refl)
  call_row-add (k, v) (next ∷ row) key id r m =
      rw (not_last (length row))
        (call_row-add next row k id (record r { row = assign k v r.row }) m)

  -- So it is with the values of a get response.
  pub call_row-get_ok :
      (pair : Str × Str) (row : Row) (key : Str) (id : ℕ) (r : ResponseGetOk) (m : M)
      → (p : ObjectParser) × (call_row (callbacks listener) (pair ∷ row) (
            some (
              record {
                current_key = key;
                elements = pos (length (pair ∷ row));
                state = response_get_ok_map_key;
                current_object = Object.response_get_ok r;
                current_request_id = id;
              },
              m,
            ))
          ≡ some (
            p,
            listener.on_response_get_ok id (record { values = assign_all r.values (pair ∷ row) }) m,
          ))
        × (p.state ≡ init)
  unfolding call_row callbacks assign_all set_value
  call_row-get_ok (k, v) [] key id r m = (_, refl, refl)
  call_row-get_ok (k, v) (next ∷ row) key id r m =
      rw (not_last (length row))
        (call_row-get_ok next row k id (record { values = assign k v r.values }) m)
