-- ===== src/Objects/Parser/Casts.antt =====
-- The casts of `currentObject` in lib/objects/ObjectParser.cpp, callback by callback.
use zql.Prelude.{ℕ, ℤ, pos, eqb_ℤ, pred_int32, none, some, List, Bool-cases, inl, inr, ◌==◌}
use zql.Objects.Row.{Str}
use zql.Objects.Parser.{
  ObjectListener, ObjectParserState, Object, ObjectParser, Parsing, init, request_wrapper_array,
  request_wrapper_body, request_get_array, request_get_database, request_get_table, request_get_pk,
  response_wrapper_array, response_wrapper_body, response_get_empty_map, response_get_ok_map,
  response_get_ok_map_key, response_get_ok_map_value, request_add_array, request_add_database,
  request_add_table, request_add_row_map, request_add_row_map_key, request_add_row_map_value,
  response_add_ok_map, response_add_traverse_array, response_add_traverse_init_request_id,
  response_add_traverse_ciphertext, request_add_continue_array,
  request_add_continue_init_request_id, request_add_continue_compare_result,
}
use zql.Objects.Parser.Machine.{on_integer, on_bytes, on_string, on_array, on_map, on_tag}

abbrev IsGet : Object → Type 0
IsGet (Object.request_get r) = Unit
IsGet _ = ⊥

abbrev IsAdd : Object → Type 0
IsAdd (Object.request_add r) = Unit
IsAdd _ = ⊥

abbrev IsAddContinue : Object → Type 0
IsAddContinue (Object.request_add_continue r) = Unit
IsAddContinue _ = ⊥

abbrev IsGetOk : Object → Type 0
IsGetOk (Object.response_get_ok r) = Unit
IsGetOk _ = ⊥

abbrev IsAddTraverse : Object → Type 0
IsAddTraverse (Object.response_add_traverse r) = Unit
IsAddTraverse _ = ⊥

-- What a state takes the object for.
abbrev pub Fits : ObjectParserState → Object → Type 0
Fits request_get_array o = IsGet o
Fits request_get_database o = IsGet o
Fits request_get_table o = IsGet o
Fits request_get_pk o = IsGet o
Fits request_add_array o = IsAdd o
Fits request_add_database o = IsAdd o
Fits request_add_table o = IsAdd o
Fits request_add_row_map o = IsAdd o
Fits request_add_row_map_key o = IsAdd o
Fits request_add_row_map_value o = IsAdd o
Fits request_add_continue_array o = IsAddContinue o
Fits request_add_continue_init_request_id o = IsAddContinue o
Fits request_add_continue_compare_result o = IsAddContinue o
Fits response_get_ok_map_key o = IsGetOk o
Fits response_get_ok_map_value o = IsGetOk o
Fits response_add_traverse_array o = IsAddTraverse o
Fits response_add_traverse_init_request_id o = IsAddTraverse o
Fits response_add_traverse_ciphertext o = IsAddTraverse o
Fits _ o = Unit

abbrev pub parser : Str → ℤ → ObjectParserState → Object → ℕ → ObjectParser
parser key elements s o id = record {
  current_key = key;
  elements = elements;
  state = s;
  current_object = o;
  current_request_id = id;
}

module _ {ℓ} {M : Type ℓ} where
  -- No cast went wrong, and the next state's will not.
  abbrev pub Sound : Parsing M → Type 0
  Sound none = ⊥
  Sound (some (p, m)) = Fits p.state p.current_object

module _ {ℓ} {M : Type ℓ} (listener : ObjectListener M) (key : Str) (elements : ℤ) (id : ℕ)
    (m : M) where
  pub on_integer-Sound :
      (s : ObjectParserState) (value : ℤ) (o : Object)
      → Fits s o
      → Sound (on_integer listener s value (parser key elements s o id) m)
  unfolding on_integer
  on_integer-Sound request_get_pk value (Object.request_get r) fits = tt
  on_integer-Sound request_get_pk value _ fits = absurd fits
  on_integer-Sound response_add_traverse_init_request_id value (Object.response_add_traverse r)
        fits =
      tt
  on_integer-Sound response_add_traverse_init_request_id value _ fits = absurd fits
  on_integer-Sound request_add_continue_init_request_id value (Object.request_add_continue r) fits =
      tt
  on_integer-Sound request_add_continue_init_request_id value _ fits = absurd fits
  on_integer-Sound request_add_continue_compare_result value (Object.request_add_continue r) fits =
      tt
  on_integer-Sound request_add_continue_compare_result value _ fits = absurd fits
  on_integer-Sound _ value o fits = fits

  pub on_bytes-Sound :
      (s : ObjectParserState) (bytes : List ℕ) (o : Object)
      → Fits s o
      → Sound (on_bytes listener s bytes (parser key elements s o id) m)
  unfolding on_bytes
  on_bytes-Sound response_add_traverse_ciphertext bytes (Object.response_add_traverse r) fits = tt
  on_bytes-Sound response_add_traverse_ciphertext bytes _ fits = absurd fits
  on_bytes-Sound _ bytes o fits = fits

  pub on_string-Sound :
      (s : ObjectParserState) (str : Str) (o : Object)
      → Fits s o
      → Sound (on_string listener s str (parser key elements s o id) m)
  unfolding on_string
  on_string-Sound request_get_database str (Object.request_get r) fits = tt
  on_string-Sound request_get_database str _ fits = absurd fits
  on_string-Sound request_get_table str (Object.request_get r) fits = tt
  on_string-Sound request_get_table str _ fits = absurd fits
  on_string-Sound response_get_ok_map_value str (Object.response_get_ok r) fits =
      elim (Bool-cases (eqb_ℤ (pred_int32 elements) (pos 0))) [ inl e ↦ rw e tt | inr e ↦ rw e tt ]
  on_string-Sound response_get_ok_map_value str _ fits = absurd fits
  on_string-Sound request_add_database str (Object.request_add r) fits = tt
  on_string-Sound request_add_database str _ fits = absurd fits
  on_string-Sound request_add_table str (Object.request_add r) fits = tt
  on_string-Sound request_add_table str _ fits = absurd fits
  on_string-Sound request_add_row_map_value str (Object.request_add r) fits =
      elim (Bool-cases (eqb_ℤ (pred_int32 elements) (pos 0))) [ inl e ↦ rw e tt | inr e ↦ rw e tt ]
  on_string-Sound request_add_row_map_value str _ fits = absurd fits
  on_string-Sound response_get_ok_map_key str o fits = fits
  on_string-Sound request_add_row_map_key str o fits = fits
  on_string-Sound _ str o fits = fits

  pub on_array-Sound :
      (s : ObjectParserState) (size : ℤ) (o : Object)
      → Fits s o
      → Sound (on_array listener s size (parser key elements s o id) m)
  unfolding on_array
  on_array-Sound request_wrapper_array size o fits = elim (Bool-cases (eqb_ℤ size (pos 2))) [
    | inl e ↦ rw e fits
    | inr e ↦ rw e fits
  ]
  on_array-Sound request_get_array size o fits = elim (Bool-cases (eqb_ℤ size (pos 3))) [
    | inl e ↦ rw e fits
    | inr e ↦ rw e fits
  ]
  on_array-Sound response_wrapper_array size o fits = elim (Bool-cases (eqb_ℤ size (pos 2))) [
    | inl e ↦ rw e fits
    | inr e ↦ rw e fits
  ]
  on_array-Sound request_add_array size o fits = elim (Bool-cases (eqb_ℤ size (pos 3))) [
    | inl e ↦ rw e fits
    | inr e ↦ rw e fits
  ]
  on_array-Sound response_add_traverse_array size o fits = elim (Bool-cases (eqb_ℤ size (pos 2))) [
    | inl e ↦ rw e fits
    | inr e ↦ rw e fits
  ]
  on_array-Sound request_add_continue_array size o fits = elim (Bool-cases (eqb_ℤ size (pos 2))) [
    | inl e ↦ rw e fits
    | inr e ↦ rw e fits
  ]
  on_array-Sound _ size o fits = fits

  pub on_map-Sound :
      (s : ObjectParserState) (size : ℤ) (o : Object)
      → Fits s o
      → Sound (on_map listener s size (parser key elements s o id) m)
  unfolding on_map
  on_map-Sound response_get_empty_map size o fits = elim (Bool-cases (eqb_ℤ size (pos 0))) [
    | inl e ↦ rw e tt
    | inr e ↦ rw e tt
  ]
  on_map-Sound response_add_ok_map size o fits = elim (Bool-cases (eqb_ℤ size (pos 0))) [
    | inl e ↦ rw e tt
    | inr e ↦ rw e tt
  ]
  on_map-Sound response_get_ok_map size o fits = tt
  on_map-Sound _ size o fits = fits

  pub on_tag-Sound :
      (s : ObjectParserState) (tag : ℕ) (o : Object)
      → Fits s o
      → Sound (on_tag listener s tag (parser key elements s o id) m)
  unfolding on_tag
  on_tag-Sound init tag o fits = elim (Bool-cases (tag == 1000)) [
    | inl e ↦ rw e tt
    | inr e1000 ↦
        rw e1000 (elim (Bool-cases (tag == 2000)) [ inl e ↦ rw e tt | inr e2000 ↦ rw e2000 (tt) ])
  ]
  on_tag-Sound request_wrapper_body tag o fits = elim (Bool-cases (tag == 1100)) [
    | inl e ↦ rw e tt
    | inr e1100 ↦ rw e1100 (elim (Bool-cases (tag == 1200)) [
      | inl e ↦ rw e tt
      | inr e1200 ↦
          rw e1200 (elim (Bool-cases (tag == 3100)) [ inl e ↦ rw e tt | inr e3100 ↦ rw e3100 (tt) ])
    ])
  ]
  on_tag-Sound response_wrapper_body tag o fits = elim (Bool-cases (tag == 2101)) [
    | inl e ↦ rw e tt
    | inr e2101 ↦ rw e2101 (elim (Bool-cases (tag == 2100)) [
      | inl e ↦ rw e tt
      | inr e2100 ↦ rw e2100 (elim (Bool-cases (tag == 2200)) [
        | inl e ↦ rw e tt
        | inr e2200 ↦
            rw e2200
              (elim (Bool-cases (tag == 2201)) [ inl e ↦ rw e tt | inr e2201 ↦ rw e2201 (tt) ])
      ])
    ])
  ]
  on_tag-Sound _ tag o fits = fits
