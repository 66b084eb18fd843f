-- ===== src/Client/Executor.antt =====
-- The constructor of InsertExecutor in plugin/test.cpp: which value it answers the worker's questions
-- with.
use zql.Prelude.{ℕ, suc, ◌≡◌, refl, Bool, true, false, some, arith, [], ◌∷◌, if◌then◌else◌}
use zql.Objects.Row.{Str, Row}
use zql.Worker.Fields.{has_ending, ope, first_ope, last_ope}
use zql.Client.{encrypt, encrypt_row, last_value, new_insert_executor}

-- The fields whose values are kept in order.
abbrev pub ope_count : Row → ℕ
ope_count [] = 0
ope_count ((key, value) ∷ row) = if has_ending key ope then suc (ope_count row) else ope_count row

encrypt_row_lem : (row : Row) → encrypt_row row ≡ row
unfolding encrypt_row encrypt
encrypt_row_lem [] = refl
encrypt_row_lem ((key, value) ∷ row) = rw (encrypt_row_lem row) (both (has_ending key ope))
  where
    both : (b : Bool) → ((key, if b then value else value) ∷ row) ≡ ((key, value) ∷ row)
    both true = refl
    both false = refl

no_more :
    (name found : Str) (row : Row)
    → ope_count row ≡ 0
    → (last_ope name row ≡ name) × (last_value found row ≡ found)
unfolding last_ope last_value
no_more name found [] h = (refl, refl)
no_more name found ((key, value) ∷ row) h =
    by_ending (has_ending key ope) h (no_more name found row)
  where
    by_ending :
        (b : Bool)
        → (if b then suc (ope_count row) else ope_count row) ≡ 0
        → (ope_count row ≡ 0 → (last_ope name row ≡ name) × (last_value found row ≡ found))
        → (last_ope (if b then key else name) row ≡ name)
          × (last_value (if b then value else found) row ≡ found)
    by_ending true k more = absurd (omega (arith, k))
    by_ending false k more = more k

one_field :
    (name found : Str) (row : Row)
    → ope_count row ≡ 1
    → first_ope row ≡ some (last_ope name row, last_value found row)
unfolding first_ope last_ope last_value
one_field name found [] h = cc
one_field name found ((key, value) ∷ row) h =
    by_ending (has_ending key ope) h (one_field name found row)
  where
    by_ending :
        (b : Bool)
        → (if b then suc (ope_count row) else ope_count row) ≡ 1
        → (ope_count row ≡ 1 → first_ope row ≡ some (last_ope name row, last_value found row))
        → (if b then some (key, value) else first_ope row)
          ≡ some
              (last_ope (if b then key else name) row, last_value (if b then value else found) row)
    by_ending true k more =
        let (same_key, same_value) = no_more key value row (omega (arith, k)) in
        rw (same_key, same_value) refl
    by_ending false k more = more k

-- For a row with exactly one field whose values are kept in order, the executor keeps that field's
-- value to compare with, and the worker finds the same field whether it looks for the first one or
-- for the last.
pub first_ope-new_insert_executor :
    (database table : Str) (row : Row)
    → ope_count row ≡ 1
    → let e = new_insert_executor database table row in
      first_ope e.row ≡ some (last_ope [] e.row, e.ope_value)
unfolding new_insert_executor
first_ope-new_insert_executor database table row h =
    rw (encrypt_row_lem row) (one_field [] [] row h)
