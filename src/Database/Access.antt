-- ===== src/Database/Access.antt =====
-- The methods of Database in plugin/Database.cpp.
use zql.Prelude.{
  ℕ, zero, suc, ℤ, pos, negsuc, eqb_ℤ, ◌%◌, ◌^◌, Bool, true, false, Option, none, some, List, [],
  ◌∷◌, if◌then◌else◌, to_int32,
}
use zql.Objects.Row.{Str, Row, assign, find}
use zql.Worker.Fields.{digits_of}
use zql.Database.{Server}

-- `%d`
unfoldable pub decimal : ℤ → Str
unfolding digits_of
decimal (pos n) = digits_of 20 n []
decimal (negsuc n) = 45 ∷ digits_of 20 (suc n) []

-- "NULL"
abbrev pub null_text : Str
null_text = 78 ∷ 85 ∷ 76 ∷ 76 ∷ []

module _ {ℓ} {S : Type ℓ} (server : Server S) where
  unfoldable pub lock_tables : S → S
  lock_tables s = server.mysql_lock_tables s

  unfoldable pub unlock_tables : S → S
  unlock_tables s = server.mysql_unlock_tables (server.trans_commit_stmt s)

  -- The key's bytes and their length.
  unfoldable pub prepare_keybuf : (index value : ℤ) → S → List ℕ × ℕ × S
  unfolding decimal
  prepare_keybuf index value s =
      let s1 = server.set_notnull (server.key_field index s) s in
      let s2 = server.store (server.key_field index s1) (decimal value) s1 in
      let kplen_sum = server.store_length index s2 in
      (server.key_copy index kplen_sum s2, kplen_sum, s2)

  -- The loop over the fields in `get`, from a field on.
  unfoldable pub read_fields : List Str → S → Row → Row
  read_fields [] s result = result
  read_fields (name ∷ fields) s result =
      read_fields fields s
        (assign name (if server.is_null name s then null_text else server.val_str name s) result)

  -- The loop over the rows in `get`, from a result of the index on: a unit of fuel for each row and
  -- one for the end. `none` is where the fuel runs out.
  unfoldable pub scan :
      (fuel : ℕ)
      → (key : List ℕ) → (kplen_sum : ℕ) → (r : ℤ) → (found : Bool) → (result : Row) → S
      → Option (Bool × Row × S)
  unfolding read_fields
  scan zero key kplen_sum r found result s = none
  scan (suc fuel) key kplen_sum r found result s =
      let (r', s') = server.index_next_same key kplen_sum s in
      let rest = scan fuel key kplen_sum r' true (read_fields (server.field_names s) s result) s' in
      if eqb_ℤ r (pos 0) then rest else some (found, result, s)

  -- From the opened table to the first result of the index.
  unfoldable pub look_up : (for_write : Bool) → (index value : ℤ) → S → List ℕ × ℕ × ℤ × S
  unfolding lock_tables prepare_keybuf
  look_up for_write index value s =
      let (key, kplen_sum, s1) =
        prepare_keybuf index value (lock_tables (server.use_all_columns for_write s)) in
      let s2 = server.read_all_columns s1 in
      let s3 = if for_write then s2 else server.init_table_handle s2 in
      let (r, s4) =
        server.index_read_map key (server.index_init index (server.index_or_rnd_end s3)) in
      (key, kplen_sum, r, s4)

  -- From the last row to the end.
  unfoldable pub close : S → S
  unfolding unlock_tables
  close s =
      server.release_transactional_locks
        (server.close_thread_tables (unlock_tables (server.index_or_rnd_end s)))

  -- `(int) pk`
  unfoldable pub get : (fuel : ℕ) → (database table : Str) → (pk : ℕ) → S → Option (Bool × Row × S)
  unfolding look_up scan close to_int32
  get fuel database table pk s =
      let (opened, s0) = server.open_table false database table s in
      let (key, kplen_sum, r, s1) = look_up false (pos 0) (to_int32 (pk % 2 ^ 32)) s0 in
      if opened
      then elim (scan fuel key kplen_sum r false [] s1) [
        | none ↦ none
        | some (found, result, s2) ↦ some (found, result, close s2)
      ]
      else some (false, [], s0)

  -- The loop over the fields in `add`, from a field on.
  unfoldable pub write_fields : List Str → Row → S → S
  write_fields [] row s = s
  write_fields (name ∷ fields) row s = write_fields fields row (elim (find name row) [
    | none ↦ server.set_null name s
    | some value ↦ server.store name value s
  ])

  -- The record of the table's buffer, as it is written.
  unfoldable pub fill_record : Row → S → S
  unfolding write_fields
  fill_record row s =
      let cleared = server.clear_null_bytes (server.empty_record s) in
      write_fields (server.field_names cleared) row cleared

  -- `return -1` is true. The table is not closed.
  unfoldable pub add : (database table : Str) → Row → S → Bool × S
  unfolding lock_tables unlock_tables fill_record
  add database table row s =
      let (opened, s0) = server.open_table true database table s in
      let s1 = fill_record row (lock_tables (server.use_all_columns true s0)) in
      let (r, s2) = server.write_row (server.use_next_number s1) in
      if opened then (eqb_ℤ r (pos 0), unlock_tables (server.reset_next_number s2)) else (true, s0)

  -- The rows are only printed.
  unfoldable pub execute :
      (fuel : ℕ)
      → (database table : Str) → (for_write : Bool) → (index : Str) → (value : ℤ) → S
      → Option (ℤ × S)
  unfolding look_up scan close
  execute fuel database table for_write index value s =
      let (opened, s0) = server.open_table for_write database table s in
      let (key, kplen_sum, r, s1) = look_up for_write (server.atoi index) value s0 in
      if opened
      then elim (scan fuel key kplen_sum r false [] s1) [
        | none ↦ none
        | some (found, result, s2) ↦ some (pos 0, close s2)
      ]
      else some (negsuc 0, s0)
