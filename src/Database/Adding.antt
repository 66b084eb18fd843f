-- ===== src/Database/Adding.antt =====
-- `Database::add` of plugin/Database.cpp: the record that it writes.
use zql.Prelude.{
  pos, eqb_ℤ, ◌≡◌, refl, sym, ap, ◌∙◌, Bool, true, false, Option, none, some, List, [], ◌∷◌,
  if◌then◌else◌, arith,
}
use zql.Objects.Row.{Str, Row, same_str, find}
use zql.Objects.Row.Order.{compare_str-eq}
use zql.Database.{Server}
use zql.Database.Access.{lock_tables, unlock_tables, write_fields, fill_record, add}
use zql.Database.Reading.{among}

-- What `add` relies on: a field keeps its flag for null and its value apart, and apart from those of
-- other fields. `nullable` is which columns can hold a null, and `kept` is what a column keeps of a
-- text.
pub record KeepsFields {ℓ} {S : Type ℓ} (server : Server S) (nullable : Str → Bool)
    (kept : Str → Str → Str) : Type ℓ where
  pub null_cleared : (f : Str) (s : S) → server.is_null f (server.clear_null_bytes s) ≡ false
  pub null_stored :
      (f g v : Str) (s : S) → server.is_null f (server.store g v s) ≡ server.is_null f s
  pub value_stored :
      (f g v : Str) (s : S)
      → server.val_str f (server.store g v s)
        ≡ (if same_str f g then kept g v else server.val_str f s)
  pub null_set :
      (f g : Str) (s : S)
      → server.is_null f (server.set_null g s)
        ≡ (if same_str f g then nullable g else server.is_null f s)
  pub value_set : (f g : Str) (s : S) → server.val_str f (server.set_null g s) ≡ server.val_str f s

module _ {ℓ} {S : Type ℓ} (server : Server S) (nullable : Str → Bool) (kept : Str → Str → Str)
    (laws : KeepsFields server nullable kept) (row : Row) where
  -- A column of the row that is written, from what it was.
  abbrev pub null_of : Str → Bool → Bool
  null_of f was = elim (find f row) [ none ↦ nullable f | some v ↦ was ]

  abbrev pub value_of : Str → Str → Str
  value_of f was = elim (find f row) [ none ↦ was | some v ↦ kept f v ]

  abbrev step_of : Option Str → Str → S → S
  step_of o g s = elim o [ none ↦ server.set_null g s | some v ↦ server.store g v s ]

  -- The value of `f` is asked for where the row has the field `g`.
  null_step :
      (f g : Str) (s : S) (o : Option Str)
      → find g row ≡ o
      → server.is_null f (step_of o g s)
        ≡ (if same_str f g then null_of f (server.is_null f s) else server.is_null f s)
  null_step f g s none e = laws.null_set f g s ∙ ground (arith, compare_str-eq f g)
  null_step f g s (some v) e = laws.null_stored f g v s ∙ ground (arith, compare_str-eq f g)

  value_step :
      (f g : Str) (s : S) (o : Option Str)
      → find g row ≡ o
      → server.val_str f (step_of o g s)
        ≡ (if same_str f g then value_of f (server.val_str f s) else server.val_str f s)
  value_step f g s none e = laws.value_set f g s ∙ ground (arith, compare_str-eq f g)
  value_step f g s (some v) e = laws.value_stored f g v s ∙ ground (arith, compare_str-eq f g)

  null_twice :
      (f g : Str) (names : List Str) (o : Option Str) (was : Bool)
      → (let after = if same_str f g then (elim o [ none ↦ nullable f | some v ↦ was ]) else was in
          if among f names then (elim o [ none ↦ nullable f | some v ↦ after ]) else after)
        ≡ (if among f (g ∷ names) then (elim o [ none ↦ nullable f | some v ↦ was ]) else was)
  null_twice f g names none was = ground arith
  null_twice f g names (some v) was = ground arith

  value_twice :
      (f g : Str) (names : List Str) (o : Option Str) (was : Str)
      → (let after = if same_str f g then (elim o [ none ↦ was | some v ↦ kept f v ]) else was in
          if among f names then (elim o [ none ↦ after | some v ↦ kept f v ]) else after)
        ≡ (if among f (g ∷ names) then (elim o [ none ↦ was | some v ↦ kept f v ]) else was)
  value_twice f g names none was = ground arith
  value_twice f g names (some v) was = ground arith

  pub null_written :
      (f : Str) (names : List Str) (s : S)
      → server.is_null f (write_fields server names row s)
        ≡ (if among f names then null_of f (server.is_null f s) else server.is_null f s)
  unfolding write_fields
  null_written f [] s = refl
  null_written f (g ∷ names) s =
      null_written f names (step_of (find g row) g s)
      ∙ ap (λ b. if among f names then null_of f b else b) (null_step f g s (find g row) refl)
      ∙ null_twice f g names (find f row) (server.is_null f s)

  pub value_written :
      (f : Str) (names : List Str) (s : S)
      → server.val_str f (write_fields server names row s)
        ≡ (if among f names then value_of f (server.val_str f s) else server.val_str f s)
  unfolding write_fields
  value_written f [] s = refl
  value_written f (g ∷ names) s =
      value_written f names (step_of (find g row) g s)
      ∙ ap (λ b. if among f names then value_of f b else b) (value_step f g s (find g row) refl)
      ∙ value_twice f g names (find f row) (server.val_str f s)

  -- The empty record of the opened table.
  abbrev pub blank : (database table : Str) → S → S
  blank database table s = server.clear_null_bytes (
      server.empty_record (
        server.mysql_lock_tables
          (server.use_all_columns true (server.open_table true database table s).1)))

  -- What `add` writes: a record with the row's values in the fields of the table that the row names,
  -- as the columns keep them. A column that the row does not name is null if it can be, and has its
  -- default value if not.
  pub record Writes (database table : Str) (s written : S) : Type ℓ where
    pub null :
        (f : Str)
        → server.is_null f written ≡ (
            if among f (server.field_names (blank database table s))
            then null_of f false
            else false)
    pub value :
        (f : Str)
        → let was = server.val_str f (blank database table s) in
          server.val_str f written
          ≡ (if among f (server.field_names (blank database table s)) then value_of f was else was)

  -- `add` writes one record, with the row's values, and returns whether the server has written it.
  -- Where the table cannot be opened it writes none, and returns true all the same.
  pub add-Writes :
      (database table : Str) (s : S)
      → (written : S) × Writes database table s written
        × (add server database table row s ≡ (
            if (server.open_table true database table s).0
            then (
              eqb_ℤ (server.write_row (server.use_next_number written)).0 (pos 0),
              unlock_tables server
                  (server.reset_next_number (server.write_row (server.use_next_number written)).1),
            )
            else (true, (server.open_table true database table s).1)))
  unfolding add fill_record lock_tables
  add-Writes database table s =
      let start = blank database table s in
      (
        write_fields server (server.field_names start) row start,
        record {
          null = λ f.
              rw
                (sym (
                  laws.null_cleared f (
                    server.empty_record (
                      server.mysql_lock_tables (
                        server.use_all_columns true (server.open_table true database table s).1)))))
                (null_written f (server.field_names start) start);
          value = λ f. value_written f (server.field_names start) start;
        },
        refl,
      )
