-- ===== src/Database/Reading.antt =====
-- `Database::get` of plugin/Database.cpp as a lookup: what it puts into the row it gives.
use Prim.Native.Nat.{Ordering}
use zql.Prelude.{
  ℕ, zero, suc, ℤ, pos, eqb_ℤ, ◌<◌, ◌≡◌, refl, ap, ◌∙◌, Bool, true, false, Option, none, some, ◌%◌,
  ◌^◌, to_int32, List, [], ◌∷◌, if◌then◌else◌, length, arith, All,
}
use zql.Objects.Row.{Str, Row, same_str, find, compare_str, assign}
use zql.Objects.Row.Order.{find-assign, compare_str-eq}
use zql.Database.{Server}
use zql.Database.Access.{null_text, read_fields, scan, look_up, close, get}

abbrev pub among : Str → List Str → Bool
among f [] = false
among f (g ∷ names) = if same_str f g then true else among f names

module _ {ℓ} {S : Type ℓ} (server : Server S) where
  -- The text of a field of the record in the buffer.
  abbrev pub shown : Str → S → Str
  shown f s = if server.is_null f s then null_text else server.val_str f s

  pub find-read_fields :
      (f : Str) (names : List Str) (s : S) (result : Row)
      → find f (read_fields server names s result)
        ≡ (if among f names then some (shown f s) else find f result)
  unfolding read_fields
  find-read_fields f [] s result = refl
  find-read_fields f (g ∷ names) s result =
      find-read_fields f names s (assign g (shown g s) result)
      ∙ ap (λ o. if among f names then some (shown f s) else o) (find-assign f g (shown g s) result)
      ∙ by_order (compare_str f g) refl (among f names)
    where
      both : (b : Bool) (x : Option Str) → (if b then x else x) ≡ x
      both true x = refl
      both false x = refl

      by_order :
          (o : Ordering)
          → compare_str f g ≡ o
          → (b : Bool)
          → (if b
              then some (shown f s)
              else (if same_str f g then some (shown g s) else find f result))
            ≡ (if (if same_str f g then true else b) then some (shown f s) else find f result)
      by_order Ordering.lt e b = rw (e, same_str) refl
      by_order Ordering.gt e b = rw (e, same_str) refl
      by_order Ordering.eq e b = rw (e, same_str, compare_str-eq f g e) (both b (some (shown g s)))

  -- The rows that the index yields, from its result `r` in the state `s` on: the states in which a
  -- row is in the buffer, and the state in the end.
  pub data Yields (key : List ℕ) (kplen_sum : ℕ) : ℤ → S → List S → S → Type ℓ where
    ended : {r : ℤ} {s : S} → eqb_ℤ r (pos 0) ≡ false → Yields key kplen_sum r s [] s
    yields :
        {r : ℤ} {s last : S} {rows : List S}
        → eqb_ℤ r (pos 0) ≡ true
        → Yields key kplen_sum
            (server.index_next_same key kplen_sum s).0
            (server.index_next_same key kplen_sum s).1
            rows
            last
        → Yields key kplen_sum r s (s ∷ rows) last

  -- The row that the loop has after those rows.
  abbrev pub gathered : List S → Row → Row
  gathered [] result = result
  gathered (s ∷ rows) result = gathered rows (read_fields server (server.field_names s) s result)

  abbrev pub any : List S → Bool → Bool
  any [] found = found
  any (s ∷ rows) found = true

  any-true : (rows : List S) → any rows true ≡ true
  any-true [] = refl
  any-true (s ∷ rows) = refl

  pub scan_yields :
      (fuel : ℕ) (key : List ℕ) (kplen_sum : ℕ) {r : ℤ} (found : Bool) (result : Row) {s last : S}
      {rows : List S}
      → Yields key kplen_sum r s rows last
      → length rows < fuel
      → scan server fuel key kplen_sum r found result s
        ≡ some (any rows found, gathered rows result, last)
  unfolding scan
  scan_yields zero key kplen_sum found result y more = absurd (omega (arith, more))
  scan_yields (suc fuel) key kplen_sum found result (ended e) more = rw e refl
  scan_yields (suc fuel) key kplen_sum found result (yields {s} {last} {rows} e y) more = rw e (
      scan_yields fuel key kplen_sum true (read_fields server (server.field_names s) s result) y
        (omega (arith, more))
      ∙ ap (λ b. some (b, gathered rows (read_fields server (server.field_names s) s result), last))
          (any-true rows))

  abbrev pub last_row : S → List S → S
  last_row s [] = s
  last_row s (t ∷ rows) = last_row t rows

  -- A field of the last row.
  abbrev pub field_of : List Str → List S → Str → Option Str
  field_of names [] f = none
  field_of names (s ∷ rows) f = if among f names then some (shown f (last_row s rows)) else none

  find-gathered :
      (f : Str) (names : List Str) (s : S) (rows : List S) (result : Row)
      → All (λ t. server.field_names t ≡ names) (s ∷ rows)
      → find f (gathered (s ∷ rows) result)
        ≡ (if among f names then some (shown f (last_row s rows)) else find f result)
  find-gathered f names s [] result (same, others) =
      ap (λ l. find f (read_fields server l s result)) same ∙ find-read_fields f names s result
  find-gathered f names s (t ∷ rows) result (same, others) =
      find-gathered f names t rows (read_fields server (server.field_names s) s result) others
      ∙ ap
          (λ l.
            if among f names
            then some (shown f (last_row t rows))
            else find f (read_fields server l s result))
          same
      ∙ ap (λ o. if among f names then some (shown f (last_row t rows)) else o)
          (find-read_fields f names s result)
      ∙ twice (among f names) (some (shown f (last_row t rows))) (some (shown f s))
    where
      twice :
          (b : Bool) (x y : Option Str)
          → (if b then x else (if b then y else find f result)) ≡ (if b then x else find f result)
      twice true x y = refl
      twice false x y = refl

  -- The table of a lookup is opened, and the index yields rows with the fields `names` for the key.
  pub record Finds (database table : Str) (pk : ℕ) (s : S) (names : List Str) (rows : List S)
      (last : S) : Type ℓ where
    pub opened : (server.open_table false database table s).0 ≡ true
    pub looked_up :
        let (key, kplen_sum, r, s1) =
          look_up server false
            (pos 0)
            (to_int32 (pk % 2 ^ 32))
            (server.open_table false database table s).1 in
        Yields key kplen_sum r s1 rows last
    pub same_names : All (λ t. server.field_names t ≡ names) rows

  -- If the index yields finitely many rows, `get` returns, with a unit of fuel for each row and one
  -- more. It has found something if there is a row, and then the row that it gives has for each
  -- field of the table the text of that field in the last row, "NULL" for a null, and nothing else.
  -- The table is closed and the locks are released from the state where the rows ended.
  pub get-Finds :
      (fuel : ℕ) (database table : Str) (pk : ℕ) (s last : S) (names : List Str) (rows : List S)
      → Finds database table pk s names rows last
      → length rows < fuel
      → (result : Row) × (get server fuel database table pk s
          ≡ some (any rows false, result, close server last))
        × ((f : Str) → find f result ≡ field_of names rows f)
  unfolding get find
  get-Finds fuel database table pk s last names rows finds more = (
    gathered rows [],
    rw (finds.opened, scan_yields fuel _ _ false [] finds.looked_up more) refl,
    fields rows finds.same_names,
  )
    where
      fields :
          (rows : List S)
          → All (λ t. server.field_names t ≡ names) rows
          → (f : Str) → find f (gathered rows []) ≡ field_of names rows f
      fields [] same f = refl
      fields (t ∷ rows) same f = find-gathered f names t rows [] same
