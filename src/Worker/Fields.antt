-- ===== src/Worker/Fields.antt =====
-- The fields of a row whose values are kept in order, and the text of a place's code:
-- `hasEnding`, `formatPath` and the loops over a row in plugin/Worker.cpp.
use zql.Prelude.{
  ℕ, zero, suc, ◌+◌, ◌-◌, ◌/◌, ◌%◌, Bool, false, Option, none, some, [], ◌∷◌, leb, ◌==◌,
  if◌then◌else◌, length, drop,
}
use zql.Objects.Row.{Str, Row, same_str}

-- `fullString.compare(fullString.length() - ending.length(), ending.length(), ending) == 0`
unfoldable pub has_ending : (full_string ending : Str) → Bool
has_ending full_string ending =
    if leb (length ending) (length full_string)
    then same_str (drop (length full_string - length ending) full_string) ending
    else false

-- "_ope"
abbrev pub ope : Str
ope = 95 ∷ 111 ∷ 112 ∷ 101 ∷ []

-- The loop that breaks at the first such field.
unfoldable pub first_ope : Row → Option (Str × Str)
first_ope [] = none
first_ope ((key, value) ∷ row) = if has_ending key ope then some (key, value) else first_ope row

-- The loop that goes on to the last such field; the name starts out empty.
unfoldable pub last_ope : Str → Row → Str
last_ope name [] = name
last_ope name ((key, value) ∷ row) = last_ope (if has_ending key ope then key else name) row

-- `%llu`: the decimal digits, of which a number of 64 bits has at most 20.
unfoldable pub digits_of : ℕ → ℕ → Str → Str
digits_of zero n acc = acc
digits_of (suc fuel) n acc =
    let more = digits_of fuel (n / 10) ((48 + n % 10) ∷ acc) in
    if n / 10 == 0 then (48 + n % 10) ∷ acc else more

unfoldable pub format_path : ℕ → Str
unfolding digits_of
format_path path = digits_of 20 path []
