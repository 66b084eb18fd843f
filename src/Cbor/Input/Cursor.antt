-- ===== src/Cbor/Input/Cursor.antt =====
-- A cursor that stands between the bytes already read and those to come, and what each read
-- returns there.
use zql.Prelude.{
  ℕ, ◌+◌, ◌*◌, ◌^◌, ◌≡◌, refl, pos, leb, some, List, [], ◌∷◌, ◌++◌, append_assoc, arith, length,
  length-append, get_elem?, take-append, drop-append, le→leb, bit_or, bit_or_shifted, IsByte,
}
use native.Mathlib.Nat.{suc-add}
use Prim.Native.Nat.add
use zql.Cbor.Input.{
  CborInput, new_input, has_bytes, peek, advance, get_byte, get_short, get_int, get_bytes,
}

-- The cursor behind `before`, with `rest` to come.
abbrev pub at : List ℕ → List ℕ → CborInput
at before rest = record {
  bytes = before ++ rest;
  size = length (before ++ rest);
  offset = length before;
}

pub new_input-at : (bytes : List ℕ) → new_input bytes (length bytes) ≡ at [] bytes
unfolding new_input
new_input-at bytes = refl

pub has_bytes-at :
    (before rest : List ℕ) (n : ℕ) → has_bytes (at before rest) (pos n) ≡ leb n (length rest)
unfolding has_bytes
has_bytes-at before rest n = ground (arith, length-append before rest)

peek_elem :
    (before xs : List ℕ) (k : ℕ) {b : ℕ}
    → get_elem? xs k ≡ some b
    → get_elem? (before ++ xs) (length before + k) ≡ some b
peek_elem [] xs k h = rw (add.zero k) h
peek_elem (x ∷ before) xs k h = rw (suc-add) (peek_elem before xs k h)

peek-at :
    (before xs : List ℕ) (k : ℕ) {b : ℕ}
    → get_elem? xs k ≡ some b
    → peek k (at before xs) ≡ some (b, at before xs)
unfolding peek
peek-at before xs k h = rw (peek_elem before xs k h, peek)

pub skip-at :
    (before xs rest : List ℕ) (n : ℕ)
    → n ≡ length xs
    → record (at before (xs ++ rest)) { offset = length before + n } ≡ at (before ++ xs) rest
skip-at before xs rest n h = rw (h, append_assoc before xs rest, length-append before xs)

pub get_byte-at :
    (before : List ℕ) (b : ℕ) (rest : List ℕ)
    → get_byte (at before (b ∷ rest)) ≡ some (b, at (before ++ b ∷ []) rest)
unfolding get_byte advance
get_byte-at before b rest =
    ground (arith, peek-at before (b ∷ rest) 0 refl, skip-at before (b ∷ []) rest 1 (omega arith))

pub get_short-at :
    (before : List ℕ) (a b : ℕ) (rest : List ℕ)
    → IsByte b
    → get_short (at before (a ∷ b ∷ rest)) ≡ some (a * 2 ^ 8 + b, at (before ++ a ∷ b ∷ []) rest)
unfolding get_short advance
get_short-at before a b rest hb = ground (
  arith,
  peek-at before (a ∷ b ∷ rest) 0 refl,
  peek-at before (a ∷ b ∷ rest) 1 refl,
  skip-at before (a ∷ b ∷ []) rest 2 (omega arith),
  bit_or_shifted 8 a b hb,
)

-- Four bytes joined by shifts and `|`.
joined_bytes :
    (a b c d : ℕ)
    → IsByte b
    → IsByte c
    → IsByte d
    → bit_or (bit_or (bit_or (a * 2 ^ 24) (b * 2 ^ 16)) (c * 2 ^ 8)) d
      ≡ a * 2 ^ 24 + b * 2 ^ 16 + c * 2 ^ 8 + d
joined_bytes a b c d hb hc hd =
    let high : a * 2 ^ 24 + b * 2 ^ 16 ≡ (a * 2 ^ 8 + b) * 2 ^ 16 = omega arith in
    let middle : (a * 2 ^ 8 + b) * 2 ^ 16 + c * 2 ^ 8 ≡ (a * 2 ^ 16 + b * 2 ^ 8 + c) * 2 ^ 8 =
      omega arith in
    rw
      (
        bit_or_shifted 24 a (b * 2 ^ 16) (omega arith),
        high,
        bit_or_shifted 16 (a * 2 ^ 8 + b) (c * 2 ^ 8) (omega arith),
        middle,
        bit_or_shifted 8 (a * 2 ^ 16 + b * 2 ^ 8 + c) d hd,
      )
      (omega arith)

pub get_int-at :
    (before : List ℕ) (a b c d : ℕ) (rest : List ℕ)
    → IsByte b
    → IsByte c
    → IsByte d
    → get_int (at before (a ∷ b ∷ c ∷ d ∷ rest))
      ≡ some (a * 2 ^ 24 + b * 2 ^ 16 + c * 2 ^ 8 + d, at (before ++ a ∷ b ∷ c ∷ d ∷ []) rest)
unfolding get_int advance
get_int-at before a b c d rest hb hc hd = ground (
  arith,
  peek-at before (a ∷ b ∷ c ∷ d ∷ rest) 0 refl,
  peek-at before (a ∷ b ∷ c ∷ d ∷ rest) 1 refl,
  peek-at before (a ∷ b ∷ c ∷ d ∷ rest) 2 refl,
  peek-at before (a ∷ b ∷ c ∷ d ∷ rest) 3 refl,
  skip-at before (a ∷ b ∷ c ∷ d ∷ []) rest 4 (omega arith),
  joined_bytes a b c d hb hc hd,
)

pub get_bytes-at :
    (before xs rest : List ℕ)
    → get_bytes (length xs) (at before (xs ++ rest)) ≡ some (xs, at (before ++ xs) rest)
unfolding get_bytes
get_bytes-at before xs rest = rw (
  le→leb (length before + length xs) (length (before ++ (xs ++ rest)))
      (omega (arith, length-append before (xs ++ rest), length-append xs rest)),
  drop-append before (xs ++ rest),
  take-append xs rest,
  skip-at before xs rest (length xs) refl,
)
