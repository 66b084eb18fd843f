-- ===== src/Cbor/Input.antt =====
-- CborInput of lib/Cbor.cpp: a cursor over the bytes of a message. `none` is a read outside of
-- them, which in C++ is undefined. The bytes are below 256, so no shift of one wraps.
pub mod Cursor
pub mod Bounds
use zql.Prelude.{
  ℕ, ◌+◌, ◌*◌, ◌%◌, ◌^◌, ℤ, sub_ℕ, leb_ℤ, leb, Bool, Option, none, some, List, length, get_elem?,
  take, drop, bit_or, if◌then◌else◌,
}

pub record CborInput : Type 0 where
  pub bytes : List ℕ
  pub size : ℕ
  pub offset : ℕ

-- The constructor.
unfoldable pub new_input : (bytes : List ℕ) (size : ℕ) → CborInput
new_input bytes size = record { bytes = bytes; size = size; offset = 0 }

abbrev pub In : Type 0 → Type 0
In A = CborInput → Option (A × CborInput)

abbrev pub pure : {A : Type 0} → A → In A
pure a i = some (a, i)

infixl 5 ◌>>=◌ ◌>>◌
abbrev pub ◌>>=◌ : {A B : Type 0} → In A → (A → In B) → In B
◌>>=◌ m f i = elim (m i) [ none ↦ none | some (a, i') ↦ f a i' ]

abbrev pub ◌>>◌ : {B : Type 0} → In (Unit {0}) → In B → In B
m >> k = m >>= λ _. k

-- `data[offset + k]`, and `offset += n`.
unfoldable pub peek : ℕ → In ℕ
peek k i = elim (get_elem? i.bytes (i.offset + k)) [ none ↦ none | some b ↦ some (b, i) ]

unfoldable pub advance : ℕ → In (Unit {0})
advance n i = some (tt, record i { offset = i.offset + n })

-- `size - offset >= count`, on int.
unfoldable pub has_bytes : CborInput → ℤ → Bool
has_bytes i count = leb_ℤ count (sub_ℕ i.size i.offset)

unfoldable pub get_byte : In ℕ
get_byte = do a ← peek 0; advance 1; pure a

unfoldable pub get_short : In ℕ
get_short = do a ← peek 0; b ← peek 1; advance 2; pure (bit_or (a * 2 ^ 8) b)

unfoldable pub get_int : In ℕ
get_int = do
  a ← peek 0
  b ← peek 1
  c ← peek 2
  d ← peek 3
  advance 4
  pure (bit_or (bit_or (bit_or (a * 2 ^ 24) (b * 2 ^ 16)) (c * 2 ^ 8)) d)

unfoldable pub get_long : In ℕ
get_long = do
  a ← peek 0
  b ← peek 1
  c ← peek 2
  d ← peek 3
  e ← peek 4
  f ← peek 5
  g ← peek 6
  h ← peek 7
  advance 8
  pure (
      bit_or
        (bit_or
          (bit_or
            (bit_or (bit_or (bit_or (bit_or (a * 2 ^ 56) (b * 2 ^ 48)) (c * 2 ^ 40)) (d * 2 ^ 32))
              (e * 2 ^ 24))
            (f * 2 ^ 16))
          (g * 2 ^ 8))
        h)

unfoldable pub get_bytes : ℕ → In (List ℕ)
get_bytes count i =
    if leb (i.offset + count) (length i.bytes)
    then some (take count (drop i.offset i.bytes), record i { offset = i.offset + count })
    else none
