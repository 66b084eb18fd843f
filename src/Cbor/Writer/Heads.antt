-- ===== src/Cbor/Writer/Heads.antt =====
-- The head of an item: which bytes `writeTypeAndValue` writes, for both of its overloads.
use zql.Prelude.{
  ℕ, ◌+◌, ◌*◌, ◌/◌, ◌^◌, ◌≤◌, ◌<◌, ◌≡◌, ◌⊎◌, ltb, lt→ltb, ltb-false, List, [], ◌∷◌, arith,
  if◌then◌else◌, bit_or, u8, bit_or_shifted, ltb→lt, Bool-cases, inl, inr,
}
use zql.Cbor.Output.{Write, ◌>>◌, put_byte}
use zql.Cbor.Output.Bounds.{IsSafe, put_byte-IsSafe, IsSafe->>, IsSafe-if}
use zql.Cbor.Output.Append.{Writes, put_byte-Writes, Writes->>, Writes-if}
use zql.Cbor.Writer.{write_type_and_value, write_type_and_value_64}

-- A number in `n` bytes, the highest first.
abbrev pub be16 : ℕ → List ℕ
be16 v = u8 (v / 2 ^ 8) ∷ u8 v ∷ []

abbrev pub be32 : ℕ → List ℕ
be32 v = u8 (v / 2 ^ 24) ∷ u8 (v / 2 ^ 16) ∷ be16 v

abbrev pub be64 : ℕ → List ℕ
be64 v = u8 (v / 2 ^ 56) ∷ u8 (v / 2 ^ 48) ∷ u8 (v / 2 ^ 40) ∷ u8 (v / 2 ^ 32) ∷ be32 v

-- The format's head: the number stands in the low five bits of the first byte if it is below 24,
-- else these say in how many bytes it follows.
abbrev pub head_form : ℕ → ℕ → ℕ
head_form m low = m * 32 + low

unfoldable pub head : ℕ → ℕ → List ℕ
head m v =
    if ltb v 24
    then head_form m v ∷ []
    else (if ltb v 256
        then head_form m 24 ∷ u8 v ∷ []
        else (if ltb v 65536 then head_form m 25 ∷ be16 v else head_form m 26 ∷ be32 v))

form_byte : (m low : ℕ) → m < 8 → low < 32 → u8 (bit_or (m * 2 ^ 5) low) ≡ head_form m low
form_byte m low hm hl = rw (bit_or_shifted 5 m low hl) (omega arith)

-- Two bytes after another, and four.
two-Writes : (a b : ℕ) → Writes (a ∷ b ∷ []) (put_byte a >> put_byte b)
two-Writes a b = Writes->> (put_byte a) (put_byte b) (put_byte-Writes a) (put_byte-Writes b)

cons-Writes : {xs : List ℕ} (a : ℕ) (f : Write) → Writes xs f → Writes (a ∷ xs) (put_byte a >> f)
cons-Writes a f w = Writes->> (put_byte a) f (put_byte-Writes a) w

-- The overload for `unsigned int` writes the format's head of a major type below 8 and a 32-bit
-- number, into every valid buffer with room for it.
pub write_type_and_value-Writes :
    (m v : ℕ) → m < 8 → v < 2 ^ 32 → Writes (head m v) (write_type_and_value m v)
unfolding write_type_and_value head
write_type_and_value-Writes m v hm hv = elim (Bool-cases (ltb v 24)) [
  | inl short ↦ rw (short, form_byte m v hm (omega (arith, ltb→lt v 24 short))) (put_byte-Writes _)
  | inr long ↦
      rw
        (
          long,
          form_byte m 24 hm (omega arith),
          form_byte m 25 hm (omega arith),
          form_byte m 26 hm (omega arith),
        )
        (Writes-if (ltb v 256) (two-Writes _ _) (
          Writes-if (ltb v 65536) (cons-Writes _ _ (two-Writes _ _))
            (cons-Writes _ _ (cons-Writes _ _ (cons-Writes _ _ (two-Writes _ _))))))
]

-- The overload for `unsigned long long` writes the format's head of a major type below 8 and a
-- 32-bit number that is below 256 or at least 65536, into every valid buffer with room for it.
pub write_type_and_value_64-Writes :
    (m v : ℕ)
    → m < 8
    → v < 2 ^ 32
    → (v < 256) ⊎ (65536 ≤ v)
    → Writes (head m v) (write_type_and_value_64 m v)
unfolding write_type_and_value_64 head
write_type_and_value_64-Writes m v hm hv (inl byte) = elim (Bool-cases (ltb v 24)) [
  | inl short ↦ rw (short, form_byte m v hm (omega (arith, ltb→lt v 24 short))) (put_byte-Writes _)
  | inr long ↦ rw (long, lt→ltb v 256 byte, form_byte m 24 hm (omega arith)) (two-Writes _ _)
]
write_type_and_value_64-Writes m v hm hv (inr wide) =
    rw
      (
        ltb-false v 24 (omega arith),
        ltb-false v 256 (omega arith),
        ltb-false v 65536 wide,
        lt→ltb v 4294967296 hv,
        form_byte m 26 hm (omega arith),
      )
      (cons-Writes _ _ (cons-Writes _ _ (cons-Writes _ _ (two-Writes _ _))))

-- Of a number from 256 to 65535 the overload for `unsigned long long` writes the first byte of the
-- two-byte form and the high byte of the number only: the low byte is missing.
pub write_type_and_value_64_drops :
    (m v : ℕ)
    → m < 8
    → 256 ≤ v
    → v < 65536
    → Writes (head_form m 25 ∷ u8 (v / 2 ^ 8) ∷ []) (write_type_and_value_64 m v)
unfolding write_type_and_value_64
write_type_and_value_64_drops m v hm lo hi =
    rw
      (
        ltb-false v 24 (omega arith),
        ltb-false v 256 lo,
        lt→ltb v 65536 hi,
        form_byte m 25 hm (omega arith),
      )
      (two-Writes _ _)

-- A number from 2^32 on is written by the overload for `unsigned long long` as the first byte of
-- the eight-byte form and the low 64 bits of the number, the highest byte first.
pub write_type_and_value_64_long :
    (m v : ℕ) → m < 8 → 2 ^ 32 ≤ v → Writes (head_form m 27 ∷ be64 v) (write_type_and_value_64 m v)
unfolding write_type_and_value_64
write_type_and_value_64_long m v hm lo =
    rw
      (
        ltb-false v 24 (omega arith),
        ltb-false v 256 (omega arith),
        ltb-false v 65536 (omega arith),
        ltb-false v 4294967296 lo,
        form_byte m 27 hm (omega arith),
      )
      (cons-Writes _ _ (
        cons-Writes _ _ (
          cons-Writes _ _ (
            cons-Writes _ _
              (cons-Writes _ _ (cons-Writes _ _ (cons-Writes _ _ (two-Writes _ _))))))))

two-IsSafe : (a b : ℕ) → IsSafe (put_byte a >> put_byte b)
two-IsSafe a b = IsSafe->> (put_byte a) (put_byte b) (put_byte-IsSafe a) (put_byte-IsSafe b)

cons-IsSafe : (a : ℕ) (f : Write) → IsSafe f → IsSafe (put_byte a >> f)
cons-IsSafe a f p = IsSafe->> (put_byte a) f (put_byte-IsSafe a) p

-- Whatever the number and the room, nothing is written outside the buffer.
pub write_type_and_value-IsSafe : (m v : ℕ) → IsSafe (write_type_and_value m v)
unfolding write_type_and_value
write_type_and_value-IsSafe m v = IsSafe-if (ltb v 24) _ _ (put_byte-IsSafe _) (
    IsSafe-if (ltb v 256) _ _ (two-IsSafe _ _) (
      IsSafe-if (ltb v 65536) _ _ (cons-IsSafe _ _ (two-IsSafe _ _))
        (cons-IsSafe _ _ (cons-IsSafe _ _ (cons-IsSafe _ _ (two-IsSafe _ _))))))

pub write_type_and_value_64-IsSafe : (m v : ℕ) → IsSafe (write_type_and_value_64 m v)
unfolding write_type_and_value_64
write_type_and_value_64-IsSafe m v = IsSafe-if (ltb v 24) _ _ (put_byte-IsSafe _) (
    IsSafe-if (ltb v 256) _ _ (two-IsSafe _ _) (
      IsSafe-if (ltb v 65536) _ _ (two-IsSafe _ _) (
        IsSafe-if (ltb v 4294967296) _ _
          (cons-IsSafe _ _ (cons-IsSafe _ _ (cons-IsSafe _ _ (two-IsSafe _ _))))
          (cons-IsSafe _ _ (
            cons-IsSafe _ _ (
              cons-IsSafe _ _ (
                cons-IsSafe _ _
                  (cons-IsSafe _ _ (cons-IsSafe _ _ (cons-IsSafe _ _ (two-IsSafe _ _)))))))))))
