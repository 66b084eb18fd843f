-- ===== src/Prelude/Words.antt =====
-- Machine words: the value that a C cast gives, and `|` of disjoint fields as a sum.
use Prim.Native.Nat.{ℕ, zero, suc, ◌+◌, ◌-◌, ◌*◌, ◌/◌, ◌%◌, ◌^◌, ◌≤◌, ◌<◌, max, bit_or, bit_and}
use Prim.Native.Nat.{digits, bit_or-bitwise}
use mathlib.Core.Path.{◌≡◌, refl, ap, ◌∙◌}
use mathlib.Core.Logic.{◌≢◌, ◌⊎◌, inl, inr}
use mathlib.Core.Bool.{Bool, false, true}
use native.Mathlib.Nat.{pow-suc}
use native.Mathlib.Omega.{arith}
use zql.Prelude.Tests.{ltb, ◌==◌, if◌then◌else◌, ==→eq}
use zql.Prelude.Int.{ℤ, pos, negsuc, neg_ℕ}

abbrev pub IsByte : ℕ → Type 0
IsByte b = b < 2 ^ 8

-- `(unsigned char) n`
abbrev pub u8 : ℕ → ℕ
u8 n = n % 2 ^ 8

-- `(int) w` for an unsigned 32-bit `w`, in two's complement.
unfoldable pub to_int32 : ℕ → ℤ
to_int32 w = if ltb w (2 ^ 31) then pos w else negsuc (2 ^ 32 - 1 - w)

-- `(unsigned int) z` and `(unsigned long long) z` for an int `z`.
unfoldable pub to_uint32 : ℤ → ℕ
to_uint32 (pos n) = n % 2 ^ 32
to_uint32 (negsuc n) = 2 ^ 32 - 1 - n % 2 ^ 32

unfoldable pub to_uint64 : ℤ → ℕ
to_uint64 (pos n) = n % 2 ^ 64
to_uint64 (negsuc n) = 2 ^ 64 - 1 - n % 2 ^ 64

-- `-z` on int, wrapping at the least int as the compiled code does.
unfoldable pub neg_int32 : ℤ → ℤ
unfolding to_int32
neg_int32 (pos n) = neg_ℕ n
neg_int32 (negsuc n) = to_int32 (suc n)

pub to_uint32-to_int32 : (w : ℕ) → w < 2 ^ 32 → to_uint32 (to_int32 w) ≡ w
unfolding to_uint32 to_int32
to_uint32-to_int32 w h = ground arith

pub to_int32_small : (w : ℕ) → w < 2 ^ 31 → to_int32 w ≡ pos w
unfolding to_int32
to_int32_small w h = ground arith

-- The digits of `|` where the digits of the second number end below those of the first.
joined :
    (k fuel q a r : ℕ) → a ≡ q * 2 ^ k → r < 2 ^ k → a ≤ fuel → digits (λ y. y) max fuel a r ≡ a + r
joined k zero q zero r multiple small enough = omega arith
joined k (suc fuel) q zero r multiple small enough = omega arith
joined k zero q (suc a) r multiple small enough = absurd (omega arith)
joined zero (suc fuel) q (suc a) r multiple small enough =
    let rest =
      joined zero fuel (suc a / 2) (suc a / 2) (r / 2) (omega arith) (omega arith) (omega arith) in
    omega (arith, rest)
joined (suc k) (suc fuel) q (suc a) r multiple small enough =
    let twice : q * 2 ^ suc k ≡ 2 * (q * 2 ^ k) =
      omega (arith, ap (λ (t : ℕ). q * t) (pow-suc 2 k)) in
    let rest =
      joined k fuel q (suc a / 2) (r / 2) (omega (arith, twice)) (omega (arith, pow-suc 2 k))
        (omega arith) in
    omega (arith, rest)

-- `(q << k) | r` is a sum where `r` fits below the shifted field.
pub bit_or_shifted : (k q r : ℕ) → r < 2 ^ k → bit_or (q * 2 ^ k) r ≡ q * 2 ^ k + r
bit_or_shifted k q r small =
    bit_or-bitwise (q * 2 ^ k) r ∙ joined k (q * 2 ^ k) q (q * 2 ^ k) r refl small (omega arith)

-- Whether `& 31` gives the low five bits of every number below a bound.
five_bits : ℕ → Bool
five_bits zero = true
five_bits (suc bound) =
    let below = five_bits bound in if bit_and bound 31 == bound % 32 then below else false

five_bits_lem : (bound b : ℕ) → b < bound → five_bits bound ≡ true → bit_and b 31 ≡ b % 32
unfolding five_bits
five_bits_lem zero b inside all = absurd (omega arith)
five_bits_lem (suc bound) b inside all = elim (lt-or-eq b bound (omega arith)) [
  | inl lower ↦ five_bits_lem bound b lower (split (bit_and bound 31 == bound % 32) all).1
  | inr last ↦ rw last (==→eq _ _ (split (bit_and bound 31 == bound % 32) all).0)
]
  where
    split :
        (t : Bool)
        → (if t then five_bits bound else false) ≡ true
        → (t ≡ true) × (five_bits bound ≡ true)
    split true e = (refl, e)
    split false e = absurd (differ e)
      where
        differ : false ≢ true
        differ h = cc

    lt-or-eq : (a c : ℕ) → a ≤ c → (a < c) ⊎ (a ≡ c)
    lt-or-eq a c h = ground arith

all_bytes : five_bits 256 ≡ true
unfolding five_bits
all_bytes = refl

pub low_five : (b : ℕ) → IsByte b → bit_and b 31 ≡ b % 32
low_five b byte = five_bits_lem 256 b byte all_bytes
