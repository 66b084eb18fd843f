-- ===== src/Worker/Decimal.antt =====
-- The text of a place's code, `formatPath` of plugin/Worker.cpp, read back as a number.
use zql.Prelude.{
  Bool, true, false, ℕ, zero, suc, ◌+◌, ◌-◌, ◌*◌, ◌/◌, ◌%◌, ◌^◌, ◌<◌, ◌≡◌, refl, ap, ◌∙◌, [], ◌∷◌,
  arith, ◌==◌, if◌then◌else◌,
}
use zql.Objects.Row.{Str}
use zql.Worker.Fields.{digits_of, format_path}

-- The number that decimal digits are, after those that make `n`.
abbrev pub number_of : ℕ → Str → ℕ
number_of n [] = n
number_of n (d ∷ digits) = number_of (n * 10 + (d - 48)) digits

number_of-digits_of :
    (fuel n : ℕ) (acc : Str) → n < 10 ^ fuel → number_of 0 (digits_of fuel n acc) ≡ number_of n acc
unfolding digits_of
number_of-digits_of zero n acc h = ap (λ k. number_of k acc) (omega (arith, h))
number_of-digits_of (suc fuel) n acc h =
    by_size (n / 10 == 0) refl
      (number_of-digits_of fuel (n / 10) ((48 + n % 10) ∷ acc) (omega (arith, h)))
  where
    by_size :
        (b : Bool)
        → (n / 10 == 0) ≡ b
        → number_of 0 (digits_of fuel (n / 10) ((48 + n % 10) ∷ acc))
          ≡ number_of (n / 10) ((48 + n % 10) ∷ acc)
        → number_of 0
            (if b then (48 + n % 10) ∷ acc else digits_of fuel (n / 10) ((48 + n % 10) ∷ acc))
          ≡ number_of n acc
    by_size true small more =
        let zero_above : n / 10 ≡ 0 = ground (arith, small) in
        ap (λ k. number_of k acc) (omega (arith, zero_above))
    by_size false large more = more ∙ ap (λ k. number_of k acc) (omega arith)

-- The digits of a number of 64 bits are those of that number.
pub number_of-format_path : (n : ℕ) → n < 2 ^ 64 → number_of 0 (format_path n) ≡ n
unfolding format_path
number_of-format_path n h = number_of-digits_of 20 n [] (omega (arith, h))
