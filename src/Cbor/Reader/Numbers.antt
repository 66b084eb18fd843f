-- ===== src/Cbor/Reader/Numbers.antt =====
-- How the reader takes in the head of an item, for all major types at once.
use zql.Prelude.{
  ℕ, suc, ◌+◌, ◌*◌, ◌/◌, ◌%◌, ◌^◌, ◌<◌, ◌≡◌, ◌∙◌, inl, inr, ℤ, pos, List, [], ◌∷◌, ◌++◌,
  append_assoc, arith, ltb, le→leb, Bool-cases, ltb→lt, if◌then◌else◌, length, low_five, u8,
}
use zql.Cbor.Input.{CborInput}
use zql.Cbor.Input.Cursor.{at, has_bytes-at, get_byte-at}
use zql.Cbor.Reader.{CborListener, CborReader, CborReaderState, more, state_type, enter, consume}
use zql.Cbor.Reader.Head.{switch_major, read_type}
use zql.Cbor.Reader.Loop.{step, run}
use zql.Cbor.Writer.Heads.{head, head_form, be16, be32}

abbrev pub reader : CborInput → CborReaderState → ℤ → CborReader
reader i state n = record { input = i; state = state; current_length = n }

module _ {ℓ} {L : Type ℓ} (listener : CborListener L) where
  pub first_byte :
      (m low : ℕ)
      → m < 8
      → low < 32
      → (before rest : List ℕ) (n : ℤ) (l : L)
      → step listener (reader (at before (head_form m low ∷ rest)) state_type n) l
        ≡ switch_major listener m low
            (reader (at (before ++ head_form m low ∷ []) rest) state_type n)
            l
  unfolding step read_type
  first_byte m low hm hl before rest n l =
      let major : (m * 32 + low) / 32 ≡ m = omega arith in
      let minor : (m * 32 + low) % 32 ≡ low = omega arith in
      rw (
        has_bytes-at before (head_form m low ∷ rest) 1,
        le→leb 1 (length (head_form m low ∷ rest)) (omega arith),
        get_byte-at before (head_form m low) rest,
        consume,
        low_five (m * 32 + low) (omega arith),
        major,
        minor,
      )

  pub run_more :
      (fuel : ℕ) (r r' : CborReader) (l l' : L)
      → step listener r l ≡ more r' l'
      → run listener (suc fuel) r l ≡ run listener fuel r' l'
  unfolding run
  run_more fuel r r' l l' e = rw (e, run)

  -- What a major type does with the number `v` of its head: it goes on in `land v`, with `effect v`
  -- done. `at_short v` is `currentLength` behind the two-byte form.
  pub record Major (m : ℕ) (state : CborReaderState) (land : ℕ → ℤ → CborInput → CborReader)
      (effect : ℕ → L → L) (at_short : ℕ → ℤ) : Type ℓ where
    pub below : m < 8
    pub in_byte :
        (v : ℕ) (i : CborInput) (n : ℤ) (l : L)
        → v < 24
        → switch_major listener m v (reader i state_type n) l ≡ more (land v n i) (effect v l)
    pub enter_one :
        (r : CborReader) (l : L) → switch_major listener m 24 r l ≡ more (enter r state 1) l
    pub enter_two :
        (r : CborReader) (l : L) → switch_major listener m 25 r l ≡ more (enter r state 2) l
    pub enter_four :
        (r : CborReader) (l : L) → switch_major listener m 26 r l ≡ more (enter r state 4) l
    pub one :
        (before rest : List ℕ) (v : ℕ) (l : L)
        → v < 2 ^ 8
        → step listener (reader (at before (v ∷ rest)) state (pos 1)) l
          ≡ more (land v (pos 1) (at (before ++ v ∷ []) rest)) (effect v l)
    pub two :
        (before rest : List ℕ) (v : ℕ) (l : L)
        → v < 2 ^ 16
        → step listener (reader (at before (be16 v ++ rest)) state (pos 2)) l
          ≡ more (land v (at_short v) (at (before ++ be16 v) rest)) (effect v l)
    pub four :
        (before rest : List ℕ) (v : ℕ) (l : L)
        → v < 2 ^ 32
        → step listener (reader (at before (be32 v ++ rest)) state (pos 4)) l
          ≡ more (land v (pos 4) (at (before ++ be32 v) rest)) (effect v l)

-- `currentLength` behind the head of `v`, and the rounds that the head takes.
abbrev pub length_after : (ℕ → ℤ) → ℕ → ℤ → ℤ
length_after at_short v n =
    if ltb v 24
    then n
    else (if ltb v 256 then pos 1 else (if ltb v 65536 then at_short v else pos 4))

abbrev pub rounds : ℕ → ℕ
rounds v = if ltb v 24 then 1 else 2

module _ {ℓ} {L : Type ℓ} (listener : CborListener L) {m : ℕ} {state : CborReaderState}
    {land : ℕ → ℤ → CborInput → CborReader} {effect : ℕ → L → L} {at_short : ℕ → ℤ}
    (major : Major listener m state land effect at_short) where
  long_form :
      (low : ℕ) (number before rest : List ℕ) (n k : ℤ) (v size : ℕ) (l : L) (fuel : ℕ)
      → low < 32
      → ((r : CborReader) (s : L) → switch_major listener m low r s ≡ more (enter r state size) s)
      → ((b : List ℕ)
          → step listener (reader (at b (number ++ rest)) state (pos size)) l
            ≡ more (land v k (at (b ++ number) rest)) (effect v l))
      → run listener
          (2 + fuel)
          (reader (at before (head_form m low ∷ (number ++ rest))) state_type n)
          l
        ≡ run listener fuel (land v k (at (before ++ head_form m low ∷ number) rest)) (effect v l)
  long_form low number before rest n k v size l fuel hl enters takes =
      let lead : List ℕ = before ++ head_form m low ∷ [] in
      let two : 2 + fuel ≡ suc (suc fuel) = omega arith in
      rw two (
        run_more listener (suc fuel) _ _ l l
          (first_byte listener m low major.below hl before (number ++ rest) n l ∙ enters _ l)
        ∙ run_more listener fuel _ _ l _ (takes lead)
        ∙ rw (append_assoc before (head_form m low ∷ []) number))

  -- The head of every number below 2^32 is taken in, in one or two rounds, and nothing behind it.
  pub head_lem :
      (v : ℕ) (before rest : List ℕ) (n : ℤ) (l : L) (fuel : ℕ)
      → v < 2 ^ 32
      → run listener (rounds v + fuel) (reader (at before (head m v ++ rest)) state_type n) l
        ≡ run listener fuel
            (land v (length_after at_short v n) (at (before ++ head m v) rest))
            (effect v l)
  unfolding head
  head_lem v before rest n l fuel hv = elim (Bool-cases (ltb v 24)) [
    | inl short ↦
        let below : v < 24 = ltb→lt v 24 short in
        let one : 1 + fuel ≡ suc fuel = omega arith in
        rw (short, one)
          (run_more listener fuel _ _ l _ (
            first_byte listener m v major.below (omega arith) before rest n l
            ∙ major.in_byte v _ n l below))
    | inr long ↦ rw long (elim (Bool-cases (ltb v 256)) [
      | inl byte ↦
          let same : u8 v ≡ v = omega (arith, ltb→lt v 256 byte) in
          rw (byte, same)
            (long_form 24 (v ∷ []) before rest n (pos 1) v 1 l fuel (omega arith) major.enter_one
              (λ b. major.one b rest v l (omega (arith, ltb→lt v 256 byte))))
      | inr wide ↦ rw wide (elim (Bool-cases (ltb v 65536)) [
        | inl half ↦ rw half (
            long_form 25 (be16 v) before rest n (at_short v) v 2 l fuel (omega arith)
              major.enter_two (λ b. major.two b rest v l (omega (arith, ltb→lt v 65536 half))))
        | inr full ↦ rw full (
            long_form 26 (be32 v) before rest n (pos 4) v 4 l fuel (omega arith) major.enter_four
              (λ b. major.four b rest v l hv))
      ])
    ])
  ]
