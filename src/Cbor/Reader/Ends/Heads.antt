-- ===== src/Cbor/Reader/Ends/Heads.antt =====
-- The rounds of `CborReader::Run` on the first byte of an item and on the bytes of a string.
use zql.Prelude.{
  ℕ, zero, suc, ◌+◌, ◌-◌, ◌*◌, ◌/◌, ◌^◌, ◌≤◌, ◌≡◌, ◌≢◌, refl, inl, inr, true, ℤ, pos, negsuc, neg_ℕ,
  List, arith, ltb, ==→eq, ◌==◌, Bool-cases, if◌then◌else◌, bit_and, low_five,
}
use zql.Cbor.Input.{CborInput, has_bytes}
use zql.Cbor.Input.Bounds.{IsInput, has_bytes→le, IsInput-skip, get_byte-Takes, get_bytes-Takes}
use zql.Cbor.Reader.{
  CborListener, CborReaderState, Step, more, stop, state_type, state_pint, state_nint,
  state_bytes_size, state_bytes_data, state_string_size, state_string_data, state_array, state_map,
  state_tag, state_special, sized, consume,
}
use zql.Cbor.Reader.Head.{
  switch_major, sized_or_error, read_type, type_pint, type_nint, type_bytes, type_string,
  type_array, type_map, type_tag, type_special,
}
use zql.Cbor.Reader.Body.{read_bytes_data, read_string_data, take_data}
use zql.Cbor.Reader.Ends.Rounds.{Fine}
use Prim.Native.String.{String}
use zql.Cbor.Reader.Numbers.{reader}
use zql.Cbor.Reader.Ends.{IsSized, IsTame, weight, Continues}

module _ {ℓ} {L : Type ℓ} (listener : CborListener L) (Why : Type 0) (i : CborInput)
    (v : IsInput IsTame i) where
  data_Fine :
      (callback : List ℕ → L → L) (n : ℤ) (l : L) (s : CborReaderState)
      → ((k : ℕ) → n ≡ negsuc k → Why)
      → Continues Why
          (2 * (i.size - i.offset) + 1)
          (if has_bytes i n then take_data callback (reader i s n) n l else stop (reader i s n) l)
  data_Fine callback n l s why = elim (Bool-cases (has_bytes i n)) [
    | inr short ↦ rw short tt
    | inl enough ↦ rw enough (taken n why enough)
  ]
    where
      taken :
          (n : ℤ)
          → ((k : ℕ) → n ≡ negsuc k → Why)
          → has_bytes i n ≡ true
          → Continues Why (2 * (i.size - i.offset) + 1) (take_data callback (reader i s n) n l)
      taken (negsuc k) why enough = why k refl
      taken (pos k) why enough =
          let room : i.offset + k ≤ i.size = has_bytes→le i k v.within enough in
          let (bytes, e) = get_bytes-Takes IsTame k i v room in
          rw (e, consume)
            (record { input = IsInput-skip IsTame i k v room; sized = tt }, omega arith)

  pub bytes_data_Fine :
      (n : ℤ) (l : L)
      → ((k : ℕ) → n ≡ negsuc k → Why)
      → Fine listener Why i v n l (read_bytes_data listener (reader i state_bytes_data n) l)
  unfolding read_bytes_data
  bytes_data_Fine n l why = data_Fine listener.on_bytes n l state_bytes_data why

  pub string_data_Fine :
      (n : ℤ) (l : L)
      → ((k : ℕ) → n ≡ negsuc k → Why)
      → Fine listener Why i v n l (read_string_data listener (reader i state_string_data n) l)
  unfolding read_string_data
  string_data_Fine n l why = data_Fine listener.on_string n l state_string_data why

  -- Behind the first byte, what is left is at most one more than twice the bytes.
  Entered : Step L → Type 0
  Entered = Continues Why (2 * (i.size - i.offset) + 2)

  sized_Entered :
      (state : CborReaderState) (minor : ℕ) (message : String) (n : ℤ) (l : L)
      → IsSized state (pos 1)
      → IsSized state (pos 2)
      → IsSized state (pos 4)
      → (minor ≡ 27 → IsSized state (pos 8))
      → weight state ≤ 1
      → Continues Why
          (2 * (i.size - i.offset) + 2)
          (sized_or_error listener (reader i state_type n) state minor message l)
  sized_Entered state minor message n l s1 s2 s4 s8 w = elim (Bool-cases (minor == 24)) [
    | inl e ↦ rw (e, sized_or_error, sized) (record { input = v; sized = s1 }, omega arith)
    | inr e24 ↦
        rw (e24, sized_or_error, sized)
          (elim (Bool-cases (minor == 25)) [
            | inl e ↦ rw (e, sized_or_error, sized) (record { input = v; sized = s2 }, omega arith)
            | inr e25 ↦
                rw (e25, sized_or_error, sized)
                  (elim (Bool-cases (minor == 26)) [
                    | inl e ↦
                        rw (e, sized_or_error, sized)
                          (record { input = v; sized = s4 }, omega arith)
                    | inr e26 ↦
                        rw (e26, sized_or_error, sized)
                          (elim (Bool-cases (minor == 27)) [
                            | inl e ↦
                                rw (e, sized_or_error, sized)
                                  (record { input = v; sized = s8 (==→eq minor 27 e) }, omega arith)
                            | inr e27 ↦
                                rw (e27, sized_or_error, sized)
                                  (record { input = v; sized = tt }, omega arith)
                          ])
                  ])
          ])
  ]

  direct :
      (n : ℤ) (l : L) → Continues Why (2 * (i.size - i.offset) + 2) (more (reader i state_type n) l)
  direct n l = (record { input = v; sized = tt }, omega arith)

  pint_Entered :
      (minor : ℕ) (n : ℤ) (l : L)
      → Continues Why
          (2 * (i.size - i.offset) + 2)
          (type_pint listener minor (reader i state_type n) l)
  unfolding type_pint
  pint_Entered minor n l = elim (Bool-cases (ltb minor 24)) [
    | inl short ↦ rw short (direct n (listener.on_integer (pos minor) l))
    | inr long ↦ rw long (
        sized_Entered state_pint minor _ n l (inl refl) (inr (inl refl)) (inr (inr (inl refl)))
          (λ e. inr (inr (inr refl))) (omega arith))
  ]

  nint_Entered :
      (minor : ℕ) (n : ℤ) (l : L)
      → (minor ≢ 27)
      → Continues Why
          (2 * (i.size - i.offset) + 2)
          (type_nint listener minor (reader i state_type n) l)
  unfolding type_nint
  nint_Entered minor n l h = elim (Bool-cases (ltb minor 24)) [
    | inl short ↦ rw short (direct n (listener.on_integer (neg_ℕ minor) l))
    | inr long ↦ rw long (
        sized_Entered state_nint minor _ n l (inl refl) (inr (inl refl)) (inr (inr refl))
          (λ e. absurd (h e)) (omega arith))
  ]

  bytes_Entered :
      (minor : ℕ) (n : ℤ) (l : L)
      → Continues Why
          (2 * (i.size - i.offset) + 2)
          (type_bytes listener minor (reader i state_type n) l)
  unfolding type_bytes
  bytes_Entered minor n l = elim (Bool-cases (ltb minor 24)) [
    | inl short ↦ rw short ((record { input = v; sized = tt }, omega arith))
    | inr long ↦ rw long (
        sized_Entered state_bytes_size minor _ n l (inl refl) (inr (inl refl))
          (inr (inr (inl refl))) (λ e. inr (inr (inr refl))) (omega arith))
  ]

  string_Entered :
      (minor : ℕ) (n : ℤ) (l : L)
      → Continues Why
          (2 * (i.size - i.offset) + 2)
          (type_string listener minor (reader i state_type n) l)
  unfolding type_string
  string_Entered minor n l = elim (Bool-cases (ltb minor 24)) [
    | inl short ↦ rw short ((record { input = v; sized = tt }, omega arith))
    | inr long ↦ rw long (
        sized_Entered state_string_size minor _ n l (inl refl) (inr (inl refl))
          (inr (inr (inl refl))) (λ e. inr (inr (inr refl))) (omega arith))
  ]

  array_Entered :
      (minor : ℕ) (n : ℤ) (l : L)
      → Continues Why
          (2 * (i.size - i.offset) + 2)
          (type_array listener minor (reader i state_type n) l)
  unfolding type_array
  array_Entered minor n l = elim (Bool-cases (ltb minor 24)) [
    | inl short ↦ rw short (direct n (listener.on_array (pos minor) l))
    | inr long ↦ rw long (
        sized_Entered state_array minor _ n l (inl refl) (inr (inl refl)) (inr (inr (inl refl)))
          (λ e. inr (inr (inr refl))) (omega arith))
  ]

  map_Entered :
      (minor : ℕ) (n : ℤ) (l : L)
      → Continues Why
          (2 * (i.size - i.offset) + 2)
          (type_map listener minor (reader i state_type n) l)
  unfolding type_map
  map_Entered minor n l = elim (Bool-cases (ltb minor 24)) [
    | inl short ↦ rw short (direct n (listener.on_map (pos minor) l))
    | inr long ↦ rw long (
        sized_Entered state_map minor _ n l (inl refl) (inr (inl refl)) (inr (inr (inl refl)))
          (λ e. inr (inr (inr refl))) (omega arith))
  ]

  tag_Entered :
      (minor : ℕ) (n : ℤ) (l : L)
      → Continues Why
          (2 * (i.size - i.offset) + 2)
          (type_tag listener minor (reader i state_type n) l)
  unfolding type_tag
  tag_Entered minor n l = elim (Bool-cases (ltb minor 24)) [
    | inl short ↦ rw short (direct n (listener.on_tag minor l))
    | inr long ↦ rw long (
        sized_Entered state_tag minor _ n l (inl refl) (inr (inl refl)) (inr (inr (inl refl)))
          (λ e. inr (inr (inr refl))) (omega arith))
  ]

  special_Entered :
      (minor : ℕ) (n : ℤ) (l : L)
      → Continues Why
          (2 * (i.size - i.offset) + 2)
          (type_special listener minor (reader i state_type n) l)
  unfolding type_special
  special_Entered minor n l = elim (Bool-cases (ltb minor 24)) [
    | inl short ↦ rw short (direct n (listener.on_special (pos minor) l))
    | inr long ↦ rw long (
        sized_Entered state_special minor _ n l (inl refl) (inr (inl refl)) (inr (inr (inl refl)))
          (λ e. inr (inr (inr refl))) (omega arith))
  ]

  major_Entered :
      (major minor : ℕ) (n : ℤ) (l : L)
      → (major ≡ 1 → minor ≢ 27)
      → Continues Why
          (2 * (i.size - i.offset) + 2)
          (switch_major listener major minor (reader i state_type n) l)
  unfolding switch_major
  major_Entered zero minor n l h = pint_Entered minor n l
  major_Entered (suc zero) minor n l h = nint_Entered minor n l (h refl)
  major_Entered (suc (suc zero)) minor n l h = bytes_Entered minor n l
  major_Entered (suc (suc (suc zero))) minor n l h = string_Entered minor n l
  major_Entered (suc (suc (suc (suc zero)))) minor n l h = array_Entered minor n l
  major_Entered (suc (suc (suc (suc (suc zero))))) minor n l h = map_Entered minor n l
  major_Entered (suc (suc (suc (suc (suc (suc zero)))))) minor n l h = tag_Entered minor n l
  major_Entered (suc (suc (suc (suc (suc (suc (suc zero))))))) minor n l h =
      special_Entered minor n l
  major_Entered (suc (suc (suc (suc (suc (suc (suc (suc k)))))))) minor n l h = direct n l

-- STATE_TYPE, at a byte that is not 0x3b.
module _ {ℓ} {L : Type ℓ} (listener : CborListener L) (Why : Type 0) (i : CborInput)
    (v : IsInput IsTame i) where
  pub type_Continues :
      (n : ℤ) (l : L)
      → Continues Why (2 * (i.size - i.offset)) (read_type listener (reader i state_type n) l)
  unfolding read_type
  type_Continues n l = elim (Bool-cases (has_bytes i (pos 1))) [
    | inr short ↦ rw short tt
    | inl enough ↦
        let room : i.offset + 1 ≤ i.size = has_bytes→le i 1 v.within enough in
        let (b, e, (byte, calm)) = get_byte-Takes IsTame i v room in
        let i' : CborInput = record i { offset = i.offset + 1 } in
        let same : 2 * (i'.size - i'.offset) + 2 ≡ 2 * (i.size - i.offset) = omega arith in
        rw (enough, e, consume)
          (rw same at (
            major_Entered listener Why i' (IsInput-skip IsTame i 1 v room) (b / 2 ^ 5)
              (bit_and b 31) n l (λ nint minor. calm (omega (arith, low_five b byte)))))
  ]
