-- ===== src/Cbor/Reader/Ends.antt =====
-- The loop of `CborReader::Run`: what a round of it leaves to do.
pub mod Rounds
pub mod Heads
pub mod Whole
pub mod Hangs
use zql.Prelude.{
  ℕ, zero, suc, ◌+◌, ◌-◌, ◌*◌, ◌/◌, ◌%◌, ◌^◌, ◌≤◌, ◌<◌, ◌≡◌, ◌≢◌, refl, sym, ap, ◌∙◌, ◌⊎◌, inl, inr,
  Bool, true, false, ℤ, pos, negsuc, Option, none, some, List, arith, ltb, ltb→lt, ==→eq, ◌==◌,
  Bool-cases, if◌then◌else◌, length, bit_and, low_five, IsByte, All,
}
use Prim.Native.String.{String}
use zql.Cbor.Input.{
  CborInput, In, new_input, has_bytes, get_byte, get_short, get_int, get_long, get_bytes,
}
use zql.Cbor.Input.Bounds.{
  IsInput, has_bytes→le, IsInput-skip, Takes, get_byte-Takes, get_short-Takes, get_int-Takes,
  get_long-Takes, get_bytes-Takes,
}
use zql.Cbor.Reader.{
  CborListener, CborReader, CborReaderState, Step, Result, more, stop, fault, finished, faulted,
  out_of_fuel, state_type, state_pint, state_nint, state_bytes_size, state_bytes_data,
  state_string_size, state_string_data, state_array, state_map, state_tag, state_special, enter,
  sized, switch_length, consume, deliver, measure, new_reader,
}
use zql.Cbor.Reader.Numbers.{reader}

-- The lengths that a state is entered with; behind 0x3b it would be 8 in STATE_NINT.
abbrev pub IsSized : CborReaderState → ℤ → Type 0
IsSized state_type n = Unit
IsSized state_bytes_data n = Unit
IsSized state_string_data n = Unit
IsSized state_nint n = (n ≡ pos 1) ⊎ ((n ≡ pos 2) ⊎ (n ≡ pos 4))
IsSized _ n = (n ≡ pos 1) ⊎ ((n ≡ pos 2) ⊎ ((n ≡ pos 4) ⊎ (n ≡ pos 8)))

-- The first byte of a negative integer in eight bytes is 0x3b.
abbrev pub IsTame : ℕ → Type 0
IsTame b = IsByte b × (b ≢ 0x3b)

pub record IsReading (r : CborReader) : Type 0 where
  pub input : IsInput IsTame r.input
  pub sized : IsSized r.state r.current_length

abbrev pub weight : CborReaderState → ℕ
weight state_type = 0
weight _ = 1

-- Falls with each round: a byte counts two, and what stands between two items one.
abbrev pub left : CborReader → ℕ
left r = 2 * (r.input.size - r.input.offset) + weight r.state

module _ {ℓ} {L : Type ℓ} where
  -- The round ends the loop, or goes on with less left, or dies for a reason of `Why`.
  abbrev pub Continues : Type 0 → ℕ → Step L → Type 0
  Continues Why bound (more r l) = IsReading r × (left r < bound)
  Continues Why bound (stop r l) = Unit
  Continues Why bound fault = Why

  module _ (Why : Type 0) (i : CborInput) (v : IsInput IsTame i) where
    pub deliver-Continues :
        (m : In ℕ) (k : ℕ) (callback : ℕ → L → L) (n : ℤ) (l : L) (s : CborReaderState)
        → Takes IsTame m k
        → i.offset + k ≤ i.size
        → Continues Why (2 * (i.size - i.offset) + 1) (deliver m callback (reader i s n) l)
    deliver-Continues m k callback n l s takes room =
        let (a, e) = takes i v room in
        rw (e, deliver, consume)
          (record { input = IsInput-skip IsTame i k v room; sized = tt }, omega arith)

    -- So too in the array and map states, which assign `currentLength`.
    pub deliver_assign-Continues :
        (callback : ℕ → L → L) (n : ℤ) (l : L) (s : CborReaderState)
        → i.offset + 2 ≤ i.size
        → Continues Why (2 * (i.size - i.offset) + 1) (
            consume get_short (reader i s n) (λ a r'.
              more (record r' { state = state_type; current_length = pos a }) (callback a l)))
    deliver_assign-Continues callback n l s room =
        let (a, e) = get_short-Takes IsTame i v room in
        rw (e, consume) (record { input = IsInput-skip IsTame i 2 v room; sized = tt }, omega arith)

    -- The data state behind the length of a string takes any length.
    pub measure-Continues :
        (m : In ℕ) (k : ℕ) (convert : ℕ → ℤ) (n : ℤ) (l : L) (s data_state : CborReaderState)
        → ((n : ℤ) → IsSized data_state n × (weight data_state ≤ 1))
        → Takes IsTame m k
        → i.offset + k ≤ i.size
        → 1 ≤ k
        → Continues Why
            (2 * (i.size - i.offset) + 1)
            (measure m convert data_state (reader i s n) l)
    measure-Continues m k convert n l s data_state any takes room pos_k =
        let (a, e) = takes i v room in
        rw (e, measure, consume)
          (
            record { input = IsInput-skip IsTame i k v room; sized = (any (convert a)).0 },
            omega (arith, any (convert a)),
          )

    -- `switch(currentLength)` behind the test `hasBytes(currentLength)`.
    pub switch-Continues :
        (bound : ℕ) (n : ℤ) (l : L) (s : CborReaderState) (one two four eight other : Step L)
        → (n ≡ pos 1) ⊎ ((n ≡ pos 2) ⊎ ((n ≡ pos 4) ⊎ (n ≡ pos 8)))
        → (i.offset + 1 ≤ i.size → Continues Why bound one)
        → (i.offset + 2 ≤ i.size → Continues Why bound two)
        → (i.offset + 4 ≤ i.size → Continues Why bound four)
        → (n ≡ pos 8 → i.offset + 8 ≤ i.size → Continues Why bound eight)
        → Continues Why bound (
            if has_bytes i n
            then switch_length n one two four eight other
            else stop (reader i s n) l)
    switch-Continues bound n l s one two four eight other length c1 c2 c4 c8 =
        elim (Bool-cases (has_bytes i n)) [
          | inr short ↦ rw short tt
          | inl enough ↦ rw enough (elim length [
            | inl e ↦ rw e (c1 (has_bytes→le i 1 v.within (rw e at enough)))
            | inr (inl e) ↦ rw e (c2 (has_bytes→le i 2 v.within (rw e at enough)))
            | inr (inr (inl e)) ↦ rw e (c4 (has_bytes→le i 4 v.within (rw e at enough)))
            | inr (inr (inr e)) ↦ rw e (c8 e (has_bytes→le i 8 v.within (rw e at enough)))
          ])
        ]
