-- ===== src/Cbor/Reader/Ends/Rounds.antt =====
-- One round of the loop of `CborReader::Run`, state by state.
use zql.Prelude.{
  ◌+◌, ◌-◌, ◌*◌, ◌≤◌, ◌≡◌, ◌≢◌, ◌⊎◌, inl, inr, ℤ, pos, neg_ℕ, arith, to_int32, neg_int32,
}
use zql.Cbor.Input.{CborInput, get_byte, get_short, get_int, get_long}
use zql.Cbor.Input.Bounds.{
  IsInput, Takes, get_byte-Takes, get_short-Takes, get_int-Takes, get_long-Takes,
}
use zql.Cbor.Reader.{
  CborListener, Step, state_pint, state_nint, state_bytes_size, state_bytes_data, state_string_size,
  state_string_data, state_array, state_map, state_tag, state_special,
}
use zql.Cbor.Reader.Body.{
  read_pint, read_nint, read_bytes_size, read_string_size, read_array, read_map, read_tag,
  read_special,
}
use zql.Cbor.Reader.Numbers.{reader}
use zql.Cbor.Reader.Ends.{
  IsSized, IsTame, weight, Continues, deliver-Continues, deliver_assign-Continues,
  measure-Continues, switch-Continues,
}

-- The lengths of the states with four forms.
abbrev pub FourForms : ℤ → Type 0
FourForms n = (n ≡ pos 1) ⊎ ((n ≡ pos 2) ⊎ ((n ≡ pos 4) ⊎ (n ≡ pos 8)))

pub byte_Takes : Takes IsTame get_byte 1
byte_Takes i v h = let (b, e, tame) = get_byte-Takes IsTame i v h in (b, e)

module _ {ℓ} {L : Type ℓ} (listener : CborListener L) (Why : Type 0) (i : CborInput)
    (v : IsInput IsTame i) (n : ℤ) (l : L) where
  abbrev pub Fine : Step L → Type 0
  Fine = Continues Why (2 * (i.size - i.offset) + 1)

  pub pint_Fine : FourForms n → Fine (read_pint listener (reader i state_pint n) l)
  unfolding read_pint
  pint_Fine length =
      switch-Continues Why i v _ n l state_pint _ _ _ _ _ length
        (deliver-Continues Why i v get_byte 1 (λ a. listener.on_integer (pos a)) n l state_pint
          byte_Takes)
        (deliver-Continues Why i v get_short 2 (λ a. listener.on_integer (pos a)) n l state_pint
          (get_short-Takes IsTame))
        (deliver-Continues Why i v get_int 4 (λ a. listener.on_integer (to_int32 a)) n l state_pint
          (get_int-Takes IsTame))
        (λ e.
          deliver-Continues Why i v get_long 8 (λ a b. b) n l state_pint (get_long-Takes IsTame))

  pub special_Fine : FourForms n → Fine (read_special listener (reader i state_special n) l)
  unfolding read_special
  special_Fine length =
      switch-Continues Why i v _ n l state_special _ _ _ _ _ length
        (deliver-Continues Why i v get_byte 1 (λ a. listener.on_special (pos a)) n l state_special
          byte_Takes)
        (deliver-Continues Why i v get_short 2 (λ a. listener.on_special (pos a)) n l state_special
          (get_short-Takes IsTame))
        (deliver-Continues Why i v get_int 4 (λ a. listener.on_special (to_int32 a)) n l
          state_special (get_int-Takes IsTame))
        (λ e.
          deliver-Continues Why i v get_long 8 (λ a b. b) n l state_special (get_long-Takes IsTame))

  pub tag_Fine : FourForms n → Fine (read_tag listener (reader i state_tag n) l)
  unfolding read_tag
  tag_Fine length =
      switch-Continues Why i v _ n l state_tag _ _ _ _ _ length
        (deliver-Continues Why i v get_byte 1 listener.on_tag n l state_tag byte_Takes)
        (deliver-Continues Why i v get_short 2 listener.on_tag n l state_tag
          (get_short-Takes IsTame))
        (deliver-Continues Why i v get_int 4 listener.on_tag n l state_tag (get_int-Takes IsTame))
        (λ e. deliver-Continues Why i v get_long 8 (λ a b. b) n l state_tag (get_long-Takes IsTame))

  pub array_Fine : FourForms n → Fine (read_array listener (reader i state_array n) l)
  unfolding read_array
  array_Fine length =
      switch-Continues Why i v _ n l state_array _ _ _ _ _ length
        (deliver-Continues Why i v get_byte 1 (λ a. listener.on_array (pos a)) n l state_array
          byte_Takes)
        (deliver_assign-Continues Why i v (λ a. listener.on_array (pos a)) n l state_array)
        (deliver-Continues Why i v get_int 4 (λ a. listener.on_array (to_int32 a)) n l state_array
          (get_int-Takes IsTame))
        (λ e room. (record { input = v; sized = tt }, omega arith))

  pub map_Fine : FourForms n → Fine (read_map listener (reader i state_map n) l)
  unfolding read_map
  map_Fine length =
      switch-Continues Why i v _ n l state_map _ _ _ _ _ length
        (deliver-Continues Why i v get_byte 1 (λ a. listener.on_map (pos a)) n l state_map
          byte_Takes)
        (deliver_assign-Continues Why i v (λ a. listener.on_map (pos a)) n l state_map)
        (deliver-Continues Why i v get_int 4 (λ a. listener.on_map (to_int32 a)) n l state_map
          (get_int-Takes IsTame))
        (λ e room. (record { input = v; sized = tt }, omega arith))

  pub nint_Fine : IsSized state_nint n → Fine (read_nint listener (reader i state_nint n) l)
  unfolding read_nint
  nint_Fine length =
      switch-Continues Why i v _ n l state_nint _ _ _ _ _ (four length)
        (deliver-Continues Why i v get_byte 1 (λ a. listener.on_integer (neg_ℕ a)) n l state_nint
          byte_Takes)
        (deliver-Continues Why i v get_short 2 (λ a. listener.on_integer (neg_ℕ a)) n l state_nint
          (get_short-Takes IsTame))
        (deliver-Continues Why i v get_int 4 (λ a. listener.on_integer (neg_int32 (to_int32 a))) n l
          state_nint (get_int-Takes IsTame))
        (λ e. absurd (never length e))
    where
      four : IsSized state_nint n → FourForms n
      four (inl e) = inl e
      four (inr (inl e)) = inr (inl e)
      four (inr (inr e)) = inr (inr (inl e))

      never : IsSized state_nint n → n ≢ pos 8
      never (inl e) h = cc
      never (inr (inl e)) h = cc
      never (inr (inr e)) h = cc

  pub bytes_size_Fine :
      FourForms n → Fine (read_bytes_size listener (reader i state_bytes_size n) l)
  unfolding read_bytes_size
  bytes_size_Fine length =
      switch-Continues Why i v _ n l state_bytes_size _ _ _ _ _ length
        (λ room.
          measure-Continues Why i v get_byte 1 pos n l state_bytes_size state_bytes_data any
            byte_Takes room (omega arith))
        (λ room.
          measure-Continues Why i v get_short 2 pos n l state_bytes_size state_bytes_data any
            (get_short-Takes IsTame) room (omega arith))
        (λ room.
          measure-Continues Why i v get_int 4 to_int32 n l state_bytes_size state_bytes_data any
            (get_int-Takes IsTame) room (omega arith))
        (λ e room.
          measure-Continues Why i v get_long 8 (λ a. pos 123) n l state_bytes_size state_bytes_data
            any (get_long-Takes IsTame) room (omega arith))
    where
      any : (k : ℤ) → IsSized state_bytes_data k × (weight state_bytes_data ≤ 1)
      any k = (tt, omega arith)

  pub string_size_Fine :
      FourForms n → Fine (read_string_size listener (reader i state_string_size n) l)
  unfolding read_string_size
  string_size_Fine length =
      switch-Continues Why i v _ n l state_string_size _ _ _ _ _ length
        (λ room.
          measure-Continues Why i v get_byte 1 pos n l state_string_size state_string_data any
            byte_Takes room (omega arith))
        (λ room.
          measure-Continues Why i v get_short 2 pos n l state_string_size state_string_data any
            (get_short-Takes IsTame) room (omega arith))
        (λ room.
          measure-Continues Why i v get_int 4 to_int32 n l state_string_size state_string_data any
            (get_int-Takes IsTame) room (omega arith))
        (λ e room.
          measure-Continues Why i v get_long 8 (λ a. pos 123) n l state_string_size
            state_string_data any (get_long-Takes IsTame) room (omega arith))
    where
      any : (k : ℤ) → IsSized state_string_data k × (weight state_string_data ≤ 1)
      any k = (tt, omega arith)
