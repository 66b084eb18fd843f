-- ===== src/Cbor/Reader/Head.antt =====
-- `CborReader::Run` in the state STATE_TYPE: the first byte of an item, by its major type.
use zql.Prelude.{ℕ, zero, suc, ◌/◌, ◌^◌, pos, neg_ℕ, none, some, ltb, if◌then◌else◌, bit_and}
use Prim.Native.String.{String}
use zql.Cbor.Input.{has_bytes, get_byte}
use zql.Cbor.Reader.{
  CborListener, CborReader, CborReaderState, Step, more, stop, state_pint, state_nint,
  state_bytes_size, state_bytes_data, state_string_size, state_string_data, state_array, state_map,
  state_tag, state_special, enter, sized, consume,
}

module _ {ℓ} {L : Type ℓ} (listener : CborListener L) where
  abbrev pub sized_or_error : CborReader → CborReaderState → ℕ → String → L → Step L
  sized_or_error r state minor message l = elim (sized r state minor) [
    | some r' ↦ more r' l
    | none ↦ more r (listener.on_error message l)
  ]

  unfoldable pub type_pint : ℕ → CborReader → L → Step L
  type_pint minor r l =
      if ltb minor 24
      then more r (listener.on_integer (pos minor) l)
      else sized_or_error r state_pint minor "invalid integer type" l

  unfoldable pub type_nint : ℕ → CborReader → L → Step L
  type_nint minor r l =
      if ltb minor 24
      then more r (listener.on_integer (neg_ℕ minor) l)
      else sized_or_error r state_nint minor "invalid integer type" l

  unfoldable pub type_bytes : ℕ → CborReader → L → Step L
  type_bytes minor r l =
      if ltb minor 24
      then more (enter r state_bytes_data minor) l
      else sized_or_error r state_bytes_size minor "invalid bytes type" l

  unfoldable pub type_string : ℕ → CborReader → L → Step L
  type_string minor r l =
      if ltb minor 24
      then more (enter r state_string_data minor) l
      else sized_or_error r state_string_size minor "invalid string type" l

  unfoldable pub type_array : ℕ → CborReader → L → Step L
  type_array minor r l =
      if ltb minor 24
      then more r (listener.on_array (pos minor) l)
      else sized_or_error r state_array minor "invalid array type" l

  unfoldable pub type_map : ℕ → CborReader → L → Step L
  type_map minor r l =
      if ltb minor 24
      then more r (listener.on_map (pos minor) l)
      else sized_or_error r state_map minor "invalid array type" l

  unfoldable pub type_tag : ℕ → CborReader → L → Step L
  type_tag minor r l =
      if ltb minor 24
      then more r (listener.on_tag minor l)
      else sized_or_error r state_tag minor "invalid tag type" l

  unfoldable pub type_special : ℕ → CborReader → L → Step L
  type_special minor r l =
      if ltb minor 24
      then more r (listener.on_special (pos minor) l)
      else sized_or_error r state_special minor "invalid special type" l

  -- `switch(majorType)`, which is below 8.
  unfoldable pub switch_major : ℕ → ℕ → CborReader → L → Step L
  switch_major zero = type_pint
  switch_major (suc zero) = type_nint
  switch_major (suc (suc zero)) = type_bytes
  switch_major (suc (suc (suc zero))) = type_string
  switch_major (suc (suc (suc (suc zero)))) = type_array
  switch_major (suc (suc (suc (suc (suc zero))))) = type_map
  switch_major (suc (suc (suc (suc (suc (suc zero)))))) = type_tag
  switch_major (suc (suc (suc (suc (suc (suc (suc zero))))))) = type_special
  switch_major (suc (suc (suc (suc (suc (suc (suc (suc n)))))))) = λ minor r l. more r l

  unfoldable pub read_type : CborReader → L → Step L
  unfolding switch_major
  read_type r l =
      if has_bytes r.input (pos 1)
      then consume get_byte r (λ type r'. switch_major (type / 2 ^ 5) (bit_and type 31) r' l)
      else stop r l
