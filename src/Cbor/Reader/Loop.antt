-- ===== src/Cbor/Reader/Loop.antt =====
-- The loop of `CborReader::Run`.
use zql.Prelude.{ℕ, zero, suc}
use zql.Prelude.{◌≡◌}
use zql.Cbor.Reader.{
  CborListener, CborReader, CborReaderState, Step, Result, more, stop, fault, finished, faulted,
  out_of_fuel, state_type, state_pint, state_nint, state_bytes_size, state_bytes_data,
  state_string_size, state_string_data, state_array, state_map, state_tag, state_special,
}
use zql.Cbor.Reader.Head.{read_type}
use zql.Cbor.Reader.Body.{
  read_pint, read_nint, read_bytes_size, read_bytes_data, read_string_size, read_string_data,
  read_array, read_map, read_tag, read_special,
}

module _ {ℓ} {L : Type ℓ} (listener : CborListener L) where
  -- The tests on `state`.
  unfoldable pub step_in : CborReaderState → CborReader → L → Step L
  step_in state_type = read_type listener
  step_in state_pint = read_pint listener
  step_in state_nint = read_nint listener
  step_in state_bytes_size = read_bytes_size listener
  step_in state_bytes_data = read_bytes_data listener
  step_in state_string_size = read_string_size listener
  step_in state_string_data = read_string_data listener
  step_in state_array = read_array listener
  step_in state_map = read_map listener
  step_in state_tag = read_tag listener
  step_in state_special = read_special listener

  unfoldable pub step : CborReader → L → Step L
  unfolding step_in
  step r l = step_in r.state r l

  -- `while(1)`, a round for each unit of fuel.
  unfoldable pub run : ℕ → CborReader → L → Result L
  run zero r l = out_of_fuel
  run (suc fuel) r l = elim (step r l) [
    | more r' l' ↦ run fuel r' l'
    | stop r' l' ↦ finished r' l'
    | fault ↦ faulted
  ]

  -- The rounds that a run comes through.
  pub data Rounds (r : CborReader) (l : L) : CborReader → L → Type ℓ where
    here : Rounds r l r l
    next :
        {r' r'' : CborReader} {l' l'' : L}
        → Rounds r l r' l'
        → step r' l' ≡ more r'' l''
        → Rounds r l r'' l''
