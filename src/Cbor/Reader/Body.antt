-- ===== src/Cbor/Reader/Body.antt =====
-- `CborReader::Run` in its other states: the number behind the first byte, or the bytes of a text.
use zql.Prelude.{ℕ, ℤ, pos, negsuc, neg_ℕ, List, if◌then◌else◌, to_int32, neg_int32}
use zql.Cbor.Input.{has_bytes, get_byte, get_short, get_int, get_long, get_bytes}
use zql.Cbor.Reader.{
  CborListener, CborReader, Step, more, stop, fault, state_type, state_bytes_data,
  state_string_data, switch_length, consume, deliver, measure,
}

-- `new unsigned char[currentLength]`, filled by `getBytes`.
module _ {ℓ} {L : Type ℓ} where
  abbrev pub take_data : (List ℕ → L → L) → CborReader → ℤ → L → Step L
  take_data callback r (negsuc n) l = fault
  take_data callback r (pos n) l =
      consume (get_bytes n) r
        (λ bytes r'. more (record r' { state = state_type }) (callback bytes l))

module _ {ℓ} {L : Type ℓ} (listener : CborListener L) where
  -- The eight-byte form is read and dropped.
  unfoldable pub read_pint : CborReader → L → Step L
  read_pint r l =
      if has_bytes r.input r.current_length
      then switch_length r.current_length (deliver get_byte (λ v. listener.on_integer (pos v)) r l)
          (deliver get_short (λ v. listener.on_integer (pos v)) r l)
          (deliver get_int (λ v. listener.on_integer (to_int32 v)) r l)
          (deliver get_long (λ v s. s) r l) (more r l)
      else stop r l

  -- The eight-byte form reads nothing and stays in its state.
  unfoldable pub read_nint : CborReader → L → Step L
  read_nint r l =
      if has_bytes r.input r.current_length
      then switch_length r.current_length
          (deliver get_byte (λ v. listener.on_integer (neg_ℕ v)) r l)
          (deliver get_short (λ v. listener.on_integer (neg_ℕ v)) r l)
          (deliver get_int (λ v. listener.on_integer (neg_int32 (to_int32 v))) r l) (more r l)
          (more r l)
      else stop r l

  unfoldable pub read_bytes_size : CborReader → L → Step L
  read_bytes_size r l =
      if has_bytes r.input r.current_length
      then switch_length r.current_length (measure get_byte pos state_bytes_data r l)
          (measure get_short pos state_bytes_data r l)
          (measure get_int to_int32 state_bytes_data r l)
          (measure get_long (λ v. pos 123) state_bytes_data r l) (more r l)
      else stop r l

  unfoldable pub read_bytes_data : CborReader → L → Step L
  read_bytes_data r l =
      if has_bytes r.input r.current_length
      then take_data listener.on_bytes r r.current_length l
      else stop r l

  unfoldable pub read_string_size : CborReader → L → Step L
  read_string_size r l =
      if has_bytes r.input r.current_length
      then switch_length r.current_length (measure get_byte pos state_string_data r l)
          (measure get_short pos state_string_data r l)
          (measure get_int to_int32 state_string_data r l)
          (measure get_long (λ v. pos 123) state_string_data r l) (more r l)
      else stop r l

  unfoldable pub read_string_data : CborReader → L → Step L
  read_string_data r l =
      if has_bytes r.input r.current_length
      then take_data listener.on_string r r.current_length l
      else stop r l

  -- The two-byte form also assigns the number to `currentLength`; the eight-byte form is not read.
  unfoldable pub read_array : CborReader → L → Step L
  read_array r l =
      if has_bytes r.input r.current_length
      then switch_length r.current_length (deliver get_byte (λ v. listener.on_array (pos v)) r l)
          (consume get_short r (λ v r'.
            more (record r' { state = state_type; current_length = pos v })
              (listener.on_array (pos v) l)))
          (deliver get_int (λ v. listener.on_array (to_int32 v)) r l)
          (more (record r { state = state_type }) l) (more r l)
      else stop r l

  unfoldable pub read_map : CborReader → L → Step L
  read_map r l =
      if has_bytes r.input r.current_length
      then switch_length r.current_length (deliver get_byte (λ v. listener.on_map (pos v)) r l)
          (consume get_short r (λ v r'.
            more (record r' { state = state_type; current_length = pos v })
              (listener.on_map (pos v) l)))
          (deliver get_int (λ v. listener.on_map (to_int32 v)) r l)
          (more (record r { state = state_type }) l) (more r l)
      else stop r l

  unfoldable pub read_tag : CborReader → L → Step L
  read_tag r l =
      if has_bytes r.input r.current_length
      then switch_length r.current_length (deliver get_byte listener.on_tag r l)
          (deliver get_short listener.on_tag r l) (deliver get_int listener.on_tag r l)
          (deliver get_long (λ v s. s) r l) (more r l)
      else stop r l

  unfoldable pub read_special : CborReader → L → Step L
  read_special r l =
      if has_bytes r.input r.current_length
      then switch_length r.current_length (deliver get_byte (λ v. listener.on_special (pos v)) r l)
          (deliver get_short (λ v. listener.on_special (pos v)) r l)
          (deliver get_int (λ v. listener.on_special (to_int32 v)) r l)
          (deliver get_long (λ v s. s) r l) (more r l)
      else stop r l
