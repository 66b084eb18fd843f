-- ===== src/Cbor/Reader/Ends/Whole.antt =====
-- `CborReader::Run` of lib/Cbor.cpp as a whole: its end, and where its rounds read.
use zql.Prelude.{
  ℕ, zero, suc, ◌+◌, ◌-◌, ◌*◌, ◌<◌, ◌≡◌, ◌≢◌, refl, ℤ, negsuc, List, arith, length, All,
}
use zql.Cbor.Input.{CborInput, new_input}
use zql.Cbor.Reader.{
  CborListener, CborReader, CborReaderState, Step, more, stop, fault, finished, faulted,
  out_of_fuel, state_type, state_pint, state_nint, state_bytes_size, state_bytes_data,
  state_string_size, state_string_data, state_array, state_map, state_tag, state_special,
  new_reader,
}
use native.Mathlib.Nat.{add-zero}
use zql.Cbor.Input.Bounds.{IsInput}
use zql.Cbor.Reader.Loop.{step, step_in, run, Rounds, here, next}
use zql.Cbor.Reader.Numbers.{reader}
use zql.Cbor.Reader.Ends.{IsSized, IsTame, IsReading, weight, left, Continues}
use zql.Cbor.Reader.Ends.Rounds.{
  pint_Fine, nint_Fine, bytes_size_Fine, string_size_Fine, array_Fine, map_Fine, tag_Fine,
  special_Fine,
}
use zql.Cbor.Reader.Ends.Heads.{bytes_data_Fine, string_data_Fine, type_Continues}

-- `new` of a negative size, for the bytes of a string.
abbrev pub AllocatesNegative : CborReader → Type 0
AllocatesNegative r = (k : ℕ) × (r.current_length ≡ negsuc k)

module _ {ℓ} {L : Type ℓ} (listener : CborListener L) where
  by_state :
      (s : CborReaderState) (i : CborInput) (n : ℤ) (l : L)
      → IsInput IsTame i
      → IsSized s n
      → Continues
          ((k : ℕ) × (n ≡ negsuc k))
          (2 * (i.size - i.offset) + weight s)
          (step_in listener s (reader i s n) l)
  unfolding step_in
  by_state state_type i n l v length = rw add-zero (type_Continues listener _ i v n l)
  by_state state_bytes_data i n l v length = bytes_data_Fine listener _ i v n l (λ k e. (k, e))
  by_state state_string_data i n l v length = string_data_Fine listener _ i v n l (λ k e. (k, e))
  by_state state_pint i n l v length = pint_Fine listener _ i v n l length
  by_state state_nint i n l v length = nint_Fine listener _ i v n l length
  by_state state_bytes_size i n l v length = bytes_size_Fine listener _ i v n l length
  by_state state_string_size i n l v length = string_size_Fine listener _ i v n l length
  by_state state_array i n l v length = array_Fine listener _ i v n l length
  by_state state_map i n l v length = map_Fine listener _ i v n l length
  by_state state_tag i n l v length = tag_Fine listener _ i v n l length
  by_state state_special i n l v length = special_Fine listener _ i v n l length

  pub step-Continues :
      (r : CborReader) (l : L)
      → IsReading r
      → Continues (AllocatesNegative r) (left r) (step listener r l)
  unfolding step
  step-Continues r l v = by_state r.state r.input r.current_length l v.input v.sized

  Rounds-IsReading :
      {r : CborReader} {l : L} {r' : CborReader} {l' : L}
      → IsReading r
      → Rounds listener r l r' l'
      → IsReading r'
  Rounds-IsReading v here = v
  Rounds-IsReading v (next {r'} {l'} rounds e) =
      (rw e at (step-Continues r' l' (Rounds-IsReading v rounds))).0

  new_reader-IsReading :
      (bytes : List ℕ) (unset : ℤ)
      → All IsTame bytes
      → IsReading (new_reader (new_input bytes (length bytes)) unset)
  unfolding new_reader new_input
  new_reader-IsReading bytes unset tame = record {
    input = record { size = refl; within = omega arith; all = tame };
    sized = tt;
  }

  -- In a run over bytes of which none is 0x3b no round reads outside the input: a round that the
  -- program dies of is one that allocates a string of negative size.
  pub Rounds-in_bounds :
      (bytes : List ℕ) (unset : ℤ) (l : L) {r' : CborReader} {l' : L}
      → All IsTame bytes
      → Rounds listener (new_reader (new_input bytes (length bytes)) unset) l r' l'
      → step listener r' l' ≡ fault
      → AllocatesNegative r'
  Rounds-in_bounds bytes unset l {r'} {l'} tame rounds e =
      rw e at
        (step-Continues r' l' (Rounds-IsReading (new_reader-IsReading bytes unset tame) rounds))

  ends_within :
      (fuel : ℕ) (r : CborReader) (l : L)
      → IsReading r
      → left r < fuel
      → run listener fuel r l ≢ out_of_fuel
  unfolding run
  ends_within zero r l v enough = absurd (omega arith)
  ends_within (suc fuel) r l v enough =
      after (step listener r l) (step-Continues r l v)
        (λ r' l' v' less. ends_within fuel r' l' v' less)
    where
      after :
          (s : Step L)
          → Continues (AllocatesNegative r) (left r) s
          → ((r' : CborReader) (l' : L)
              → IsReading r'
              → left r' < fuel
              → run listener fuel r' l' ≢ out_of_fuel)
          → (elim s [
            | more r' l' ↦ run listener fuel r' l'
            | stop r' l' ↦ finished r' l'
            | fault ↦ faulted
          ])
            ≢ out_of_fuel
      after (more r' l') (v', less) on = on r' l' v' (omega arith)
      after (stop r' l') c on = λ h. cc
      after fault c on = λ h. cc

  -- A run over bytes of which none is 0x3b ends, given two rounds a byte and one more.
  pub run_ends :
      (bytes : List ℕ) (fuel : ℕ) (unset : ℤ) (l : L)
      → All IsTame bytes
      → 2 * length bytes < fuel
      → run listener fuel (new_reader (new_input bytes (length bytes)) unset) l ≢ out_of_fuel
  run_ends bytes fuel unset l tame enough =
      ends_within fuel _ l (new_reader-IsReading bytes unset tame)
        (unfold new_reader new_input in omega arith)
