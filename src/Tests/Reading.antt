-- ===== src/Tests/Reading.antt =====
-- lib/Cbor.cpp's reader on concrete inputs.
use zql.Prelude.{to_int32, ℕ, ◌+◌, ◌≡◌, ◌≢◌, refl, pos, negsuc, List, [], ◌∷◌, length, arith}
use zql.Cbor.Input.{new_input, peek, advance, has_bytes, get_byte, get_int}
use zql.Cbor.Reader.{CborListener, CborReader, fault, out_of_fuel, new_reader, state_string_data}
use zql.Cbor.Reader.Head
use zql.Cbor.Reader.Body
use zql.Cbor.Reader.Loop.{step_in, step, run, Rounds, here, next}
use zql.Cbor.Reader.Ends.Whole.{AllocatesNegative, run_ends, Rounds-in_bounds}
use zql.Cbor.Reader.Ends.Hangs.{run_hangs}

-- A listener that counts its calls.
abbrev counting : CborListener ℕ
counting = record {
  on_integer = λ z n. n + 1;
  on_bytes = λ b n. n + 1;
  on_string = λ b n. n + 1;
  on_array = λ z n. n + 1;
  on_map = λ z n. n + 1;
  on_tag = λ t n. n + 1;
  on_special = λ z n. n + 1;
  on_error = λ e n. n + 1;
}

-- An array of two: 5 and "a".
abbrev two_items : List ℕ
two_items = 0x82 ∷ 0x05 ∷ 0x61 ∷ 97 ∷ []

run_ends_example :
    run counting 9 (new_reader (new_input two_items (length two_items)) (pos 0)) 0 ≢ out_of_fuel
run_ends_example =
    run_ends counting two_items 9 (pos 0) 0
      (
        (omega arith, omega arith),
        (
          (omega arith, omega arith),
          ((omega arith, omega arith), ((omega arith, omega arith), tt)),
        ),
      )
      (omega arith)

-- A string of 2^32 - 1 bytes, which becomes the length -1.
abbrev long_string : List ℕ
long_string = 0x7a ∷ 255 ∷ 255 ∷ 255 ∷ 255 ∷ []

abbrev at_data : CborReader
at_data = record {
  input = record { bytes = long_string; size = 5; offset = 5 };
  state = state_string_data;
  current_length = negsuc 0;
}

to_data : Rounds counting (new_reader (new_input long_string 5) (pos 0)) 0 at_data 0
unfolding step step_in Head.read_type Head.switch_major Head.type_string Body.read_string_size
    has_bytes get_byte get_int peek advance new_reader new_input to_int32
to_data = next (next here refl) refl

data_faults : step counting at_data 0 ≡ fault
unfolding step step_in Body.read_string_data has_bytes
data_faults = refl

Rounds-in_bounds_example : AllocatesNegative at_data
Rounds-in_bounds_example =
    Rounds-in_bounds counting long_string (pos 0) 0
      (
        (omega arith, omega arith),
        (
          (omega arith, omega arith),
          (
            (omega arith, omega arith),
            ((omega arith, omega arith), ((omega arith, omega arith), tt)),
          ),
        ),
      )
      to_data data_faults

abbrev eight_zeros : List ℕ
eight_zeros = 0 ∷ 0 ∷ 0 ∷ 0 ∷ 0 ∷ 0 ∷ 0 ∷ 1 ∷ []

run_hangs_example :
    run counting 1000
      (new_reader (new_input (0x3b ∷ eight_zeros) (length (0x3b ∷ eight_zeros))) (pos 0))
      0
    ≡ out_of_fuel
run_hangs_example = run_hangs counting 1000 eight_zeros (pos 0) 0 (omega arith)
