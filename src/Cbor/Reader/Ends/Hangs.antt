-- ===== src/Cbor/Reader/Ends/Hangs.antt =====
-- `STATE_NINT` of lib/Cbor.cpp on a negative integer in eight bytes.
use zql.Prelude.{
  ℕ, zero, suc, ◌≤◌, ◌≡◌, refl, ◌∙◌, ℤ, pos, true, List, [], ◌∷◌, arith, le→leb, length,
}
use zql.Cbor.Input.{CborInput, new_input, has_bytes}
use zql.Cbor.Input.Cursor.{at, has_bytes-at}
use zql.Cbor.Reader.{CborListener, more, out_of_fuel, state_nint, new_reader}
use zql.Cbor.Reader.Head.{switch_major, type_nint}
use zql.Cbor.Reader.Body.{read_nint}
use zql.Cbor.Reader.Loop.{step, run}
use zql.Cbor.Reader.Numbers.{reader, first_byte, run_more}

module _ {ℓ} {L : Type ℓ} (listener : CborListener L) where
  stands_still :
      (i : CborInput) (l : L)
      → has_bytes i (pos 8) ≡ true
      → step listener (reader i state_nint (pos 8)) l ≡ more (reader i state_nint (pos 8)) l
  unfolding step read_nint
  stands_still i l e = rw e

  spins :
      (fuel : ℕ) (i : CborInput) (l : L)
      → has_bytes i (pos 8) ≡ true
      → run listener fuel (reader i state_nint (pos 8)) l ≡ out_of_fuel
  unfolding run
  spins zero i l e = refl
  spins (suc fuel) i l e = rw (stands_still i l e, run) (spins fuel i l e)

  -- On a message of 0x3b and eight bytes or more the run never ends, whatever the fuel.
  pub run_hangs :
      (fuel : ℕ) (rest : List ℕ) (unset : ℤ) (l : L)
      → 8 ≤ length rest
      → run listener fuel (new_reader (new_input (0x3b ∷ rest) (length (0x3b ∷ rest))) unset) l
        ≡ out_of_fuel
  unfolding new_reader new_input switch_major type_nint
  run_hangs zero rest unset l h = unfold run in refl
  run_hangs (suc fuel) rest unset l h =
      run_more listener fuel _ _ l l
        (first_byte listener 1 27 (omega arith) (omega arith) [] rest unset l)
      ∙ spins fuel (at (0x3b ∷ []) rest) l
          (has_bytes-at (0x3b ∷ []) rest 8 ∙ le→leb 8 (length rest) h)
