-- ===== src/Cbor/Reader.antt =====
-- CborReader of lib/Cbor.cpp: the loop that turns bytes into calls of a listener, one item after
-- the other. The listener is the record of the callbacks of class CborListener, over a state `L`.
pub mod Head
pub mod Body
pub mod Loop
pub mod Numbers
pub mod Majors
pub mod Reading
pub mod Items
pub mod Ends
pub mod Keeps
use zql.Prelude.{
  ℕ, zero, suc, ◌*◌, ◌/◌, ◌^◌, ℤ, pos, negsuc, neg_ℕ, eqb_ℤ, Option, none, some, List, ltb, ◌==◌,
  if◌then◌else◌, bit_and, to_int32, neg_int32,
}
use Prim.Native.String.{String}
use zql.Cbor.Input.{CborInput, In, has_bytes, get_byte, get_short, get_int, get_long, get_bytes}

pub record CborListener {ℓ} (L : Type ℓ) : Type ℓ where
  pub on_integer : ℤ → L → L
  pub on_bytes : List ℕ → L → L
  pub on_string : List ℕ → L → L
  pub on_array : ℤ → L → L
  pub on_map : ℤ → L → L
  pub on_tag : ℕ → L → L
  pub on_special : ℤ → L → L
  pub on_error : String → L → L

pub data CborReaderState : Type 0 where
  state_type state_pint state_nint : CborReaderState
  state_bytes_size state_bytes_data state_string_size state_string_data : CborReaderState
  state_array state_map state_tag state_special : CborReaderState

pub record CborReader : Type 0 where
  pub input : CborInput
  pub state : CborReaderState
  pub current_length : ℤ

-- One round of the loop: another one follows, or `break` ends it for want of bytes, or the round
-- does what C++ leaves undefined or dies of (a read outside the input, `new` of a negative size).
pub data Step {ℓ} (L : Type ℓ) : Type ℓ where
  more : CborReader → L → Step L
  stop : CborReader → L → Step L
  fault : Step L

pub data Result {ℓ} (L : Type ℓ) : Type ℓ where
  finished : CborReader → L → Result L
  faulted : Result L
  out_of_fuel : Result L

-- The constructor, which leaves the length unset.
unfoldable pub new_reader : CborInput → (unset : ℤ) → CborReader
new_reader input unset = record { input = input; state = state_type; current_length = unset }

abbrev pub enter : CborReader → CborReaderState → ℕ → CborReader
enter r state n = record r { state = state; current_length = pos n }

-- `minorType` 24 to 27: the number follows in 1, 2, 4 or 8 bytes.
abbrev pub sized : CborReader → CborReaderState → ℕ → Option CborReader
sized r state minor =
    if minor == 24
    then some (enter r state 1)
    else (if minor == 25
        then some (enter r state 2)
        else (if minor == 26
            then some (enter r state 4)
            else (if minor == 27 then some (enter r state 8) else none)))

-- `switch(currentLength)`.
abbrev pub switch_length {ℓ} : {A : Type ℓ} → ℤ → (one two four eight other : A) → A
switch_length n one two four eight other =
    if eqb_ℤ n (pos 1)
    then one
    else (if eqb_ℤ n (pos 2)
        then two
        else (if eqb_ℤ n (pos 4) then four else (if eqb_ℤ n (pos 8) then eight else other)))

module _ {ℓ} {L : Type ℓ} where
  abbrev pub consume : {A : Type 0} → In A → CborReader → (A → CborReader → Step L) → Step L
  consume m r k = elim (m r.input) [ none ↦ fault | some (a, i) ↦ k a (record r { input = i }) ]

  -- The number of an item is read and handed over; the next item follows.
  abbrev pub deliver : In ℕ → (ℕ → L → L) → CborReader → L → Step L
  deliver m callback r l =
      consume m r (λ v r'. more (record r' { state = state_type }) (callback v l))

  -- The length of a text or byte string is read; its bytes follow.
  abbrev pub measure : In ℕ → (ℕ → ℤ) → CborReaderState → CborReader → L → Step L
  measure m convert state r l =
      consume m r (λ v r'. more (record r' { state = state; current_length = convert v }) l)
