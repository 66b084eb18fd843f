-- ===== src/Cbor/Reader/Majors.antt =====
-- The major types, each with the number that its listener is given.
use zql.Prelude.{
  ℕ, some, ◌+◌, ◌*◌, ◌/◌, ◌^◌, ◌≤◌, ◌<◌, ◌≡◌, refl, ℤ, pos, List, [], ◌∷◌, ◌++◌, arith, lt→ltb,
  le→leb, length, u8, to_int32, to_int32_small, neg_int32, true,
}
use zql.Cbor.Input.{CborInput, has_bytes, get_short, get_int}
use zql.Cbor.Input.Cursor.{at, has_bytes-at, get_byte-at, get_short-at, get_int-at}
use zql.Cbor.Reader.{
  CborListener, CborReader, CborReaderState, state_type, state_pint, state_nint, state_array,
  state_map, state_tag, state_bytes_size, state_bytes_data, state_string_size, state_string_data,
  consume,
}
use zql.Cbor.Reader.Head.{
  switch_major, type_pint, type_nint, type_bytes, type_string, type_array, type_map, type_tag,
}
use zql.Cbor.Reader.Body.{
  read_pint, read_nint, read_bytes_size, read_string_size, read_array, read_map, read_tag,
}
use zql.Cbor.Reader.Loop.{step}
use zql.Cbor.Reader.Numbers.{reader, Major}
use zql.Cbor.Writer.Heads.{be16, be32}

-- The reads of a number in 1, 2 and 4 bytes, with the test before each.
room :
    (before xs rest : List ℕ) (n : ℕ)
    → n ≤ length (xs ++ rest)
    → has_bytes (at before (xs ++ rest)) (pos n) ≡ true
room before xs rest n h = rw (has_bytes-at before (xs ++ rest) n) (le→leb _ _ h)

short_lem :
    (before rest : List ℕ) (v : ℕ)
    → v < 2 ^ 16
    → get_short (at before (be16 v ++ rest)) ≡ some (v, at (before ++ be16 v) rest)
short_lem before rest v h =
    let value : u8 (v / 2 ^ 8) * 2 ^ 8 + u8 v ≡ v = omega arith in
    rw (get_short-at before (u8 (v / 2 ^ 8)) (u8 v) rest (omega arith), value)

int_lem :
    (before rest : List ℕ) (v : ℕ)
    → v < 2 ^ 32
    → get_int (at before (be32 v ++ rest)) ≡ some (v, at (before ++ be32 v) rest)
int_lem before rest v h =
    let value : u8 (v / 2 ^ 24) * 2 ^ 24 + u8 (v / 2 ^ 16) * 2 ^ 16 + u8 (v / 2 ^ 8) * 2 ^ 8 + u8 v
        ≡ v =
      omega arith in
    rw (
      get_int-at before (u8 (v / 2 ^ 24)) (u8 (v / 2 ^ 16)) (u8 (v / 2 ^ 8)) (u8 v) rest
          (omega arith) (omega arith) (omega arith),
      value,
    )

-- Behind the item the reader is back in STATE_TYPE.
abbrev pub back : ℕ → ℤ → CborInput → CborReader
back v n i = reader i state_type n

-- Behind the head of a string its bytes are next.
abbrev pub to_data : CborReaderState → ℕ → ℤ → CborInput → CborReader
to_data state v n i = reader i state (to_int32 v)

-- A number that is given as an int is the same number below 2^31.
small : (v bound : ℕ) → v < bound → bound ≤ 2 ^ 31 → to_int32 v ≡ pos v
small v bound h fits = to_int32_small v (omega arith)

module _ {ℓ} {L : Type ℓ} (listener : CborListener L) where
  pub Major-pint :
      Major listener 0 state_pint back (λ v. listener.on_integer (to_int32 v)) (λ v. pos 2)
  unfolding switch_major type_pint step read_pint
  Major-pint = record {
    below = omega arith;
    in_byte = λ v i n l h. rw (lt→ltb v 24 h, small v 24 h (omega arith));
    enter_one = λ r l. refl;
    enter_two = λ r l. refl;
    enter_four = λ r l. refl;
    one = λ before rest v l h. rw (
      room before (v ∷ []) rest 1 (omega arith),
      get_byte-at before v rest,
      consume,
      small v 256 h (omega arith),
    );
    two = λ before rest v l h. rw (
      room before (be16 v) rest 2 (omega arith),
      short_lem before rest v h,
      consume,
      small v 65536 h (omega arith),
    );
    four = λ before rest v l h.
        rw (room before (be32 v) rest 4 (omega arith), int_lem before rest v h, consume);
  }

  pub Major-nint :
      Major listener 1 state_nint back
        (λ v. listener.on_integer (neg_int32 (to_int32 v)))
        (λ v. pos 2)
  unfolding switch_major type_nint step read_nint neg_int32
  Major-nint = record {
    below = omega arith;
    in_byte = λ v i n l h. rw (lt→ltb v 24 h, small v 24 h (omega arith));
    enter_one = λ r l. refl;
    enter_two = λ r l. refl;
    enter_four = λ r l. refl;
    one = λ before rest v l h. rw (
      room before (v ∷ []) rest 1 (omega arith),
      get_byte-at before v rest,
      consume,
      small v 256 h (omega arith),
    );
    two = λ before rest v l h. rw (
      room before (be16 v) rest 2 (omega arith),
      short_lem before rest v h,
      consume,
      small v 65536 h (omega arith),
    );
    four = λ before rest v l h.
        rw (room before (be32 v) rest 4 (omega arith), int_lem before rest v h, consume);
  }

  pub Major-bytes : Major listener 2 state_bytes_size (to_data state_bytes_data) (λ v l. l) pos
  unfolding switch_major type_bytes step read_bytes_size
  Major-bytes = record {
    below = omega arith;
    in_byte = λ v i n l h. rw (lt→ltb v 24 h, small v 24 h (omega arith));
    enter_one = λ r l. refl;
    enter_two = λ r l. refl;
    enter_four = λ r l. refl;
    one = λ before rest v l h. rw (
      room before (v ∷ []) rest 1 (omega arith),
      get_byte-at before v rest,
      consume,
      small v 256 h (omega arith),
    );
    two = λ before rest v l h. rw (
      room before (be16 v) rest 2 (omega arith),
      short_lem before rest v h,
      consume,
      small v 65536 h (omega arith),
    );
    four = λ before rest v l h.
        rw (room before (be32 v) rest 4 (omega arith), int_lem before rest v h, consume);
  }

  pub Major-string : Major listener 3 state_string_size (to_data state_string_data) (λ v l. l) pos
  unfolding switch_major type_string step read_string_size
  Major-string = record {
    below = omega arith;
    in_byte = λ v i n l h. rw (lt→ltb v 24 h, small v 24 h (omega arith));
    enter_one = λ r l. refl;
    enter_two = λ r l. refl;
    enter_four = λ r l. refl;
    one = λ before rest v l h. rw (
      room before (v ∷ []) rest 1 (omega arith),
      get_byte-at before v rest,
      consume,
      small v 256 h (omega arith),
    );
    two = λ before rest v l h. rw (
      room before (be16 v) rest 2 (omega arith),
      short_lem before rest v h,
      consume,
      small v 65536 h (omega arith),
    );
    four = λ before rest v l h.
        rw (room before (be32 v) rest 4 (omega arith), int_lem before rest v h, consume);
  }

  pub Major-array : Major listener 4 state_array back (λ v. listener.on_array (to_int32 v)) pos
  unfolding switch_major type_array step read_array
  Major-array = record {
    below = omega arith;
    in_byte = λ v i n l h. rw (lt→ltb v 24 h, small v 24 h (omega arith));
    enter_one = λ r l. refl;
    enter_two = λ r l. refl;
    enter_four = λ r l. refl;
    one = λ before rest v l h. rw (
      room before (v ∷ []) rest 1 (omega arith),
      get_byte-at before v rest,
      consume,
      small v 256 h (omega arith),
    );
    two = λ before rest v l h. rw (
      room before (be16 v) rest 2 (omega arith),
      short_lem before rest v h,
      consume,
      small v 65536 h (omega arith),
    );
    four = λ before rest v l h.
        rw (room before (be32 v) rest 4 (omega arith), int_lem before rest v h, consume);
  }

  pub Major-map : Major listener 5 state_map back (λ v. listener.on_map (to_int32 v)) pos
  unfolding switch_major type_map step read_map
  Major-map = record {
    below = omega arith;
    in_byte = λ v i n l h. rw (lt→ltb v 24 h, small v 24 h (omega arith));
    enter_one = λ r l. refl;
    enter_two = λ r l. refl;
    enter_four = λ r l. refl;
    one = λ before rest v l h. rw (
      room before (v ∷ []) rest 1 (omega arith),
      get_byte-at before v rest,
      consume,
      small v 256 h (omega arith),
    );
    two = λ before rest v l h. rw (
      room before (be16 v) rest 2 (omega arith),
      short_lem before rest v h,
      consume,
      small v 65536 h (omega arith),
    );
    four = λ before rest v l h.
        rw (room before (be32 v) rest 4 (omega arith), int_lem before rest v h, consume);
  }

  pub Major-tag : Major listener 6 state_tag back listener.on_tag (λ v. pos 2)
  unfolding switch_major type_tag step read_tag
  Major-tag = record {
    below = omega arith;
    in_byte = λ v i n l h. rw (lt→ltb v 24 h);
    enter_one = λ r l. refl;
    enter_two = λ r l. refl;
    enter_four = λ r l. refl;
    one = λ before rest v l h.
        rw (room before (v ∷ []) rest 1 (omega arith), get_byte-at before v rest, consume);
    two = λ before rest v l h.
        rw (room before (be16 v) rest 2 (omega arith), short_lem before rest v h, consume);
    four = λ before rest v l h.
        rw (room before (be32 v) rest 4 (omega arith), int_lem before rest v h, consume);
  }
