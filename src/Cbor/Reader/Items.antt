-- ===== src/Cbor/Reader/Items.antt =====
-- The items that CborWriter writes, under CborReader.
use zql.Prelude.{
  ℕ, suc, ◌+◌, ◌-◌, ◌*◌, ◌^◌, ◌≤◌, ◌<◌, ◌≡◌, ◌∙◌, ℤ, pos, negsuc, List, [], ◌++◌, append-nil, arith,
  le→leb, length, length-append, to_int32, to_int32_small, neg_int32,
}
use zql.Cbor.Input.{new_input}
use zql.Cbor.Input.Cursor.{at, has_bytes-at, get_bytes-at}
use zql.Cbor.Reader.{
  CborListener, CborReader, more, finished, state_type, state_bytes_size, state_bytes_data,
  state_string_size, state_string_data, consume, new_reader,
}
use zql.Cbor.Reader.Head.{read_type}
use zql.Cbor.Reader.Body.{read_bytes_data, read_string_data}
use zql.Cbor.Reader.Loop.{step, run}
use zql.Cbor.Reader.Numbers.{reader}
use zql.Cbor.Reader.Majors.{
  Major-pint, Major-nint, Major-bytes, Major-string, Major-array, Major-map, Major-tag,
}
use zql.Cbor.Reader.Reading.{Reads, Reads-head, Reads-data}
use zql.Cbor.Writer.Heads.{head}
use zql.Cbor.Writer.Items.{item_string, item_bytes, item_int32}

neg_int32-to_int32 : (n : ℕ) → suc n ≤ 2 ^ 31 → neg_int32 (to_int32 (suc n)) ≡ negsuc n
unfolding neg_int32 to_int32
neg_int32-to_int32 n h = ground arith

module _ {ℓ} {L : Type ℓ} (listener : CborListener L) where
  -- An unsigned number of 32 bits comes back as the int with its bits.
  pub Reads-uint32 :
      (v : ℕ) → v < 2 ^ 32 → Reads listener (head 0 v) (listener.on_integer (to_int32 v))
  Reads-uint32 v h = Reads-head listener (Major-pint listener) v h

  pub Reads-tag : (v : ℕ) → v < 2 ^ 32 → Reads listener (head 6 v) (listener.on_tag v)
  Reads-tag v h = Reads-head listener (Major-tag listener) v h

  pub Reads-array : (v : ℕ) → v < 2 ^ 31 → Reads listener (head 4 v) (listener.on_array (pos v))
  Reads-array v h =
      rw (← to_int32_small v h) (Reads-head listener (Major-array listener) v (omega arith))

  pub Reads-map : (v : ℕ) → v < 2 ^ 31 → Reads listener (head 5 v) (listener.on_map (pos v))
  Reads-map v h =
      rw (← to_int32_small v h) (Reads-head listener (Major-map listener) v (omega arith))

  pub Reads-int32-pos :
      (n : ℕ) → n < 2 ^ 31 → Reads listener (item_int32 (pos n)) (listener.on_integer (pos n))
  unfolding item_int32
  Reads-int32-pos n h =
      rw (← to_int32_small n h) (Reads-head listener (Major-pint listener) n (omega arith))

  pub Reads-int32-negsuc :
      (n : ℕ)
      → suc n ≤ 2 ^ 31
      → Reads listener (item_int32 (negsuc n)) (listener.on_integer (negsuc n))
  unfolding item_int32
  Reads-int32-negsuc n h =
      rw (← neg_int32-to_int32 n h)
        (Reads-head listener (Major-nint listener) (suc n) (omega arith))

  take_string :
      (before xs rest : List ℕ) (l : L)
      → step listener (reader (at before (xs ++ rest)) state_string_data (pos (length xs))) l
        ≡ more
            (reader (at (before ++ xs) rest) state_type (pos (length xs)))
            (listener.on_string xs l)
  unfolding step read_string_data
  take_string before xs rest l = rw (
    has_bytes-at before (xs ++ rest) (length xs),
    le→leb (length xs) (length (xs ++ rest)) (omega (arith, length-append xs rest)),
    get_bytes-at before xs rest,
    consume,
  )

  take_bytes :
      (before xs rest : List ℕ) (l : L)
      → step listener (reader (at before (xs ++ rest)) state_bytes_data (pos (length xs))) l
        ≡ more
            (reader (at (before ++ xs) rest) state_type (pos (length xs)))
            (listener.on_bytes xs l)
  unfolding step read_bytes_data
  take_bytes before xs rest l = rw (
    has_bytes-at before (xs ++ rest) (length xs),
    le→leb (length xs) (length (xs ++ rest)) (omega (arith, length-append xs rest)),
    get_bytes-at before xs rest,
    consume,
  )

  pub Reads-string :
      (str : List ℕ)
      → length str < 2 ^ 31
      → Reads listener (item_string str) (listener.on_string str)
  unfolding item_string
  Reads-string str h =
      Reads-data listener 3 state_string_size state_string_data listener.on_string
        (Major-string listener) take_string str h

  pub Reads-bytes :
      (bytes : List ℕ)
      → length bytes < 2 ^ 31
      → Reads listener (item_bytes bytes) (listener.on_bytes bytes)
  unfolding item_bytes
  Reads-bytes bytes h =
      Reads-data listener 2 state_bytes_size state_bytes_data listener.on_bytes
        (Major-bytes listener) take_bytes bytes h

  stop_at_end :
      (before : List ℕ) (n : ℤ) (l : L) (fuel : ℕ)
      → run listener (suc fuel) (reader (at before []) state_type n) l
        ≡ finished (reader (at before []) state_type n) l
  unfolding run step read_type
  stop_at_end before n l fuel = rw (has_bytes-at before [] 1, run)

  run_to_end :
      {bs : List ℕ} {effect : L → L} (reads : Reads listener bs effect) (unset : ℤ) (l : L)
      (left : ℕ)
      → (r : CborReader) × (run listener
            (reads.count + suc left)
            (new_reader (new_input bs (length bs)) unset)
            l
          ≡ finished r (effect l))
  unfolding new_reader new_input
  run_to_end {bs} {effect} reads unset l left =
      let (n, whole) = reads.reads [] [] unset l (suc left) in
      (
        reader (record { bytes = bs; size = length bs; offset = length bs }) state_type n,
        rw (append-nil bs) at (whole ∙ stop_at_end bs n (effect l) left),
      )

  -- The run over a whole input of items ends at its end, with all their effects, given two rounds
  -- a byte and one more.
  pub run-Reads :
      {bs : List ℕ} {effect : L → L}
      → Reads listener bs effect
      → (fuel : ℕ) (unset : ℤ) (l : L) → 2 * length bs < fuel
      → (r : CborReader) × (run listener fuel (new_reader (new_input bs (length bs)) unset) l
          ≡ finished r (effect l))
  run-Reads {bs} reads fuel unset l enough =
      let split : reads.count + suc (fuel - reads.count - 1) ≡ fuel =
        omega (arith, reads.bounded) in
      rw split at (run_to_end reads unset l (fuel - reads.count - 1))
