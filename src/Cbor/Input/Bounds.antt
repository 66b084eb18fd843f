-- ===== src/Cbor/Input/Bounds.antt =====
-- The reads of CborInput in lib/Cbor.cpp behind the test `hasBytes`.
use zql.Prelude.{
  ℕ, suc, ◌+◌, ◌*◌, ◌^◌, ◌≤◌, ◌≡◌, pos, some, true, arith, length, take, drop, le→leb, All,
  get_elem?-some, bit_or,
}
use zql.Cbor.Input.{
  CborInput, In, ◌>>=◌, has_bytes, peek, advance, get_byte, get_short, get_int, get_long, get_bytes,
}

-- The cursor is in the input or at its end, and the size is that of the bytes that are there, all
-- of which satisfy `P`.
pub record IsInput (P : ℕ → Type 0) (i : CborInput) : Type 0 where
  pub size : i.size ≡ length i.bytes
  pub within : i.offset ≤ i.size
  pub all : All P i.bytes

pub has_bytes→le :
    (i : CborInput) (n : ℕ) → i.offset ≤ i.size → has_bytes i (pos n) ≡ true → i.offset + n ≤ i.size
unfolding has_bytes
has_bytes→le i n h e = ground arith

pub IsInput-skip :
    (P : ℕ → Type 0) (i : CborInput) (n : ℕ)
    → IsInput P i
    → i.offset + n ≤ i.size
    → IsInput P (record i { offset = i.offset + n })
IsInput-skip P i n v h = record { size = v.size; within = h; all = v.all }

module _ (P : ℕ → Type 0) where
  -- `read` succeeds where `n` bytes are left, and goes on behind them.
  abbrev pub Takes : {A : Type 0} → In A → ℕ → Type 0
  Takes {A} read n =
      (i : CborInput)
      → IsInput P i
      → i.offset + n ≤ i.size
      → (a : A) × (read i ≡ some (a, record i { offset = i.offset + n }))

  peek-some :
      (i : CborInput) (k : ℕ)
      → IsInput P i
      → i.offset + suc k ≤ i.size
      → (b : ℕ) × (peek k i ≡ some (b, i)) × P b
  unfolding peek
  peek-some i k v h =
      let (b, e, p) = get_elem?-some P i.bytes (i.offset + k) v.all (omega (arith, v.size)) in
      (b, rw (e, peek), p)

  pub get_byte-Takes :
      (i : CborInput)
      → IsInput P i
      → i.offset + 1 ≤ i.size
      → (b : ℕ) × (get_byte i ≡ some (b, record i { offset = i.offset + 1 })) × P b
  unfolding get_byte advance
  get_byte-Takes i v h =
      let (b, e, p) = peek-some i 0 v (omega arith) in (b, rw (e, ◌>>=◌, get_byte), p)

  pub get_short-Takes : Takes get_short 2
  unfolding get_short advance
  get_short-Takes i v h =
      let (a, ea, _) = peek-some i 0 v (omega arith) in
      let (b, eb, _) = peek-some i 1 v (omega arith) in
      (bit_or (a * 2 ^ 8) b, ground (arith, ea, eb))

  pub get_int-Takes : Takes get_int 4
  unfolding get_int advance
  get_int-Takes i v h =
      let (a, ea, _) = peek-some i 0 v (omega arith) in
      let (b, eb, _) = peek-some i 1 v (omega arith) in
      let (c, ec, _) = peek-some i 2 v (omega arith) in
      let (d, ed, _) = peek-some i 3 v (omega arith) in
      (
        bit_or (bit_or (bit_or (a * 2 ^ 24) (b * 2 ^ 16)) (c * 2 ^ 8)) d,
        ground (arith, ea, eb, ec, ed),
      )

  pub get_long-Takes : Takes get_long 8
  unfolding get_long advance
  get_long-Takes i v h =
      let (a, ea, _) = peek-some i 0 v (omega arith) in
      let (b, eb, _) = peek-some i 1 v (omega arith) in
      let (c, ec, _) = peek-some i 2 v (omega arith) in
      let (d, ed, _) = peek-some i 3 v (omega arith) in
      let (e, ee, _) = peek-some i 4 v (omega arith) in
      let (f, ef, _) = peek-some i 5 v (omega arith) in
      let (g, eg, _) = peek-some i 6 v (omega arith) in
      let (k, ek, _) = peek-some i 7 v (omega arith) in
      (
        bit_or
            (bit_or
              (bit_or
                (bit_or
                  (bit_or (bit_or (bit_or (a * 2 ^ 56) (b * 2 ^ 48)) (c * 2 ^ 40)) (d * 2 ^ 32))
                  (e * 2 ^ 24))
                (f * 2 ^ 16))
              (g * 2 ^ 8))
            k,
        ground (arith, ea, eb, ec, ed, ee, ef, eg, ek),
      )

  pub get_bytes-Takes : (n : ℕ) → Takes (get_bytes n) n
  unfolding get_bytes
  get_bytes-Takes n i v h = (
    take n (drop i.offset i.bytes),
    rw (le→leb (i.offset + n) (length i.bytes) (omega (arith, v.size))),
  )
