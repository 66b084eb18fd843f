-- ===== src/Cbor/Writer/Items.antt =====
-- What the methods of CborWriter in lib/Cbor.cpp write, and their buffer.
use zql.Prelude.{ℕ, suc, ◌^◌, ◌<◌, ◌≤◌, ℤ, pos, negsuc, List, ◌++◌, arith, length}
use native.Mathlib.Nat.{mod-eq_of_lt}
use zql.Cbor.Output.{put_bytes}
use zql.Cbor.Output.Bounds.{most, IsSafe, put_bytes-IsSafe, IsSafe->>}
use zql.Cbor.Output.Append.{Writes, put_bytes-Writes, Writes->>}
use zql.Cbor.Writer.{
  write_uint32, write_uint64, write_int32, write_bytes, write_string, write_array, write_map,
  write_tag,
}
use zql.Cbor.Writer.Heads.{
  head, write_type_and_value-Writes, write_type_and_value-IsSafe, write_type_and_value_64-IsSafe,
}

-- A byte string or a text is its head, which holds the length, and its bytes.
unfoldable pub item_bytes : List ℕ → List ℕ
item_bytes bytes = head 2 (length bytes) ++ bytes

unfoldable pub item_string : List ℕ → List ℕ
item_string str = head 3 (length str) ++ str

-- A negative number is written as its absolute value.
unfoldable pub item_int32 : ℤ → List ℕ
item_int32 (pos n) = head 0 n
item_int32 (negsuc n) = head 1 (suc n)

pub write_uint32-Writes : (v : ℕ) → v < 2 ^ 32 → Writes (head 0 v) (write_uint32 v)
unfolding write_uint32
write_uint32-Writes v h = write_type_and_value-Writes 0 v (omega arith) h

pub write_tag-Writes : (v : ℕ) → v < 2 ^ 32 → Writes (head 6 v) (write_tag v)
unfolding write_tag
write_tag-Writes v h = write_type_and_value-Writes 6 v (omega arith) h

pub write_array-Writes : (v : ℕ) → v < 2 ^ 32 → Writes (head 4 v) (write_array v)
unfolding write_array
write_array-Writes v h = rw (mod-eq_of_lt h) (write_type_and_value-Writes 4 v (omega arith) h)

pub write_map-Writes : (v : ℕ) → v < 2 ^ 32 → Writes (head 5 v) (write_map v)
unfolding write_map
write_map-Writes v h = rw (mod-eq_of_lt h) (write_type_and_value-Writes 5 v (omega arith) h)

pub write_int32-pos : (n : ℕ) → n < 2 ^ 32 → Writes (item_int32 (pos n)) (write_int32 (pos n))
unfolding write_int32 item_int32
write_int32-pos n h = rw (mod-eq_of_lt h) (write_type_and_value-Writes 0 n (omega arith) h)

pub write_int32-negsuc :
    (n : ℕ) → suc n < 2 ^ 32 → Writes (item_int32 (negsuc n)) (write_int32 (negsuc n))
unfolding write_int32 item_int32
write_int32-negsuc n h = rw (mod-eq_of_lt h) (write_type_and_value-Writes 1 (suc n) (omega arith) h)

-- A string shorter than 2^32 bytes is written as the head of its length under major type 3 and its
-- bytes, into every valid buffer with room for these.
pub write_string-Writes :
    (str : List ℕ) → length str < 2 ^ 32 → Writes (item_string str) (write_string str)
unfolding write_string item_string
write_string-Writes str h = rw (mod-eq_of_lt h) (
    Writes->> _ (put_bytes str) (write_type_and_value-Writes 3 (length str) (omega arith) h)
      (put_bytes-Writes str))

pub write_bytes-Writes :
    (bytes : List ℕ) → length bytes < 2 ^ 32 → Writes (item_bytes bytes) (write_bytes bytes)
unfolding write_bytes item_bytes
write_bytes-Writes bytes h = rw (mod-eq_of_lt h) (
    Writes->> _ (put_bytes bytes) (write_type_and_value-Writes 2 (length bytes) (omega arith) h)
      (put_bytes-Writes bytes))

pub write_uint32-IsSafe : (v : ℕ) → IsSafe (write_uint32 v)
unfolding write_uint32
write_uint32-IsSafe v = write_type_and_value-IsSafe 0 v

pub write_uint64-IsSafe : (v : ℕ) → IsSafe (write_uint64 v)
unfolding write_uint64
write_uint64-IsSafe v = write_type_and_value_64-IsSafe 0 v

pub write_int32-IsSafe : (z : ℤ) → IsSafe (write_int32 z)
unfolding write_int32
write_int32-IsSafe (pos n) = write_type_and_value-IsSafe 0 _
write_int32-IsSafe (negsuc n) = write_type_and_value-IsSafe 1 _

pub write_string-IsSafe : (str : List ℕ) → length str ≤ most → IsSafe (write_string str)
unfolding write_string
write_string-IsSafe str few =
    IsSafe->> _ _ (write_type_and_value-IsSafe 3 _) (put_bytes-IsSafe str few)

pub write_bytes-IsSafe : (bytes : List ℕ) → length bytes ≤ most → IsSafe (write_bytes bytes)
unfolding write_bytes
write_bytes-IsSafe bytes few =
    IsSafe->> _ _ (write_type_and_value-IsSafe 2 _) (put_bytes-IsSafe bytes few)

pub write_array-IsSafe : (v : ℕ) → IsSafe (write_array v)
unfolding write_array
write_array-IsSafe v = write_type_and_value-IsSafe 4 _

pub write_map-IsSafe : (v : ℕ) → IsSafe (write_map v)
unfolding write_map
write_map-IsSafe v = write_type_and_value-IsSafe 5 _

pub write_tag-IsSafe : (v : ℕ) → IsSafe (write_tag v)
unfolding write_tag
write_tag-IsSafe v = write_type_and_value-IsSafe 6 v
