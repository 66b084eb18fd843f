-- ===== src/Cbor/Output.antt =====
-- CborOutput of lib/Cbor.cpp: a buffer of fixed capacity that is filled from the front.
pub mod Bounds
pub mod Append
use zql.Prelude.{
  ℕ, ◌+◌, ◌-◌, ◌%◌, ◌^◌, ◌<◌, Bool, true, List, ◌++◌, ltb, if◌then◌else◌, length, take, drop, set,
}

pub record CborOutput : Type 0 where
  pub buffer : List ℕ
  pub capacity : ℕ
  pub offset : ℕ

-- What runs on an output: the operations below, one after the other.
abbrev pub Write : Type 0
Write = CborOutput → CborOutput

infixl 5 ◌>>◌
abbrev pub ◌>>◌ : Write → Write → Write
f >> g = λ o. g (f o)

-- The constructor. `memory` is what `new unsigned char[capacity]` returns, with any contents.
unfoldable pub new_output : (memory : List ℕ) (capacity : ℕ) → CborOutput
new_output memory capacity = record { buffer = memory; capacity = capacity; offset = 0 }

unfoldable pub put_byte : ℕ → Write
put_byte value o =
    if ltb o.offset o.capacity
    then record o { buffer = set o.buffer o.offset value; offset = o.offset + 1 }
    else o

-- `offset + size - 1 < capacity` on int, where `end` is `offset + size` and behind the capacity: the
-- sum wraps, and it is negative from 2^31 on.
unfoldable pub wraps_below : (end capacity : ℕ) → Bool
wraps_below end capacity =
    let sum = (end - 1) % 2 ^ 32 in if ltb sum (2 ^ 31) then ltb sum capacity else true

-- The test is on int, where 0 + 0 - 1 is -1. Where the sum has wrapped and the test holds all the
-- same, memcpy writes behind the buffer: the bytes that it holds are then more than its capacity.
unfoldable pub put_bytes : List ℕ → Write
unfolding wraps_below
put_bytes bytes o =
    if ltb (o.offset + length bytes) (o.capacity + 1)
    then record o {
      buffer = take o.offset o.buffer ++ (bytes ++ drop (o.offset + length bytes) o.buffer);
      offset = o.offset + length bytes;
    }
    else (if wraps_below (o.offset + length bytes) o.capacity
        then record o { buffer = take o.offset o.buffer ++ bytes; offset = o.offset + length bytes }
        else o)

-- What a caller sends: `getSize` bytes from `getData`.
unfoldable pub sent : CborOutput → List ℕ
sent o = take o.offset o.buffer
