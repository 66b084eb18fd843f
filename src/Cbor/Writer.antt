-- ===== src/Cbor/Writer.antt =====
-- CborWriter of lib/Cbor.cpp: the head of an item (its major type and a number in the shortest of
-- its forms) and what follows it. A writer holds nothing but its output, so each method is a
-- `Write`. Text and byte strings are lists of bytes, shorter than 2^31.
pub mod Heads
pub mod Items
use zql.Prelude.{
  ℕ, suc, ◌*◌, ◌/◌, ◌%◌, ◌^◌, ◌-◌, ℤ, pos, negsuc, List, ltb, if◌then◌else◌, length, bit_or, u8,
}
use zql.Cbor.Output.{Write, ◌>>◌, put_byte, put_bytes}

-- The overload for `unsigned int`. A byte argument is cut to 8 bits.
unfoldable pub write_type_and_value : (major_type value : ℕ) → Write
write_type_and_value major_type value =
    let major = major_type * 2 ^ 5 in
    if ltb value 24
    then put_byte (u8 (bit_or major value))
    else (if ltb value 256
        then (do put_byte (u8 (bit_or major 24)); put_byte (u8 value))
        else (if ltb value 65536
            then (do
              put_byte (u8 (bit_or major 25))
              put_byte (u8 (value / 2 ^ 8))
              put_byte (u8 value))
            else (do
              put_byte (u8 (bit_or major 26))
              put_byte (u8 (value / 2 ^ 24))
              put_byte (u8 (value / 2 ^ 16))
              put_byte (u8 (value / 2 ^ 8))
              put_byte (u8 value))))

-- The overload for `unsigned long long`. Its two-byte form writes one byte of the number, as the
-- source does.
unfoldable pub write_type_and_value_64 : (major_type value : ℕ) → Write
write_type_and_value_64 major_type value =
    let major = major_type * 2 ^ 5 in
    if ltb value 24
    then put_byte (u8 (bit_or major value))
    else (if ltb value 256
        then (do put_byte (u8 (bit_or major 24)); put_byte (u8 value))
        else (if ltb value 65536
            then (do put_byte (u8 (bit_or major 25)); put_byte (u8 (value / 2 ^ 8)))
            else (if ltb value 4294967296
                then (do
                  put_byte (u8 (bit_or major 26))
                  put_byte (u8 (value / 2 ^ 24))
                  put_byte (u8 (value / 2 ^ 16))
                  put_byte (u8 (value / 2 ^ 8))
                  put_byte (u8 value))
                else (do
                  put_byte (u8 (bit_or major 27))
                  put_byte (u8 (value / 2 ^ 56))
                  put_byte (u8 (value / 2 ^ 48))
                  put_byte (u8 (value / 2 ^ 40))
                  put_byte (u8 (value / 2 ^ 32))
                  put_byte (u8 (value / 2 ^ 24))
                  put_byte (u8 (value / 2 ^ 16))
                  put_byte (u8 (value / 2 ^ 8))
                  put_byte (u8 value)))))

-- The overloads of `writeInt`, by the type of the argument.
unfoldable pub write_uint32 : ℕ → Write
write_uint32 value = write_type_and_value 0 value

unfoldable pub write_uint64 : ℕ → Write
write_uint64 value = write_type_and_value_64 0 value

unfoldable pub write_int64 : ℤ → Write
write_int64 (negsuc n) = write_type_and_value_64 1 (suc n % 2 ^ 64)
write_int64 (pos n) = write_type_and_value_64 0 (n % 2 ^ 64)

unfoldable pub write_int32 : ℤ → Write
write_int32 (negsuc n) = write_type_and_value 1 (suc n % 2 ^ 32)
write_int32 (pos n) = write_type_and_value 0 (n % 2 ^ 32)

unfoldable pub write_bytes : List ℕ → Write
write_bytes bytes = do write_type_and_value 2 (length bytes % 2 ^ 32); put_bytes bytes

unfoldable pub write_string : List ℕ → Write
write_string str = do write_type_and_value 3 (length str % 2 ^ 32); put_bytes str

unfoldable pub write_array : ℕ → Write
write_array size = write_type_and_value 4 (size % 2 ^ 32)

unfoldable pub write_map : ℕ → Write
write_map size = write_type_and_value 5 (size % 2 ^ 32)

unfoldable pub write_tag : ℕ → Write
write_tag tag = write_type_and_value 6 tag

unfoldable pub write_special : ℕ → Write
write_special special = write_type_and_value 7 (special % 2 ^ 32)
