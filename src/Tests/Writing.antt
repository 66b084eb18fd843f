-- ===== src/Tests/Writing.antt =====
-- lib/Cbor.cpp's writer at concrete numbers.
use zql.Prelude.{◌/◌, ◌^◌, [], ◌∷◌, arith, u8, inr}
use zql.Cbor.Output.Append.{Writes}
use zql.Cbor.Writer.{write_type_and_value, write_type_and_value_64}
use zql.Cbor.Writer.Heads.{
  head, head_form, be64, write_type_and_value-Writes, write_type_and_value_64-Writes,
  write_type_and_value_64_drops, write_type_and_value_64_long,
}

write_type_and_value-Writes_example : Writes (head 6 1000) (write_type_and_value 6 1000)
write_type_and_value-Writes_example = write_type_and_value-Writes 6 1000 (omega arith) (omega arith)

write_type_and_value_64-Writes_example : Writes (head 0 70000) (write_type_and_value_64 0 70000)
write_type_and_value_64-Writes_example =
    write_type_and_value_64-Writes 0 70000 (omega arith) (omega arith) (inr (omega arith))

write_type_and_value_64_drops_example :
    Writes (head_form 0 25 ∷ u8 (1000 / 2 ^ 8) ∷ []) (write_type_and_value_64 0 1000)
write_type_and_value_64_drops_example =
    write_type_and_value_64_drops 0 1000 (omega arith) (omega arith) (omega arith)

write_type_and_value_64_long_example :
    Writes (head_form 0 27 ∷ be64 (2 ^ 40)) (write_type_and_value_64 0 (2 ^ 40))
write_type_and_value_64_long_example =
    write_type_and_value_64_long 0 (2 ^ 40) (omega arith) (omega arith)
