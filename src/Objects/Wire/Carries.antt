-- ===== src/Objects/Wire/Carries.antt =====
-- Items that one side writes and the other reads: for each, its bytes, the write and the call.
use zql.Prelude.{ℕ, ◌<◌, ◌^◌, ℤ, pos, negsuc, List, [], ◌++◌, arith, to_int32}
use zql.Cbor.Output.{Write, ◌>>◌}
use zql.Cbor.Output.Append.{Writes, Writes->>, Writes-nothing}
use zql.Cbor.Writer.{
  write_uint32, write_uint64, write_int32, write_bytes, write_string, write_array, write_map,
  write_tag,
}
use zql.Cbor.Writer.Heads.{head, write_type_and_value_64-Writes}
use zql.Cbor.Writer.Items.{
  item_string, item_bytes, item_int32, write_uint32-Writes, write_tag-Writes, write_array-Writes,
  write_map-Writes, write_int32-pos, write_int32-negsuc, write_string-Writes, write_bytes-Writes,
}
use zql.Cbor.Reader.{CborListener}
use zql.Cbor.Reader.Reading.{Reads, Reads-append, Reads-nil}
use zql.Cbor.Reader.Items.{
  Reads-uint32, Reads-tag, Reads-array, Reads-map, Reads-int32-pos, Reads-int32-negsuc,
  Reads-string, Reads-bytes,
}
use zql.Objects.Wire.Encoding.{IsShort, IsId, IsInt32, IsWritableKey}

module _ {ℓ} {L : Type ℓ} (listener : CborListener L) where
  pub record Carries (bytes : List ℕ) (write : Write) (effect : L → L) : Type ℓ where
    pub writes : Writes bytes write
    pub reads : Reads listener bytes effect

  pub Carries->> :
      {xs ys : List ℕ} {f g : Write} {a b : L → L}
      → Carries xs f a
      → Carries ys g b
      → Carries (xs ++ ys) (f >> g) (λ l. b (a l))
  Carries->> {xs} {ys} {f} {g} {a} {b} p q = record {
    writes = Writes->> f g p.writes q.writes;
    reads = Reads-append listener xs ys a b p.reads q.reads;
  }

  pub Carries-nothing : Carries [] (λ o. o) (λ l. l)
  Carries-nothing = record { writes = Writes-nothing; reads = Reads-nil listener }

  pub Carries-tag : (v : ℕ) → v < 2 ^ 32 → Carries (head 6 v) (write_tag v) (listener.on_tag v)
  Carries-tag v h = record { writes = write_tag-Writes v h; reads = Reads-tag listener v h }

  pub Carries-array :
      (v : ℕ) → v < 2 ^ 31 → Carries (head 4 v) (write_array v) (listener.on_array (pos v))
  Carries-array v h = record {
    writes = write_array-Writes v (omega arith);
    reads = Reads-array listener v h;
  }

  pub Carries-map :
      (v : ℕ) → v < 2 ^ 31 → Carries (head 5 v) (write_map v) (listener.on_map (pos v))
  Carries-map v h = record {
    writes = write_map-Writes v (omega arith);
    reads = Reads-map listener v h;
  }

  pub Carries-id :
      (v : ℕ) → IsId v → Carries (head 0 v) (write_uint32 v) (listener.on_integer (to_int32 v))
  Carries-id v h = record { writes = write_uint32-Writes v h; reads = Reads-uint32 listener v h }

  pub Carries-key :
      (v : ℕ)
      → IsWritableKey v
      → Carries (head 0 v) (write_uint64 v) (listener.on_integer (to_int32 v))
  Carries-key v (h, away) = record {
    writes =
        unfold write_uint64 in write_type_and_value_64-Writes 0 v (omega arith) (omega arith) away;
    reads = Reads-uint32 listener v (omega arith);
  }

  pub Carries-int32 :
      (z : ℤ) → IsInt32 z → Carries (item_int32 z) (write_int32 z) (listener.on_integer z)
  Carries-int32 (pos n) h = record {
    writes = write_int32-pos n (omega arith);
    reads = Reads-int32-pos listener n h;
  }
  Carries-int32 (negsuc n) h = record {
    writes = write_int32-negsuc n (omega arith);
    reads = Reads-int32-negsuc listener n h;
  }

  pub Carries-string :
      (str : List ℕ)
      → IsShort str
      → Carries (item_string str) (write_string str) (listener.on_string str)
  Carries-string str h = record {
    writes = write_string-Writes str (omega arith);
    reads = Reads-string listener str h;
  }

  pub Carries-bytes :
      (bytes : List ℕ)
      → IsShort bytes
      → Carries (item_bytes bytes) (write_bytes bytes) (listener.on_bytes bytes)
  Carries-bytes bytes h = record {
    writes = write_bytes-Writes bytes (omega arith);
    reads = Reads-bytes listener bytes h;
  }
