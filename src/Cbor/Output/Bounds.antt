-- ===== src/Cbor/Output/Bounds.antt =====
-- The buffer of CborOutput in lib/Cbor.cpp under the writes into it.
use zql.Prelude.{
  refl, ℕ, ◌+◌, ◌^◌, ◌≤◌, ◌<◌, ◌≡◌, sym, ap, ◌∙◌, inl, inr, true, false, List, [], ◌++◌, ◌∷◌,
  append_assoc, append-nil, arith, if◌then◌else◌, lt→ltb, le-or-lt, Bool, length, take, drop,
  length-append, length-set, length-take, length-drop, take-append_append, take-set,
}
use native.Mathlib.Numerals.{add-one}
use zql.Cbor.Output.{CborOutput, Write, ◌>>◌, put_byte, put_bytes, wraps_below, sent}

-- The buffer has `capacity` bytes, and `offset` lies in it or at its end.
pub record IsValid (o : CborOutput) : Type 0 where
  pub allocated : length o.buffer ≡ o.capacity
  pub within : o.offset ≤ o.capacity

pub sent_byte :
    (o : CborOutput) (b : ℕ)
    → IsValid o
    → o.offset < o.capacity
    → sent (put_byte b o) ≡ sent o ++ b ∷ []
unfolding sent put_byte
sent_byte o b v room = rw (lt→ltb _ _ room, add-one) (take-set o.offset o.buffer b (omega arith))

pub sent_bytes :
    (o : CborOutput) (bytes : List ℕ)
    → IsValid o
    → o.offset + length bytes ≤ o.capacity
    → sent (put_bytes bytes o) ≡ sent o ++ bytes
unfolding sent put_bytes
sent_bytes o bytes v room = rw (lt→ltb (o.offset + length bytes) (o.capacity + 1) (omega arith)) (
    take-append_append _ (take o.offset o.buffer) bytes _
      (omega (arith, length-take o.offset o.buffer)))

-- A write that finds no room does nothing.
pub put_byte_full : (o : CborOutput) (b : ℕ) → o.capacity ≤ o.offset → put_byte b o ≡ o
unfolding put_byte
put_byte_full o b full = ground arith

pub put_bytes_full :
    (o : CborOutput) (bytes : List ℕ)
    → o.capacity < o.offset + length bytes
    → o.offset + length bytes ≤ 2 ^ 31
    → put_bytes bytes o ≡ o
unfolding put_bytes wraps_below
put_bytes_full o bytes full short = ground arith

pub put_byte-IsValid : (b : ℕ) (o : CborOutput) → IsValid o → IsValid (put_byte b o)
unfolding put_byte
put_byte-IsValid b o v = ground (arith, length-set o.buffer o.offset b)

pub put_bytes-IsValid :
    (bytes : List ℕ) (o : CborOutput)
    → IsValid o
    → o.offset + length bytes ≤ o.capacity
    → IsValid (put_bytes bytes o)
unfolding put_bytes
put_bytes-IsValid bytes o v room = ground (
  arith,
  length-append (take o.offset o.buffer) (bytes ++ drop (o.offset + length bytes) o.buffer),
  length-append bytes (drop (o.offset + length bytes) o.buffer),
  length-take o.offset o.buffer,
  length-drop (o.offset + length bytes) o.buffer,
)

-- A size for which the int arithmetic of putBytes does not wrap.
abbrev pub most : ℕ
most = 2 ^ 30

-- `f` keeps a valid buffer valid and of its size, and only adds to the end of what was written.
pub record IsSafe (f : Write) : Type 0 where
  pub valid : (o : CborOutput) → IsValid o → o.capacity ≤ most → IsValid (f o)
  pub capacity : (o : CborOutput) → (f o).capacity ≡ o.capacity
  pub extends :
      (o : CborOutput)
      → IsValid o
      → o.capacity ≤ most
      → (bytes : List ℕ) × (sent (f o) ≡ sent o ++ bytes)

pub put_byte-IsSafe : (b : ℕ) → IsSafe (put_byte b)
put_byte-IsSafe b = record {
  valid = λ o v small. put_byte-IsValid b o v;
  capacity = λ o. unfold put_byte in ground arith;
  extends = λ o v small. elim (le-or-lt o.capacity o.offset) [
    | inl full ↦ ([], rw (put_byte_full o b full) (sym (append-nil (sent o))))
    | inr room ↦ (b ∷ [], sent_byte o b v room)
  ];
}

pub put_bytes-IsSafe : (bytes : List ℕ) → length bytes ≤ most → IsSafe (put_bytes bytes)
put_bytes-IsSafe bytes few = record {
  valid = λ o v small. elim (le-or-lt (o.offset + length bytes) o.capacity) [
    | inl room ↦ put_bytes-IsValid bytes o v room
    | inr full ↦ rw (put_bytes_full o bytes full (omega (arith, v.within))) v
  ];
  capacity = λ o. unfold put_bytes in ground arith;
  extends = λ o v small. elim (le-or-lt (o.offset + length bytes) o.capacity) [
    | inl room ↦ (bytes, sent_bytes o bytes v room)
    | inr full ↦
        ([], rw (put_bytes_full o bytes full (omega (arith, v.within))) (sym (append-nil (sent o))))
  ];
}

pub IsSafe->> : (f g : Write) → IsSafe f → IsSafe g → IsSafe (f >> g)
IsSafe->> f g p q = record {
  valid = λ o v small. q.valid (f o) (p.valid o v small) (omega (arith, p.capacity o));
  capacity = λ o. q.capacity (f o) ∙ p.capacity o;
  extends = λ o v small.
      let (xs, first) = p.extends o v small in
      let (ys, second) = q.extends (f o) (p.valid o v small) (omega (arith, p.capacity o)) in
      (xs ++ ys, second ∙ ap (λ zs. zs ++ ys) first ∙ append_assoc (sent o) xs ys);
}

pub IsSafe-if : (b : Bool) (f g : Write) → IsSafe f → IsSafe g → IsSafe (if b then f else g)
IsSafe-if true f g p q = p
IsSafe-if false f g p q = q

pub IsSafe-nothing : IsSafe (λ o. o)
IsSafe-nothing = record {
  valid = λ o v small. v;
  capacity = λ o. refl;
  extends = λ o v small. ([], sym (append-nil (sent o)));
}
