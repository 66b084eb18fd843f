-- ===== src/Cbor/Output/Append.antt =====
-- CborOutput against its abstract view, an append-only sequence of bytes: where there is room for
-- what is written, the bytes are added behind those that were there.
use zql.Prelude.{
  ℕ, ◌+◌, ◌≤◌, ◌≡◌, refl, ◌∙◌, ap, Bool, true, false, List, [], ◌∷◌, ◌++◌, append_assoc, append-nil,
  arith, if◌then◌else◌, length, length-append, sym,
}
use zql.Cbor.Output.{CborOutput, Write, ◌>>◌, new_output, put_byte, put_bytes, sent}
use zql.Cbor.Output.Bounds.{IsValid, put_byte-IsValid, put_bytes-IsValid, sent_byte, sent_bytes}

-- From `o` to `o'` exactly `bytes` were written.
pub record Wrote (bytes : List ℕ) (o o' : CborOutput) : Type 0 where
  pub valid : IsValid o'
  pub appended : sent o' ≡ sent o ++ bytes
  pub offset : o'.offset ≡ o.offset + length bytes
  pub capacity : o'.capacity ≡ o.capacity

-- `f` writes exactly `bytes`, into every valid buffer that has room for them.
pub record Writes (bytes : List ℕ) (f : Write) : Type 0 where
  pub at : (o : CborOutput) → IsValid o → o.offset + length bytes ≤ o.capacity → Wrote bytes o (f o)

pub put_byte-Writes : (b : ℕ) → Writes (b ∷ []) (put_byte b)
put_byte-Writes b = record {
  at = λ o v room. record {
    valid = put_byte-IsValid b o v;
    appended = sent_byte o b v (omega arith);
    offset = unfold put_byte in ground arith;
    capacity = unfold put_byte in ground arith;
  };
}

pub put_bytes-Writes : (bytes : List ℕ) → Writes bytes (put_bytes bytes)
put_bytes-Writes bytes = record {
  at = λ o v room. record {
    valid = put_bytes-IsValid bytes o v room;
    appended = sent_bytes o bytes v room;
    offset = unfold put_bytes in ground arith;
    capacity = unfold put_bytes in ground arith;
  };
}

pub Writes-nothing : Writes [] (λ o. o)
Writes-nothing = record {
  at = λ o v room. record {
    valid = v;
    appended = sym (append-nil (sent o));
    offset = omega arith;
    capacity = refl;
  };
}

Wrote-trans :
    {xs ys : List ℕ} {o o' o'' : CborOutput}
    → Wrote xs o o'
    → Wrote ys o' o''
    → Wrote (xs ++ ys) o o''
Wrote-trans {xs} {ys} {o} p q = record {
  valid = q.valid;
  appended = q.appended ∙ ap (λ zs. zs ++ ys) p.appended ∙ append_assoc (sent o) xs ys;
  offset = omega (arith, p.offset, q.offset, length-append xs ys);
  capacity = q.capacity ∙ p.capacity;
}

pub Writes->> :
    {xs ys : List ℕ} (f g : Write) → Writes xs f → Writes ys g → Writes (xs ++ ys) (f >> g)
Writes->> {xs} {ys} f g p q = record {
  at = λ o v room.
      let first : Wrote xs o (f o) = p.at o v (omega (arith, length-append xs ys)) in
      Wrote-trans first
        (q.at (f o) first.valid (omega (arith, first.offset, first.capacity, length-append xs ys)));
}

pub Writes-if :
    (b : Bool) {xs ys : List ℕ} {f g : Write}
    → Writes xs f
    → Writes ys g
    → Writes (if b then xs else ys) (if b then f else g)
Writes-if true p q = p
Writes-if false p q = q

-- Into a new buffer, what was written is what is sent.
pub sent_of_new :
    {bytes : List ℕ} {f : Write} (memory : List ℕ) (capacity : ℕ)
    → Writes bytes f
    → length memory ≡ capacity
    → length bytes ≤ capacity
    → sent (f (new_output memory capacity)) ≡ bytes
unfolding new_output sent
sent_of_new memory capacity w allocated fits =
    (w.at (new_output memory capacity) (record { allocated = allocated; within = omega arith })
      (omega arith)).appended
