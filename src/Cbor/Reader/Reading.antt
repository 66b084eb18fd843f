-- ===== src/Cbor/Reader/Reading.antt =====
-- What the reader does on bytes that are a sequence of whole items: it calls the listener for one
-- item after the other and stops at the end.
use zql.Prelude.{
  ℕ, suc, ◌+◌, ◌*◌, ◌^◌, ◌≤◌, ◌<◌, ◌≡◌, ◌∙◌, ℤ, pos, List, [], ◌++◌, append_assoc, append-nil,
  arith, length, length-append, to_int32_small,
}
use zql.Cbor.Input.Cursor.{at}
use zql.Cbor.Reader.{CborListener, CborReaderState, more, state_type}
use zql.Cbor.Reader.Loop.{step, run}
use zql.Cbor.Reader.Numbers.{reader, Major, rounds, length_after, head_lem, run_more}
use zql.Cbor.Reader.Majors.{back, to_data}
use zql.Cbor.Writer.Heads.{head}

pub rounds-le-length : (m v : ℕ) → (rounds v ≤ length (head m v)) × (1 ≤ rounds v)
unfolding head
rounds-le-length m v = ground arith

module _ {ℓ} {L : Type ℓ} (listener : CborListener L) where
  -- Wherever `bs` stands, the reader takes it in and does `effect`, in at most two rounds a byte.
  pub record Reads (bs : List ℕ) (effect : L → L) : Type ℓ where
    pub count : ℕ
    pub bounded : count ≤ 2 * length bs
    pub reads :
        (before rest : List ℕ) (n : ℤ) (l : L) (fuel : ℕ)
        → (n' : ℤ) × (run listener (count + fuel) (reader (at before (bs ++ rest)) state_type n) l
            ≡ run listener fuel (reader (at (before ++ bs) rest) state_type n') (effect l))

  pub Reads-append :
      (xs ys : List ℕ) (f g : L → L) → Reads xs f → Reads ys g → Reads (xs ++ ys) (λ l. g (f l))
  Reads-append xs ys f g p q = record {
    count = p.count + q.count;
    bounded = omega (arith, p.bounded, q.bounded, length-append xs ys);
    reads = λ before rest n l fuel.
        let (k, first) = p.reads before (ys ++ rest) n l (q.count + fuel) in
        let (j, second) = q.reads (before ++ xs) rest k (f l) fuel in
        let split : p.count + q.count + fuel ≡ p.count + (q.count + fuel) = omega arith in
        (j, rw (split, append_assoc xs ys rest) (first ∙ second ∙ rw (append_assoc before xs ys)));
  }

  pub Reads-nil : Reads [] (λ l. l)
  Reads-nil = record {
    count = 0;
    bounded = omega arith;
    reads = λ before rest n l fuel.
        let none : 0 + fuel ≡ fuel = omega arith in (n, rw (none, append-nil before));
  }

  pub Reads-head :
      {m : ℕ} {state : CborReaderState} {effect : ℕ → L → L} {at_short : ℕ → ℤ}
      → Major listener m state back effect at_short
      → (v : ℕ) → v < 2 ^ 32
      → Reads (head m v) (effect v)
  Reads-head {m} {at_short} major v h = record {
    count = rounds v;
    bounded = omega (arith, rounds-le-length m v);
    reads = λ before rest n l fuel.
        (length_after at_short v n, head_lem listener major v before rest n l fuel h);
  }

  module _ (m : ℕ) (state data_state : CborReaderState) (callback : List ℕ → L → L)
      (major : Major listener m state (to_data data_state) (λ v l. l) pos)
      (take_data : (before xs rest : List ℕ) (l : L)
        → step listener (reader (at before (xs ++ rest)) data_state (pos (length xs))) l
          ≡ more
              (reader (at (before ++ xs) rest) state_type (pos (length xs)))
              (callback xs l)) where
    pub Reads-data :
        (xs : List ℕ) → length xs < 2 ^ 31 → Reads (head m (length xs) ++ xs) (callback xs)
    Reads-data xs h = record {
      count = rounds (length xs) + 1;
      bounded =
          omega (arith, rounds-le-length m (length xs), length-append (head m (length xs)) xs);
      reads = λ before rest n l fuel.
          let lead : List ℕ = before ++ head m (length xs) in
          let split : rounds (length xs) + 1 + fuel ≡ rounds (length xs) + suc fuel = omega arith in
          (
            pos (length xs),
            rw (split, append_assoc (head m (length xs)) xs rest)
                (head_lem listener major (length xs) before (xs ++ rest) n l (suc fuel)
                    (omega arith)
                  ∙ rw (to_int32_small (length xs) h) (
                      run_more listener fuel _ _ l _ (take_data lead xs rest l)
                      ∙ rw (append_assoc before (head m (length xs)) xs))),
          );
    }
