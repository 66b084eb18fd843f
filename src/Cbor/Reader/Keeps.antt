-- ===== src/Cbor/Reader/Keeps.antt =====
-- What the listener keeps true of its state, the reader's whole run keeps.
use zql.Prelude.{
  ℕ, zero, suc, ◌/◌, ◌^◌, ℤ, pos, negsuc, neg_ℕ, Option, none, some, List, ltb, Bool, true, false,
  if◌then◌else◌, bit_and, to_int32, neg_int32, ◌≡◌,
}
use Prim.Native.String.{String}
use zql.Cbor.Input.{CborInput, In, has_bytes, get_byte, get_short, get_int, get_long, get_bytes}
use zql.Cbor.Reader.{
  CborListener, CborReader, CborReaderState, Step, more, stop, fault, state_type, state_pint,
  state_nint, state_bytes_size, state_bytes_data, state_string_size, state_string_data, state_array,
  state_map, state_tag, state_special, sized, switch_length, consume, deliver, measure,
}
use zql.Cbor.Reader.Head.{
  switch_major, sized_or_error, read_type, type_pint, type_nint, type_bytes, type_string,
  type_array, type_map, type_tag, type_special,
}
use zql.Cbor.Reader.Body.{
  read_pint, read_nint, read_bytes_size, read_bytes_data, read_string_size, read_string_data,
  read_array, read_map, read_tag, read_special, take_data,
}
use zql.Cbor.Reader.Loop.{step, step_in, Rounds, here, next}

-- Each callback keeps `P`.
pub record Preserves {ℓ κ} {L : Type ℓ} (P : L → Type κ) (listener : CborListener L)
    : Type (ℓ ⊔ κ) where
  pub integer : (z : ℤ) (l : L) → P l → P (listener.on_integer z l)
  pub bytes : (b : List ℕ) (l : L) → P l → P (listener.on_bytes b l)
  pub string : (s : List ℕ) (l : L) → P l → P (listener.on_string s l)
  pub array : (z : ℤ) (l : L) → P l → P (listener.on_array z l)
  pub map : (z : ℤ) (l : L) → P l → P (listener.on_map z l)
  pub tag : (n : ℕ) (l : L) → P l → P (listener.on_tag n l)
  pub special : (z : ℤ) (l : L) → P l → P (listener.on_special z l)
  pub error : (message : String) (l : L) → P l → P (listener.on_error message l)

module _ {ℓ κ} {L : Type ℓ} (P : L → Type κ) where
  data Kept : Step L → Type (ℓ ⊔ κ) where
    going : {r : CborReader} {l : L} → P l → Kept (more r l)
    stopped : {r : CborReader} {l : L} → P l → Kept (stop r l)
    died : Kept fault

  consume-Kept :
      {A : Type 0} (m : In A) (r : CborReader) (k : A → CborReader → Step L)
      → ((a : A) (r' : CborReader) → Kept (k a r'))
      → Kept (consume m r k)
  consume-Kept {A} m r k keeps = after (m r.input)
    where
      after :
          (o : Option (A × CborInput))
          → Kept (elim o [ none ↦ fault | some (a, i) ↦ k a (record r { input = i }) ])
      after none = died
      after (some (a, i)) = keeps a (record r { input = i })

  if-Kept : (b : Bool) (s t : Step L) → Kept s → Kept t → Kept (if b then s else t)
  if-Kept true s t p q = p
  if-Kept false s t p q = q

  switch-Kept :
      (n : ℤ) (one two four eight other : Step L)
      → Kept one
      → Kept two
      → Kept four
      → Kept eight
      → Kept other
      → Kept (switch_length n one two four eight other)
  switch-Kept n one two four eight other c1 c2 c4 c8 c =
      if-Kept _ _ _ c1 (if-Kept _ _ _ c2 (if-Kept _ _ _ c4 (if-Kept _ _ _ c8 c)))

  deliver-Kept :
      (m : In ℕ) (callback : ℕ → L → L) (r : CborReader) (l : L)
      → ((a : ℕ) → P (callback a l))
      → Kept (deliver m callback r l)
  deliver-Kept m callback r l c =
      consume-Kept m r (λ v r'. more (record r' { state = state_type }) (callback v l))
        (λ a r'. going {r = record r' { state = state_type }} (c a))

  -- So where `currentLength` is assigned.
  assign-Kept :
      (callback : ℕ → L → L) (r : CborReader) (l : L)
      → ((a : ℕ) → P (callback a l))
      → Kept (
          consume get_short r (λ v r'.
            more (record r' { state = state_type; current_length = pos v }) (callback v l)))
  assign-Kept callback r l c =
      consume-Kept get_short r
        (λ v r'. more (record r' { state = state_type; current_length = pos v }) (callback v l))
        (λ a r'. going {r = record r' { state = state_type; current_length = pos a }} (c a))

  measure-Kept :
      (m : In ℕ) (convert : ℕ → ℤ) (state : CborReaderState) (r : CborReader) (l : L)
      → P l
      → Kept (measure m convert state r l)
  measure-Kept m convert state r l p =
      consume-Kept m r (λ v r'. more (record r' { state = state; current_length = convert v }) l)
        (λ a r'. going {r = record r' { state = state; current_length = convert a }} p)

  data_Kept :
      (callback : List ℕ → L → L) (r : CborReader) (n : ℤ) (l : L)
      → ((b : List ℕ) → P (callback b l))
      → Kept (take_data callback r n l)
  data_Kept callback r (negsuc n) l c = died
  data_Kept callback r (pos n) l c =
      consume-Kept (get_bytes n) r _ (λ b r'. going {r = record r' { state = state_type }} (c b))

more_state {ℓ} :
    {L : Type ℓ} {r r' : CborReader} {l l' : L} → ◌≡◌ {A = Step L} (more r l) (more r' l') → l ≡ l'
more_state e = cc

module _ {ℓ κ} {L : Type ℓ} (P : L → Type κ) (listener : CborListener L)
    (keeps : Preserves P listener) where
  sized-Kept :
      (r : CborReader) (state : CborReaderState) (minor : ℕ) (message : String) (l : L)
      → P l
      → Kept P (sized_or_error listener r state minor message l)
  sized-Kept r state minor message l p = after (sized r state minor)
    where
      after :
          (o : Option CborReader)
          → Kept P (elim o [ some r' ↦ more r' l | none ↦ more r (listener.on_error message l) ])
      after (some r') = going p
      after none = going (keeps.error message l p)

  by_major :
      (major minor : ℕ) (r : CborReader) (l : L)
      → P l
      → Kept P (switch_major listener major minor r l)
  unfolding switch_major type_pint type_nint type_bytes type_string type_array type_map type_tag
      type_special
  by_major zero minor r l p =
      if-Kept P (ltb minor 24) _ _ (going (keeps.integer _ l p))
        (sized-Kept r state_pint minor _ l p)
  by_major (suc zero) minor r l p =
      if-Kept P (ltb minor 24) _ _ (going (keeps.integer _ l p))
        (sized-Kept r state_nint minor _ l p)
  by_major (suc (suc zero)) minor r l p =
      if-Kept P (ltb minor 24) _ _ (going p) (sized-Kept r state_bytes_size minor _ l p)
  by_major (suc (suc (suc zero))) minor r l p =
      if-Kept P (ltb minor 24) _ _ (going p) (sized-Kept r state_string_size minor _ l p)
  by_major (suc (suc (suc (suc zero)))) minor r l p =
      if-Kept P (ltb minor 24) _ _ (going (keeps.array _ l p))
        (sized-Kept r state_array minor _ l p)
  by_major (suc (suc (suc (suc (suc zero))))) minor r l p =
      if-Kept P (ltb minor 24) _ _ (going (keeps.map _ l p)) (sized-Kept r state_map minor _ l p)
  by_major (suc (suc (suc (suc (suc (suc zero)))))) minor r l p =
      if-Kept P (ltb minor 24) _ _ (going (keeps.tag _ l p)) (sized-Kept r state_tag minor _ l p)
  by_major (suc (suc (suc (suc (suc (suc (suc zero))))))) minor r l p =
      if-Kept P (ltb minor 24) _ _ (going (keeps.special _ l p))
        (sized-Kept r state_special minor _ l p)
  by_major (suc (suc (suc (suc (suc (suc (suc (suc n)))))))) minor r l p = going p

  by_state : (s : CborReaderState) (r : CborReader) (l : L) → P l → Kept P (step_in listener s r l)
  unfolding step_in read_type read_pint read_nint read_bytes_size read_bytes_data read_string_size
      read_string_data read_array read_map read_tag read_special
  by_state state_type r l p =
      if-Kept P (has_bytes r.input (pos 1)) _ _
        (consume-Kept P get_byte r
          (λ type r'. switch_major listener (type / 2 ^ 5) (bit_and type 31) r' l)
          (λ b r'. by_major (b / 2 ^ 5) (bit_and b 31) r' l p))
        (stopped {r = r} p)
  by_state state_bytes_data r l p =
      if-Kept P (has_bytes r.input r.current_length) _ _
        (data_Kept P listener.on_bytes r r.current_length l (λ b. keeps.bytes b l p))
        (stopped {r = r} p)
  by_state state_bytes_size r l p =
      if-Kept P (has_bytes r.input r.current_length) _ _
        (switch-Kept P r.current_length _ _ _ _ _
          (measure-Kept P get_byte pos state_bytes_data r l p)
          (measure-Kept P get_short pos state_bytes_data r l p)
          (measure-Kept P get_int to_int32 state_bytes_data r l p)
          (measure-Kept P get_long (λ v. pos 123) state_bytes_data r l p) (going {r = r} p))
        (stopped {r = r} p)
  by_state state_string_data r l p =
      if-Kept P (has_bytes r.input r.current_length) _ _
        (data_Kept P listener.on_string r r.current_length l (λ b. keeps.string b l p))
        (stopped {r = r} p)
  by_state state_string_size r l p =
      if-Kept P (has_bytes r.input r.current_length) _ _
        (switch-Kept P r.current_length _ _ _ _ _
          (measure-Kept P get_byte pos state_string_data r l p)
          (measure-Kept P get_short pos state_string_data r l p)
          (measure-Kept P get_int to_int32 state_string_data r l p)
          (measure-Kept P get_long (λ v. pos 123) state_string_data r l p) (going {r = r} p))
        (stopped {r = r} p)
  by_state state_pint r l p =
      if-Kept P (has_bytes r.input r.current_length) _ _
        (switch-Kept P r.current_length _ _ _ _ _
          (deliver-Kept P get_byte (λ v. listener.on_integer (pos v)) r l
            (λ v. keeps.integer (pos v) l p))
          (deliver-Kept P get_short (λ v. listener.on_integer (pos v)) r l
            (λ v. keeps.integer (pos v) l p))
          (deliver-Kept P get_int (λ v. listener.on_integer (to_int32 v)) r l
            (λ v. keeps.integer (to_int32 v) l p))
          (deliver-Kept P get_long (λ v s. s) r l (λ v. p)) (going {r = r} p))
        (stopped {r = r} p)
  by_state state_nint r l p =
      if-Kept P (has_bytes r.input r.current_length) _ _
        (switch-Kept P r.current_length _ _ _ _ _
          (deliver-Kept P get_byte (λ v. listener.on_integer (neg_ℕ v)) r l
            (λ v. keeps.integer (neg_ℕ v) l p))
          (deliver-Kept P get_short (λ v. listener.on_integer (neg_ℕ v)) r l
            (λ v. keeps.integer (neg_ℕ v) l p))
          (deliver-Kept P get_int (λ v. listener.on_integer (neg_int32 (to_int32 v))) r l
            (λ v. keeps.integer (neg_int32 (to_int32 v)) l p))
          (going {r = r} p) (going {r = r} p))
        (stopped {r = r} p)
  by_state state_array r l p =
      if-Kept P (has_bytes r.input r.current_length) _ _
        (switch-Kept P r.current_length _ _ _ _ _
          (deliver-Kept P get_byte (λ v. listener.on_array (pos v)) r l
            (λ v. keeps.array (pos v) l p))
          (assign-Kept P (λ v. listener.on_array (pos v)) r l (λ v. keeps.array (pos v) l p))
          (deliver-Kept P get_int (λ v. listener.on_array (to_int32 v)) r l
            (λ v. keeps.array (to_int32 v) l p))
          (going {r = record r { state = state_type }} p) (going {r = r} p))
        (stopped {r = r} p)
  by_state state_map r l p =
      if-Kept P (has_bytes r.input r.current_length) _ _
        (switch-Kept P r.current_length _ _ _ _ _
          (deliver-Kept P get_byte (λ v. listener.on_map (pos v)) r l (λ v. keeps.map (pos v) l p))
          (assign-Kept P (λ v. listener.on_map (pos v)) r l (λ v. keeps.map (pos v) l p))
          (deliver-Kept P get_int (λ v. listener.on_map (to_int32 v)) r l
            (λ v. keeps.map (to_int32 v) l p))
          (going {r = record r { state = state_type }} p) (going {r = r} p))
        (stopped {r = r} p)
  by_state state_tag r l p =
      if-Kept P (has_bytes r.input r.current_length) _ _
        (switch-Kept P r.current_length _ _ _ _ _
          (deliver-Kept P get_byte (λ v. listener.on_tag v) r l (λ v. keeps.tag v l p))
          (deliver-Kept P get_short (λ v. listener.on_tag v) r l (λ v. keeps.tag v l p))
          (deliver-Kept P get_int (λ v. listener.on_tag v) r l (λ v. keeps.tag v l p))
          (deliver-Kept P get_long (λ v s. s) r l (λ v. p)) (going {r = r} p))
        (stopped {r = r} p)
  by_state state_special r l p =
      if-Kept P (has_bytes r.input r.current_length) _ _
        (switch-Kept P r.current_length _ _ _ _ _
          (deliver-Kept P get_byte (λ v. listener.on_special (pos v)) r l
            (λ v. keeps.special (pos v) l p))
          (deliver-Kept P get_short (λ v. listener.on_special (pos v)) r l
            (λ v. keeps.special (pos v) l p))
          (deliver-Kept P get_int (λ v. listener.on_special (to_int32 v)) r l
            (λ v. keeps.special (to_int32 v) l p))
          (deliver-Kept P get_long (λ v s. s) r l (λ v. p)) (going {r = r} p))
        (stopped {r = r} p)

  kept_more : {s : Step L} {r : CborReader} {l : L} → Kept P s → s ≡ more r l → P l
  kept_more (going {r} {l} p) e = rw (more_state e) at p
  kept_more (stopped p) e = cc
  kept_more died e = cc

  -- Each round of a run keeps what each callback keeps.
  pub Rounds-keeps :
      {r : CborReader} {l : L} {r' : CborReader} {l' : L} → P l → Rounds listener r l r' l' → P l'
  unfolding step
  Rounds-keeps p here = p
  Rounds-keeps p (next {r'} {l'} rounds e) =
      kept_more (by_state r'.state r' l' (Rounds-keeps p rounds)) e
