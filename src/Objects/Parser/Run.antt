-- ===== src/Objects/Parser/Run.antt =====
-- ObjectParser as the listener of the reader, and `ObjectParser::Run`.
use zql.Prelude.{ℕ, ℤ, none, some}
use zql.Cbor.Input.{CborInput}
use zql.Cbor.Reader.{CborListener, Result, new_reader}
use zql.Cbor.Reader.Loop
use zql.Objects.Parser.{ObjectListener, ObjectParser, Parsing, init}
use zql.Objects.Parser.Machine

module _ {ℓ} {M : Type ℓ} where
  abbrev pub live : (ObjectParser → M → Parsing M) → Parsing M → Parsing M
  live f none = none
  live f (some (p, m)) = f p m

  -- The virtual methods that class CborListener declares.
  unfoldable pub callbacks : ObjectListener M → CborListener (Parsing M)
  unfolding Machine.on_integer Machine.on_bytes Machine.on_string Machine.on_array Machine.on_map
      Machine.on_tag Machine.on_special Machine.on_error
  callbacks listener = record {
    on_integer = λ value. live (λ p. Machine.on_integer listener p.state value p);
    on_bytes = λ bytes. live (λ p. Machine.on_bytes listener p.state bytes p);
    on_string = λ str. live (λ p. Machine.on_string listener p.state str p);
    on_array = λ size. live (λ p. Machine.on_array listener p.state size p);
    on_map = λ size. live (λ p. Machine.on_map listener p.state size p);
    on_tag = λ tag. live (λ p. Machine.on_tag listener p.state tag p);
    on_special = λ code. live (Machine.on_special listener code);
    on_error = λ message. live (Machine.on_error listener message);
  }

  -- `unset` is what the new reader's `currentLength` happens to hold.
  unfoldable pub run :
      ℕ → ObjectListener M → (unset : ℤ) → CborInput → ObjectParser → M → Result (Parsing M)
  unfolding callbacks
  run fuel listener unset input p m =
      Loop.run (callbacks listener) fuel (new_reader input unset)
        (some (record p { state = init }, m))
