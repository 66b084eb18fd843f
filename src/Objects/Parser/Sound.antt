-- ===== src/Objects/Parser/Sound.antt =====
-- The casts of `currentObject` in lib/objects/ObjectParser.cpp, in a parser under the reader.
use zql.Prelude.{ℤ, none, some}
use zql.Cbor.Input.{CborInput}
use zql.Cbor.Reader.{CborReader, new_reader}
use zql.Cbor.Reader.Loop.{Rounds}
use zql.Cbor.Reader.Keeps.{Preserves, Rounds-keeps}
use zql.Objects.Parser.{ObjectListener, ObjectParser, Parsing, init}
use zql.Objects.Parser.Run.{callbacks, live}
use zql.Objects.Parser.Casts.{
  Sound, on_integer-Sound, on_bytes-Sound, on_string-Sound, on_array-Sound, on_map-Sound,
  on_tag-Sound,
}

module _ {ℓ} {M : Type ℓ} (listener : ObjectListener M) where
  live-Sound :
      (f : ObjectParser → M → Parsing M)
      → ((p : ObjectParser) (m : M) → Sound (some (p, m)) → Sound (f p m))
      → (l : Parsing M) → Sound l
      → Sound (live f l)
  live-Sound f keeps none s = s
  live-Sound f keeps (some (p, m)) s = keeps p m s

  callbacks-Preserves : Preserves Sound (callbacks listener)
  unfolding callbacks
  callbacks-Preserves = record {
    integer = λ z. live-Sound _ (λ p m.
        on_integer-Sound listener p.current_key p.elements p.current_request_id m p.state z
          p.current_object);
    bytes = λ b. live-Sound _ (λ p m.
        on_bytes-Sound listener p.current_key p.elements p.current_request_id m p.state b
          p.current_object);
    string = λ b. live-Sound _ (λ p m.
        on_string-Sound listener p.current_key p.elements p.current_request_id m p.state b
          p.current_object);
    array = λ z. live-Sound _ (λ p m.
        on_array-Sound listener p.current_key p.elements p.current_request_id m p.state z
          p.current_object);
    map = λ z. live-Sound _ (λ p m.
        on_map-Sound listener p.current_key p.elements p.current_request_id m p.state z
          p.current_object);
    tag = λ n. live-Sound _ (λ p m.
        on_tag-Sound listener p.current_key p.elements p.current_request_id m p.state n
          p.current_object);
    special = λ z. live-Sound _ (λ p m s. s);
    error = λ e. live-Sound _ (λ p m s. s);
  }

  -- In every round of a parser's run over any input, from any parser, the parser is live and its
  -- object is of the class that its state casts it to.
  pub Rounds-Sound :
      (input : CborInput) (unset : ℤ) (p : ObjectParser) (m : M) {r : CborReader} {l : Parsing M}
      → Rounds
          (callbacks listener)
          (new_reader input unset)
          (some (record p { state = init }, m))
          r
          l
      → Sound l
  Rounds-Sound input unset p m rounds =
      Rounds-keeps Sound (callbacks listener) callbacks-Preserves tt rounds
