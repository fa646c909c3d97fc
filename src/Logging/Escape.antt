-- ===== src/Logging/Escape.antt =====
-- src/logging/sinks/otel_serializer.h: `escape_json`, with bytes as numbers.
pub mod Reading
use xtd.Base.{
  ℕ, zero, suc, ◌+◌, ◌-◌, ◌*◌, ◌/◌, ◌%◌, ◌^◌, ◌≤◌, ◌<◌, min, max, ◌≡◌, refl, sym, ap, ap₂, subst,
  ◌∙◌, ◌≡⟨◌⟩◌, ◌∎, ◌≢◌, ◌↔◌, ◌⊎◌, inl, inr, Bool, true, false, not, ◌&&◌, ◌||◌, Option, none, some,
  List, [], ◌∷◌, ◌++◌, map, append-nil, append_assoc, arith, dec_lt, ℕ_discrete, ltb, leb, ◌==◌,
  if◌then◌else◌, lt→ltb, le→ltb, le→leb, lt→leb, ltb→lt, ltb→le, ==_iff, ne→==, Bool-cases,
  Option-cases, if_cases, length, get_elem?, take, drop, flatten, push_back, length-append,
  length-push_back, length-take, length-drop, take-append-drop, take_all, drop_all, eq_nil,
  take-zero, drop-zero, take-nil, drop-nil, take-append, drop-append, drop-drop, take-min,
  take-take, take-add, drop-take, take_prefix, drop_prefix, get_elem?-append, get_elem?-append_left,
  get_elem?-is_some, flatten-append, size_mod, add_size, sub_size, add_size_exact, sub_size_exact,
  Error, Result, ok, err, out_of_range, invalid_argument, logic_error, undefined, ◌>>=◌, ◌>>◌,
  mul_size, require, count, remove, count-remove, length-remove,
}

-- A digit of `{:04x}`.
unfoldable pub hex_digit : ℕ → ℕ
hex_digit d = if ltb d 10 then b'0' + d else b'a' + (d - 10)

-- What the loop appends for one byte.
unfoldable pub escape_byte : ℕ → List ℕ
escape_byte c =
    if c == b'"'
    then b'\\' ∷ b'"' ∷ []
    else if c == b'\\'
    then b'\\' ∷ b'\\' ∷ []
    else if c == 8
    then b'\\' ∷ b'b' ∷ []
    else if c == 12
    then b'\\' ∷ b'f' ∷ []
    else if c == 10
    then b'\\' ∷ b'n' ∷ []
    else if c == 13
    then b'\\' ∷ b'r' ∷ []
    else if c == 9
    then b'\\' ∷ b't' ∷ []
    else if ltb c 32
    then b'\\'
      ∷ b'u'
      ∷ hex_digit (c / 4096 % 16)
      ∷ hex_digit (c / 256 % 16)
      ∷ hex_digit (c / 16 % 16)
      ∷ hex_digit (c % 16)
      ∷ []
    else c ∷ []

unfoldable pub escape_json : List ℕ → List ℕ
escape_json [] = []
escape_json (c ∷ text) = escape_byte c ++ escape_json text
