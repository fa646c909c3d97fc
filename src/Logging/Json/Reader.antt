-- ===== src/Logging/Json/Reader.antt =====
-- RFC 8259: a reader of JSON values, for what src/logging/sinks/otel_serializer.h writes.
use xtd.Base.{
  ℕ, zero, suc, ◌+◌, ◌<◌, ◌≡◌, Bool, true, false, ◌&&◌, Option, none, some, List, [], ◌∷◌, leb,
  ◌==◌, if◌then◌else◌, length, Result, ok, err, invalid_argument, undefined, ◌>>=◌,
}
use xtd.Logging.Escape.Reading.{plain, scan}
use xtd.Logging.Json.{
  Json, text, number, array, object, Items, nil, cons, Members, none_left, member,
}

-- What follows a byte, if the input begins with it.
abbrev pub behind : ℕ → List ℕ → Option (List ℕ)
behind c [] = none
behind c (d ∷ input) = if d == c then some input else none

abbrev pub expect {ℓ} : {A : Type ℓ} → Option A → Result A
expect none = err invalid_argument
expect (some a) = ok a

abbrev pub past_comma : Bool → List ℕ → Result (List ℕ)
past_comma true input = ok input
past_comma false input = expect (behind b',' input)

abbrev pub is_digit : ℕ → Bool
is_digit c = leb b'0' c && leb c b'9'

unfoldable pub digits_of : List ℕ → List ℕ × List ℕ
digits_of [] = ([], [])
digits_of (c ∷ input) =
    let rest = digits_of input in if is_digit c then (c ∷ rest.0, rest.1) else ([], c ∷ input)

abbrev pub number_of : List ℕ × List ℕ → Result (Json × List ℕ)
number_of ([], rest) = err invalid_argument
number_of (c ∷ ds, rest) = ok (number (c ∷ ds), rest)

-- A value and what follows it, on fuel, for JSON without blanks, literals, and numbers other than
-- whole ones.
unfoldable mutual
  pub read_value : ℕ → List ℕ → Result (Json × List ℕ)
  read_value zero input = err undefined
  read_value (suc fuel) input = elim (behind b'"' input) [
    | some inside ↦ do (t, rest) ← expect (scan plain inside); ok (text t, rest)
    | none ↦ elim (behind b'[' input) [
      | some inside ↦ do (xs, rest) ← read_items fuel true inside; ok (array xs, rest)
      | none ↦ elim (behind b'{' input) [
        | some inside ↦ do (ms, rest) ← read_members fuel true inside; ok (object ms, rest)
        | none ↦ number_of (digits_of input)
      ]
    ]
  ]

  pub read_items : ℕ → Bool → List ℕ → Result (Items × List ℕ)
  read_items zero first input = err undefined
  read_items (suc fuel) first input = elim (behind b']' input) [
    | some rest ↦ ok (nil, rest)
    | none ↦ do
      at_value ← past_comma first input
      (x, after_value) ← read_value fuel at_value
      (xs, rest) ← read_items fuel false after_value
      ok (cons x xs, rest)
  ]

  pub read_members : ℕ → Bool → List ℕ → Result (Members × List ℕ)
  read_members zero first input = err undefined
  read_members (suc fuel) first input = elim (behind b'}' input) [
    | some rest ↦ ok (none_left, rest)
    | none ↦ do
      at_key ← past_comma first input
      in_key ← expect (behind b'"' at_key)
      (key, after_key) ← expect (scan plain in_key)
      at_value ← expect (behind b':' after_key)
      (x, after_value) ← read_value fuel at_value
      (ms, rest) ← read_members fuel false after_value
      ok (member key x ms, rest)
  ]

abbrev pub AllDigits : List ℕ → Type 0
AllDigits [] = Unit {0}
AllDigits (c ∷ s) = (is_digit c ≡ true) × AllDigits s

-- A value whose numbers are digits, and how much fuel it takes to read it.
unfoldable mutual
  pub IsJson : Json → Type 0
  IsJson (text t) = Unit {0}
  IsJson (number ds) = (0 < length ds) × AllDigits ds
  IsJson (array xs) = AreJson xs
  IsJson (object ms) = HaveJson ms

  pub AreJson : Items → Type 0
  AreJson nil = Unit {0}
  AreJson (cons x xs) = IsJson x × AreJson xs

  pub HaveJson : Members → Type 0
  HaveJson none_left = Unit {0}
  HaveJson (member k x ms) = IsJson x × HaveJson ms

unfoldable mutual
  pub size : Json → ℕ
  size (text t) = 1
  size (number ds) = 1
  size (array xs) = suc (size_items xs)
  size (object ms) = suc (size_members ms)

  pub size_items : Items → ℕ
  size_items nil = 1
  size_items (cons x xs) = 1 + size x + size_items xs

  pub size_members : Members → ℕ
  size_members none_left = 1
  size_members (member k x ms) = 1 + size x + size_members ms
