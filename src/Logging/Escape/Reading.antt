-- ===== src/Logging/Escape/Reading.antt =====
-- src/logging/sinks/otel_serializer.h: what a JSON reader gets from `escape_json`.
use xtd.Base.{
  ℕ, ◌+◌, ◌-◌, ◌*◌, ◌/◌, ◌%◌, ◌≤◌, ◌<◌, ◌≡◌, refl, sym, ap, subst, ◌∙◌, ◌≢◌, true, false, ◌&&◌,
  Option, none, some, List, [], ◌∷◌, ◌++◌, append_assoc, arith, dec_lt, ℕ_discrete, ltb, leb, ◌==◌,
  if◌then◌else◌, lt→ltb, ne→==,
}
use xtd.Logging.Escape.{hex_digit, escape_byte, escape_json}

-- Where a reader of a JSON string stands: in plain text, behind a backslash, or with so many digits
-- of a `\u` to come.
pub data Scan : Type 0 where
  plain : Scan
  escaped : Scan
  digits : ℕ → ℕ → Scan

unfoldable pub digit_value : ℕ → Option ℕ
digit_value c =
    if leb b'0' c && leb c b'9'
    then some (c - b'0')
    else if leb b'a' c && leb c b'f'
    then some (c - b'a' + 10)
    else if leb b'A' c && leb c b'F'
    then some (c - b'A' + 10)
    else none

unfoldable pub short : ℕ → Option ℕ
short c =
    if c == b'"'
    then some b'"'
    else if c == b'\\'
    then some b'\\'
    else if c == b'/'
    then some b'/'
    else if c == b'b'
    then some 8
    else if c == b'f'
    then some 12
    else if c == b'n'
    then some 10
    else if c == b'r'
    then some 13
    else if c == b't'
    then some 9
    else none

abbrev prepend : ℕ → Option (List ℕ × List ℕ) → Option (List ℕ × List ℕ)
prepend c none = none
prepend c (some (text, rest)) = some (c ∷ text, rest)

-- A reader of JSON strings as RFC 8259 has them, from behind the opening quote: the text, and what
-- follows the closing quote. A control byte in the text is an error, and so is a `\u` above 7f, which
-- would be more than one byte.
unfoldable pub scan : Scan → List ℕ → Option (List ℕ × List ℕ)
scan state [] = none
scan plain (c ∷ input) = elim (c == b'"') [
  | true ↦ some ([], input)
  | false ↦ elim (c == b'\\') [
    | true ↦ scan escaped input
    | false ↦ elim (ltb c 32) [ true ↦ none | false ↦ prepend c (scan plain input) ]
  ]
]
scan escaped (c ∷ input) = elim (c == b'u') [
  | true ↦ scan (digits 4 0) input
  | false ↦ elim (short c) [ none ↦ none | some b ↦ prepend b (scan plain input) ]
]
scan (digits left so_far) (c ∷ input) = elim (digit_value c) [
  | none ↦ none
  | some d ↦ elim (ltb 1 left) [
    | true ↦ scan (digits (left - 1) (so_far * 16 + d)) input
    | false ↦ elim (ltb (so_far * 16 + d) 128) [
      | true ↦ prepend (so_far * 16 + d) (scan plain input)
      | false ↦ none
    ]
  ]
]

digit_value-hex_digit : (d : ℕ) → d < 16 → digit_value (hex_digit d) ≡ some d
unfolding digit_value hex_digit
digit_value-hex_digit d small = ground arith

more_digits :
    (left so_far d : ℕ) (input : List ℕ)
    → 1 < left
    → d < 16
    → scan (digits left so_far) (hex_digit d ∷ input)
      ≡ scan (digits (left - 1) (so_far * 16 + d)) input
unfolding scan
more_digits left so_far d input more small =
    rw (digit_value-hex_digit d small, lt→ltb 1 left more, scan) refl

last_digit :
    (so_far d : ℕ) (input : List ℕ)
    → d < 16
    → so_far * 16 + d < 128
    → scan (digits 1 so_far) (hex_digit d ∷ input) ≡ prepend (so_far * 16 + d) (scan plain input)
unfolding scan
last_digit so_far d input small ascii =
    rw (digit_value-hex_digit d small, lt→ltb (so_far * 16 + d) 128 ascii, scan) refl

abbrev ReadsByte : List ℕ → ℕ → Type 0
ReadsByte input c = scan plain (escape_byte c ++ input) ≡ prepend c (scan plain input)

control_lem :
    (c : ℕ) (input : List ℕ)
    → c < 32
    → scan plain (
        b'\\'
        ∷ b'u'
        ∷ hex_digit (c / 4096 % 16)
        ∷ hex_digit (c / 256 % 16)
        ∷ hex_digit (c / 16 % 16)
        ∷ hex_digit (c % 16)
        ∷ input)
      ≡ prepend c (scan plain input)
unfolding scan
control_lem c input small =
    more_digits 4 0 (c / 4096 % 16)
      (hex_digit (c / 256 % 16) ∷ hex_digit (c / 16 % 16) ∷ hex_digit (c % 16) ∷ input)
      (omega arith) (omega arith)
    ∙ more_digits 3 (0 * 16 + c / 4096 % 16) (c / 256 % 16)
        (hex_digit (c / 16 % 16) ∷ hex_digit (c % 16) ∷ input) (omega arith) (omega arith)
    ∙ more_digits 2 ((0 * 16 + c / 4096 % 16) * 16 + c / 256 % 16) (c / 16 % 16)
        (hex_digit (c % 16) ∷ input) (omega arith) (omega arith)
    ∙ last_digit (((0 * 16 + c / 4096 % 16) * 16 + c / 256 % 16) * 16 + c / 16 % 16) (c % 16) input
        (omega arith) (omega arith)
    ∙ ap (λ b. prepend b (scan plain input)) (omega arith)

printable_lem :
    (c : ℕ) (input : List ℕ)
    → c ≢ b'"'
    → c ≢ b'\\'
    → 32 ≤ c
    → scan plain (c ∷ input) ≡ prepend c (scan plain input)
unfolding scan
printable_lem c input quote slash high =
    let free : ltb c 32 ≡ false = ground (arith, high) in
    rw (ne→== c b'"' quote, ne→== c b'\\' slash, free, scan) refl

byte_lem : (c : ℕ) (input : List ℕ) → ReadsByte input c
unfolding scan short escape_byte
byte_lem c input = elim (ℕ_discrete c b'"') [
  | yes e ↦ subst (ReadsByte input) (sym e) refl
  | no quote ↦ elim (ℕ_discrete c b'\\') [
    | yes e ↦ subst (ReadsByte input) (sym e) refl
    | no slash ↦ elim (ℕ_discrete c 8) [
      | yes e ↦ subst (ReadsByte input) (sym e) refl
      | no b ↦ elim (ℕ_discrete c 12) [
        | yes e ↦ subst (ReadsByte input) (sym e) refl
        | no f ↦ elim (ℕ_discrete c 10) [
          | yes e ↦ subst (ReadsByte input) (sym e) refl
          | no n ↦ elim (ℕ_discrete c 13) [
            | yes e ↦ subst (ReadsByte input) (sym e) refl
            | no r ↦ elim (ℕ_discrete c 9) [
              | yes e ↦ subst (ReadsByte input) (sym e) refl
              | no t ↦ elim (dec_lt c 32) [
                | yes low ↦
                    let same : escape_byte c
                        ≡ b'\\'
                          ∷ b'u'
                          ∷ hex_digit (c / 4096 % 16)
                          ∷ hex_digit (c / 256 % 16)
                          ∷ hex_digit (c / 16 % 16)
                          ∷ hex_digit (c % 16)
                          ∷ [] =
                      ground arith in
                    ap (λ l. scan plain (l ++ input)) same ∙ control_lem c input low
                | no high ↦
                    let same : escape_byte c ≡ c ∷ [] = ground arith in
                    ap (λ l. scan plain (l ++ input)) same
                    ∙ printable_lem c input quote slash (omega (arith, high))
              ]
            ]
          ]
        ]
      ]
    ]
  ]
]

-- Whatever the bytes, a JSON reader gets them back from what `escape_json` makes of them, and goes on
-- right behind the quote that closes the string: no byte ends the string, begins an escape of its own
-- or stands in it as a control byte.
pub escape_json_lem :
    (text rest : List ℕ) → scan plain (escape_json text ++ b'"' ∷ rest) ≡ some (text, rest)
unfolding escape_json scan
escape_json_lem [] rest = refl
escape_json_lem (c ∷ text) rest =
    ap (scan plain) (append_assoc (escape_byte c) (escape_json text) (b'"' ∷ rest))
    ∙ byte_lem c (escape_json text ++ b'"' ∷ rest)
    ∙ ap (prepend c) (escape_json_lem text rest)
