-- ===== src/Logging/Json/Reading.antt =====
-- RFC 8259: reading gives back what was written, for src/logging/sinks/otel_serializer.h.
use xtd.Base.{
  ℕ, zero, suc, ◌≤◌, ◌≡◌, refl, Bool, true, false, none, List, [], ◌∷◌, ◌++◌, arith, ℕ_discrete,
  ◌==◌, ne→==, ok,
}
use xtd.Logging.Escape.Reading.{escape_json_lem}
use xtd.Logging.Json.{
  Json, text, number, array, object, Items, nil, cons, Members, none_left, member, write,
  write_items, write_members,
}
use xtd.Logging.Json.Reader.{
  behind, is_digit, AllDigits, digits_of, read_value, read_items, read_members, IsJson, AreJson,
  HaveJson, size, size_items, size_members,
}

-- What may follow a number.
abbrev pub Ends : List ℕ → Type 0
Ends [] = Unit {0}
Ends (c ∷ input) = is_digit c ≡ false

digits_of-append :
    (ds rest : List ℕ) → AllDigits ds → Ends rest → digits_of (ds ++ rest) ≡ (ds, rest)
unfolding digits_of
digits_of-append [] [] d e = refl
digits_of-append [] (c ∷ rest) d e = rw e refl
digits_of-append (c ∷ ds) rest d e = rw (d.0, digits_of-append ds rest d.1 e) refl

-- A digit is no other byte.
digit_apart : (c k : ℕ) → is_digit c ≡ true → is_digit k ≡ false → (c == k) ≡ false
digit_apart c k d e = elim (ℕ_discrete c k) [
  | yes same ↦ absurd (cc (same, d, e))
  | no apart ↦ ne→== c k apart
]

items_end : (xs : Items) (rest : List ℕ) → Ends (write_items false xs (b']' ∷ rest))
unfolding write
items_end nil rest = refl
items_end (cons x xs) rest = refl

members_end : (ms : Members) (rest : List ℕ) → Ends (write_members false ms (b'}' ∷ rest))
unfolding write
members_end none_left rest = refl
members_end (member k x ms) rest = refl

-- No value begins with the end of an array.
value_begins : (x : Json) (rest : List ℕ) → IsJson x → behind b']' (write x rest) ≡ none
unfolding write IsJson
value_begins (text t) rest j = refl
value_begins (number []) rest j = absurd (omega (arith, j.0))
value_begins (number (c ∷ ds)) rest j = rw (digit_apart c b']' j.1.0 refl) refl
value_begins (array xs) rest j = refl
value_begins (object ms) rest j = refl

number-read :
    (c : ℕ) (ds rest : List ℕ) (fuel : ℕ)
    → AllDigits (c ∷ ds)
    → Ends rest
    → read_value (suc fuel) (c ∷ (ds ++ rest)) ≡ ok (number (c ∷ ds), rest)
unfolding read_value
number-read c ds rest fuel d e =
    rw
      (
        digit_apart c b'"' d.0 refl,
        digit_apart c b'[' d.0 refl,
        digit_apart c b'{' d.0 refl,
        digits_of-append (c ∷ ds) rest d e,
        read_value,
      )
      refl

mutual
  unfolding read_value write IsJson size

  read_value-write :
      (x : Json) (fuel : ℕ) (rest : List ℕ)
      → IsJson x
      → size x ≤ fuel
      → Ends rest
      → read_value fuel (write x rest) ≡ ok (x, rest)
  read_value-write (text t) zero rest j enough e = absurd (omega (arith, enough))
  read_value-write (text t) (suc fuel) rest j enough e = rw (escape_json_lem t rest) refl
  read_value-write (number ds) zero rest j enough e = absurd (omega (arith, enough))
  read_value-write (number []) (suc fuel) rest j enough e = absurd (omega (arith, j.0))
  read_value-write (number (c ∷ ds)) (suc fuel) rest j enough e = number-read c ds rest fuel j.1 e
  read_value-write (array xs) zero rest j enough e = absurd (omega (arith, enough))
  read_value-write (array xs) (suc fuel) rest j enough e =
      rw (read_items-write xs true fuel rest j (omega (arith, enough))) refl
  read_value-write (object ms) zero rest j enough e = absurd (omega (arith, enough))
  read_value-write (object ms) (suc fuel) rest j enough e =
      rw (read_members-write ms true fuel rest j (omega (arith, enough))) refl

  read_items-write :
      (xs : Items) (first : Bool) (fuel : ℕ) (rest : List ℕ)
      → AreJson xs
      → size_items xs ≤ fuel
      → read_items fuel first (write_items first xs (b']' ∷ rest)) ≡ ok (xs, rest)
  read_items-write nil first zero rest j enough = absurd (omega (arith, enough))
  read_items-write nil first (suc fuel) rest j enough = refl
  read_items-write (cons x xs) first zero rest j enough = absurd (omega (arith, enough))
  read_items-write (cons x xs) true (suc fuel) rest j enough =
      rw
        (
          value_begins x (write_items false xs (b']' ∷ rest)) j.0,
          read_value-write x fuel (write_items false xs (b']' ∷ rest)) j.0 (omega (arith, enough))
              (items_end xs rest),
          read_items-write xs false fuel rest j.1 (omega (arith, enough)),
          read_items,
        )
        refl
  read_items-write (cons x xs) false (suc fuel) rest j enough =
      rw
        (
          read_value-write x fuel (write_items false xs (b']' ∷ rest)) j.0 (omega (arith, enough))
              (items_end xs rest),
          read_items-write xs false fuel rest j.1 (omega (arith, enough)),
        )
        refl

  read_members-write :
      (ms : Members) (first : Bool) (fuel : ℕ) (rest : List ℕ)
      → HaveJson ms
      → size_members ms ≤ fuel
      → read_members fuel first (write_members first ms (b'}' ∷ rest)) ≡ ok (ms, rest)
  read_members-write none_left first zero rest j enough = absurd (omega (arith, enough))
  read_members-write none_left first (suc fuel) rest j enough = refl
  read_members-write (member k x ms) first zero rest j enough = absurd (omega (arith, enough))
  read_members-write (member k x ms) true (suc fuel) rest j enough =
      rw
        (
          escape_json_lem k (b':' ∷ write x (write_members false ms (b'}' ∷ rest))),
          read_value-write x fuel (write_members false ms (b'}' ∷ rest)) j.0 (omega (arith, enough))
              (members_end ms rest),
          read_members-write ms false fuel rest j.1 (omega (arith, enough)),
        )
        refl
  read_members-write (member k x ms) false (suc fuel) rest j enough =
      rw
        (
          escape_json_lem k (b':' ∷ write x (write_members false ms (b'}' ∷ rest))),
          read_value-write x fuel (write_members false ms (b'}' ∷ rest)) j.0 (omega (arith, enough))
              (members_end ms rest),
          read_members-write ms false fuel rest j.1 (omega (arith, enough)),
        )
        refl

pub read_object-write :
    (ms : Members) (rest : List ℕ)
    → HaveJson ms
    → read_value (size (object ms)) (write (object ms) rest) ≡ ok (object ms, rest)
unfolding read_value write size
read_object-write ms rest j =
    rw (read_members-write ms true (size_members ms) rest j (omega arith)) refl
