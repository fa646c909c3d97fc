-- ===== src/Logging/Record/Attributes.antt =====
-- src/logging/sinks/otel_serializer.h: the text of the attributes.
use xtd.Base.{
  ℕ, ◌+◌, ◌≡◌, refl, sym, ap, ap₂, ◌∙◌, Bool, true, false, Option, none, some, List, [], ◌∷◌, ◌++◌,
  append_assoc, arith, ◌==◌, if◌then◌else◌, ne→==,
}
use xtd.Logging.Escape.{escape_byte, escape_json}
use xtd.Logging.Json.{
  Json, Items, nil, cons, separate, write, write_items, push, is_nil, write_items-push_first,
}
use xtd.Logging.Json.Reader.{AllDigits}
use xtd.Logging.Record.{
  bytes_of, ExceptionInfo, SourceLocation, string_value, attribute, arg_values, log_args,
  source_attributes, exception_attributes,
}
use xtd.Logging.Record.Document.{
  string_of, pair_of, arg_items, args_of, with_args, with_source, with_exception,
}

pub escape_json-digits : (s : List ℕ) → AllDigits s → escape_json s ≡ s
unfolding escape_json escape_byte
escape_json-digits [] d = refl
escape_json-digits (c ∷ s) d =
    let plain : escape_byte c ≡ c ∷ [] = ground (arith, d.0) in
    ap₂ (λ k l. k ++ l) plain (escape_json-digits s d.1)

escape_json-append : (s t : List ℕ) → escape_json (s ++ t) ≡ escape_json s ++ escape_json t
unfolding escape_json
escape_json-append [] t = refl
escape_json-append (c ∷ s) t =
    ap (λ l. escape_byte c ++ l) (escape_json-append s t)
    ∙ sym (append_assoc (escape_byte c) (escape_json s) (escape_json t))

pub string_value-write :
    (t rest : List ℕ) → string_value (escape_json t) ++ rest ≡ write (string_of t) rest
unfolding write string_value escape_json escape_byte
string_value-write t rest =
    ap (λ l. bytes_of "{\"stringValue\":\"" ++ l)
      (append_assoc (escape_json t) (bytes_of "\"}") rest)

-- The attributes so far are the items of an array behind what was there before.
pub record IsAt (out : List ℕ × Bool) (head : List ℕ) (xs : Items) : Type 0 where
  pub prints : (tail : List ℕ) → out.0 ++ tail ≡ head ++ write_items true xs tail
  pub first : out.1 ≡ is_nil xs

abbrev between : List ℕ
between = bytes_of "\",\"value\":"

abbrev item : List ℕ → List ℕ → List ℕ
item key value = bytes_of "{\"key\":\"" ++ key ++ bytes_of "\",\"value\":" ++ value ++ bytes_of "}"

filled : (xs : Items) (x : Json) → false ≡ is_nil (push xs x)
filled nil x = refl
filled (cons y xs) x = refl

pair-write :
    (key value : List ℕ) (x : Json) (tail : List ℕ)
    → escape_json key ≡ key
    → ((tail : List ℕ) → value ++ tail ≡ write x tail)
    → (bytes_of "{\"key\":\"" ++ key ++ bytes_of "\",\"value\":" ++ value ++ bytes_of "}") ++ tail
      ≡ write (pair_of key x) tail
unfolding write escape_json escape_byte
pair-write key value x tail plain prints =
    ap (λ l. bytes_of "{\"key\":\"" ++ l)
      (append_assoc (key ++ between ++ value) (bytes_of "}") tail
        ∙ append_assoc (key ++ between) value (bytes_of "}" ++ tail)
        ∙ ap (λ l. (key ++ between) ++ l) (prints (bytes_of "}" ++ tail))
        ∙ append_assoc key between (write x (bytes_of "}" ++ tail))
        ∙ ap (λ k. k ++ (between ++ write x (bytes_of "}" ++ tail))) (sym plain))

pub attribute-IsAt :
    (out : List ℕ × Bool) (head : List ℕ) (xs : Items) (key value : List ℕ) (x : Json)
    → IsAt out head xs
    → escape_json key ≡ key
    → ((tail : List ℕ) → value ++ tail ≡ write x tail)
    → IsAt (attribute out key value) head (push xs (pair_of key x))
unfolding attribute
attribute-IsAt (json, true) head xs key value x h plain prints = record {
  prints = λ tail.
      append_assoc json (item key value) tail
      ∙ ap (λ l. json ++ l) (pair-write key value x tail plain prints)
      ∙ h.prints (write (pair_of key x) tail)
      ∙ ap (λ b. head ++ write_items true xs (separate b (write (pair_of key x) tail))) h.first
      ∙ ap (λ l. head ++ l) (sym (write_items-push_first xs (pair_of key x) tail));
  first = filled xs (pair_of key x);
}
attribute-IsAt (json, false) head xs key value x h plain prints = record {
  prints = λ tail.
      append_assoc (json ++ bytes_of ",") (item key value) tail
      ∙ append_assoc json (bytes_of ",") (item key value ++ tail)
      ∙ ap (λ l. json ++ (bytes_of "," ++ l)) (pair-write key value x tail plain prints)
      ∙ h.prints (bytes_of "," ++ write (pair_of key x) tail)
      ∙ ap (λ b. head ++ write_items true xs (separate b (write (pair_of key x) tail))) h.first
      ∙ ap (λ l. head ++ l) (sym (write_items-push_first xs (pair_of key x) tail));
  first = filled xs (pair_of key x);
}

-- The attributes of a record.
module _ (decimal : ℕ → List ℕ) where
  abbrev place : SourceLocation → List ℕ
  place location = location.file_name ++ bytes_of ":" ++ decimal location.line

  arg-write :
      (i : ℕ) (arg rest : List ℕ)
      → AllDigits (decimal i)
      → (bytes_of "{\"key\":\"arg"
            ++ decimal i
            ++ bytes_of "\",\"value\":{\"stringValue\":\""
            ++ escape_json arg
            ++ bytes_of "\"}}")
          ++ rest
        ≡ write (pair_of (bytes_of "arg" ++ decimal i) (string_of arg)) rest
  unfolding write escape_json escape_byte
  arg-write i arg rest d =
      append_assoc (key ++ middle ++ escape_json arg) (bytes_of "\"}}") rest
      ∙ append_assoc (key ++ middle) (escape_json arg) (bytes_of "\"}}" ++ rest)
      ∙ append_assoc key middle (escape_json arg ++ (bytes_of "\"}}" ++ rest))
      ∙ ap
          (λ k.
            bytes_of "{\"key\":\"arg"
            ++ (k ++ (middle ++ (escape_json arg ++ (bytes_of "\"}}" ++ rest)))))
          (sym (escape_json-digits (decimal i) d))
    where
      key : List ℕ
      key = bytes_of "{\"key\":\"arg" ++ decimal i

      middle : List ℕ
      middle = bytes_of "\",\"value\":{\"stringValue\":\""

  comma_lem :
      (first : Bool) (l : List ℕ) → (if first then [] else bytes_of ",") ++ l ≡ separate first l
  comma_lem true l = refl
  comma_lem false l = refl

  args_loop :
      ((n : ℕ) → AllDigits (decimal n))
      → (i : ℕ) (args : List (List ℕ)) (rest : List ℕ)
      → arg_values decimal i args ++ rest ≡ write_items (i == 0) (arg_items decimal i args) rest
  unfolding arg_values write arg_items
  args_loop digits i [] rest = refl
  args_loop digits i (arg ∷ args) rest =
      append_assoc (comma ++ written) (arg_values decimal (i + 1) args) rest
      ∙ append_assoc comma written (arg_values decimal (i + 1) args ++ rest)
      ∙ ap (λ l. comma ++ (written ++ l)) (args_loop digits (i + 1) args rest)
      ∙ ap (λ b. comma ++ (written ++ write_items b (arg_items decimal (i + 1) args) rest))
          (ne→== (i + 1) 0 (λ e. absurd (omega (arith, e))))
      ∙ ap (λ l. comma ++ l)
          (arg-write i arg (write_items false (arg_items decimal (i + 1) args) rest) (digits i))
      ∙ comma_lem (i == 0) (
          write (pair_of (bytes_of "arg" ++ decimal i) (string_of arg))
            (write_items false (arg_items decimal (i + 1) args) rest))
    where
      comma : List ℕ
      comma = if i == 0 then [] else bytes_of ","

      written : List ℕ
      written =
          bytes_of "{\"key\":\"arg"
          ++ decimal i
          ++ bytes_of "\",\"value\":{\"stringValue\":\""
          ++ escape_json arg
          ++ bytes_of "\"}}"

  args-write :
      ((n : ℕ) → AllDigits (decimal n))
      → (args : List (List ℕ)) (tail : List ℕ)
      → (bytes_of "{\"kvlistValue\":{\"values\":[" ++ arg_values decimal 0 args ++ bytes_of "]}}")
          ++ tail
        ≡ write (args_of decimal args) tail
  unfolding write escape_json escape_byte
  args-write digits args tail =
      ap (λ l. bytes_of "{\"kvlistValue\":{\"values\":[" ++ l)
        (append_assoc (arg_values decimal 0 args) (bytes_of "]}}") tail
          ∙ args_loop digits 0 args (bytes_of "]}}" ++ tail))

  pub args-IsAt :
      (out : List ℕ × Bool) (head : List ℕ) (xs : Items) (args : List (List ℕ))
      → ((n : ℕ) → AllDigits (decimal n))
      → IsAt out head xs
      → IsAt (log_args decimal out args) head (with_args decimal xs args)
  unfolding log_args escape_byte
  args-IsAt out head xs [] digits h = h
  args-IsAt out head xs (arg ∷ args) digits h =
      attribute-IsAt out head xs (bytes_of "log.args")
        (bytes_of "{\"kvlistValue\":{\"values\":["
          ++ arg_values decimal 0 (arg ∷ args)
          ++ bytes_of "]}}")
        (args_of decimal (arg ∷ args)) h refl (args-write digits (arg ∷ args))

  abbrev path : SourceLocation → List ℕ
  path location =
      string_value (escape_json location.file_name ++ bytes_of ":" ++ decimal location.line)

  path-write :
      (location : SourceLocation)
      → ((n : ℕ) → AllDigits (decimal n))
      → (tail : List ℕ) → path location ++ tail ≡ write (string_of (place location)) tail
  unfolding escape_json escape_byte
  path-write location digits tail =
      ap (λ l. string_value l ++ tail)
        (sym (
          escape_json-append (location.file_name ++ bytes_of ":") (decimal location.line)
          ∙ ap₂ (λ k l. k ++ l) (escape_json-append location.file_name (bytes_of ":"))
              (escape_json-digits (decimal location.line) (digits location.line))))
      ∙ string_value-write (place location) tail

  pub source-IsAt :
      (out : List ℕ × Bool) (head : List ℕ) (xs : Items) (location : SourceLocation)
      → ((n : ℕ) → AllDigits (decimal n))
      → IsAt out head xs
      → IsAt (source_attributes decimal out location) head (with_source decimal xs location)
  unfolding source_attributes escape_json escape_byte
  source-IsAt out head xs location digits h =
      attribute-IsAt (attribute out (bytes_of "code.file.path") (path location)) head
        (push xs (pair_of (bytes_of "code.file.path") (string_of (place location))))
        (bytes_of "code.function.name") (string_value (escape_json location.function_name))
        (string_of location.function_name)
        (attribute-IsAt out head xs (bytes_of "code.file.path") (path location)
          (string_of (place location)) h refl (path-write location digits))
        refl (string_value-write location.function_name)

  pub exception-IsAt :
      (out : List ℕ × Bool) (head : List ℕ) (xs : Items) (ex : Option ExceptionInfo)
      → IsAt out head xs
      → IsAt (exception_attributes decimal out ex) head (with_exception decimal xs ex)
  unfolding exception_attributes escape_json escape_byte
  exception-IsAt out head xs none h = h
  exception-IsAt out head xs (some ex) h =
      attribute-IsAt
        (attribute out (bytes_of "exception.type") (string_value (escape_json ex.type_name))) head
        (push xs (pair_of (bytes_of "exception.type") (string_of ex.type_name)))
        (bytes_of "exception.message") (string_value (escape_json ex.message))
        (string_of ex.message)
        (attribute-IsAt out head xs (bytes_of "exception.type")
          (string_value (escape_json ex.type_name)) (string_of ex.type_name) h refl
          (string_value-write ex.type_name))
        refl (string_value-write ex.message)
