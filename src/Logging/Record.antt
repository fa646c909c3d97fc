-- ===== src/Logging/Record.antt =====
-- src/logging/sinks/otel_serializer.h: `serialize_record`, with the message of
-- src/logging/log_message.h. `decimal` is what `std::format` makes of a number.
pub mod Document
pub mod Attributes
pub mod Printed
pub mod Received
use Prim.Native.Char.{code}
use Prim.Native.String.{String}
use xtd.Base.{
  ℕ, zero, suc, ◌+◌, ◌-◌, ◌*◌, ◌/◌, ◌%◌, ◌^◌, ◌≤◌, ◌<◌, min, max, ◌≡◌, refl, sym, ap, ap₂, subst,
  ◌∙◌, ◌≡⟨◌⟩◌, ◌∎, ◌≢◌, ◌↔◌, ◌⊎◌, inl, inr, Bool, true, false, not, ◌&&◌, ◌||◌, Option, none, some,
  List, [], ◌∷◌, ◌++◌, map, append-nil, append_assoc, arith, dec_lt, ℕ_discrete, ltb, leb, ◌==◌,
  if◌then◌else◌, lt→ltb, le→ltb, le→leb, lt→leb, ltb→lt, ltb→le, ==_iff, ne→==, Bool-cases,
  Option-cases, if_cases, length, get_elem?, take, drop, flatten, push_back, length-append,
  length-push_back, length-take, length-drop, take-append-drop, take_all, drop_all, eq_nil,
  take-zero, drop-zero, take-nil, drop-nil, take-append, drop-append, drop-drop, take-min,
  take-take, take-add, drop-take, take_prefix, drop_prefix, get_elem?-append, get_elem?-append_left,
  get_elem?-is_some, flatten-append, size_mod, add_size, sub_size, add_size_exact, sub_size_exact,
  Error, Result, ok, err, out_of_range, invalid_argument, logic_error, undefined, ◌>>=◌, ◌>>◌,
  mul_size, require, count, remove, count-remove, length-remove,
}
use xtd.Logging.Escape.{escape_json}

-- The bytes of a text in ASCII.
abbrev pub bytes_of : String → List ℕ
bytes_of String.[] = []
bytes_of (String.◌∷◌ c s) = code c ∷ bytes_of s

pub data LogLevel : Type 0 where
  trace : LogLevel
  debug : LogLevel
  information : LogLevel
  warning : LogLevel
  error : LogLevel
  critical : LogLevel

pub record ExceptionInfo : Type 0 where
  pub type_name : List ℕ
  pub message : List ℕ

pub record SourceLocation : Type 0 where
  pub file_name : List ℕ
  pub line : ℕ
  pub function_name : List ℕ

-- `log_message`, with what `get_formatted_message` and `get_formatted_args` return, and the timestamp
-- in nanoseconds since the epoch.
pub record LogMessage : Type 0 where
  pub formatted_message : List ℕ
  pub formatted_args : List (List ℕ)
  pub timestamp : ℕ
  pub exception : Option ExceptionInfo
  pub format : List ℕ
  pub location : SourceLocation
  pub level : LogLevel

-- The number of a level in its enumeration.
unfoldable pub level_index : LogLevel → ℕ
level_index trace = 0
level_index debug = 1
level_index information = 2
level_index warning = 3
level_index error = 4
level_index critical = 5

unfoldable pub severity_text : LogLevel → List ℕ
severity_text trace = bytes_of "TRACE"
severity_text debug = bytes_of "DEBUG"
severity_text information = bytes_of "INFO"
severity_text warning = bytes_of "WARN"
severity_text error = bytes_of "ERROR"
severity_text critical = bytes_of "FATAL"

-- `std::format("{{\"stringValue\":\"{}\"}}", value)`
unfoldable pub string_value : List ℕ → List ℕ
string_value text = bytes_of "{\"stringValue\":\"" ++ text ++ bytes_of "\"}"

-- The lambda `attribute`, on `json` and `first`.
unfoldable pub attribute : List ℕ × Bool → List ℕ → List ℕ → List ℕ × Bool
attribute (json, first) key value = (
  (if first then json else json ++ bytes_of ",")
      ++ (bytes_of "{\"key\":\"" ++ key ++ bytes_of "\",\"value\":" ++ value ++ bytes_of "}"),
  false,
)

module _ (decimal : ℕ → List ℕ) where
  -- The loop over the arguments, from argument `i` on.
  unfoldable pub arg_values : ℕ → List (List ℕ) → List ℕ
  unfolding escape_json
  arg_values i [] = []
  arg_values i (arg ∷ args) =
      (if i == 0 then [] else bytes_of ",")
      ++ (bytes_of "{\"key\":\"arg"
          ++ decimal i
          ++ bytes_of "\",\"value\":{\"stringValue\":\""
          ++ escape_json arg
          ++ bytes_of "\"}}")
      ++ arg_values (i + 1) args

  unfoldable pub log_args : List ℕ × Bool → List (List ℕ) → List ℕ × Bool
  unfolding attribute arg_values
  log_args out [] = out
  log_args out (arg ∷ args) =
      attribute out (bytes_of "log.args")
        (bytes_of "{\"kvlistValue\":{\"values\":[" ++ arg_values 0 (arg ∷ args) ++ bytes_of "]}}")

  unfoldable pub source_attributes : List ℕ × Bool → SourceLocation → List ℕ × Bool
  unfolding attribute string_value escape_json
  source_attributes out location =
      attribute
        (attribute out (bytes_of "code.file.path")
          (string_value (escape_json location.file_name ++ bytes_of ":" ++ decimal location.line)))
        (bytes_of "code.function.name") (string_value (escape_json location.function_name))

  unfoldable pub exception_attributes : List ℕ × Bool → Option ExceptionInfo → List ℕ × Bool
  unfolding attribute string_value escape_json
  exception_attributes out none = out
  exception_attributes out (some ex) =
      attribute
        (attribute out (bytes_of "exception.type") (string_value (escape_json ex.type_name)))
        (bytes_of "exception.message") (string_value (escape_json ex.message))

  unfoldable pub record_head : LogMessage → List ℕ
  unfolding severity_text level_index escape_json
  record_head message =
      bytes_of "{\"timeUnixNano\":\""
      ++ decimal message.timestamp
      ++ bytes_of "\",\"severityNumber\":"
      ++ decimal (1 + level_index message.level * 4)
      ++ bytes_of ",\"severityText\":\""
      ++ severity_text message.level
      ++ bytes_of "\",\"body\":{\"stringValue\":\""
      ++ escape_json message.formatted_message
      ++ bytes_of "\"},\"attributes\":["

  unfoldable pub serialize_record : LogMessage → List ℕ
  unfolding record_head attribute string_value log_args source_attributes exception_attributes
  serialize_record message =
      let start : List ℕ × Bool = (record_head message, true) in
      let format =
        attribute start (bytes_of "log.format") (string_value (escape_json message.format)) in
      let args = log_args format message.formatted_args in
      let source = source_attributes args message.location in
      let all = exception_attributes source message.exception in all.0 ++ bytes_of "]}"
