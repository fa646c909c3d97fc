-- ===== src/Logging/Record/Document.antt =====
-- src/logging/sinks/otel_serializer.h: the record as a JSON value.
use xtd.Base.{ℕ, ◌+◌, ◌*◌, Option, none, some, List, [], ◌∷◌, ◌++◌}
use xtd.Logging.Json.{Json, text, number, array, object, Items, nil, cons, none_left, member, push}
use xtd.Logging.Record.{
  bytes_of, ExceptionInfo, SourceLocation, LogMessage, level_index, severity_text,
}

abbrev pub string_of : List ℕ → Json
string_of t = object (member (bytes_of "stringValue") (text t) none_left)

abbrev pub pair_of : List ℕ → Json → Json
pair_of key value =
    object (member (bytes_of "key") (text key) (member (bytes_of "value") value none_left))

-- The attributes of a record.
module _ (decimal : ℕ → List ℕ) where
  unfoldable pub arg_items : ℕ → List (List ℕ) → Items
  arg_items i [] = nil
  arg_items i (arg ∷ args) =
      cons (pair_of (bytes_of "arg" ++ decimal i) (string_of arg)) (arg_items (i + 1) args)

  abbrev pub args_of : List (List ℕ) → Json
  args_of args = object (
      member (bytes_of "kvlistValue")
        (object (member (bytes_of "values") (array (arg_items 0 args)) none_left)) none_left)

  abbrev pub with_args : Items → List (List ℕ) → Items
  with_args xs [] = xs
  with_args xs (arg ∷ args) = push xs (pair_of (bytes_of "log.args") (args_of (arg ∷ args)))

  abbrev pub with_source : Items → SourceLocation → Items
  with_source xs location =
      push
        (push xs (
          pair_of (bytes_of "code.file.path")
            (string_of (location.file_name ++ bytes_of ":" ++ decimal location.line))))
        (pair_of (bytes_of "code.function.name") (string_of location.function_name))

  abbrev pub with_exception : Items → Option ExceptionInfo → Items
  with_exception xs none = xs
  with_exception xs (some ex) =
      push (push xs (pair_of (bytes_of "exception.type") (string_of ex.type_name)))
        (pair_of (bytes_of "exception.message") (string_of ex.message))

  abbrev pub attributes : LogMessage → Items
  attributes m =
      with_exception
        (with_source
          (with_args (cons (pair_of (bytes_of "log.format") (string_of m.format)) nil)
            m.formatted_args)
          m.location)
        m.exception

  -- The value that a record stands for.
  unfoldable pub document : LogMessage → Json
  unfolding arg_items severity_text level_index
  document m = object (
      member (bytes_of "timeUnixNano") (text (decimal m.timestamp)) (
        member (bytes_of "severityNumber") (number (decimal (1 + level_index m.level * 4))) (
          member (bytes_of "severityText") (text (severity_text m.level)) (
            member (bytes_of "body") (string_of m.formatted_message)
              (member (bytes_of "attributes") (array (attributes m)) none_left)))))
