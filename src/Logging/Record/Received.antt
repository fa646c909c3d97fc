-- ===== src/Logging/Record/Received.antt =====
-- src/logging/sinks/otel_serializer.h: what a JSON reader gets from a record.
use xtd.Base.{ℕ, ◌+◌, ◌*◌, ◌<◌, ◌≡◌, ap, ◌∙◌, Option, none, some, List, [], ◌∷◌, ◌++◌, length, ok}
use xtd.Logging.Json.{Json, Items, nil, cons, push}
use xtd.Logging.Json.Reader.{AllDigits}
use xtd.Logging.Record.{
  bytes_of, ExceptionInfo, SourceLocation, LogMessage, level_index, serialize_record,
}
use xtd.Logging.Record.Document.{
  string_of, arg_items, args_of, with_args, with_source, with_exception, pair_of, attributes,
  document,
}
use xtd.Logging.Json.Reader.{read_value, IsJson, AreJson, size}
use xtd.Logging.Json.Reading.{read_object-write}
use xtd.Logging.Record.Printed.{serialize_record_lem}

push-AreJson : (xs : Items) (x : Json) → AreJson xs → IsJson x → AreJson (push xs x)
unfolding IsJson
push-AreJson nil x h j = (j, tt)
push-AreJson (cons y xs) x h j = (h.0, push-AreJson xs x h.1 j)

pair_of-IsJson : (key t : List ℕ) → IsJson (pair_of key (string_of t))
unfolding IsJson
pair_of-IsJson key t = (tt, ((tt, tt), tt))

module _ (decimal : ℕ → List ℕ)
    (digits : (n : ℕ) → (0 < length (decimal n)) × AllDigits (decimal n)) where
  arg_items-AreJson : (i : ℕ) (args : List (List ℕ)) → AreJson (arg_items decimal i args)
  unfolding arg_items IsJson
  arg_items-AreJson i [] = tt
  arg_items-AreJson i (arg ∷ args) = ((tt, ((tt, tt), tt)), arg_items-AreJson (i + 1) args)

  args-AreJson :
      (xs : Items) (args : List (List ℕ)) → AreJson xs → AreJson (with_args decimal xs args)
  unfolding IsJson
  args-AreJson xs [] h = h
  args-AreJson xs (arg ∷ args) h =
      push-AreJson xs (pair_of (bytes_of "log.args") (args_of decimal (arg ∷ args))) h
        (tt, (((arg_items-AreJson 0 (arg ∷ args), tt), tt), tt))

  exception-AreJson :
      (xs : Items) (ex : Option ExceptionInfo) → AreJson xs → AreJson (with_exception decimal xs ex)
  unfolding IsJson
  exception-AreJson xs none h = h
  exception-AreJson xs (some ex) h =
      push-AreJson (push xs (pair_of (bytes_of "exception.type") (string_of ex.type_name)))
        (pair_of (bytes_of "exception.message") (string_of ex.message))
        (push-AreJson xs (pair_of (bytes_of "exception.type") (string_of ex.type_name)) h
          (pair_of-IsJson (bytes_of "exception.type") ex.type_name))
        (pair_of-IsJson (bytes_of "exception.message") ex.message)

  source-AreJson :
      (xs : Items) (location : SourceLocation)
      → AreJson xs
      → AreJson (with_source decimal xs location)
  source-AreJson xs location h =
      push-AreJson (push xs (pair_of (bytes_of "code.file.path") (string_of place)))
        (pair_of (bytes_of "code.function.name") (string_of location.function_name))
        (push-AreJson xs (pair_of (bytes_of "code.file.path") (string_of place)) h
          (pair_of-IsJson (bytes_of "code.file.path") place))
        (pair_of-IsJson (bytes_of "code.function.name") location.function_name)
    where
      place : List ℕ
      place = location.file_name ++ bytes_of ":" ++ decimal location.line

  attributes-AreJson : (m : LogMessage) → AreJson (attributes decimal m)
  unfolding IsJson
  attributes-AreJson m =
      exception-AreJson (with_source decimal args m.location) m.exception
        (source-AreJson args m.location (args-AreJson format m.formatted_args (start, tt)))
    where
      start : IsJson (pair_of (bytes_of "log.format") (string_of m.format))
      start = pair_of-IsJson (bytes_of "log.format") m.format

      format : Items
      format = cons (pair_of (bytes_of "log.format") (string_of m.format)) nil

      args : Items
      args = with_args decimal format m.formatted_args

  -- A JSON reader gets from a record, whatever texts the message holds, exactly its members: the
  -- time, the number and the name of the level, the formatted message, and the attributes in order,
  -- of which the arguments are there if there is one and the exception is if the message has one;
  -- and it goes on right behind the record. `std::format` is to make of a number one digit or more.
  pub serialize_record-read :
      (m : LogMessage) (rest : List ℕ)
      → read_value (size (document decimal m)) (serialize_record decimal m ++ rest)
        ≡ ok (document decimal m, rest)
  unfolding document IsJson
  serialize_record-read m rest =
      ap (read_value (size (document decimal m)))
        (serialize_record_lem decimal (λ n. (digits n).1) m rest)
      ∙ read_object-write _ rest
          (tt, (digits (1 + level_index m.level * 4), (tt, ((tt, tt), (attributes-AreJson m, tt)))))
