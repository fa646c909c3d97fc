-- ===== src/Logging/Record/Printed.antt =====
-- src/logging/sinks/otel_serializer.h: the text of a record.
use xtd.Base.{ℕ, ◌+◌, ◌*◌, ◌≡◌, refl, sym, ap₂, ◌∙◌, Bool, true, List, ◌++◌, append_assoc}
use xtd.Logging.Escape.{escape_byte, escape_json}
use xtd.Logging.Json.{nil, write, write_items, push}
use xtd.Logging.Json.Reader.{AllDigits}
use xtd.Logging.Record.{
  bytes_of, LogLevel, trace, debug, information, warning, error, critical, LogMessage, level_index,
  severity_text, string_value, attribute, log_args, source_attributes, exception_attributes,
  record_head, serialize_record,
}
use xtd.Logging.Record.Document.{string_of, pair_of, attributes, document}
use xtd.Logging.Record.Attributes.{
  escape_json-digits, string_value-write, IsAt, attribute-IsAt, args-IsAt, source-IsAt,
  exception-IsAt,
}

module _ (decimal : ℕ → List ℕ) where
  escape_json-severity : (l : LogLevel) → escape_json (severity_text l) ≡ severity_text l
  unfolding severity_text escape_json escape_byte
  escape_json-severity trace = refl
  escape_json-severity debug = refl
  escape_json-severity information = refl
  escape_json-severity warning = refl
  escape_json-severity error = refl
  escape_json-severity critical = refl

  head-write :
      (m : LogMessage) (rest : List ℕ)
      → ((n : ℕ) → AllDigits (decimal n))
      → record_head decimal m ++ write_items true (attributes decimal m) (bytes_of "]}" ++ rest)
        ≡ write (document decimal m) rest
  unfolding record_head document write escape_json escape_byte
  head-write m rest digits =
      append_assoc (upto_severity ++ after_severity ++ escape_json m.formatted_message) after_body
        items
      ∙ append_assoc (upto_severity ++ after_severity) (escape_json m.formatted_message)
          (after_body ++ items)
      ∙ append_assoc upto_severity after_severity body
      ∙ append_assoc (upto_number ++ after_number) (severity_text m.level) (after_severity ++ body)
      ∙ append_assoc upto_number after_number (severity_text m.level ++ (after_severity ++ body))
      ∙ append_assoc (time ++ after_time) number_text
          (after_number ++ (severity_text m.level ++ (after_severity ++ body)))
      ∙ append_assoc time after_time
          (number_text ++ (after_number ++ (severity_text m.level ++ (after_severity ++ body))))
      ∙ ap₂
          (λ t sev.
            bytes_of "{\"timeUnixNano\":\""
            ++ (t
                ++ (after_time
                    ++ (number_text ++ (after_number ++ (sev ++ (after_severity ++ body)))))))
          (sym (escape_json-digits (decimal m.timestamp) (digits m.timestamp)))
          (sym (escape_json-severity m.level))
    where
      items : List ℕ
      items = write_items true (attributes decimal m) (bytes_of "]}" ++ rest)

      after_time : List ℕ
      after_time = bytes_of "\",\"severityNumber\":"

      after_number : List ℕ
      after_number = bytes_of ",\"severityText\":\""

      after_severity : List ℕ
      after_severity = bytes_of "\",\"body\":{\"stringValue\":\""

      after_body : List ℕ
      after_body = bytes_of "\"},\"attributes\":["

      number_text : List ℕ
      number_text = decimal (1 + level_index m.level * 4)

      time : List ℕ
      time = bytes_of "{\"timeUnixNano\":\"" ++ decimal m.timestamp

      upto_number : List ℕ
      upto_number = time ++ after_time ++ number_text

      upto_severity : List ℕ
      upto_severity = upto_number ++ after_number ++ severity_text m.level

      body : List ℕ
      body = escape_json m.formatted_message ++ (after_body ++ items)

  -- A record is the text of its JSON value.
  pub serialize_record_lem :
      ((n : ℕ) → AllDigits (decimal n))
      → (m : LogMessage) (rest : List ℕ)
      → serialize_record decimal m ++ rest ≡ write (document decimal m) rest
  unfolding serialize_record write escape_json escape_byte
  serialize_record_lem digits m rest =
      append_assoc all.0 (bytes_of "]}") rest
      ∙ at_end.prints (bytes_of "]}" ++ rest)
      ∙ head-write m rest digits
    where
      format : List ℕ × Bool
      format =
          attribute (record_head decimal m, true) (bytes_of "log.format")
            (string_value (escape_json m.format))

      args : List ℕ × Bool
      args = log_args decimal format m.formatted_args

      source : List ℕ × Bool
      source = source_attributes decimal args m.location

      all : List ℕ × Bool
      all = exception_attributes decimal source m.exception

      at_format :
          IsAt format
            (record_head decimal m)
            (push nil (pair_of (bytes_of "log.format") (string_of m.format)))
      at_format =
          attribute-IsAt (record_head decimal m, true) (record_head decimal m) nil
            (bytes_of "log.format") (string_value (escape_json m.format)) (string_of m.format)
            (record { prints = λ tail. refl; first = refl }) refl (string_value-write m.format)

      at_end : IsAt all (record_head decimal m) (attributes decimal m)
      at_end = exception-IsAt decimal source (record_head decimal m) _ m.exception (
          source-IsAt decimal args (record_head decimal m) _ m.location digits
            (args-IsAt decimal format (record_head decimal m) _ m.formatted_args digits at_format))
