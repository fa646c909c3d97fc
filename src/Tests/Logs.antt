-- ===== src/Tests/Logs.antt =====
-- src/logging: runs of the sinks' parts.
use xtd.Base.{
  ℕ, zero, suc, ◌+◌, ◌/◌, ◌%◌, ◌≤◌, ◌<◌, ◌≡◌, refl, sym, ap, subst, ◌⊎◌, inl, inr, true, false,
  some, List, [], ◌∷◌, ◌++◌, arith, ltb, Bool-cases, length, ok,
}
use xtd.Logging.Escape.{escape_json}
use xtd.Logging.Escape.Reading.{scan, plain, escape_json_lem}
use xtd.Logging.Json.Reader.{is_digit, AllDigits, read_value, size}
use xtd.Logging.Record.{bytes_of, LogMessage, warning, serialize_record}
use xtd.Logging.Record.Document.{document}
use xtd.Logging.Record.Received.{serialize_record-read}
use xtd.Channel.{try_once, emplacing, write_step}
use xtd.Channel.Queue.{put_by}
use xtd.Logging.Batches.{OtelSinkOpts, process_messages}
use xtd.Logging.Batches.Requests.{World, IsBatched}
use xtd.Logging.Batches.Sent.{Steps, done, after, write, work, start, batches_lem}
use xtd.Logging.Output.{WriteAnswer, wrote, interrupted, failed, write_to_output}
use xtd.Logging.Output.Delivery.{Delivered, write_to_output_lem}

-- a quote, a backslash, a tab, the byte 1 and a letter
abbrev awkward : List ℕ
awkward = b'"' ∷ b'\\' ∷ 9 ∷ 1 ∷ b'x' ∷ []

escape_json_example :
    scan plain (escape_json awkward ++ b'"' ∷ b'}' ∷ []) ≡ some (awkward, b'}' ∷ [])
escape_json_example = escape_json_lem awkward (b'}' ∷ [])

awkward_run :
    escape_json awkward
    ≡ b'\\' ∷ b'"' ∷ b'\\' ∷ b'\\' ∷ b'\\' ∷ b't' ∷ b'\\' ∷ b'u' ∷ b'0' ∷ b'0' ∷ b'0' ∷ b'1' ∷ b'x'
      ∷ []
unfolding escape_json xtd.Logging.Escape.escape_byte xtd.Logging.Escape.hex_digit
awkward_run = refl

-- The first call is interrupted, every other one puts one byte in.
abbrev one_by_one : ℕ → List ℕ → WriteAnswer
one_by_one call [] = wrote 0
one_by_one zero (b ∷ rest) = interrupted
one_by_one (suc call) (b ∷ rest) = wrote 1

count_of : WriteAnswer → ℕ
count_of (wrote n) = n
count_of interrupted = 0
count_of failed = 0

one_by_one_bounded :
    (call : ℕ) (rest : List ℕ) (n : ℕ) → one_by_one call rest ≡ wrote n → n ≤ length rest
unfolding count_of
one_by_one_bounded call [] n e = omega (arith, ap count_of e)
one_by_one_bounded zero (b ∷ rest) n e = omega (arith, ap count_of e)
one_by_one_bounded (suc call) (b ∷ rest) n e = omega (arith, ap count_of e)

one_by_one_settles :
    (call : ℕ) (rest : List ℕ)
    → 1 ≤ call
    → 0 < length rest
    → (one_by_one call rest ≡ failed) ⊎ ((n : ℕ) × (0 < n) × (one_by_one call rest ≡ wrote n))
one_by_one_settles call [] late some_left = absurd (omega (arith, some_left))
one_by_one_settles zero (b ∷ rest) late some_left = absurd (omega (arith, late))
one_by_one_settles (suc call) (b ∷ rest) late some_left = inr (1, omega arith, refl)

write_to_output_example :
    Delivered one_by_one true awkward (write_to_output one_by_one true 7 awkward)
write_to_output_example =
    write_to_output_lem one_by_one true one_by_one_bounded 1 one_by_one_settles awkward
      (omega arith)

-- The decimal digits of a number in front of others, on fuel.
abbrev digits_before : ℕ → ℕ → List ℕ → List ℕ
digits_before zero n behind = (b'0' + n % 10) ∷ behind
digits_before (suc fuel) n behind = elim (ltb n 10) [
  | true ↦ (b'0' + n % 10) ∷ behind
  | false ↦ digits_before fuel (n / 10) ((b'0' + n % 10) ∷ behind)
]

abbrev decimal : ℕ → List ℕ
decimal n = digits_before n n []

a_digit : (n : ℕ) → is_digit (b'0' + n % 10) ≡ true
a_digit n = ground arith

abbrev SomeDigits : List ℕ → Type 0
SomeDigits l = (0 < length l) × AllDigits l

digits_before_lem :
    (fuel n : ℕ) (behind : List ℕ) → AllDigits behind → SomeDigits (digits_before fuel n behind)
digits_before_lem zero n behind d = (omega arith, (a_digit n, d))
digits_before_lem (suc fuel) n behind d = elim (Bool-cases (ltb n 10)) [
  | inl e ↦
      let same : digits_before (suc fuel) n behind ≡ (b'0' + n % 10) ∷ behind = ground (arith, e) in
      subst SomeDigits (sym same) (omega arith, (a_digit n, d))
  | inr e ↦
      let same : digits_before (suc fuel) n behind
          ≡ digits_before fuel (n / 10) ((b'0' + n % 10) ∷ behind) =
        ground (arith, e) in
      subst SomeDigits (sym same)
        (digits_before_lem fuel (n / 10) ((b'0' + n % 10) ∷ behind) (a_digit n, d))
]

decimal-digits : (n : ℕ) → (0 < length (decimal n)) × AllDigits (decimal n)
decimal-digits n = digits_before_lem n n [] tt

abbrev complaint : LogMessage
complaint = record {
  formatted_message = bytes_of "no \"x\"";
  formatted_args = bytes_of "x" ∷ bytes_of "a\\b" ∷ [];
  timestamp = 120;
  exception = some (record { type_name = bytes_of "E"; message = bytes_of "gone" });
  format = bytes_of "no {}";
  location = record { file_name = bytes_of "m.cpp"; line = 12; function_name = bytes_of "f" };
  level = warning;
}

serialize_record_example :
    read_value (size (document decimal complaint)) (serialize_record decimal complaint ++ b']' ∷ [])
    ≡ ok (document decimal complaint, b']' ∷ [])
serialize_record_example = serialize_record-read decimal decimal-digits complaint (b']' ∷ [])

-- One message goes through a sink with batches of two.
abbrev sink_opts : OtelSinkOpts
sink_opts = record {
  service_namespace = bytes_of "n";
  service_name = bytes_of "s";
  service_version = bytes_of "1";
  service_instance_id = bytes_of "i";
  environment_name = bytes_of "e";
  batch_size = 2;
}

abbrev hostname : List ℕ
hostname = bytes_of "host"

abbrev new_sink : World
new_sink = start decimal sink_opts hostname

abbrev pushed : World
pushed = record new_sink {
  channel = (write_step new_sink.channel (emplacing try_once complaint) false).0;
  accepted =
      new_sink.accepted
      ++ put_by (emplacing try_once complaint)
          (write_step new_sink.channel (emplacing try_once complaint) false).1;
}

abbrev worked : World → World
worked w = record w {
  channel = (process_messages decimal sink_opts hostname w.channel w.worker).0;
  worker = (process_messages decimal sink_opts hostname w.channel w.worker).1;
}

-- The worker reads the message, finds no second one, and sends the request.
abbrev delivered : World
delivered = worked (worked (worked pushed))

delivered-Steps : Steps decimal sink_opts hostname new_sink delivered
delivered-Steps =
    after
      (after
        (after (after (done new_sink) (write new_sink (emplacing try_once complaint) false))
          (work pushed))
        (work (worked pushed)))
      (work (worked (worked pushed)))

batches_example : IsBatched decimal sink_opts hostname delivered
batches_example = batches_lem decimal sink_opts hostname (omega arith) delivered-Steps
