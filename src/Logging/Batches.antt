-- ===== src/Logging/Batches.antt =====
-- src/logging/sinks/otel_sink.h: `process_messages`, the worker of the sink, with the options of
-- src/logging/sinks/sinks_opts.h.
pub mod Requests
pub mod Turns
pub mod Sent
use xtd.Base.{
  ℕ, zero, suc, ◌+◌, ◌-◌, ◌*◌, ◌/◌, ◌%◌, ◌^◌, ◌≤◌, ◌<◌, min, max, ◌≡◌, refl, sym, ap, ap₂, subst,
  ◌∙◌, ◌≡⟨◌⟩◌, ◌∎, ◌≢◌, ◌↔◌, ◌⊎◌, inl, inr, Bool, true, false, not, ◌&&◌, ◌||◌, Option, none, some,
  List, [], ◌∷◌, ◌++◌, map, append-nil, append_assoc, arith, dec_lt, ℕ_discrete, ltb, leb, ◌==◌,
  if◌then◌else◌, lt→ltb, le→ltb, le→leb, lt→leb, ltb→lt, ltb→le, ==_iff, ne→==, Bool-cases,
  Option-cases, if_cases, length, get_elem?, take, drop, flatten, push_back, length-append,
  length-push_back, length-take, length-drop, take-append-drop, take_all, drop_all, eq_nil,
  take-zero, drop-zero, take-nil, drop-nil, take-append, drop-append, drop-drop, take-min,
  take-take, take-add, drop-take, take_prefix, drop_prefix, get_elem?-append, get_elem?-append_left,
  get_elem?-is_some, flatten-append, size_mod, add_size, sub_size, add_size_exact, sub_size_exact,
  Error, Result, ok, err, out_of_range, invalid_argument, logic_error, undefined, ◌>>=◌, ◌>>◌,
  mul_size, require, count, remove, count-remove, length-remove,
}
use xtd.Channel.{
  Channel, wait, try_once, ReaderPc, reading, read_waiting, value, unexpected, read_done, read_step,
}
use xtd.Logging.Record.{bytes_of, LogMessage, serialize_record}

-- `otel_sink_opts`, as far as a request shows it.
pub record OtelSinkOpts : Type 0 where
  pub service_namespace : List ℕ
  pub service_name : List ℕ
  pub service_version : List ℕ
  pub service_instance_id : List ℕ
  pub environment_name : List ℕ
  pub batch_size : ℕ

-- `request_header` with the options and the host's name put in, which are not escaped.
unfoldable pub request_head : OtelSinkOpts → List ℕ → List ℕ
request_head opts hostname =
    bytes_of
      "{\"resourceLogs\":[{\"resource\":{\"attributes\":[{\"key\":\"service.namespace\",\"value\":{\"stringValue\":\""
    ++ opts.service_namespace
    ++ bytes_of "\"}},{\"key\":\"service.name\",\"value\":{\"stringValue\":\""
    ++ opts.service_name
    ++ bytes_of "\"}},{\"key\":\"service.version\",\"value\":{\"stringValue\":\""
    ++ opts.service_version
    ++ bytes_of "\"}},{\"key\":\"service.instance.id\",\"value\":{\"stringValue\":\""
    ++ opts.service_instance_id
    ++ bytes_of "\"}},{\"key\":\"host.name\",\"value\":{\"stringValue\":\""
    ++ hostname
    ++ bytes_of "\"}},{\"key\":\"deployment.environment.name\",\"value\":{\"stringValue\":\""
    ++ opts.environment_name
    ++ bytes_of
        "\"}},{\"key\":\"telemetry.sdk.name\",\"value\":{\"stringValue\":\"xtd.logging\"}},{\"key\":\"telemetry.sdk.language\",\"value\":{\"stringValue\":\"cpp\"}}]},\"scopeLogs\":[{\"scope\":{\"name\":\"xtd.logging\",\"version\":\"1.0.0\"},\"logRecords\":["

abbrev pub request_footer : List ℕ
request_footer = bytes_of "]}]}]}"

-- Where the worker stands: in `read`, ahead of the test of the inner loop with so many messages in
-- the body, ahead of `send`, or at the end.
pub data WorkerPc : Type 0 where
  awaiting : ReaderPc LogMessage → WorkerPc
  gathering : ℕ → WorkerPc
  sending : WorkerPc
  finished : WorkerPc

-- The sink's `m_body`, and the bodies given to the transport.
pub record Worker : Type 0 where
  pub pc : WorkerPc
  pub body : List ℕ
  pub sent : List (List ℕ)

module _ (decimal : ℕ → List ℕ) (opts : OtelSinkOpts) (hostname : List ℕ) where
  -- What follows a step of `read`.
  unfoldable pub after_read : Worker → ReaderPc LogMessage → Worker
  unfolding request_head serialize_record
  after_read w (read_done (value message)) = record w {
    pc = gathering 1;
    body = w.body ++ request_head opts hostname ++ serialize_record decimal message;
  }
  after_read w (read_done (unexpected e)) = record w { pc = finished }
  after_read w p = record w { pc = awaiting p }

  -- What follows `try_read`.
  unfoldable pub after_try_read : Worker → ℕ → ReaderPc LogMessage → Worker
  unfolding serialize_record
  after_try_read w msg_count (read_done (value message)) = record w {
    pc = gathering (msg_count + 1);
    body = w.body ++ bytes_of "," ++ serialize_record decimal message;
  }
  after_try_read w msg_count p = record w { pc = sending }

  unfoldable pub process_messages : Channel LogMessage → Worker → Channel LogMessage × Worker
  unfolding after_read after_try_read
  process_messages c w = elim w.pc [
    | awaiting p ↦ let out = read_step c p false in (out.0, after_read w out.1)
    | gathering msg_count ↦
        if ltb msg_count opts.batch_size
        then (let out = read_step c (reading try_once) false in
            (out.0, after_try_read w msg_count out.1))
        else (c, record w { pc = sending })
    | sending ↦ (
      c,
      record {
        pc = awaiting (reading wait);
        body = [];
        sent = push_back w.sent (w.body ++ request_footer);
      },
    )
    | finished ↦ (c, w)
  ]
