-- ===== src/Logging/Batches/Turns.antt =====
-- src/logging/sinks/otel_sink.h: what the worker does with a message that it has read.
use xtd.Base.{
  ℕ, ◌≤◌, ◌<◌, ◌≡◌, refl, sym, ap, ap₂, subst, ◌∙◌, Bool, true, false, List, [], ◌∷◌, ◌++◌, map,
  append-nil, append_assoc, arith, if◌then◌else◌, length, flatten, length-append,
}
use xtd.Channel.{
  Channel, try_once, ReaderPc, reading, read_waiting, peeking, peek_waiting, value, unexpected,
  read_done, peeked,
}
use xtd.Channel.Laws.{Taken}
use xtd.Channel.Queue.{IsFifo, is_reading, taken_by}
use xtd.Logging.Record.{bytes_of, LogMessage, serialize_record}
use xtd.Logging.Batches.{
  OtelSinkOpts, request_head, awaiting, gathering, sending, Worker, after_read, after_try_read,
}
use xtd.Logging.Batches.Requests.{partial, request, AreBatches, Open, IsBatched, partial-append}

module _ (decimal : ℕ → List ℕ) (opts : OtelSinkOpts) (hostname : List ℕ) where
  module _ (positive : 0 < opts.batch_size) (c : Channel LogMessage) (accepted : List LogMessage)
      (body : List ℕ) (sent : List (List ℕ)) (batches : List (List LogMessage))
      (requests : sent ≡ map (request decimal opts hostname) batches)
      (within : AreBatches decimal opts hostname batches) where
    abbrev pub After : Channel LogMessage × Worker → Type 0
    After out =
        IsBatched decimal opts hostname
          (record { channel = out.0; accepted = accepted; worker = out.1 })

    abbrev pub Fifo : Channel LogMessage → List LogMessage → Type 0
    Fifo d taken = IsFifo (record { channel = d; accepted = accepted; taken = taken })

    pub first_read :
        (p to : ReaderPc LogMessage) (d : Channel LogMessage) (notify : Bool)
        → is_reading p ≡ true
        → Taken c false (d, to, notify)
        → Fifo d ((flatten batches ++ []) ++ taken_by p to)
        → After (
          d,
          after_read decimal opts hostname (record { pc = awaiting p; body = []; sent = sent }) to,
        )
    unfolding after_read
    first_read p (read_done (value m)) d notify e t f = record {
      batches = batches;
      current = m ∷ [];
      requests = requests;
      within = within;
      unsent = (
        refl,
        omega arith,
        positive,
        ap (λ l. request_head opts hostname ++ l) (sym (append-nil (serialize_record decimal m))),
      );
      fifo =
          subst (Fifo d)
            (ap₂ (λ k l. k ++ l) (append-nil (flatten batches))
              (ap (λ b. if b then m ∷ [] else []) e))
            f;
    }
    first_read p (read_done (unexpected x)) d notify e t f = record {
      batches = batches;
      current = [];
      requests = requests;
      within = within;
      unsent = (refl, refl);
      fifo = subst (Fifo d) (append-nil (flatten batches ++ [])) f;
    }
    first_read p read_waiting d notify e t f = record {
      batches = batches;
      current = [];
      requests = requests;
      within = within;
      unsent = (refl, refl, refl);
      fifo = subst (Fifo d) (append-nil (flatten batches ++ [])) f;
    }
    first_read p (reading s) d notify e t f = absurd t.1
    first_read p peeking d notify e t f = absurd t.1
    first_read p peek_waiting d notify e t f = absurd t.1
    first_read p (peeked b) d notify e t f = absurd t.1

    pub close :
        (current : List LogMessage) (d : Channel LogMessage)
        → 0 < length current
        → length current ≤ opts.batch_size
        → body ≡ partial decimal opts hostname current
        → Fifo d (flatten batches ++ current)
        → After (d, record { pc = sending; body = body; sent = sent })
    close current d some_messages fits b f = record {
      batches = batches;
      current = current;
      requests = requests;
      within = within;
      unsent = (some_messages, fits, b);
      fifo = f;
    }

    pub stop :
        (n : ℕ) (current : List LogMessage) (d : Channel LogMessage)
        → Open decimal opts hostname (gathering n) body current
        → Fifo d ((flatten batches ++ current) ++ [])
        → After (d, record { pc = sending; body = body; sent = sent })
    stop n current d o f =
        close current d (omega (arith, o.0, o.1)) (omega (arith, o.0, o.2)) o.3
          (subst (Fifo d) (append-nil (flatten batches ++ current)) f)

    pub next_read :
        (n : ℕ) (current : List LogMessage) (to : ReaderPc LogMessage) (d : Channel LogMessage)
        → n < opts.batch_size
        → Open decimal opts hostname (gathering n) body current
        → Fifo d ((flatten batches ++ current) ++ taken_by (reading try_once) to)
        → After (
          d,
          after_try_read decimal opts hostname
              (record { pc = gathering n; body = body; sent = sent })
              n
              to,
        )
    unfolding after_try_read
    next_read n current (read_done (value m)) d room o f = record {
      batches = batches;
      current = current ++ (m ∷ []);
      requests = requests;
      within = within;
      unsent = (
        omega (arith, o.0, length-append current (m ∷ [])),
        omega arith,
        omega (arith, room),
        ap (λ l. l ++ bytes_of "," ++ serialize_record decimal m) o.3
            ∙ sym (partial-append decimal opts hostname current m (omega (arith, o.0, o.1))),
      );
      fifo = subst (Fifo d) (append_assoc (flatten batches) current (m ∷ [])) f;
    }
    next_read n current (read_done (unexpected x)) d room o f = stop n current d o f
    next_read n current read_waiting d room o f = stop n current d o f
    next_read n current (reading s) d room o f = stop n current d o f
    next_read n current peeking d room o f = stop n current d o f
    next_read n current peek_waiting d room o f = stop n current d o f
    next_read n current (peeked b) d room o f = stop n current d o f
