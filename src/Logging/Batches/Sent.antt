-- ===== src/Logging/Batches/Sent.antt =====
-- src/logging/sinks/otel_sink.h: the worker and the writers in any order.
use xtd.Base.{
  ℕ, ◌<◌, ◌≡◌, refl, sym, ap, ap₂, subst, ◌∙◌, inl, Bool, true, false, List, [], ◌++◌, append-nil,
  arith, ltb, ltb→lt, if_cases, flatten, push_back,
}
use xtd.Channel.{
  Channel, wait, try_once, ReaderPc, reading, read_waiting, peeking, peek_waiting, read_done,
  peeked, read_step, WriterPc, write_step, complete_writer, create,
}
use xtd.Channel.Laws.{Taken, take_lem}
use xtd.Channel.Queue.{IsFifo, put_by, is_reading, taken_by}
use xtd.Channel.Queue.Order.{write-IsFifo, read-IsFifo}
use xtd.Logging.Record.{LogMessage}
use xtd.Logging.Batches.{
  OtelSinkOpts, request_footer, WorkerPc, awaiting, gathering, sending, finished, Worker,
  after_read, process_messages,
}
use xtd.Logging.Batches.Requests.{
  World, flatten-push_back, map-push_back, request, IsBatched, AreBatches-push_back,
}
use xtd.Logging.Batches.Turns.{first_read, next_read, close}

module _ (decimal : ℕ → List ℕ) (opts : OtelSinkOpts) (hostname : List ℕ) where
  -- Some writer, the destructor, or the worker takes a step.
  pub data Step : World → World → Type 0 where
    write :
        (w : World) (pc : WriterPc LogMessage) (stopped : Bool)
        → Step w (record w {
          channel = (write_step w.channel pc stopped).0;
          accepted = w.accepted ++ put_by pc (write_step w.channel pc stopped).1;
        })
    complete : (w : World) → Step w (record w { channel = complete_writer w.channel })
    work :
        (w : World)
        → Step w (record w {
          channel = (process_messages decimal opts hostname w.channel w.worker).0;
          worker = (process_messages decimal opts hostname w.channel w.worker).1;
        })

  pub data Steps : World → World → Type 0 where
    done : (w : World) → Steps w w
    after : {u v w : World} → Steps u v → Step v w → Steps u w

  reading-Taken :
      (c : Channel LogMessage) (p : ReaderPc LogMessage)
      → is_reading p ≡ true
      → Taken c false (read_step c p false)
  reading-Taken c (reading wait) e = (take_lem c false).0
  reading-Taken c (reading try_once) e = (take_lem c false).1
  reading-Taken c read_waiting e = (take_lem c false).2
  reading-Taken c peeking e = absurd (cc e)
  reading-Taken c peek_waiting e = absurd (cc e)
  reading-Taken c (read_done o) e = absurd (cc e)
  reading-Taken c (peeked b) e = absurd (cc e)

  abbrev Next : List LogMessage → Channel LogMessage × Worker → Type 0
  Next accepted out =
      IsBatched decimal opts hostname
        (record { channel = out.0; accepted = accepted; worker = out.1 })

  work-IsBatched :
      0 < opts.batch_size
      → (c : Channel LogMessage) (accepted : List LogMessage) (pc : WorkerPc) (body : List ℕ)
        (sent : List (List ℕ))
      → Next accepted (c, record { pc = pc; body = body; sent = sent })
      → Next accepted
          (process_messages decimal opts hostname c (record { pc = pc; body = body; sent = sent }))
  unfolding process_messages
  work-IsBatched positive c accepted (awaiting p) body sent h =
      subst
        (λ b. Next accepted (
          (read_step c p false).0,
          after_read decimal opts hostname (record { pc = awaiting p; body = b; sent = sent })
              (read_step c p false).1,
        ))
        (sym h.unsent.1)
        (first_read decimal opts hostname positive c accepted body sent h.batches h.requests
          h.within p (read_step c p false).1 (read_step c p false).0 (read_step c p false).2
          h.unsent.2 (reading-Taken c p h.unsent.2)
          (subst
            (λ l. IsFifo (record {
              channel = (read_step c p false).0;
              accepted = accepted;
              taken = (flatten h.batches ++ l) ++ taken_by p (read_step c p false).1;
            }))
            h.unsent.0
            (read-IsFifo
              (record { channel = c; accepted = accepted; taken = flatten h.batches ++ h.current })
              p false h.fifo)))
  work-IsBatched positive c accepted (gathering n) body sent h =
      if_cases (Next accepted) (ltb n opts.batch_size) _ _
        (λ room.
          next_read decimal opts hostname positive c accepted body sent h.batches h.requests
            h.within n h.current (read_step c (reading try_once) false).1
            (read_step c (reading try_once) false).0 (ltb→lt n opts.batch_size room) h.unsent
            (read-IsFifo
              (record { channel = c; accepted = accepted; taken = flatten h.batches ++ h.current })
              (reading try_once) false h.fifo))
        (λ full.
          close decimal opts hostname positive c accepted body sent h.batches h.requests h.within
            h.current c (omega (arith, h.unsent.0, h.unsent.1))
            (omega (arith, h.unsent.0, h.unsent.2)) h.unsent.3 h.fifo)
  work-IsBatched positive c accepted sending body sent h = record {
    batches = push_back h.batches h.current;
    current = [];
    requests =
        ap₂ push_back h.requests (ap (λ l. l ++ request_footer) h.unsent.2)
        ∙ sym (map-push_back (request decimal opts hostname) h.batches h.current);
    within =
        AreBatches-push_back decimal opts hostname h.batches h.current h.within
          (h.unsent.0, h.unsent.1);
    unsent = (refl, refl, refl);
    fifo =
        subst (λ l. IsFifo (record { channel = c; accepted = accepted; taken = l }))
          (sym (
            append-nil (flatten (push_back h.batches h.current))
            ∙ flatten-push_back h.batches h.current))
          h.fifo;
  }
  work-IsBatched positive c accepted finished body sent h = h

  Step-IsBatched :
      {v w : World}
      → 0 < opts.batch_size
      → Step v w
      → IsBatched decimal opts hostname v
      → IsBatched decimal opts hostname w
  unfolding complete_writer
  Step-IsBatched positive (write v pc stopped) h = record {
    batches = h.batches;
    current = h.current;
    requests = h.requests;
    within = h.within;
    unsent = h.unsent;
    fifo =
        write-IsFifo
          (record {
            channel = v.channel;
            accepted = v.accepted;
            taken = flatten h.batches ++ h.current;
          })
          pc stopped h.fifo;
  }
  Step-IsBatched positive (complete v) h = record {
    batches = h.batches;
    current = h.current;
    requests = h.requests;
    within = h.within;
    unsent = h.unsent;
    fifo = record { order = h.fifo.order; bounded = h.fifo.bounded };
  }
  Step-IsBatched positive (work v) h =
      work-IsBatched positive v.channel v.accepted v.worker.pc v.worker.body v.worker.sent h

  Steps-IsBatched :
      {v w : World}
      → 0 < opts.batch_size
      → Steps v w
      → IsBatched decimal opts hostname v
      → IsBatched decimal opts hostname w
  Steps-IsBatched positive (done v) h = h
  Steps-IsBatched positive (after steps step) h =
      Step-IsBatched positive step (Steps-IsBatched positive steps h)

  -- A new sink.
  unfoldable pub start : World
  unfolding create
  start = record {
    channel = create 0;
    accepted = [];
    worker = record { pc = awaiting (reading wait); body = []; sent = [] };
  }

  -- Whatever the order of the steps of any number of writers, the destructor and the worker on a
  -- new sink with a batch size above zero: the requests sent are those of batches of messages, each
  -- of at least one and at most so many as the batch size; the messages of the batches, then those
  -- in the request that is being put together, then those queued are the messages that the channel
  -- accepted, in order, so that none is lost or sent twice; and the body holds exactly the request
  -- so far, nothing if there is none.
  pub batches_lem :
      {w : World} → 0 < opts.batch_size → Steps start w → IsBatched decimal opts hostname w
  unfolding start create
  batches_lem positive steps = Steps-IsBatched positive steps (record {
    batches = [];
    current = [];
    requests = refl;
    within = tt;
    unsent = (refl, refl, refl);
    fifo = record { order = refl; bounded = inl refl };
  })
