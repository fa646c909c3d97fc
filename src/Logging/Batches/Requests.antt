-- ===== src/Logging/Batches/Requests.antt =====
-- src/logging/sinks/otel_sink.h: a batch of messages and its request.
use xtd.Base.{
  ℕ, ◌≤◌, ◌<◌, ◌≡◌, refl, sym, ap, ◌∙◌, true, List, [], ◌∷◌, ◌++◌, map, append-nil, append_assoc,
  arith, length, flatten, push_back,
}
use xtd.Channel.{Channel}
use xtd.Channel.Queue.{IsFifo, is_reading}
use xtd.Logging.Record.{bytes_of, LogMessage, serialize_record}
use xtd.Logging.Batches.{
  OtelSinkOpts, request_head, request_footer, WorkerPc, awaiting, gathering, sending, finished,
  Worker,
}

-- The channel, the messages it has accepted, and the worker.
pub record World : Type 0 where
  pub channel : Channel LogMessage
  pub accepted : List LogMessage
  pub worker : Worker

module _ {ℓ} {A : Type ℓ} where
  assoc_lem : (a b c d : List A) → a ++ (b ++ c ++ d) ≡ (a ++ b) ++ c ++ d
  assoc_lem a b c d =
      ap (λ l. a ++ l) (append_assoc b c d)
      ∙ sym (append_assoc a b (c ++ d))
      ∙ sym (append_assoc (a ++ b) c d)

  pub flatten-push_back :
      (bs : List (List A)) (b : List A) → flatten (push_back bs b) ≡ flatten bs ++ b
  flatten-push_back [] b = append-nil b
  flatten-push_back (a ∷ bs) b =
      ap (λ l. a ++ l) (flatten-push_back bs b) ∙ sym (append_assoc a (flatten bs) b)

pub map-push_back :
    {A B : Type 0} (f : A → B) (xs : List A) (x : A)
    → map f (push_back xs x) ≡ push_back (map f xs) (f x)
map-push_back f [] x = refl
map-push_back f (y ∷ xs) x = ap (◌∷◌ (f y)) (map-push_back f xs x)

module _ (decimal : ℕ → List ℕ) (opts : OtelSinkOpts) (hostname : List ℕ) where
  -- The records of a batch, and the request that a batch makes.
  abbrev pub others : List LogMessage → List ℕ
  others [] = []
  others (m ∷ ms) = bytes_of "," ++ (serialize_record decimal m ++ others ms)

  abbrev pub partial : List LogMessage → List ℕ
  partial [] = []
  partial (m ∷ ms) = request_head opts hostname ++ (serialize_record decimal m ++ others ms)

  abbrev pub request : List LogMessage → List ℕ
  request ms = partial ms ++ request_footer

  abbrev pub AreBatches : List (List LogMessage) → Type 0
  AreBatches [] = Unit {0}
  AreBatches (b ∷ bs) = ((0 < length b) × (length b ≤ opts.batch_size)) × AreBatches bs

  -- The batch that is being put together.
  abbrev pub Open : WorkerPc → List ℕ → List LogMessage → Type 0
  Open (awaiting p) body current = (current ≡ []) × (body ≡ []) × (is_reading p ≡ true)
  Open (gathering n) body current =
      (n ≡ length current) × (0 < n) × (n ≤ opts.batch_size) × (body ≡ partial current)
  Open sending body current =
      (0 < length current) × (length current ≤ opts.batch_size) × (body ≡ partial current)
  Open finished body current = (current ≡ []) × (body ≡ [])

  pub record IsBatched (w : World) : Type 0 where
    pub batches : List (List LogMessage)
    pub current : List LogMessage
    pub requests : w.worker.sent ≡ map request batches
    pub within : AreBatches batches
    pub unsent : Open w.worker.pc w.worker.body current
    pub fifo :
        IsFifo (record {
          channel = w.channel;
          accepted = w.accepted;
          taken = flatten batches ++ current;
        })

  others-append :
      (ms : List LogMessage) (m : LogMessage)
      → others (ms ++ (m ∷ [])) ≡ others ms ++ bytes_of "," ++ serialize_record decimal m
  others-append [] m = ap (λ l. bytes_of "," ++ l) (append-nil (serialize_record decimal m))
  others-append (k ∷ ms) m =
      ap (λ l. bytes_of "," ++ (serialize_record decimal k ++ l)) (others-append ms m)
      ∙ ap (λ l. bytes_of "," ++ l)
          (assoc_lem (serialize_record decimal k) (others ms) (bytes_of ",")
            (serialize_record decimal m))

  pub partial-append :
      (ms : List LogMessage) (m : LogMessage)
      → 0 < length ms
      → partial (ms ++ (m ∷ [])) ≡ partial ms ++ bytes_of "," ++ serialize_record decimal m
  partial-append [] m some_ms = absurd (omega (arith, some_ms))
  partial-append (k ∷ ms) m some_ms =
      ap (λ l. request_head opts hostname ++ (serialize_record decimal k ++ l)) (others-append ms m)
      ∙ ap (λ l. request_head opts hostname ++ l)
          (assoc_lem (serialize_record decimal k) (others ms) (bytes_of ",")
            (serialize_record decimal m))
      ∙ assoc_lem (request_head opts hostname) (serialize_record decimal k ++ others ms)
          (bytes_of ",") (serialize_record decimal m)

  pub AreBatches-push_back :
      (bs : List (List LogMessage)) (b : List LogMessage)
      → AreBatches bs
      → (0 < length b) × (length b ≤ opts.batch_size)
      → AreBatches (push_back bs b)
  AreBatches-push_back [] b h k = (k, tt)
  AreBatches-push_back (a ∷ bs) b h k = (h.0, AreBatches-push_back bs b h.1 k)
