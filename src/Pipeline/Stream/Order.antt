-- ===== src/Pipeline/Stream/Order.antt =====
-- src/pipeline/pipeline_impl.h: every step keeps the bytes in order.
use xtd.Base.{
  ℕ, ◌+◌, ◌≤◌, ◌<◌, ◌≡◌, refl, sym, ap, ap₂, subst, ◌∙◌, Bool, List, ◌++◌, append-nil, append_assoc,
  arith, length, take, drop, length-drop, take-append-drop, drop-drop, take-add, size_mod, ok,
}
use xtd.Pipeline.Options.{PipeOptions, ValidatedOptions, validate_options}
use xtd.Pipeline.State.{Pipeline, create}
use xtd.Pipeline.Write.{WriterPc, entering, asleep, returned, failed, write_step}
use xtd.Pipeline.Complete.{complete_writer}
use xtd.Pipeline.Invariant.{contents, create-IsLive, IsLive}
use xtd.Pipeline.Rounds.{Written}
use xtd.Pipeline.Writing.{Moved, write_step_lem}
use xtd.Pipeline.Stream.{
  World, start, wrote, Step, call, write, begin_read, read, consume, complete, Steps, done, after,
  Progress, InOrder,
}
use xtd.Pipeline.Stream.Reader.{read-kept, accepted-Advanced}

-- The stream after `k` more bytes of the data.
more :
    (w : World) (q : Pipeline) (n k : ℕ)
    → w.consumed ++ contents w.pipe ≡ w.sent ++ take n w.payload
    → Written w.pipe (drop n w.payload) k q
    → w.consumed ++ contents q ≡ w.sent ++ take (n + k) w.payload
more w q n k stream put =
    ap (◌++◌ w.consumed) put.appended
    ∙ sym (append_assoc w.consumed (contents w.pipe) (take k (drop n w.payload)))
    ∙ ap (λ l. l ++ take k (drop n w.payload)) stream
    ∙ append_assoc w.sent (take n w.payload) (take k (drop n w.payload))
    ∙ ap (◌++◌ w.sent) (sym (take-add n k w.payload))

-- From a step's outcome to the world after it.
Moved-InOrder :
    (stop : ℕ → Bool) (w : World) (n : ℕ) (out : Pipeline × WriterPc × Bool)
    → IsLive w.pipe
    → length w.payload < size_mod
    → n ≤ length w.payload
    → w.consumed ++ contents w.pipe ≡ w.sent ++ take n w.payload
    → Moved stop w.pipe (drop n w.payload) n out
    → InOrder (wrote w out)
Moved-InOrder stop w n (q, entering rest count, notify) live narrow most stream
      (k, fewer, e, c, put, end) =
    record {
      live = put.live;
      narrow = narrow;
      copied = n + k;
      progress = (e ∙ drop-drop k n w.payload, c, omega (arith, length-drop n w.payload));
      stream = more w q n k stream put;
    }
Moved-InOrder stop w n (q, asleep rest count, notify) live narrow most stream
      (same, e, c, paused, going) =
    record {
      live = subst IsLive (sym same) live;
      narrow = narrow;
      copied = n;
      progress = (e, c, most);
      stream = ap (λ p. w.consumed ++ contents p) same ∙ stream;
    }
Moved-InOrder stop w n (q, returned count, notify) live narrow most stream (k, fewer, c, put, end) =
    record {
      live = put.live;
      narrow = narrow;
      copied = n + k;
      progress = (c, omega (arith, length-drop n w.payload));
      stream = more w q n k stream put;
    }
Moved-InOrder stop w n (q, failed e, notify) live narrow most stream
      (k, fewer, put, completed, error) =
    record {
      live = put.live;
      narrow = narrow;
      copied = n + k;
      progress = omega (arith, length-drop n w.payload);
      stream = more w q n k stream put;
    }

module _ (allocate : Pipeline → List ℕ)
    (blocks : (q : Pipeline) → length (allocate q) ≡ q.buffer_size) where
  write-InOrder :
      (stop : ℕ → Bool) (w : World) (pc : WriterPc)
      → w.writer ≡ pc
      → InOrder w
      → InOrder (wrote w (write_step allocate stop w.pipe pc))
  unfolding write_step
  write-InOrder stop w (entering bytes count) at h =
      let (e, c, most) = subst (λ pc. Progress pc w.payload h.copied) at h.progress in
      Moved-InOrder stop w h.copied _ h.live h.narrow most h.stream (
        subst
          (λ (b, n).
            Moved stop w.pipe (drop h.copied w.payload) h.copied
              (write_step allocate stop w.pipe (entering b n)))
          (ap₂ (λ b n. (b, n)) (sym e) (sym c))
          (write_step_lem allocate stop blocks w.pipe (drop h.copied w.payload) h.copied h.live
            (omega (arith, length-drop h.copied w.payload, h.narrow))).0)
  write-InOrder stop w (asleep bytes count) at h =
      let (e, c, most) = subst (λ pc. Progress pc w.payload h.copied) at h.progress in
      Moved-InOrder stop w h.copied _ h.live h.narrow most h.stream (
        subst
          (λ (b, n).
            Moved stop w.pipe (drop h.copied w.payload) h.copied
              (write_step allocate stop w.pipe (asleep b n)))
          (ap₂ (λ b n. (b, n)) (sym e) (sym c))
          (write_step_lem allocate stop blocks w.pipe (drop h.copied w.payload) h.copied h.live
            (omega (arith, length-drop h.copied w.payload, h.narrow))).1)
  write-InOrder stop w (returned count) at h = record {
    live = h.live;
    narrow = h.narrow;
    copied = h.copied;
    progress = subst (λ pc. Progress pc w.payload h.copied) at h.progress;
    stream = h.stream;
  }
  write-InOrder stop w (failed e) at h = record {
    live = h.live;
    narrow = h.narrow;
    copied = h.copied;
    progress = subst (λ pc. Progress pc w.payload h.copied) at h.progress;
    stream = h.stream;
  }

-- What is held, split at what an accepted `advance` consumes.
consumed_stream :
    (w : World) (n k : ℕ) (q : Pipeline)
    → w.consumed ++ contents w.pipe ≡ w.sent ++ take k w.payload
    → contents q ≡ drop n (contents w.pipe)
    → (w.consumed ++ take n (contents w.pipe)) ++ contents q ≡ w.sent ++ take k w.payload
consumed_stream w n k q stream dropped =
    ap (◌++◌ (w.consumed ++ take n (contents w.pipe))) dropped
    ∙ append_assoc w.consumed (take n (contents w.pipe)) (drop n (contents w.pipe))
    ∙ ap (◌++◌ w.consumed) (take-append-drop n (contents w.pipe))
    ∙ stream

module _ (allocate : Pipeline → List ℕ)
    (blocks : (q : Pipeline) → length (allocate q) ≡ q.buffer_size) where
  Step-InOrder : {v w : World} → Step allocate v w → InOrder v → InOrder w
  unfolding complete_writer
  Step-InOrder (call v bytes count at small) h =
      let (same, most) = subst (λ pc. Progress pc v.payload h.copied) at h.progress in
      record {
        live = h.live;
        narrow = small;
        copied = 0;
        progress = (refl, refl, omega arith);
        stream =
            h.stream
            ∙ ap (λ n. v.sent ++ take n v.payload) (sym same)
            ∙ sym (append-nil (v.sent ++ take count v.payload));
      }
  Step-InOrder (write v stop) h = write-InOrder allocate blocks stop v v.writer refl h
  Step-InOrder (begin_read v min_size) h = record {
    live = h.live;
    narrow = h.narrow;
    copied = h.copied;
    progress = h.progress;
    stream = h.stream;
  }
  Step-InOrder (read v stopped) h =
      let (live, kept) = read-kept v.reader stopped h.live in
      record {
        live = live;
        narrow = h.narrow;
        copied = h.copied;
        progress = h.progress;
        stream = ap (◌++◌ v.consumed) kept ∙ h.stream;
      }
  Step-InOrder (consume v upto examined out accepted) h =
      let a = accepted-Advanced upto examined out h.live accepted in
      record {
        live = a.live;
        narrow = h.narrow;
        copied = h.copied;
        progress = h.progress;
        stream = consumed_stream v upto.offset h.copied out.0 h.stream a.dropped;
      }
  Step-InOrder (complete v) h = record {
    live = record {
      used = h.live.used;
      buffered = h.live.buffered;
      actual = h.live.actual;
      bounded = h.live.bounded;
      positive = h.live.positive;
      small = h.live.small;
      narrow = h.live.narrow;
      pending = h.live.pending;
      examined = h.live.examined;
    };
    narrow = h.narrow;
    copied = h.copied;
    progress = h.progress;
    stream = h.stream;
  }

  Steps-InOrder : {v w : World} → Steps allocate v w → InOrder v → InOrder w
  Steps-InOrder (done v) h = h
  Steps-InOrder (after steps step) h = Step-InOrder step (Steps-InOrder steps h)

  -- From a pipeline newly made with accepted options, whatever the order of the steps of calls of
  -- `write`, `read`, `advance` and the writer's `complete`, one call of `write` at a time: the
  -- pipeline stays live, and the bytes consumed followed by those held are exactly the bytes that
  -- earlier calls of `write` have counted, followed by the first bytes of the latest call, as many
  -- as it has counted.
  pub stream_lem :
      {w : World} (o : PipeOptions) (v : ValidatedOptions)
      → o.pause_writer_threshold < size_mod
      → o.buffer_size < size_mod
      → validate_options o ≡ ok v
      → Steps allocate (start (create v)) w
      → InOrder w
  unfolding start
  stream_lem o v small narrow accepted steps =
      let (live, clear) = create-IsLive o v small narrow accepted in
      Steps-InOrder steps (record {
        live = live;
        narrow = omega arith;
        copied = 0;
        progress = (refl, omega arith);
        stream = clear;
      })
