-- ===== src/Pipeline/Stream.antt =====
-- src/pipeline/pipeline_impl.h: the writer and the reader at work on one pipeline, their steps in
-- any order.
mod Reader
pub mod Order
use xtd.Base.{
  ℕ, zero, suc, ◌+◌, ◌-◌, ◌*◌, ◌/◌, ◌%◌, ◌^◌, ◌≤◌, ◌<◌, min, max, ◌≡◌, refl, sym, ap, ap₂, subst,
  ◌∙◌, ◌≡⟨◌⟩◌, ◌∎, ◌≢◌, ◌↔◌, ◌⊎◌, inl, inr, Bool, true, false, not, ◌&&◌, ◌||◌, Option, none, some,
  List, [], ◌∷◌, ◌++◌, map, append-nil, append_assoc, arith, dec_lt, ℕ_discrete, ltb, leb, ◌==◌,
  if◌then◌else◌, lt→ltb, le→ltb, le→leb, lt→leb, ltb→lt, ltb→le, ==_iff, ne→==, Bool-cases,
  Option-cases, if_cases, length, get_elem?, take, drop, flatten, push_back, length-append,
  length-push_back, length-take, length-drop, take-append-drop, take_all, drop_all, eq_nil,
  take-zero, drop-zero, take-nil, drop-nil, take-append, drop-append, drop-drop, take-min,
  take-take, take-add, drop-take, take_prefix, drop_prefix, get_elem?-append, get_elem?-append_left,
  get_elem?-is_some, flatten-append, size_mod, add_size, sub_size, add_size_exact, sub_size_exact,
  Error, Result, ok, err, out_of_range, invalid_argument, logic_error, undefined, ◌>>=◌, ◌>>◌,
  require,
}
use xtd.Position.{Position}
use xtd.Pipeline.Options.{PipeOptions, ValidatedOptions, validate_options}
use xtd.Pipeline.State.{Pipeline, create}
use xtd.Pipeline.Write.{WriterPc, entering, asleep, returned, failed, write_step}
use xtd.Pipeline.Read.{ReaderPc, reading, waiting, got, refused, read_step, cancelled_result}
use xtd.Pipeline.Advance.{advance}
use xtd.Pipeline.Complete.{complete_writer}
use xtd.Pipeline.Invariant.{contents, create-IsLive, IsLive}
use xtd.Pipeline.Rounds.{Written}
use xtd.Pipeline.Writing.{Moved, write_step_lem}
use xtd.Pipeline.Reading.{Answered, read_step_lem}
use xtd.Pipeline.Advancing.{Advanced, advance_lem}

-- `payload` holds the bytes of the writer's latest call; `sent` and `consumed` record all bytes that
-- earlier calls of `write` have counted and all bytes that the reader has consumed.
pub record World : Type 0 where
  pub pipe : Pipeline
  pub writer : WriterPc
  pub reader : ReaderPc
  pub payload : List ℕ
  pub sent : List ℕ
  pub consumed : List ℕ

unfoldable pub start : Pipeline → World
start p = record {
  pipe = p;
  writer = returned 0;
  reader = got (cancelled_result false);
  payload = [];
  sent = [];
  consumed = [];
}

-- The world after a step of the writer, and after one of the reader.
abbrev pub wrote : World → Pipeline × WriterPc × Bool → World
wrote w out = record w { pipe = out.0; writer = out.1 }

abbrev pub looked : World → Pipeline × ReaderPc → World
looked w out = record w { pipe = out.0; reader = out.1 }

-- A step of either side; a wait may be woken at any time, and what the stop tokens say is open.
pub data Step (allocate : Pipeline → List ℕ) : World → World → Type 0 where
  call :
      (w : World) (bytes : List ℕ) (count : ℕ)
      → w.writer ≡ returned count
      → length bytes < size_mod
      → Step allocate w (record w {
        writer = entering bytes 0;
        payload = bytes;
        sent = w.sent ++ take count w.payload;
      })
  write :
      (w : World) (stop : ℕ → Bool)
      → Step allocate w (wrote w (write_step allocate stop w.pipe w.writer))
  begin_read : (w : World) (min_size : ℕ) → Step allocate w (record w { reader = reading min_size })
  read :
      (w : World) (stopped : Bool) → Step allocate w (looked w (read_step w.pipe w.reader stopped))
  consume :
      (w : World) (upto examined : Position) (out : Pipeline × Bool)
      → advance w.pipe upto examined ≡ ok out
      → Step allocate w
          (record w { pipe = out.0; consumed = w.consumed ++ take upto.offset (contents w.pipe) })
  complete : (w : World) → Step allocate w (record w { pipe = complete_writer w.pipe })

-- Zero or more steps.
pub data Steps (allocate : Pipeline → List ℕ) : World → World → Type 0 where
  done : (w : World) → Steps allocate w w
  after : {u v w : World} → Steps allocate u v → Step allocate v w → Steps allocate u w

-- How far the writer's latest call has come: the first `k` bytes of its payload are in.
abbrev pub Progress : WriterPc → List ℕ → ℕ → Type 0
Progress (entering rest count) bytes k = (rest ≡ drop k bytes) × (count ≡ k) × (k ≤ length bytes)
Progress (asleep rest count) bytes k = (rest ≡ drop k bytes) × (count ≡ k) × (k ≤ length bytes)
Progress (returned count) bytes k = (count ≡ k) × (k ≤ length bytes)
Progress (failed e) bytes k = k ≤ length bytes

-- Every byte consumed or still held is one that was sent, in the order in which it was sent.
pub record InOrder (w : World) : Type 0 where
  pub live : IsLive w.pipe
  pub narrow : length w.payload < size_mod
  pub copied : ℕ
  pub progress : Progress w.writer w.payload copied
  pub stream : w.consumed ++ contents w.pipe ≡ w.sent ++ take copied w.payload
