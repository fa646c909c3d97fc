-- ===== src/Channel/Queue.antt =====
-- src/channel/channel_impl.h: any number of writers and readers at work on one channel.
pub mod Order
use xtd.Base.{
  ℕ, zero, suc, ◌+◌, ◌-◌, ◌*◌, ◌/◌, ◌%◌, ◌^◌, ◌≤◌, ◌<◌, min, max, ◌≡◌, refl, sym, ap, ap₂, subst,
  ◌∙◌, ◌≡⟨◌⟩◌, ◌∎, ◌≢◌, ◌↔◌, ◌⊎◌, inl, inr, Bool, true, false, not, ◌&&◌, ◌||◌, Option, none, some,
  List, [], ◌∷◌, ◌++◌, map, append-nil, append_assoc, arith, dec_lt, ℕ_discrete, ltb, leb, ◌==◌,
  if◌then◌else◌, lt→ltb, le→ltb, le→leb, lt→leb, ltb→lt, ltb→le, ==_iff, ne→==, Bool-cases,
  Option-cases, if_cases, length, get_elem?, take, drop, flatten, push_back, length-append,
  length-push_back, length-take, length-drop, take-append-drop, take_all, drop_all, eq_nil,
  take-zero, drop-zero, take-nil, drop-nil, take-append, drop-append, drop-drop, take-min,
  take-take, take-add, drop-take, take_prefix, drop_prefix, get_elem?-append, get_elem?-append_left,
  get_elem?-is_some, flatten-append, size_mod, add_size, sub_size, add_size_exact, sub_size_exact,
  Error, Result, ok, err, out_of_range, invalid_argument, logic_error, undefined, ◌>>=◌, ◌>>◌,
  require,
}
use xtd.Channel.{
  Channel, wait, try_once, WriterPc, emplacing, wait_not_full, written, ReaderPc, reading,
  read_waiting, peeking, peek_waiting, value, unexpected, request_cancelled, channel_empty,
  read_done, peeked, create, full, write_step, complete_writer, read_step, finish_peek, read_error,
  must_wait_to_read, can_read,
}
use xtd.Channel.Laws.{Emplaced, Taken, emplace_lem, take_lem}

-- A channel with the record of all items put in and all items taken.
pub record World {ℓ} (T : Type ℓ) : Type ℓ where
  pub channel : Channel T
  pub accepted : List T
  pub taken : List T

-- The items taken, then those queued, are the items put in; a bounded queue keeps its bound.
pub record IsFifo {ℓ} {T : Type ℓ} (w : World T) : Type ℓ where
  pub order : w.taken ++ w.channel.queue ≡ w.accepted
  pub bounded : (w.channel.capacity ≡ 0) ⊎ (length w.channel.queue ≤ w.channel.capacity)

module _ {ℓ} {T : Type ℓ} where
  -- The item that a step of a writer has put in, and the one that a step of a reader has taken.
  abbrev pub item_of : WriterPc T → List T
  item_of (emplacing s item) = item ∷ []
  item_of (wait_not_full item) = item ∷ []
  item_of (written b) = []

  abbrev pub put_by : WriterPc T → WriterPc T → List T
  put_by pc (written true) = item_of pc
  put_by pc pc' = []

  abbrev pub is_reading : ReaderPc T → Bool
  is_reading (reading s) = true
  is_reading read_waiting = true
  is_reading pc = false

  abbrev pub taken_by : ReaderPc T → ReaderPc T → List T
  taken_by pc (read_done (value item)) = if is_reading pc then item ∷ [] else []
  taken_by pc pc' = []

  -- A step of some writer or reader, wherever it is, or of `complete_writer`.
  pub data Step : World T → World T → Type ℓ where
    write :
        (w : World T) (pc : WriterPc T) (stopped : Bool)
        → Step w (record w {
          channel = (write_step w.channel pc stopped).0;
          accepted = w.accepted ++ put_by pc (write_step w.channel pc stopped).1;
        })
    read :
        (w : World T) (pc : ReaderPc T) (stopped : Bool)
        → Step w (record w {
          channel = (read_step w.channel pc stopped).0;
          taken = w.taken ++ taken_by pc (read_step w.channel pc stopped).1;
        })
    complete : (w : World T) → Step w (record w { channel = complete_writer w.channel })

  pub data Steps : World T → World T → Type ℓ where
    done : (w : World T) → Steps w w
    after : {u v w : World T} → Steps u v → Step v w → Steps u w

  -- A new channel, and nothing put in or taken.
  abbrev pub fresh : ℕ → World T
  fresh capacity = record { channel = create capacity; accepted = []; taken = [] }
