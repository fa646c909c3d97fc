-- ===== src/Channel.antt =====
-- src/channel/channel_impl.h, channel_enums.h, channel_writer.h, channel_reader.h: the channel's
-- state and its operations, cut at the points where they give the lock up.
pub mod Laws
pub mod Queue
pub mod Generator
use xtd.Base.{
  ℕ, zero, suc, ◌+◌, ◌-◌, ◌*◌, ◌/◌, ◌%◌, ◌^◌, ◌≤◌, ◌<◌, min, max, ◌≡◌, refl, sym, ap, ap₂, subst,
  ◌∙◌, ◌≡⟨◌⟩◌, ◌∎, ◌≢◌, ◌↔◌, ◌⊎◌, inl, inr, Bool, true, false, not, ◌&&◌, ◌||◌, Option, none, some,
  List, [], ◌∷◌, ◌++◌, map, append-nil, append_assoc, arith, dec_lt, ℕ_discrete, ltb, leb, ◌==◌,
  if◌then◌else◌, lt→ltb, le→ltb, le→leb, lt→leb, ltb→lt, ltb→le, ==_iff, ne→==, Bool-cases,
  Option-cases, if_cases, length, get_elem?, take, drop, flatten, push_back, length-append,
  length-push_back, length-take, length-drop, take-append-drop, take_all, drop_all, eq_nil,
  take-zero, drop-zero, take-nil, drop-nil, take-append, drop-append, drop-drop, take-min,
  take-take, take-add, drop-take, take_prefix, drop_prefix, get_elem?-append, get_elem?-append_left,
  get_elem?-is_some, flatten-append, size_mod, add_size, sub_size, add_size_exact, sub_size_exact,
  Error, Result, ok, err, out_of_range, invalid_argument, logic_error, undefined, ◌>>=◌, ◌>>◌,
  mul_size, require, count, remove, count-remove, length-remove,
}

pub data BlockStrategy : Type 0 where
  wait try_once : BlockStrategy

pub data ChannelReadErrors : Type 0 where
  request_cancelled channel_empty : ChannelReadErrors

-- The mutex and the condition variables are not in the state: each function below runs while its
-- caller holds `m_mutex`.
pub record Channel {ℓ} (T : Type ℓ) : Type ℓ where
  pub queue : List T
  pub read_waiters : ℕ
  pub write_waiters : ℕ
  pub capacity : ℕ
  pub writer_completed : Bool

-- Where a writer is: before the call with the item, inside the wait for room, or back with what
-- `emplace` returned.
pub data WriterPc {ℓ} (T : Type ℓ) : Type ℓ where
  emplacing : BlockStrategy → T → WriterPc T
  wait_not_full : T → WriterPc T
  written : Bool → WriterPc T

-- What a read gives: `std::expected<T, channel_read_errors>`.
pub data ReadOutcome {ℓ} (T : Type ℓ) : Type ℓ where
  value : T → ReadOutcome T
  unexpected : ChannelReadErrors → ReadOutcome T

-- Where a reader is, in `read` or in `wait_to_read` (`peeking`).
pub data ReaderPc {ℓ} (T : Type ℓ) : Type ℓ where
  reading : BlockStrategy → ReaderPc T
  read_waiting : ReaderPc T
  peeking : ReaderPc T
  peek_waiting : ReaderPc T
  read_done : ReadOutcome T → ReaderPc T
  peeked : Bool → ReaderPc T

module _ {ℓ} {T : Type ℓ} where
  unfoldable pub create : ℕ → Channel T
  create capacity = record {
    queue = [];
    read_waiters = 0;
    write_waiters = 0;
    capacity = capacity;
    writer_completed = false;
  }

  unfoldable pub size : Channel T → ℕ
  size c = length c.queue

  unfoldable pub full : Channel T → Bool
  full c = ltb 0 c.capacity && leb c.capacity (length c.queue)

  -- `can_read_predicate` and `can_write_predicate`
  unfoldable pub can_read : Channel T → Bool
  can_read c = c.writer_completed || not (length c.queue == 0)

  unfoldable pub can_write : Channel T → Bool
  unfolding full
  can_write c = c.writer_completed || not (full c)

  -- The end of `emplace`, with whether it notifies a reader.
  unfoldable pub enqueue : Channel T → T → Channel T × WriterPc T × Bool
  enqueue c item =
      (record c { queue = push_back c.queue item }, written true, not (c.read_waiters == 0))

  -- The end of `internal_wait_to_write` and what `emplace` does with it.
  unfoldable pub finish_write : Channel T → Bool → T → Channel T × WriterPc T × Bool
  unfolding full enqueue
  finish_write c stopped item =
      if not stopped && not c.writer_completed && not (full c)
      then enqueue c item
      else (c, written false, false)

  -- One step of `emplace`, from taking the lock to giving it up. `stopped` is what
  -- `stop_token.stop_requested()` says during the step. The wait returns if its predicate holds or
  -- a stop is requested. The third component is whether `m_not_empty` is notified.
  unfoldable pub write_step : Channel T → WriterPc T → Bool → Channel T × WriterPc T × Bool
  unfolding full can_write enqueue finish_write
  write_step c (emplacing wait item) stopped =
      if not stopped && not c.writer_completed && full c
      then (record c { write_waiters = add_size c.write_waiters 1 }, wait_not_full item, false)
      else finish_write c stopped item
  write_step c (emplacing try_once item) stopped =
      if c.writer_completed || full c then (c, written false, false) else enqueue c item
  write_step c (wait_not_full item) stopped =
      if can_write c || stopped
      then finish_write (record c { write_waiters = sub_size c.write_waiters 1 }) stopped item
      else (c, wait_not_full item, false)
  write_step c (written b) stopped = (c, written b, false)

  unfoldable pub complete_writer : Channel T → Channel T
  complete_writer c = record c { writer_completed = true }

  -- The end of `internal_wait_to_read`: the error it gives, if any.
  unfoldable pub read_error : Channel T → Bool → Option ChannelReadErrors
  read_error c stopped =
      if stopped
      then some request_cancelled
      else if length c.queue == 0
      then some channel_empty
      else none

  -- The end of `read`: the front item, with whether a writer is notified. `front()` is called on a
  -- queue that is known to hold something.
  unfoldable pub dequeue : Channel T → Channel T × ReaderPc T × Bool
  dequeue c = elim c.queue [
    | [] ↦ (c, read_done (unexpected channel_empty), false)
    | item ∷ rest ↦ (record c { queue = rest }, read_done (value item), not (c.write_waiters == 0))
  ]

  unfoldable pub finish_read : Channel T → Bool → Channel T × ReaderPc T × Bool
  unfolding read_error dequeue
  finish_read c stopped = elim (read_error c stopped) [
    | some e ↦ (c, read_done (unexpected e), false)
    | none ↦ dequeue c
  ]

  unfoldable pub finish_peek : Channel T → Bool → Channel T × ReaderPc T × Bool
  unfolding read_error
  finish_peek c stopped = elim (read_error c stopped) [
    | some e ↦ (c, peeked false, false)
    | none ↦ (c, peeked true, false)
  ]

  -- The test at the head of `internal_wait_to_read`.
  unfoldable pub must_wait_to_read : Channel T → Bool → Bool
  must_wait_to_read c stopped = not stopped && not c.writer_completed && (length c.queue == 0)

  -- One step of `read` or `wait_to_read`. The third component is whether `m_not_full` is notified.
  unfoldable pub read_step : Channel T → ReaderPc T → Bool → Channel T × ReaderPc T × Bool
  unfolding can_read dequeue finish_read finish_peek must_wait_to_read
  read_step c (reading wait) stopped =
      if must_wait_to_read c stopped
      then (record c { read_waiters = add_size c.read_waiters 1 }, read_waiting, false)
      else finish_read c stopped
  read_step c (reading try_once) stopped = dequeue c
  read_step c read_waiting stopped =
      if can_read c || stopped
      then finish_read (record c { read_waiters = sub_size c.read_waiters 1 }) stopped
      else (c, read_waiting, false)
  read_step c peeking stopped =
      if must_wait_to_read c stopped
      then (record c { read_waiters = add_size c.read_waiters 1 }, peek_waiting, false)
      else finish_peek c stopped
  read_step c peek_waiting stopped =
      if can_read c || stopped
      then finish_peek (record c { read_waiters = sub_size c.read_waiters 1 }) stopped
      else (c, peek_waiting, false)
  read_step c (read_done o) stopped = (c, read_done o, false)
  read_step c (peeked b) stopped = (c, peeked b, false)
