-- ===== src/Channel/Generator.antt =====
-- src/channel/channel_impl.h: `read_all`, the generator over a channel's items.
use xtd.Base.{
  ℕ, zero, suc, Bool, true, false, Option, none, some, List, [], ◌∷◌, if◌then◌else◌, push_back,
}
use xtd.Channel.{
  Channel, wait, ReaderPc, reading, read_waiting, peeking, peek_waiting, read_done, peeked, value,
  unexpected, read_step,
}

-- Where a generator is: at the head of its loop, inside its call of `read`, at `co_yield`, or at its
-- end.
pub data Generator {ℓ} (T : Type ℓ) : Type ℓ where
  resumed : Generator T
  calling : ReaderPc T → Generator T
  yielded : T → Generator T
  finished : Generator T

module _ {ℓ} {T : Type ℓ} where
  -- What the loop does with where its call of `read` stands.
  unfoldable pub after_call : ReaderPc T → Generator T
  after_call (read_done (value item)) = yielded item
  after_call (read_done (unexpected e)) = finished
  after_call (reading s) = calling (reading s)
  after_call read_waiting = calling read_waiting
  after_call peeking = calling peeking
  after_call peek_waiting = calling peek_waiting
  after_call (peeked b) = calling (peeked b)

  -- One step of `read_all`. `stopped` is what `stop_token.stop_requested()` says during the step; a
  -- generator that has yielded goes on when its consumer asks for the next item. The third component
  -- is whether `m_not_full` is notified.
  unfoldable pub read_all : Channel T → Generator T → Bool → Channel T × Generator T × Bool
  unfolding after_call read_step
  read_all c resumed stopped =
      if stopped then (c, finished, false) else (c, calling (reading wait), false)
  read_all c (calling pc) stopped =
      let (d, pc', notify) = read_step c pc stopped in (d, after_call pc', notify)
  read_all c (yielded item) stopped = (c, resumed, false)
  read_all c finished stopped = (c, finished, false)

  -- A consumer that takes every item, with no stop requested: the items and the channel at the end.
  unfoldable pub consume : ℕ → Channel T → Generator T → List T → Option (List T × Channel T)
  unfolding read_all
  consume zero c g items = none
  consume (suc fuel) c finished items = some (items, c)
  consume (suc fuel) c (yielded item) items =
      let out = read_all c (yielded item) false in consume fuel out.0 out.1 (push_back items item)
  consume (suc fuel) c resumed items =
      let out = read_all c resumed false in consume fuel out.0 out.1 items
  consume (suc fuel) c (calling pc) items =
      let out = read_all c (calling pc) false in consume fuel out.0 out.1 items

  -- The steps that so many items take.
  abbrev steps_for : List T → ℕ
  steps_for [] = 2
  steps_for (item ∷ rest) = suc (suc (suc (steps_for rest)))

  -- A channel that is completed.
  abbrev closed : List T → ℕ → ℕ → ℕ → Channel T
  closed queue readers writers capacity = record {
    queue = queue;
    read_waiters = readers;
    write_waiters = writers;
    capacity = capacity;
    writer_completed = true;
  }
