-- ===== src/Tests/Channels.antt =====
-- src/channel/channel_impl.h: runs of a channel with a capacity of two.
use xtd.Base.{ℕ, false, [], ◌∷◌, ◌++◌}
use xtd.Channel.{
  Channel, wait, try_once, emplacing, wait_not_full, reading, read_waiting, write_step, read_step,
  create,
}
use xtd.Channel.Laws.{Emplaced, Taken, emplace_lem, take_lem}
use xtd.Channel.Queue.{World, IsFifo, Steps, done, after, write, read, put_by, taken_by, fresh}
use xtd.Channel.Queue.Order.{fifo_lem}

-- 5, then 6, a writer waiting, and a reader not yet out of its wait
abbrev crowded : Channel ℕ
crowded = record {
  queue = 5 ∷ 6 ∷ [];
  read_waiters = 1;
  write_waiters = 1;
  capacity = 2;
  writer_completed = false;
}

emplace_example :
    Emplaced crowded 7 false (write_step crowded (emplacing wait 7) false)
    × Emplaced crowded 7 false (write_step crowded (emplacing try_once 7) false)
    × Emplaced crowded 7 false (write_step crowded (wait_not_full 7) false)
emplace_example = emplace_lem crowded 7 false

take_example :
    Taken crowded false (read_step crowded (reading wait) false)
    × Taken crowded false (read_step crowded (reading try_once) false)
    × Taken crowded false (read_step crowded read_waiting false)
take_example = take_lem crowded false

abbrev one_in : World ℕ
one_in = record (fresh 2) {
  channel = (write_step (create 2) (emplacing wait 7) false).0;
  accepted = [] ++ put_by (emplacing wait 7) (write_step (create 2) (emplacing wait 7) false).1;
}

abbrev one_out : World ℕ
one_out = record one_in {
  channel = (read_step one_in.channel (reading try_once) false).0;
  taken = [] ++ taken_by (reading try_once) (read_step one_in.channel (reading try_once) false).1;
}

runs : Steps (fresh 2) one_out
runs =
    after (after (done (fresh 2)) (write (fresh 2) (emplacing wait 7) false))
      (read one_in (reading try_once) false)

order_example : IsFifo one_out
order_example = fifo_lem 2 runs
