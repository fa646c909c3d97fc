-- ===== src/Lib.antt =====
-- xtd, a header-only C++ library: a byte pipeline between one writer and one reader, a bounded
-- channel, a sharded cache with expiring entries, and a logger that sends its messages through a
-- channel.
--
-- Parts, and the files that model them:
-- * Position (src/pipeline/position.h): a byte offset, with its operators modulo 2^64.
-- * Segment (src/pipeline/data_segment.h): one fixed-size buffer; `copy_from` and `advance_read`.
--   Segment.Bounds has its invariant.
-- * View (src/pipeline/segmented_byte_view.h): a read-only run of bytes in several segments, here a
--   list of lists. View holds the slices, View.Access the subscripts, View.Search the searches,
--   View.Copy the copies.
-- * Pipeline (src/pipeline/pipeline_impl.h, read_result.h, pipe_reader.h, pipe_writer.h): the
--   writer puts bytes into segments, the reader gets a View of them and gives back two Positions,
--   consumed and examined. Pipeline.Options to Pipeline.Complete hold the code; Invariant, Deque,
--   Chunk, Rounds, WriteLoop and Writing treat `write`, Consume and Advancing `advance`, Reading
--   `read_at_least`, Closing the completions, and Stream the two sides at work together.
-- * Channel (src/channel/channel_impl.h, channel_enums.h): a queue with a capacity. Channel.Laws has
--   the calls one by one, Channel.Queue any number of callers, Channel.Generator `read_all`.
-- * Cache (src/cache/concurrent_cache.h): shards of a hash table. Cache.Tables treats the tables,
--   Cache.Laws the operations on a shard, Cache.Creating the two sections of `get_or_create`,
--   Cache.Purge the operations on all shards. Cache.Callers has `get_or_create` as a caller runs it,
--   with its promises; Sharing, Moves, Settling and Sections below it treat one caller's section, and
--   Stampede any number of callers.
-- * Pools (src/pipeline/custom_allocators): the memory resources that hand blocks to the pipeline.
--   Pools.Fixed is fixed_pool_resource.h, with Owners for its client, Pools.Arena is
--   arena_pool_resource.h, with Runs and Ring for its ring and Exclusive for its client, and
--   Pools.Pooled says how many blocks the pipeline takes, and Moves below it adds the reader's
--   completion. Pipeline.Transfer runs a writer and a
--   reader by turns.
-- * Logging (src/logging): Logging.Escape is `escape_json` and Logging.Record `serialize_record` of
--   sinks/otel_serializer.h, with the message of log_message.h; Logging.Json has a writer and a reader
--   of JSON, and Document, Attributes, Printed and Received below Record compare the record with the
--   JSON value that it stands for. Logging.Batches is `process_messages` of sinks/otel_sink.h over the
--   Channel, with Requests, Turns and Sent for what it sends. Logging.Output is `write_to_output` of
--   sinks/log_sink.h, with its end in Delivery.
-- * The files of Base hold what the others share. `std::size_t` is a natural number with its
--   wrap-around written out (`add_size`, `sub_size`); exceptions are values of `Result`.
-- * The files of Tests hold runs, and the theorems at concrete inputs.
--
-- Concurrency: a function that waits on a condition variable is cut where it gives the lock up. A
-- data type (`WriterPc`, `ReaderPc`) says where a caller stands, and one step runs from taking the
-- lock to giving it up, so that an interleaving is a sequence of steps. A wait may be woken at any
-- step; it then tests its predicate and the stop token, as the standard library's wait with a
-- predicate and a stop token does. What a stop token says is an argument of the step, and within
-- `write` a function of the bytes copied so far. The mutexes, the condition variables and who gets
-- a notification are not in the state; a step returns whether it notifies.
--
-- Bounds and fuel: the inner loop of `write` runs on fuel, one more than the bytes left to write,
-- which is enough since every round copies a byte or more. Thresholds and lengths are below 2^64
-- where a theorem says so; a sequence that is searched has at most 2^63 bytes.
--
-- The reader of JSON has fuel as large as the value it is to read.
--
-- Parameters: the block that the pipeline's memory resource hands out (`allocate`), assumed to have
-- the size asked for; the clock's readings, as times in the cache's calls; the hash of a key; what
-- the calls of `::write` return; the decimal digits that `std::format` makes of a number. Bytes of
-- texts are numbers, and a message's timestamp is not before the epoch.
--
-- Not modelled: in the memory resources the statistics under PRINT_STATS, the comparison
-- `do_is_equal`, and the assertions on arguments, which the pipeline meets (sizes above zero, a
-- block's own size and alignment); src/pipeline/pipe_utils.h; in src/logging the formatting of lines
-- and times, the checks of options, the transports and the logger; in the cache keys other than
-- numbers, a failed allocation while a value is published, and `expiration_time`, an entry carrying
-- the time at which it expires. `write` of a value is `write` of its bytes.
pub mod Base
pub mod Position
pub mod Segment
pub mod View
pub mod Pipeline
pub mod Channel
pub mod Cache
pub mod Pools
pub mod Logging
pub mod Tests
