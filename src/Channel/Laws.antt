-- ===== src/Channel/Laws.antt =====
-- src/channel/channel_impl.h: the queue's bound and order, and what each call gives.
use xtd.Base.{
  ℕ, ◌<◌, ◌≡◌, refl, sym, subst, Bool, true, false, not, ◌&&◌, ◌||◌, List, [], ◌∷◌, arith, ◌==◌,
  ne→==, if_cases, length, push_back, eq_nil, sub_size,
}
use xtd.Channel.{
  Channel, wait, try_once, request_cancelled, channel_empty, WriterPc, emplacing, wait_not_full,
  written, ReaderPc, reading, read_waiting, value, unexpected, read_done, full, enqueue,
  finish_write, write_step, dequeue, finish_read, read_error, read_step, can_read, can_write,
  must_wait_to_read,
}

module _ {ℓ} {T : Type ℓ} where
  -- What a step of a writer with the item may leave.
  abbrev pub Emplaced : Channel T → T → Bool → Channel T × WriterPc T × Bool → Type ℓ
  Emplaced c item stopped (d, emplacing s i, notify) = (d.queue ≡ c.queue) × ⊥
  Emplaced c item stopped (d, wait_not_full i, notify) =
      (d.queue ≡ c.queue)
      × (i ≡ item)
      × (d.writer_completed ≡ c.writer_completed)
      × (d.capacity ≡ c.capacity)
      × (c.writer_completed ≡ false)
      × (stopped ≡ false)
      × (full c ≡ true)
      × (notify ≡ false)
  Emplaced c item stopped (d, written true, notify) =
      (d.queue ≡ push_back c.queue item)
      × (d.writer_completed ≡ false)
      × (d.capacity ≡ c.capacity)
      × (c.writer_completed ≡ false)
      × (full c ≡ false)
      × (notify ≡ not (c.read_waiters == 0))
  Emplaced c item stopped (d, written false, notify) =
      (d.queue ≡ c.queue)
      × (d.writer_completed ≡ c.writer_completed)
      × (d.capacity ≡ c.capacity)
      × ((c.writer_completed || full c || stopped) ≡ true)
      × (notify ≡ false)

  -- Every call of `emplace`, be it new or waking from its wait, with either strategy, does one of
  -- three things: it appends the item last, on a channel that is not completed and has room, and
  -- notifies a reader exactly if one waits; it returns false and leaves the queue, because the
  -- channel is completed or full or a stop is requested; or it waits, on a full channel that is not
  -- completed, with no stop requested.
  pub emplace_lem :
      (c : Channel T) (item : T) (stopped : Bool)
      → Emplaced c item stopped (write_step c (emplacing wait item) stopped)
        × Emplaced c item stopped (write_step c (emplacing try_once item) stopped)
        × Emplaced c item stopped (write_step c (wait_not_full item) stopped)
  unfolding write_step full finish_write enqueue can_write
  emplace_lem c item stopped = (waiting, trying, woken)
    where
      waiting : Emplaced c item stopped (write_step c (emplacing wait item) stopped)
      waiting =
          if_cases (Emplaced c item stopped) (not stopped && not c.writer_completed && full c) _ _
            (λ t. (
              refl,
              refl,
              refl,
              refl,
              ground (arith, t),
              ground (arith, t),
              ground (arith, t),
              refl,
            ))
            λ t.
              if_cases (Emplaced c item stopped)
                (not stopped && not c.writer_completed && not (full c)) _ _
                (λ u. (refl, ground (arith, u), refl, ground (arith, u), ground (arith, u), refl))
                λ u. (refl, refl, refl, ground (arith, u), refl)

      trying : Emplaced c item stopped (write_step c (emplacing try_once item) stopped)
      trying =
          if_cases (Emplaced c item stopped) (c.writer_completed || full c) _ _
            (λ t. (refl, refl, refl, ground (arith, t), refl))
            λ t. (refl, ground (arith, t), refl, ground (arith, t), ground (arith, t), refl)

      woken : Emplaced c item stopped (write_step c (wait_not_full item) stopped)
      woken =
          if_cases (Emplaced c item stopped) (can_write c || stopped) _ _
            (λ t.
              if_cases (Emplaced c item stopped)
                (not stopped && not c.writer_completed && not (full c)) _ _
                (λ u. (refl, ground (arith, u), refl, ground (arith, u), ground (arith, u), refl))
                λ u. (refl, refl, refl, ground (arith, u), refl))
            λ t. (
              refl,
              refl,
              refl,
              refl,
              ground (arith, t),
              ground (arith, t),
              ground (arith, t),
              refl,
            )

  -- What a step of `read` may leave.
  abbrev pub Taken : Channel T → Bool → Channel T × ReaderPc T × Bool → Type ℓ
  Taken c stopped (d, read_waiting, notify) =
      (d.queue ≡ c.queue)
      × (d.writer_completed ≡ c.writer_completed)
      × (d.capacity ≡ c.capacity)
      × (c.queue ≡ [])
      × (c.writer_completed ≡ false)
      × (stopped ≡ false)
      × (notify ≡ false)
  Taken c stopped (d, read_done (value item), notify) =
      (c.queue ≡ item ∷ d.queue)
      × (d.writer_completed ≡ c.writer_completed)
      × (d.capacity ≡ c.capacity)
      × (notify ≡ not (c.write_waiters == 0))
  Taken c stopped (d, read_done (unexpected request_cancelled), notify) =
      (d.queue ≡ c.queue)
      × (d.writer_completed ≡ c.writer_completed)
      × (d.capacity ≡ c.capacity)
      × (stopped ≡ true)
      × (notify ≡ false)
  Taken c stopped (d, read_done (unexpected channel_empty), notify) =
      (d.queue ≡ c.queue)
      × (d.writer_completed ≡ c.writer_completed)
      × (d.capacity ≡ c.capacity)
      × (c.queue ≡ [])
      × (notify ≡ false)
  Taken c stopped (d, pc, notify) = (d.queue ≡ c.queue) × ⊥

  dequeue-Taken :
      (queue : List T) (readers writers capacity left_waiting : ℕ) (completed stopped : Bool)
      → let c : Channel T = record {
        queue = queue;
        read_waiters = readers;
        write_waiters = writers;
        capacity = capacity;
        writer_completed = completed;
      } in
        Taken c stopped (dequeue (record c { read_waiters = left_waiting }))
  unfolding dequeue
  dequeue-Taken [] readers writers capacity left_waiting completed stopped =
      (refl, refl, refl, refl, refl)
  dequeue-Taken (item ∷ rest) readers writers capacity left_waiting completed stopped =
      (refl, refl, refl, refl)

  finish_some : (c : Channel T) → 0 < length c.queue → finish_read c false ≡ dequeue c
  unfolding finish_read read_error
  finish_some c h = let e = ne→== (length c.queue) 0 (omega arith) in ground (arith, e)

  finish_read-Taken :
      (queue : List T) (readers writers capacity left_waiting : ℕ) (completed stopped : Bool)
      → let c : Channel T = record {
        queue = queue;
        read_waiters = readers;
        write_waiters = writers;
        capacity = capacity;
        writer_completed = completed;
      } in
        Taken c stopped (finish_read (record c { read_waiters = left_waiting }) stopped)
  unfolding finish_read read_error
  finish_read-Taken queue readers writers capacity left_waiting completed true =
      (refl, refl, refl, refl, refl)
  finish_read-Taken [] readers writers capacity left_waiting completed false =
      (refl, refl, refl, refl, refl)
  finish_read-Taken (item ∷ rest) readers writers capacity left_waiting completed false =
      subst
        (Taken
          (record {
            queue = item ∷ rest;
            read_waiters = readers;
            write_waiters = writers;
            capacity = capacity;
            writer_completed = completed;
          })
          false)
        (sym (
          finish_some
            (record {
              queue = item ∷ rest;
              read_waiters = left_waiting;
              write_waiters = writers;
              capacity = capacity;
              writer_completed = completed;
            })
            (omega arith)))
        (dequeue-Taken (item ∷ rest) readers writers capacity left_waiting completed false)

  -- Every call of `read`, be it new or waking from its wait, with either strategy, does one of three
  -- things: it takes the front item off and gives it, notifying a writer exactly if one waits; it
  -- gives an error and leaves the queue, `CHANNEL_EMPTY` only on an empty channel and
  -- `REQUEST_CANCELLED` only if a stop is requested; or it waits, on an empty channel that is not
  -- completed, with no stop requested.
  pub take_lem :
      (c : Channel T) (stopped : Bool)
      → Taken c stopped (read_step c (reading wait) stopped)
        × Taken c stopped (read_step c (reading try_once) stopped)
        × Taken c stopped (read_step c read_waiting stopped)
  unfolding read_step can_read must_wait_to_read
  take_lem c stopped = (waiting, trying, woken)
    where
      waiting : Taken c stopped (read_step c (reading wait) stopped)
      waiting =
          if_cases (Taken c stopped) (must_wait_to_read c stopped) _ _
            (λ t. (
              refl,
              refl,
              refl,
              eq_nil c.queue (ground (arith, t)),
              ground (arith, t),
              ground (arith, t),
              refl,
            ))
            λ t.
              finish_read-Taken c.queue c.read_waiters c.write_waiters c.capacity c.read_waiters
                c.writer_completed stopped

      trying : Taken c stopped (read_step c (reading try_once) stopped)
      trying =
          dequeue-Taken c.queue c.read_waiters c.write_waiters c.capacity c.read_waiters
            c.writer_completed stopped

      woken : Taken c stopped (read_step c read_waiting stopped)
      woken =
          if_cases (Taken c stopped) (can_read c || stopped) _ _
            (λ t.
              finish_read-Taken c.queue c.read_waiters c.write_waiters c.capacity
                (sub_size c.read_waiters 1) c.writer_completed stopped)
            λ t. (
              refl,
              refl,
              refl,
              eq_nil c.queue (ground (arith, t)),
              ground (arith, t),
              ground (arith, t),
              refl,
            )
