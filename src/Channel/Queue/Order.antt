-- ===== src/Channel/Queue/Order.antt =====
-- src/channel/channel_impl.h: every step keeps the items in order and within the capacity.
use xtd.Base.{
  ℕ, ◌+◌, ◌≤◌, ◌<◌, ◌≡◌, refl, sym, ap, ap₂, subst, ◌∙◌, ◌⊎◌, inl, inr, Bool, true, false, ◌||◌,
  List, [], ◌∷◌, ◌++◌, append-nil, append_assoc, arith, if◌then◌else◌, Option-cases, if_cases,
  length, push_back, length-push_back,
}
use xtd.Channel.{
  Channel, wait, try_once, WriterPc, emplacing, wait_not_full, written, ReaderPc, reading,
  read_waiting, peeking, peek_waiting, value, unexpected, request_cancelled, channel_empty,
  read_done, peeked, create, full, write_step, complete_writer, read_step, finish_peek, read_error,
  must_wait_to_read, can_read,
}
use xtd.Channel.Laws.{Emplaced, Taken, emplace_lem, take_lem}
use xtd.Channel.Queue.{
  World, IsFifo, item_of, put_by, is_reading, taken_by, Step, write, read, complete, Steps, done,
  after, fresh,
}

module _ {ℓ} {T : Type ℓ} where
  push_back-append : (xs : List T) (x : T) → push_back xs x ≡ xs ++ (x ∷ [])
  push_back-append [] x = refl
  push_back-append (y ∷ ys) x = ap (◌∷◌ y) (push_back-append ys x)

  room : (c : Channel T) → full c ≡ false → (c.capacity ≡ 0) ⊎ (length c.queue < c.capacity)
  unfolding full
  room c e = ground arith

  same_bound :
      {queue : List T} {capacity : ℕ} (c : Channel T)
      → queue ≡ c.queue
      → capacity ≡ c.capacity
      → (c.capacity ≡ 0) ⊎ (length c.queue ≤ c.capacity)
      → (capacity ≡ 0) ⊎ (length queue ≤ capacity)
  same_bound c q k h = let e = ap length q in ground (arith, e)

  put :
      (w : World T) (item : T) (stopped : Bool) (from to : WriterPc T) (d : Channel T)
      (notify : Bool)
      → IsFifo w
      → Emplaced w.channel item stopped (d, to, notify)
      → item_of from ≡ item ∷ []
      → IsFifo (record w { channel = d; accepted = w.accepted ++ put_by from to })
  put w item stopped from (emplacing s i) d notify h e p = absurd e.1
  put w item stopped from (wait_not_full i) d notify h e p = record {
    order = ap (◌++◌ w.taken) e.0 ∙ h.order ∙ sym (append-nil w.accepted);
    bounded = same_bound w.channel e.0 e.3 h.bounded;
  }
  put w item stopped from (written true) d notify h e p = record {
    order =
        ap (◌++◌ w.taken) (e.0 ∙ push_back-append w.channel.queue item)
        ∙ sym (append_assoc w.taken w.channel.queue (item ∷ []))
        ∙ ap₂ ◌++◌ h.order (sym p);
    bounded = added;
  }
    where
      longer : length d.queue ≡ length w.channel.queue + 1
      longer = ap length e.0 ∙ length-push_back w.channel.queue item

      added : (d.capacity ≡ 0) ⊎ (length d.queue ≤ d.capacity)
      added = let r = room w.channel e.4 in ground (arith, r, longer, e)
  put w item stopped from (written false) d notify h e p = record {
    order = ap (◌++◌ w.taken) e.0 ∙ h.order ∙ sym (append-nil w.accepted);
    bounded = same_bound w.channel e.0 e.2 h.bounded;
  }

  pub write-IsFifo :
      (w : World T) (pc : WriterPc T) (stopped : Bool)
      → IsFifo w
      → IsFifo (record w {
        channel = (write_step w.channel pc stopped).0;
        accepted = w.accepted ++ put_by pc (write_step w.channel pc stopped).1;
      })
  unfolding write_step
  write-IsFifo w (emplacing wait item) stopped h =
      put w item stopped (emplacing wait item) _ _ _ h (emplace_lem w.channel item stopped).0 refl
  write-IsFifo w (emplacing try_once item) stopped h =
      put w item stopped (emplacing try_once item) _ _ _ h (emplace_lem w.channel item stopped).1
        refl
  write-IsFifo w (wait_not_full item) stopped h =
      put w item stopped (wait_not_full item) _ _ _ h (emplace_lem w.channel item stopped).2 refl
  write-IsFifo w (written true) stopped h = record {
    order = h.order ∙ sym (append-nil w.accepted);
    bounded = h.bounded;
  }
  write-IsFifo w (written false) stopped h = record {
    order = h.order ∙ sym (append-nil w.accepted);
    bounded = h.bounded;
  }

  unread :
      (w : World T) (d : Channel T)
      → IsFifo w
      → d.queue ≡ w.channel.queue
      → d.capacity ≡ w.channel.capacity
      → IsFifo (record w { channel = d; taken = w.taken ++ [] })
  unread w d h q c = record {
    order = ap₂ ◌++◌ (append-nil w.taken) q ∙ h.order;
    bounded = same_bound w.channel q c h.bounded;
  }

  take_out :
      (w : World T) (stopped : Bool) (from to : ReaderPc T) (d : Channel T) (notify : Bool)
      → IsFifo w
      → Taken w.channel stopped (d, to, notify)
      → is_reading from ≡ true
      → IsFifo (record w { channel = d; taken = w.taken ++ taken_by from to })
  take_out w stopped from (reading s) d notify h e p = absurd e.1
  take_out w stopped from read_waiting d notify h e p = unread w d h e.0 e.2
  take_out w stopped from peeking d notify h e p = absurd e.1
  take_out w stopped from peek_waiting d notify h e p = absurd e.1
  take_out w stopped from (peeked b) d notify h e p = absurd e.1
  take_out w stopped from (read_done (unexpected request_cancelled)) d notify h e p =
      unread w d h e.0 e.2
  take_out w stopped from (read_done (unexpected channel_empty)) d notify h e p =
      unread w d h e.0 e.2
  take_out w stopped from (read_done (value item)) d notify h e p = record {
    order =
        ap (λ b. (w.taken ++ (if b then item ∷ [] else [])) ++ d.queue) p
        ∙ append_assoc w.taken (item ∷ []) d.queue
        ∙ ap (◌++◌ w.taken) (sym e.0)
        ∙ h.order;
    bounded = let shorter = ap length e.0 in ground (arith, shorter, h.bounded, e.2);
  }

  peek_end :
      (d : Channel T) (stopped : Bool) → (b : Bool) × (finish_peek d stopped ≡ (d, peeked b, false))
  unfolding finish_peek
  peek_end d stopped = elim (Option-cases (read_error d stopped)) [
    | inl e ↦ (true, ground (arith, e))
    | inr (error, e) ↦ (false, ground (arith, e))
  ]

  abbrev Kept : Channel T → ReaderPc T → Channel T × ReaderPc T × Bool → Type ℓ
  Kept c pc out = (out.0.queue ≡ c.queue) × (out.0.capacity ≡ c.capacity) × (taken_by pc out.1 ≡ [])

  peek_end-Kept :
      (c d : Channel T) (pc : ReaderPc T) (stopped : Bool)
      → d.queue ≡ c.queue
      → d.capacity ≡ c.capacity
      → Kept c pc (finish_peek d stopped)
  peek_end-Kept c d pc stopped q k =
      let (b, e) = peek_end d stopped in subst (Kept c pc) (sym e) (q, k, refl)

  -- A step of `wait_to_read`, and of a reader that is done, keeps the queue.
  peek-Kept :
      (c : Channel T) (pc : ReaderPc T) (stopped : Bool)
      → is_reading pc ≡ false
      → Kept c pc (read_step c pc stopped)
  unfolding read_step
  peek-Kept c (reading s) stopped p = ground (arith, p)
  peek-Kept c read_waiting stopped p = ground (arith, p)
  peek-Kept c peeking stopped p =
      if_cases (Kept c peeking) (must_wait_to_read c stopped) _ _ (λ _. (refl, refl, refl))
        λ _. peek_end-Kept c c peeking stopped refl refl
  peek-Kept c peek_waiting stopped p =
      if_cases (Kept c peek_waiting) (can_read c || stopped) _ _
        (λ _. peek_end-Kept c _ peek_waiting stopped refl refl) λ _. (refl, refl, refl)
  peek-Kept c (read_done (value item)) stopped p = (refl, refl, refl)
  peek-Kept c (read_done (unexpected e)) stopped p = (refl, refl, refl)
  peek-Kept c (peeked b) stopped p = (refl, refl, refl)

  abbrev pub looked : World T → ReaderPc T → Channel T × ReaderPc T × Bool → World T
  looked w pc out = record w { channel = out.0; taken = w.taken ++ taken_by pc out.1 }

  kept-IsFifo :
      (w : World T) (pc : ReaderPc T) (stopped : Bool)
      → is_reading pc ≡ false
      → IsFifo w
      → IsFifo (looked w pc (read_step w.channel pc stopped))
  kept-IsFifo w pc stopped p h =
      let (q, k, t) = peek-Kept w.channel pc stopped p in
      let rest = unread w (read_step w.channel pc stopped).0 h q k in
      record {
        order = ap (λ l. (w.taken ++ l) ++ (read_step w.channel pc stopped).0.queue) t ∙ rest.order;
        bounded = rest.bounded;
      }

  pub read-IsFifo :
      (w : World T) (pc : ReaderPc T) (stopped : Bool)
      → IsFifo w
      → IsFifo (looked w pc (read_step w.channel pc stopped))
  read-IsFifo w (reading wait) stopped h =
      take_out w stopped (reading wait) _ _ _ h (take_lem w.channel stopped).0 refl
  read-IsFifo w (reading try_once) stopped h =
      take_out w stopped (reading try_once) _ _ _ h (take_lem w.channel stopped).1 refl
  read-IsFifo w read_waiting stopped h =
      take_out w stopped read_waiting _ _ _ h (take_lem w.channel stopped).2 refl
  read-IsFifo w peeking stopped h = kept-IsFifo w peeking stopped refl h
  read-IsFifo w peek_waiting stopped h = kept-IsFifo w peek_waiting stopped refl h
  read-IsFifo w (read_done o) stopped h = kept-IsFifo w (read_done o) stopped refl h
  read-IsFifo w (peeked b) stopped h = kept-IsFifo w (peeked b) stopped refl h

  Step-IsFifo : {v w : World T} → Step v w → IsFifo v → IsFifo w
  unfolding complete_writer
  Step-IsFifo (write v pc stopped) h = write-IsFifo v pc stopped h
  Step-IsFifo (read v pc stopped) h = read-IsFifo v pc stopped h
  Step-IsFifo (complete v) h = record { order = h.order; bounded = h.bounded }

  Steps-IsFifo : {v w : World T} → Steps v w → IsFifo v → IsFifo w
  Steps-IsFifo (done v) h = h
  Steps-IsFifo (after steps step) h = Step-IsFifo step (Steps-IsFifo steps h)

  -- Whatever steps any number of writers and readers make on a new channel, in any order and with
  -- any stops, the items taken followed by those queued are the items that `emplace` accepted, in
  -- that order, and a channel with a capacity other than zero holds no more than its capacity.
  pub fifo_lem : {w : World T} (capacity : ℕ) → Steps (fresh capacity) w → IsFifo w
  unfolding create
  fifo_lem capacity steps = Steps-IsFifo steps (record { order = refl; bounded = start })
    where
      start : (capacity ≡ 0) ⊎ (0 ≤ capacity)
      start = inr (omega arith)
