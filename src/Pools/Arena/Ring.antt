-- ===== src/Pools/Arena/Ring.antt =====
-- src/pipeline/custom_allocators/arena_pool_resource.h: the blocks of a client that gives them back
-- in the order in which it took them.
use xtd.Base.{
  ℕ, zero, suc, ◌*◌, ◌≤◌, ◌<◌, ◌≡◌, refl, sym, ap, ap₂, subst, ◌∙◌, List, ◌∷◌, arith, ℕ_discrete,
  push_back, size_mod, add_size, sub_size, ok,
}
use xtd.Pools.Arena.{Arena, advance, allocate, deallocate}
use xtd.Pools.Arena.Runs.{
  next, run, ahead, push_back-run, next-ahead, scaled, scaled-push_back, advance-next,
}

-- An arena and its client, which holds the blocks at `held`, the one it took first in front.
pub record World : Type 0 where
  pub arena : Arena
  pub held : List ℕ

-- The client takes a block, or gives back the one that it took first.
pub data Step : World → World → Type 0 where
  take_block :
      (w : World) (out : ℕ × Arena)
      → allocate w.arena ≡ ok out
      → Step w (record { arena = out.1; held = push_back w.held out.0 })
  give_back :
      (w : World) (pointer : ℕ) (others : List ℕ) (arena : Arena)
      → w.held ≡ pointer ∷ others
      → deallocate w.arena pointer ≡ ok arena
      → Step w (record { arena = arena; held = others })

pub data Steps : World → World → Type 0 where
  done : (w : World) → Steps w w
  after : {u v w : World} → Steps u v → Step v w → Steps u w

-- The held blocks are a run of the ring from its tail to its head.
pub record IsRing (size n : ℕ) (w : World) : Type 0 where
  pub first : ℕ
  pub held_blocks : ℕ
  pub on : first < n
  pub within : held_blocks ≤ n
  pub segment : w.arena.segment_size ≡ size
  pub blocks : w.arena.max_pool_size ≡ n
  pub total : w.arena.total_size ≡ size * n
  pub active : w.arena.active_buffers ≡ held_blocks
  pub tail : w.arena.tail ≡ first * size
  pub head : w.arena.head ≡ ahead n first held_blocks * size
  pub held : w.held ≡ scaled size (run n first held_blocks)

-- `advance` at a block of the ring.
advance_block :
    {size n : ℕ} (w : World) (i : ℕ)
    → 0 < size
    → IsRing size n w
    → i < n
    → advance w.arena (i * size) ≡ next n i * size
advance_block {size} {n} w i positive h r =
    subst (λ k. advance w.arena (i * k) ≡ next n i * k) h.segment
      (advance-next w.arena n i (h.total ∙ ap (λ k. k * n) (sym h.segment))
        (omega (arith, h.segment)) r)

ahead-lt : (n k m : ℕ) → k < n → m ≤ n → ahead n k m < n
ahead-lt n k m h r = ground arith

take-IsRing :
    {size n : ℕ} (w : World) (out : ℕ × Arena)
    → 0 < size
    → n < size_mod
    → IsRing size n w
    → allocate w.arena ≡ ok out
    → IsRing size n (record { arena = out.1; held = push_back w.held out.0 })
unfolding allocate
take-IsRing {size} {n} w out positive small h e =
    elim (ℕ_discrete w.arena.active_buffers w.arena.max_pool_size) [
      | yes full ↦ absurd (ground (arith, e, full))
      | no room ↦
          let made : out ≡ (
            w.arena.head,
            record w.arena {
              head = advance w.arena w.arena.head;
              active_buffers = add_size w.arena.active_buffers 1;
            },
          ) =
            ground (arith, e, room) in
          subst
            (λ (o : ℕ × Arena). IsRing size n (record { arena = o.1; held = push_back w.held o.0 }))
            (sym made) (taken room)
    ]
  where
    taken :
        ¬ (w.arena.active_buffers ≡ w.arena.max_pool_size)
        → IsRing size n (record {
          arena = record w.arena {
            head = advance w.arena w.arena.head;
            active_buffers = add_size w.arena.active_buffers 1;
          };
          held = push_back w.held w.arena.head;
        })
    taken room = record {
      first = h.first;
      held_blocks = suc h.held_blocks;
      on = h.on;
      within = omega (arith, h.active, h.blocks, h.within, room);
      segment = h.segment;
      blocks = h.blocks;
      total = h.total;
      active = omega (arith, h.active, h.within);
      tail = h.tail;
      head =
          ap (advance w.arena) h.head
          ∙ advance_block w (ahead n h.first h.held_blocks) positive h
              (ahead-lt n h.first h.held_blocks h.on h.within)
          ∙ ap (λ k. k * size)
              (next-ahead n h.first h.held_blocks h.on
                (omega (arith, h.active, h.blocks, h.within, room)));
      held =
          ap₂ push_back h.held h.head
          ∙ sym
              (scaled-push_back size (ahead n h.first h.held_blocks) (run n h.first h.held_blocks))
          ∙ ap (scaled size) (
              push_back-run n h.first h.held_blocks h.on
                (omega (arith, h.active, h.blocks, h.within, room)));
    }

pub next-lt : (n k : ℕ) → k < n → next n k < n
next-lt n k h = ground arith

ahead-next : (n k m : ℕ) → k < n → suc m ≤ n → ahead n k (suc m) ≡ ahead n (next n k) m
ahead-next n k m h r = ground arith

-- The block that the client gives back is the run's first one.
give-IsRing :
    {size n : ℕ} (w : World) (pointer : ℕ) (others : List ℕ) (arena : Arena)
    → 0 < size
    → n < size_mod
    → IsRing size n w
    → w.held ≡ pointer ∷ others
    → deallocate w.arena pointer ≡ ok arena
    → IsRing size n (record { arena = arena; held = others })
unfolding deallocate
give-IsRing {size} {n} w pointer others arena positive small h e f =
    elim (ℕ_discrete w.arena.active_buffers 0) [
      | yes none_held ↦ absurd (ground (arith, f, none_held))
      | no some_held ↦
          let made : arena ≡ record w.arena {
            tail = advance w.arena w.arena.tail;
            active_buffers = sub_size w.arena.active_buffers 1;
          } =
            ground (arith, f, some_held) in
          subst (λ a. IsRing size n (record { arena = a; held = others })) (sym made)
            (given h.held_blocks refl)
    ]
  where
    given :
        (m : ℕ)
        → m ≡ h.held_blocks
        → IsRing size n (record {
          arena = record w.arena {
            tail = advance w.arena w.arena.tail;
            active_buffers = sub_size w.arena.active_buffers 1;
          };
          held = others;
        })
    given zero none_held = cc (
        subst (λ m. pointer ∷ others ≡ scaled size (run n h.first m)) (sym none_held)
          (sym e ∙ h.held))
    given (suc m) some_held = record {
      first = next n h.first;
      held_blocks = m;
      on = next-lt n h.first h.on;
      within = omega (arith, h.within);
      segment = h.segment;
      blocks = h.blocks;
      total = h.total;
      active = omega (arith, h.active, h.within);
      tail = ap (advance w.arena) h.tail ∙ advance_block w h.first positive h h.on;
      head =
          h.head
          ∙ ap (λ k. k * size)
              (ap (ahead n h.first) (sym some_held)
                ∙ ahead-next n h.first m h.on (omega (arith, h.within)));
      held = rest (
          subst (λ k. pointer ∷ others ≡ scaled size (run n h.first k)) (sym some_held)
            (sym e ∙ h.held));
    }
      where
        rest :
            pointer ∷ others ≡ h.first * size ∷ scaled size (run n (next n h.first) m)
            → others ≡ scaled size (run n (next n h.first) m)
        rest same = cc same

pub Steps-IsRing :
    {size n : ℕ} {v w : World}
    → 0 < size
    → n < size_mod
    → Steps v w
    → IsRing size n v
    → IsRing size n w
Steps-IsRing positive small (done w) h = h
Steps-IsRing positive small (after steps (take_block w out e)) h =
    take-IsRing w out positive small (Steps-IsRing positive small steps h) e
Steps-IsRing positive small (after steps (give_back w pointer others arena e f)) h =
    give-IsRing w pointer others arena positive small (Steps-IsRing positive small steps h) e f
