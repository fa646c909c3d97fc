-- ===== src/Pools/Fixed/Owners.antt =====
-- src/pipeline/custom_allocators/fixed_pool_resource.h: who owns a block.
use xtd.Base.{
  ℕ, ◌+◌, ◌≤◌, ◌<◌, ◌≡◌, refl, subst, Option, none, some, List, [], ◌∷◌, arith, ℕ_discrete, ltb,
  ◌==◌, if◌then◌else◌, ltb→lt, ne→==, if_cases, length, count, remove, count-remove,
}
use xtd.Pools.Fixed.{FixedPool, create, allocate, deallocate}

-- A pool and its client: the blocks the client holds, and those that `operator new` has made and that
-- `operator delete` has taken back, each as often as it happened.
pub record World : Type 0 where
  pub pool : FixedPool
  pub held : List ℕ
  pub created : List ℕ
  pub deleted : List ℕ

-- The list with what a call gives, if it gives a block.
abbrev pub with_block : Option ℕ → List ℕ → List ℕ
with_block none blocks = blocks
with_block (some pointer) blocks = pointer ∷ blocks

-- `operator new` returns a block that nobody has; the client gives back what it holds.
pub data Step : World → World → Type 0 where
  take_block :
      (w : World) (fresh : ℕ)
      → count fresh w.pool.available_buffers + count fresh w.held ≡ 0
      → Step w (record w {
        pool = (allocate w.pool fresh).1;
        held = (allocate w.pool fresh).0 ∷ w.held;
        created = if length w.pool.available_buffers == 0 then fresh ∷ w.created else w.created;
      })
  give_back :
      (w : World) (pointer : ℕ)
      → 0 < count pointer w.held
      → Step w (record w {
        pool = (deallocate w.pool pointer).0;
        held = remove pointer w.held;
        deleted = with_block (deallocate w.pool pointer).1 w.deleted;
      })

pub data Steps : World → World → Type 0 where
  done : (w : World) → Steps w w
  after : {u v w : World} → Steps u v → Step v w → Steps u w

pub record IsSound (max_pool_size : ℕ) (w : World) : Type 0 where
  pub bound : w.pool.max_pool_size ≡ max_pool_size
  pub within : length w.pool.available_buffers ≤ max_pool_size
  pub owned_once : (a : ℕ) → count a w.pool.available_buffers + count a w.held ≤ 1
  pub none_lost :
      (a : ℕ)
      → count a w.created ≡ count a w.pool.available_buffers + count a w.held + count a w.deleted

allocate-IsSound :
    {max_pool_size : ℕ} (buffers : List ℕ) (size bound : ℕ) (held : List ℕ)
    (created deleted : List ℕ) (fresh : ℕ)
    → let pool : FixedPool = record {
      available_buffers = buffers;
      buffer_size = size;
      max_pool_size = bound;
    } in
      IsSound max_pool_size
        (record { pool = pool; held = held; created = created; deleted = deleted })
      → count fresh buffers + count fresh held ≡ 0
      → IsSound max_pool_size (record {
        pool = (allocate pool fresh).1;
        held = (allocate pool fresh).0 ∷ held;
        created = if length buffers == 0 then fresh ∷ created else created;
        deleted = deleted;
      })
unfolding allocate
allocate-IsSound [] size bound held created deleted fresh h new = record {
  bound = h.bound;
  within = h.within;
  owned_once = λ a. once a (h.owned_once a);
  none_lost = λ a. omega (arith, h.none_lost a);
}
  where
    once : (a : ℕ) → 0 + count a held ≤ 1 → 0 + ((if fresh == a then 1 else 0) + count a held) ≤ 1
    once a old = elim (ℕ_discrete fresh a) [
      | yes e ↦
          let c : count a held ≡ 0 = subst (λ n. count n held ≡ 0) e (omega arith) in
          ground (arith, c)
      | no e ↦ rw (ne→== fresh a e) (omega arith)
    ]
allocate-IsSound (b ∷ buffers) size bound held created deleted fresh h new = record {
  bound = h.bound;
  within = omega (arith, h.within);
  owned_once = λ a. omega (arith, h.owned_once a);
  none_lost = λ a. ground (arith, h.none_lost a);
}

deallocate-IsSound :
    {max_pool_size : ℕ} (w : World) (pointer : ℕ)
    → IsSound max_pool_size w
    → 0 < count pointer w.held
    → IsSound max_pool_size (record w {
      pool = (deallocate w.pool pointer).0;
      held = remove pointer w.held;
      deleted = with_block (deallocate w.pool pointer).1 w.deleted;
    })
unfolding deallocate
deallocate-IsSound {max_pool_size} w pointer h holds =
    if_cases
      (λ (out : FixedPool × Option ℕ). IsSound max_pool_size (record w {
        pool = out.0;
        held = remove pointer w.held;
        deleted = with_block out.1 w.deleted;
      }))
      (ltb (length w.pool.available_buffers) w.pool.max_pool_size) _ _
      (λ room. record {
        bound = h.bound;
        within =
            omega
              (arith, h.bound, ltb→lt (length w.pool.available_buffers) w.pool.max_pool_size room);
        owned_once = λ a. omega (arith, h.owned_once a, count-remove pointer a w.held);
        none_lost = λ a. omega (arith, h.none_lost a, count-remove pointer a w.held holds);
      })
      λ full. record {
        bound = h.bound;
        within = h.within;
        owned_once = λ a. omega (arith, h.owned_once a, count-remove pointer a w.held);
        none_lost = λ a. omega (arith, h.none_lost a, count-remove pointer a w.held holds);
      }

Steps-IsSound :
    {max_pool_size : ℕ} {v w : World}
    → Steps v w
    → IsSound max_pool_size v
    → IsSound max_pool_size w
Steps-IsSound (done w) h = h
Steps-IsSound (after steps (take_block w fresh new)) h =
    let k = Steps-IsSound steps h in
    allocate-IsSound w.pool.available_buffers w.pool.buffer_size w.pool.max_pool_size w.held
      w.created w.deleted fresh k new
Steps-IsSound (after steps (give_back w pointer holds)) h =
    deallocate-IsSound w pointer (Steps-IsSound steps h) holds

-- A new pool with a client that holds nothing.
unfoldable pub start : ℕ → ℕ → World
unfolding create
start buffer_size max_pool_size = record {
  pool = create buffer_size max_pool_size;
  held = [];
  created = [];
  deleted = [];
}

-- Whatever blocks a client takes and gives back, in any order, where `operator new` returns blocks
-- that nobody has and the client gives back what it holds: no block has two owners or is twice in
-- the pool, the pool keeps at most its maximal number of blocks, and each block was made exactly as
-- often as it is held by the client, kept in the pool or was deleted, so that none leaks and none
-- that is held or kept is deleted.
pub fixed_pool_lem :
    {w : World} (buffer_size max_pool_size : ℕ)
    → Steps (start buffer_size max_pool_size) w
    → IsSound max_pool_size w
unfolding start create
fixed_pool_lem buffer_size max_pool_size steps = Steps-IsSound steps (record {
  bound = refl;
  within = omega arith;
  owned_once = λ a. omega arith;
  none_lost = λ a. refl;
})
