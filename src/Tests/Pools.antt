-- ===== src/Tests/Pools.antt =====
-- src/pipeline/custom_allocators: runs of the two memory resources.
use xtd.Base.{refl, [], ◌∷◌, arith}
use xtd.Pools.Fixed
use xtd.Pools.Fixed.{FixedPool}
use xtd.Pools.Fixed.Owners
use xtd.Pools.Fixed.Owners.{IsSound, fixed_pool_lem}
use xtd.Pools.Arena
use xtd.Pools.Arena.Ring
use xtd.Pools.Arena.Exclusive
use xtd.Pools.Arena.Exclusive.{IsExclusive, arena_lem}

-- A pool of at most one block, of which block 7 has come back while block 9 is out.
abbrev pooled : Owners.World
pooled = record {
  pool = record { available_buffers = 7 ∷ []; buffer_size = 16; max_pool_size = 1 };
  held = 9 ∷ [];
  created = 9 ∷ 7 ∷ [];
  deleted = [];
}

pooled-Steps : Owners.Steps (Owners.start 16 1) pooled
unfolding Owners.start Fixed.create Fixed.allocate Fixed.deallocate
pooled-Steps =
    Owners.after
      (Owners.after
        (Owners.after (Owners.done (Owners.start 16 1))
          (Owners.take_block (Owners.start 16 1) 7 refl))
        (Owners.take_block
          (record {
            pool = record { available_buffers = []; buffer_size = 16; max_pool_size = 1 };
            held = 7 ∷ [];
            created = 7 ∷ [];
            deleted = [];
          })
          9 refl))
      (Owners.give_back
        (record {
          pool = record { available_buffers = []; buffer_size = 16; max_pool_size = 1 };
          held = 9 ∷ 7 ∷ [];
          created = 9 ∷ 7 ∷ [];
          deleted = [];
        })
        7 (omega arith))

fixed_pool_example : IsSound 1 pooled
fixed_pool_example = fixed_pool_lem 16 1 pooled-Steps

-- An arena of two blocks of 16 bytes, both out.
abbrev full : Ring.World
full = record {
  arena = record {
    segment_size = 16;
    max_pool_size = 2;
    total_size = 32;
    head = 0;
    tail = 0;
    active_buffers = 2;
  };
  held = 0 ∷ 16 ∷ [];
}

abbrev half : Ring.World
half = record {
  arena = record {
    segment_size = 16;
    max_pool_size = 2;
    total_size = 32;
    head = 16;
    tail = 0;
    active_buffers = 1;
  };
  held = 0 ∷ [];
}

arena-Steps : Ring.Steps (Exclusive.start 16 2) full
unfolding Exclusive.start Arena.create Arena.allocate Arena.deallocate
arena-Steps =
    Ring.after
      (Ring.after (Ring.done (Exclusive.start 16 2))
        (Ring.take_block (Exclusive.start 16 2) (0, half.arena) refl))
      (Ring.take_block half (16, full.arena) refl)

arena_example : IsExclusive 16 2 full
arena_example = arena_lem 16 2 (omega arith) (omega arith) (omega arith) arena-Steps
