-- ===== src/Pools/Arena/Exclusive.antt =====
-- src/pipeline/custom_allocators/arena_pool_resource.h: what a client may rely on.
use xtd.Base.{
  ℕ, zero, suc, ◌*◌, ◌/◌, ◌≤◌, ◌<◌, ◌≡◌, refl, sym, ap, subst, ◌∙◌, ◌⊎◌, inl, inr, List, [], ◌∷◌,
  arith, ℕ_discrete, length, size_mod, add_size, sub_size, ok, err, undefined, count,
}
use native.Mathlib.Nat.{mul-le-mul_right}
use xtd.Pools.Arena.{Arena, create, advance, allocate, deallocate}
use xtd.Pools.Arena.Runs.{next, run, run_once, length-run, scaled, length-scaled, count-scaled}
use xtd.Pools.Arena.Ring.{World, Steps, IsRing, Steps-IsRing, next-lt}

-- Each is the start of a block of the given size in an area of so many of them.
abbrev pub AreBlocks : ℕ → ℕ → List ℕ → Type 0
AreBlocks size n [] = Unit {0}
AreBlocks size n (p ∷ ps) = ((i : ℕ) × (i < n) × (p ≡ i * size)) × AreBlocks size n ps

run-AreBlocks : (size n k m : ℕ) → k < n → AreBlocks size n (scaled size (run n k m))
run-AreBlocks size n k zero h = tt
run-AreBlocks size n k (suc m) h = ((k, h, refl), run-AreBlocks size n (next n k) m (next-lt n k h))

-- What a client may rely on.
pub record IsExclusive (size n : ℕ) (w : World) : Type 0 where
  pub distinct : (a : ℕ) → count a w.held ≤ 1
  pub placed : AreBlocks size n w.held
  pub allocates :
      ((length w.held < n) × ((out : ℕ × Arena) × (allocate w.arena ≡ ok out)))
      ⊎ ((length w.held ≡ n) × (allocate w.arena ≡ err undefined))
  pub deallocates :
      (pointer : ℕ)
      → ((0 < length w.held) × ((arena : Arena) × (deallocate w.arena pointer ≡ ok arena)))
        ⊎ ((length w.held ≡ 0) × (deallocate w.arena pointer ≡ err undefined))

IsRing-IsExclusive : {size n : ℕ} {w : World} → 0 < size → IsRing size n w → IsExclusive size n w
unfolding allocate deallocate
IsRing-IsExclusive {size} {n} {w} positive h = record {
  distinct = λ a.
      subst (λ held. count a held ≤ 1) (sym h.held)
        (omega (
          arith,
          count-scaled size a (run n h.first h.held_blocks) positive,
          run_once n h.first h.held_blocks (a / size) h.on h.within,
        ));
  placed = subst (AreBlocks size n) (sym h.held) (run-AreBlocks size n h.first h.held_blocks h.on);
  allocates = elim (ℕ_discrete w.arena.active_buffers w.arena.max_pool_size) [
    | yes full ↦ inr (omega (arith, held, h.active, h.blocks, full), ground (arith, full))
    | no room ↦ inl (
      omega (arith, held, h.active, h.blocks, h.within, room),
      (
        (
          w.arena.head,
          record w.arena {
            head = advance w.arena w.arena.head;
            active_buffers = add_size w.arena.active_buffers 1;
          },
        ),
        ground (arith, room),
      ),
    )
  ];
  deallocates = λ pointer. elim (ℕ_discrete w.arena.active_buffers 0) [
    | yes none_held ↦ inr (omega (arith, held, h.active, none_held), ground (arith, none_held))
    | no some_held ↦ inl (
      omega (arith, held, h.active, some_held),
      (
        record w.arena {
          tail = advance w.arena w.arena.tail;
          active_buffers = sub_size w.arena.active_buffers 1;
        },
        ground (arith, some_held),
      ),
    )
  ];
}
  where
    held : length w.held ≡ h.held_blocks
    held =
        ap length h.held
        ∙ length-scaled size (run n h.first h.held_blocks)
        ∙ length-run n h.first h.held_blocks

-- A new arena with a client that holds nothing.
unfoldable pub start : ℕ → ℕ → World
unfolding create
start size n = record { arena = create size n; held = [] }

-- As long as the client gives its blocks back in the order in which it took them, the blocks that it
-- holds are different blocks of the arena's memory. It can take another one exactly while it holds
-- fewer than the arena has, and give one back exactly while it holds one; any other call fails an
-- assertion. The size of the memory is below 2^64.
pub arena_lem :
    {w : World} (size n : ℕ)
    → 0 < size
    → 0 < n
    → size * n < size_mod
    → Steps (start size n) w
    → IsExclusive size n w
unfolding start create
arena_lem size n positive some_blocks small steps = IsRing-IsExclusive positive (
    Steps-IsRing positive (omega (arith, small, mul-le-mul_right n positive)) steps (record {
      first = 0;
      held_blocks = 0;
      on = some_blocks;
      within = omega arith;
      segment = refl;
      blocks = refl;
      total = omega (arith, small);
      active = refl;
      tail = omega arith;
      head = ground arith;
      held = refl;
    }))
