-- ===== src/Position/Laws.antt =====
-- src/pipeline/position.h: arithmetic and order of positions.
use xtd.Base.{ℕ, ◌<◌, ◌≡◌, ◌⊎◌, true, false, not, size_mod, arith}
use xtd.Position.{
  Position, advance, retreat, pre_increment, pre_decrement, post_increment, post_decrement, equal,
  not_equal, greater, less, greater_equal, less_equal,
}

-- Moving a position by any amount below 2^64 and back gives the position again, also where the
-- sum wraps; so do a step up and a step down, in either order.
pub retreat-advance :
    (p : Position) (n : ℕ)
    → p.offset < size_mod
    → n < size_mod
    → (retreat (advance p n) n ≡ p)
      × (advance (retreat p n) n ≡ p)
      × (pre_decrement (post_increment p).1 ≡ p)
      × (pre_increment (post_decrement p).1 ≡ p)
unfolding retreat advance pre_decrement pre_increment post_increment post_decrement
retreat-advance p n hp hn = ground arith

-- The six comparisons are one total order of the offsets: exactly one of less, equal and greater
-- holds, and the three others are their negations.
pub comparisons_total :
    (p q : Position)
    → (not_equal p q ≡ not (equal p q))
      × (greater_equal p q ≡ not (less p q))
      × (less_equal p q ≡ not (greater p q))
      × (((less p q ≡ true) × (equal p q ≡ false) × (greater p q ≡ false))
          ⊎ ((less p q ≡ false) × (equal p q ≡ true) × (greater p q ≡ false))
          ⊎ ((less p q ≡ false) × (equal p q ≡ false) × (greater p q ≡ true)))
unfolding equal not_equal greater less greater_equal less_equal
comparisons_total p q = ground arith
