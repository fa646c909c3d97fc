-- ===== src/Position.antt =====
-- src/pipeline/position.h: a byte offset in a sequence, or the mark of a search that found nothing.
pub mod Laws
use xtd.Base.{ℕ, Bool, true, false, not, ltb, leb, ◌==◌, add_size, sub_size}

pub record Position : Type 0 where
  pub offset : ℕ
  pub found : Bool

-- `position{offset}` and `position{}`
unfoldable pub at : ℕ → Position
at n = record { offset = n; found = true }

unfoldable pub nowhere : Position
nowhere = record { offset = 0; found = false }

-- `operator()` and `operator bool`
unfoldable pub is_found : Position → Bool
is_found p = p.found

unfoldable pub sequence_offset : Position → ℕ
sequence_offset p = p.offset

-- `operator+` and `operator-` build a fresh position, which counts as found.
unfoldable pub plus : Position → ℕ → Position
unfolding at
plus p n = at (add_size p.offset n)

unfoldable pub minus : Position → ℕ → Position
unfolding at
minus p n = at (sub_size p.offset n)

-- `operator+=` and `operator-=` move this position and keep its mark.
unfoldable pub advance : Position → ℕ → Position
advance p n = record p { offset = add_size p.offset n }

unfoldable pub retreat : Position → ℕ → Position
retreat p n = record p { offset = sub_size p.offset n }

-- `++p`, `--p`; then `p++`, `p--`, each with the value it returns first.
unfoldable pub pre_increment : Position → Position
pre_increment p = record p { offset = add_size p.offset 1 }

unfoldable pub pre_decrement : Position → Position
pre_decrement p = record p { offset = sub_size p.offset 1 }

unfoldable pub post_increment : Position → Position × Position
unfolding pre_increment
post_increment p = (p, pre_increment p)

unfoldable pub post_decrement : Position → Position × Position
unfolding pre_decrement
post_decrement p = (p, pre_decrement p)

-- The comparisons read the offsets alone.
unfoldable pub equal : Position → Position → Bool
equal p q = p.offset == q.offset

unfoldable pub not_equal : Position → Position → Bool
unfolding equal
not_equal p q = not (equal p q)

unfoldable pub greater : Position → Position → Bool
greater p q = ltb q.offset p.offset

unfoldable pub less : Position → Position → Bool
less p q = ltb p.offset q.offset

unfoldable pub greater_equal : Position → Position → Bool
greater_equal p q = leb q.offset p.offset

unfoldable pub less_equal : Position → Position → Bool
less_equal p q = leb p.offset q.offset
