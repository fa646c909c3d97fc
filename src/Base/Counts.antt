-- ===== src/Base/Counts.antt =====
-- How often a number stands in a list.
use Prim.Native.Nat.{ℕ, ◌+◌, ◌<◌}
use mathlib.Core.Path.{◌≡◌}
use mathlib.Core.List.{List, [], ◌∷◌}
use native.Mathlib.Omega.{arith}
use xtd.Base.Tests.{◌==◌, if◌then◌else◌}
use xtd.Base.Lists.{length}

abbrev pub count : ℕ → List ℕ → ℕ
count a [] = 0
count a (x ∷ xs) = (if x == a then 1 else 0) + count a xs

-- The list without the first `a`.
abbrev pub remove : ℕ → List ℕ → List ℕ
remove a [] = []
remove a (x ∷ xs) = if x == a then xs else x ∷ remove a xs

pub count-remove :
    (a b : ℕ) (xs : List ℕ)
    → 0 < count a xs
    → count b (remove a xs) + (if a == b then 1 else 0) ≡ count b xs
count-remove a b [] h = absurd (omega arith)
count-remove a b (x ∷ xs) h = ground (arith, count-remove a b xs)

pub length-remove : (a : ℕ) (xs : List ℕ) → 0 < count a xs → length (remove a xs) + 1 ≡ length xs
length-remove a [] h = absurd (omega arith)
length-remove a (x ∷ xs) h = ground (arith, length-remove a xs)
