-- ===== src/Base/Words.antt =====
-- `std::size_t`: 64-bit unsigned arithmetic, with its wrap-around.
use Prim.Native.Nat.{ℕ, ◌+◌, ◌-◌, ◌*◌, ◌%◌, ◌^◌, ◌≤◌, ◌<◌}
use mathlib.Core.Path.{◌≡◌}
use native.Mathlib.Omega.{arith}

abbrev pub size_mod : ℕ
size_mod = 2 ^ 64

-- `a + b`
abbrev pub add_size : ℕ → ℕ → ℕ
add_size a b = (a + b) % 2 ^ 64

-- `a - b`
abbrev pub sub_size : ℕ → ℕ → ℕ
sub_size a b = (a + (2 ^ 64 - b)) % 2 ^ 64

-- `a * b`
abbrev pub mul_size : ℕ → ℕ → ℕ
mul_size a b = a * b % 2 ^ 64

pub add_size_exact : (a b : ℕ) → a + b < size_mod → add_size a b ≡ a + b
add_size_exact a b h = omega arith

pub sub_size_exact : (a b : ℕ) → b ≤ a → a < size_mod → sub_size a b ≡ a - b
sub_size_exact a b h k = omega arith
