-- ===== src/Base/Memory.antt =====
-- Writing a run of bytes into a block of memory: `std::memcpy`, `std::ranges::copy`.
use Prim.Native.Nat.{ℕ, ◌+◌, ◌-◌, ◌≤◌}
use mathlib.Core.Path.{ap₂, ◌≡◌, sym, ap, ◌∙◌}
use mathlib.Core.List.{[], List, ◌++◌, append_assoc}
use native.Mathlib.Omega.{arith}
use xtd.Base.Lists.{
  take-append-drop, drop_prefix, drop-drop, length, take, drop, length-append, length-take,
  length-drop, take_prefix, drop-append, drop-take, drop-zero,
}

-- `bytes` stands at the index `at` of the result, and all other bytes are as they were.
abbrev pub overwrite : List ℕ → ℕ → List ℕ → List ℕ
overwrite memory at bytes = take at memory ++ (bytes ++ drop (at + length bytes) memory)

pub length-overwrite :
    (memory bytes : List ℕ) (at : ℕ)
    → at + length bytes ≤ length memory
    → length (overwrite memory at bytes) ≡ length memory
length-overwrite memory bytes at h = omega (
  arith,
  length-append (take at memory) (bytes ++ drop (at + length bytes) memory),
  length-append bytes (drop (at + length bytes) memory),
  length-take at memory,
  length-drop (at + length bytes) memory,
)

-- Writing behind a prefix that a window reaches to the end of extends the window by what is written.
pub window-overwrite :
    (memory bytes : List ℕ) (from size at : ℕ)
    → from + size ≡ at
    → at + length bytes ≤ length memory
    → take (size + length bytes) (drop from (overwrite memory at bytes))
      ≡ take size (drop from memory) ++ bytes
window-overwrite memory bytes from size at h fits =
    ap (take (size + length bytes)) opened
    ∙ ap (take (size + length bytes)) (sym (append_assoc window bytes rest))
    ∙ take_prefix (size + length bytes) (window ++ bytes) rest (
        omega (
          arith,
          length-append window bytes,
          length-take size (drop from memory),
          length-drop from memory,
        ))
  where
    window : List ℕ
    window = take size (drop from memory)

    rest : List ℕ
    rest = drop (at + length bytes) memory

    opened : drop from (overwrite memory at bytes) ≡ window ++ (bytes ++ rest)
    opened = ground (
      arith,
      drop-append from (take at memory) (bytes ++ rest),
      length-take at memory,
      drop-zero (from - length (take at memory)) (bytes ++ rest),
      drop-take from at memory,
    )

pub overwrite-nil : (memory : List ℕ) (at : ℕ) → overwrite memory at [] ≡ memory
overwrite-nil memory at =
    ap (λ k. take at memory ++ drop k memory) {x = at + 0} {y = at} (omega arith)
    ∙ take-append-drop at memory

-- Two runs written one behind the other are one run.
pub overwrite-overwrite :
    (memory xs ys : List ℕ) (at : ℕ)
    → at + length xs ≤ length memory
    → overwrite (overwrite memory at xs) (at + length xs) ys ≡ overwrite memory at (xs ++ ys)
overwrite-overwrite memory xs ys at h =
    ap₂ (λ front back. front ++ (ys ++ back)) front back
    ∙ append_assoc (take at memory) xs (ys ++ drop (at + length (xs ++ ys)) memory)
    ∙ ap (λ zs. take at memory ++ zs)
        (sym (append_assoc xs ys (drop (at + length (xs ++ ys)) memory)))
  where
    rest : List ℕ
    rest = drop (at + length xs) memory

    sized : length (take at memory ++ xs) ≡ at + length xs
    sized = omega (arith, length-append (take at memory) xs, length-take at memory)

    joined : overwrite memory at xs ≡ (take at memory ++ xs) ++ rest
    joined = sym (append_assoc (take at memory) xs rest)

    front : take (at + length xs) (overwrite memory at xs) ≡ take at memory ++ xs
    front =
        ap (take (at + length xs)) joined
        ∙ take_prefix (at + length xs) (take at memory ++ xs) rest sized

    back :
        drop (at + length xs + length ys) (overwrite memory at xs)
        ≡ drop (at + length (xs ++ ys)) memory
    back =
        sym (drop-drop (length ys) (at + length xs) (overwrite memory at xs))
        ∙ ap (λ zs. drop (length ys) (drop (at + length xs) zs)) joined
        ∙ ap (drop (length ys)) (drop_prefix (at + length xs) (take at memory ++ xs) rest sized)
        ∙ drop-drop (length ys) (at + length xs) memory
        ∙ ap (λ k. drop k memory) (omega (arith, length-append xs ys))
