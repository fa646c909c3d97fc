-- ===== src/View/Search/Seams.antt =====
-- A search in a concatenation, from the searches in its parts and around the seam.
use xtd.Base.{
  ℕ, suc, ◌+◌, ◌-◌, ◌≤◌, ◌<◌, min, ◌≡◌, refl, sym, ap, ◌∙◌, inl, inr, false, ◌&&◌, Option, none,
  some, List, [], ◌∷◌, ◌++◌, arith, dec_lt, ◌==◌, Bool-cases, length, take, drop, length-take,
  take-append, take-take,
}
use mathlib.Core.Option
use xtd.View.Search.{starts_with, search_index}
use xtd.View.Search.Patterns.{
  or_else, shift, shift-suc, shift-zero, starts_with-append, search_index-short, search_index-hit,
  search_index-miss, search_index-le,
}

map-suc-none : (o : Option ℕ) → Option.map suc o ≡ none → o ≡ none
map-suc-none none e = refl
map-suc-none (some i) e = cc

map-suc-some :
    (o : Option ℕ) (i : ℕ) → Option.map suc o ≡ some i → (j : ℕ) × (o ≡ some j) × (i ≡ suc j)
map-suc-some none i e = cc
map-suc-some (some j) i e = (j, refl, ground arith)

-- A search that fails at `x ∷ xs` fails at its head and in `xs`.
search_index-none :
    (pattern : List ℕ) (x : ℕ) (xs : List ℕ)
    → search_index pattern (x ∷ xs) ≡ none
    → (starts_with pattern (x ∷ xs) ≡ false) × (search_index pattern xs ≡ none)
search_index-none pattern x xs e = elim (Bool-cases (starts_with pattern (x ∷ xs))) [
  | inl hit ↦ cc (search_index-hit pattern x xs hit)
  | inr miss ↦
      (miss, map-suc-none (search_index pattern xs) (sym (search_index-miss pattern x xs miss) ∙ e))
]

-- A hit in the left part is the first hit of the whole.
pub search_index-fast :
    (pattern xs ys : List ℕ) (i : ℕ)
    → 0 < length pattern
    → search_index pattern xs ≡ some i
    → search_index pattern (xs ++ ys) ≡ some i
search_index-fast pattern [] ys i h e = cc (search_index-short pattern [] h)
search_index-fast pattern (x ∷ xs) ys i h e = elim (Bool-cases (starts_with pattern (x ∷ xs))) [
  | inl hit ↦
      let fits : i + length pattern ≤ length (x ∷ xs) = search_index-le pattern (x ∷ xs) i e in
      search_index-hit pattern x (xs ++ ys)
        (starts_with-append pattern (x ∷ xs) ys (omega arith) ∙ hit)
      ∙ sym (search_index-hit pattern x xs hit)
      ∙ e
  | inr miss ↦
      let fits : i + length pattern ≤ length (x ∷ xs) = search_index-le pattern (x ∷ xs) i e in
      let (j, found, same) =
        map-suc-some (search_index pattern xs) i (sym (search_index-miss pattern x xs miss) ∙ e) in
      search_index-miss pattern x (xs ++ ys)
        (starts_with-append pattern (x ∷ xs) ys (omega arith) ∙ miss)
      ∙ ap (Option.map suc) (search_index-fast pattern xs ys j h found)
      ∙ ap some (sym same)
]

-- Where the left part has no hit, only the starts in its last bytes are left, one byte fewer than
-- the pattern has.
pub search_index-tail :
    (pattern s z : List ℕ) (t : ℕ)
    → search_index pattern s ≡ none
    → t ≡ min (length s) (length pattern - 1)
    → search_index pattern (s ++ z)
      ≡ shift (length s - t) (search_index pattern (drop (length s - t) s ++ z))
search_index-tail pattern [] z t e h =
    let zero_drop : 0 - t ≡ 0 = omega arith in
    rw (zero_drop) (sym (shift-zero (search_index pattern z)))
search_index-tail pattern (x ∷ xs) z t e h = elim (dec_lt (length xs) (length pattern - 1)) [
  | yes short ↦
      let all : length (x ∷ xs) - t ≡ 0 = omega arith in
      rw all (sym (shift-zero (search_index pattern ((x ∷ xs) ++ z))))
  | no long ↦
      let (miss, none_left) = search_index-none pattern x xs e in
      let past : length (x ∷ xs) - t ≡ suc (length xs - t) = omega arith in
      rw past (
        search_index-miss pattern x (xs ++ z)
          (starts_with-append pattern (x ∷ xs) z (omega arith) ∙ miss)
        ∙ ap (Option.map suc) (search_index-tail pattern xs z t none_left (omega arith))
        ∙ shift-suc (length xs - t) (search_index pattern (drop (length xs - t) xs ++ z)))
]

suc-or_else :
    (o later : Option ℕ)
    → Option.map suc (or_else o later) ≡ or_else (Option.map suc o) (Option.map suc later)
suc-or_else none later = refl
suc-or_else (some i) later = refl

-- Whether a pattern stands at the front shows in the pattern's own length of bytes.
starts_with-take :
    (pattern zs : List ℕ) → starts_with pattern zs ≡ starts_with pattern (take (length pattern) zs)
unfolding starts_with
starts_with-take [] zs = refl
starts_with-take (p ∷ ps) [] = refl
starts_with-take (p ∷ ps) (z ∷ zs) = ap (λ b. (p == z) && b) (starts_with-take ps zs)

take-near : (m : ℕ) (xs ys : List ℕ) → take m (xs ++ ys) ≡ take m (xs ++ take m ys)
take-near m xs ys =
    ground
      (arith, take-append m xs ys, take-append m xs (take m ys), take-take (m - length xs) m ys)

starts_with-near :
    (pattern : List ℕ) (x : ℕ) (xs ys : List ℕ)
    → 0 < length pattern
    → starts_with pattern (x ∷ (xs ++ ys))
      ≡ starts_with pattern (x ∷ (xs ++ take (length pattern - 1) ys))
starts_with-near [] x xs ys h = absurd (omega arith)
starts_with-near (p ∷ ps) x xs ys h =
    let same : length (p ∷ ps) - 1 ≡ length ps = omega arith in
    rw same (
      starts_with-take (p ∷ ps) (x ∷ (xs ++ ys))
      ∙ ap (λ zs. starts_with (p ∷ ps) (x ∷ zs)) (take-near (length ps) xs ys)
      ∙ sym (starts_with-take (p ∷ ps) (x ∷ (xs ++ take (length ps) ys))))

-- Whether a hit starts in the left part shows in that part and one byte fewer of the right part
-- than the pattern has.
pub search_index-split :
    (pattern xs ys : List ℕ)
    → 0 < length pattern
    → search_index pattern (xs ++ ys)
      ≡ or_else
          (search_index pattern (xs ++ take (length pattern - 1) ys))
          (shift (length xs) (search_index pattern ys))
search_index-split pattern [] ys h =
    rw
      (search_index-short pattern (take (length pattern - 1) ys)
        (omega (arith, length-take (length pattern - 1) ys)))
      (sym (shift-zero (search_index pattern ys)))
search_index-split pattern (x ∷ xs) ys h =
    elim (Bool-cases (starts_with pattern (x ∷ (xs ++ ys)))) [
      | inl hit ↦ rw (
        search_index-hit pattern x (xs ++ ys) hit,
        search_index-hit pattern x (xs ++ near) (sym same ∙ hit),
      )
      | inr miss ↦ rw (
        search_index-miss pattern x (xs ++ ys) miss,
        search_index-miss pattern x (xs ++ near) (sym same ∙ miss),
        search_index-split pattern xs ys h,
        suc-or_else (search_index pattern (xs ++ near))
            (shift (length xs) (search_index pattern ys)),
        shift-suc (length xs) (search_index pattern ys),
      )
    ]
  where
    near : List ℕ
    near = take (length pattern - 1) ys

    same : starts_with pattern (x ∷ (xs ++ ys)) ≡ starts_with pattern (x ∷ (xs ++ near))
    same = starts_with-near pattern x xs ys h
