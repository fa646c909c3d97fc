-- ===== src/Pools/Arena/Runs.antt =====
-- src/pipeline/custom_allocators/arena_pool_resource.h: blocks that follow one another in the ring.
use xtd.Base.{
  ℕ, zero, suc, ◌+◌, ◌-◌, ◌*◌, ◌/◌, ◌≤◌, ◌<◌, ◌≡◌, refl, ap, ◌∙◌, true, false, ◌&&◌, List, [], ◌∷◌,
  arith, dec_lt, ℕ_discrete, ltb, leb, ◌==◌, if◌then◌else◌, ==_iff, ne→==, length, push_back, count,
}
use native.Mathlib.Nat.{le-div_iff_mul-le, div-lt_iff_lt-mul, mul-le-mul_left}
use xtd.Pools.Arena.{Arena, advance}

-- The number of the block after the `k`-th of `n`.
abbrev pub next : ℕ → ℕ → ℕ
next n k = if k + 1 == n then 0 else k + 1

-- The numbers of `m` blocks of `n`, from the `k`-th on.
abbrev pub run : ℕ → ℕ → ℕ → List ℕ
run n k zero = []
run n k (suc m) = k ∷ run n (next n k) m

-- The block after so many.
abbrev pub ahead : ℕ → ℕ → ℕ → ℕ
ahead n k m = if ltb (k + m) n then k + m else k + m - n

-- Whether the block `a` is among them, as a number.
abbrev inside : ℕ → ℕ → ℕ → ℕ → ℕ
inside n k m a =
    (if leb k a && ltb a (k + m) then 1 else 0) + (if ltb (a + n) (k + m) then 1 else 0)

count-run : (n k m a : ℕ) → k < n → a < n → m ≤ n → count a (run n k m) ≡ inside n k m a
count-run n k zero a h i r = ground arith
count-run n k (suc m) a h i r = elim (dec_lt (k + 1) n) [
  | yes p ↦
      let e : next n k ≡ k + 1 = ground arith in
      let ih = count-run n (k + 1) m a p i (omega arith) in rw e (ground (arith, ih))
  | no p ↦
      let e : next n k ≡ 0 = ground arith in
      let ih = count-run n 0 m a (omega arith) i (omega arith) in rw e (ground (arith, ih))
]

run_above : (n k m a : ℕ) → k < n → n ≤ a → count a (run n k m) ≡ 0
run_above n k zero a h i = refl
run_above n k (suc m) a h i =
    let on : next n k < n = ground arith in
    let off : (k == a) ≡ false = ground arith in
    rw (off, run_above n (next n k) m a on i) (omega arith)

pub run_once : (n k m a : ℕ) → k < n → m ≤ n → count a (run n k m) ≤ 1
run_once n k m a h r = elim (dec_lt a n) [
  | yes i ↦ let e = count-run n k m a h i r in ground (arith, e)
  | no i ↦ omega (arith, run_above n k m a h (omega arith))
]

pub push_back-run :
    (n k m : ℕ) → k < n → m < n → push_back (run n k m) (ahead n k m) ≡ run n k (suc m)
push_back-run n k zero h r = let e : ahead n k 0 ≡ k = ground arith in rw e refl
push_back-run n k (suc m) h r =
    let on : next n k < n = ground arith in
    let e : ahead n k (suc m) ≡ ahead n (next n k) m = ground arith in
    ap (◌∷◌ k)
      (ap (push_back (run n (next n k) m)) e ∙ push_back-run n (next n k) m on (omega arith))

pub next-ahead : (n k m : ℕ) → k < n → m < n → next n (ahead n k m) ≡ ahead n k (suc m)
next-ahead n k m h r = ground arith

pub length-run : (n k m : ℕ) → length (run n k m) ≡ m
length-run n k zero = refl
length-run n k (suc m) = omega (arith, length-run n (next n k) m)

-- The addresses of blocks by their numbers.
abbrev pub scaled : ℕ → List ℕ → List ℕ
scaled size [] = []
scaled size (i ∷ is) = i * size ∷ scaled size is

pub scaled-push_back :
    (size i : ℕ) (is : List ℕ)
    → scaled size (push_back is i) ≡ push_back (scaled size is) (i * size)
scaled-push_back size i [] = refl
scaled-push_back size i (j ∷ js) = ap (◌∷◌ (j * size)) (scaled-push_back size i js)

pub length-scaled : (size : ℕ) (is : List ℕ) → length (scaled size is) ≡ length is
length-scaled size [] = refl
length-scaled size (i ∷ is) = omega (arith, length-scaled size is)

pub count-scaled :
    (size a : ℕ) (is : List ℕ) → 0 < size → count a (scaled size is) ≤ count (a / size) is
count-scaled size a [] h = omega arith
count-scaled size a (i ∷ is) h = elim (ℕ_discrete (i * size) a) [
  | yes e ↦
      let above : i ≤ a / size = (le-div_iff_mul-le h).1 (omega (arith, e)) in
      let below : a / size < i + 1 = (div-lt_iff_lt-mul h).1 (omega (arith, e)) in
      let t : (i == a / size) ≡ true = (==_iff i (a / size)).1 (omega arith) in
      let u : (i * size == a) ≡ true = (==_iff (i * size) a).1 e in
      rw (t, u) (omega (arith, count-scaled size a is h))
  | no e ↦ rw (ne→== (i * size) a e) (omega (arith, count-scaled size a is h))
]

pub advance-next :
    (a : Arena) (n i : ℕ)
    → a.total_size ≡ a.segment_size * n
    → 0 < a.segment_size
    → i < n
    → advance a (i * a.segment_size) ≡ next n i * a.segment_size
unfolding advance
advance-next a n i e h r = elim (ℕ_discrete (i + 1) n) [
  | yes last ↦
      let whole = ap (λ (t : ℕ). a.segment_size * t) last in
      let hit : (i * a.segment_size + a.segment_size == a.total_size) ≡ true =
        (==_iff (i * a.segment_size + a.segment_size) a.total_size).1 (omega (arith, e, whole)) in
      ground (arith, hit, last)
  | no more ↦
      let room : a.segment_size * (i + 2) ≤ a.segment_size * n =
        mul-le-mul_left a.segment_size (omega arith) in
      let miss : (i * a.segment_size + a.segment_size == a.total_size) ≡ false =
        ne→== (i * a.segment_size + a.segment_size) a.total_size (λ f. omega (arith, e, room, f)) in
      let short : next n i ≡ i + 1 = ground arith in rw (miss, short) (omega arith)
]
