-- ===== src/Pipeline/Deque.antt =====
-- src/pipeline/pipeline_impl.h: what a change of the last segment does to the stored bytes.
use xtd.Base.{
  ℕ, suc, ◌+◌, ◌<◌, ◌≡◌, refl, sym, ap, subst, ◌∙◌, some, List, [], ◌∷◌, ◌++◌, append-nil,
  append_assoc, arith, length, push_back,
}
use xtd.Segment.{Segment, readable_bytes}
use xtd.Segment.Bounds
use xtd.Pipeline.State.{back, set_back}
use xtd.Pipeline.Invariant.{stored, total, AllUsed}

-- The segments as they are after the writer has put `bytes` into the last of them.
pub record Grown (size : ℕ) (before : List Segment) (bytes : List ℕ) (after : List Segment)
    : Type 0 where
  pub used : AllUsed size after
  pub appended : stored after ≡ stored before ++ bytes
  pub counted : total after ≡ total before + length bytes

-- A new segment at the back.
pub push_back-Grown :
    (size : ℕ) (segments : List Segment) (s : Segment)
    → AllUsed size segments
    → Bounds.IsValid s
    → s.capacity ≡ size
    → 0 < s.readable_size
    → Grown size segments (readable_bytes s) (push_back segments s)
push_back-Grown size [] s u v c h = record {
  used = (v, c, h, tt);
  appended = append-nil (readable_bytes s);
  counted = omega (arith, Bounds.length-readable_bytes v);
}
push_back-Grown size (x ∷ rest) s u v c h =
    let tail : Grown size rest (readable_bytes s) (push_back rest s) =
      push_back-Grown size rest s u.3 v c h in
    record {
      used = (u.0, u.1, u.2, tail.used);
      appended =
          ap (λ k. readable_bytes x ++ k) tail.appended
          ∙ sym (append_assoc (readable_bytes x) (stored rest) (readable_bytes s));
      counted = omega (arith, tail.counted);
    }

-- More bytes in the last segment.
pub set_back-Grown :
    (size : ℕ) (segments : List Segment) (s s' : Segment) (bytes : List ℕ)
    → AllUsed size segments
    → back segments ≡ some s
    → Bounds.IsValid s'
    → s'.capacity ≡ size
    → readable_bytes s' ≡ readable_bytes s ++ bytes
    → s'.readable_size ≡ s.readable_size + length bytes
    → Grown size segments bytes (set_back segments s')
set_back-Grown size [] s s' bytes u e v c r n = cc
set_back-Grown size (x ∷ []) s s' bytes u e v c r n =
    let same : x ≡ s = ground arith in
    record {
      used = (v, c, omega (arith, n, u.2, ap (λ (k : Segment). k.readable_size) same), tt);
      appended =
          append-nil (readable_bytes s')
          ∙ r
          ∙ ap (λ k. k ++ bytes)
              (ap readable_bytes (sym same) ∙ sym (append-nil (readable_bytes x)));
      counted = omega (arith, n, ap (λ (k : Segment). k.readable_size) same);
    }
set_back-Grown size (x ∷ y ∷ rest) s s' bytes u e v c r n =
    let tail : Grown size (y ∷ rest) bytes (set_back (y ∷ rest) s') =
      set_back-Grown size (y ∷ rest) s s' bytes u.3 e v c r n in
    record {
      used = (u.0, u.1, u.2, tail.used);
      appended =
          ap (λ k. readable_bytes x ++ k) tail.appended
          ∙ sym (append_assoc (readable_bytes x) (stored (y ∷ rest)) bytes);
      counted = omega (arith, tail.counted);
    }

pub length-set_back :
    (segments : List Segment) (s : Segment) → length (set_back segments s) ≡ length segments
length-set_back [] s = refl
length-set_back (x ∷ []) s = refl
length-set_back (x ∷ y ∷ rest) s = ap suc (length-set_back (y ∷ rest) s)

pub back-push_back : (segments : List Segment) (s : Segment) → back (push_back segments s) ≡ some s
back-push_back [] s = refl
back-push_back (x ∷ []) s = refl
back-push_back (x ∷ y ∷ rest) s = back-push_back (y ∷ rest) s

pub set_back-push_back :
    (segments : List Segment) (s s' : Segment)
    → set_back (push_back segments s) s' ≡ push_back segments s'
set_back-push_back [] s s' = refl
set_back-push_back (x ∷ []) s s' = refl
set_back-push_back (x ∷ y ∷ rest) s s' = ap (◌∷◌ x) (set_back-push_back (y ∷ rest) s s')

-- The last segment is one of those that the invariant speaks of.
pub back-AllUsed :
    (size : ℕ) (segments : List Segment) (s : Segment)
    → AllUsed size segments
    → back segments ≡ some s
    → Bounds.IsValid s × (s.capacity ≡ size)
back-AllUsed size [] s u e = cc
back-AllUsed size (x ∷ []) s u e =
    let same : x ≡ s = ground arith in
    (subst Bounds.IsValid same u.0, ap (λ (k : Segment). k.capacity) (sym same) ∙ u.1)
back-AllUsed size (x ∷ y ∷ rest) s u e = back-AllUsed size (y ∷ rest) s u.3 e
