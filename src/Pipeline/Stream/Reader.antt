-- ===== src/Pipeline/Stream/Reader.antt =====
-- src/pipeline/pipeline_impl.h: what the reader's steps leave of the held bytes.
use xtd.Base.{ℕ, ◌≡◌, refl, sym, ap, subst, inl, inr, Bool, ok}
use xtd.Position.{Position}
use xtd.Pipeline.State.{Pipeline}
use xtd.Pipeline.Read.{ReaderPc, reading, waiting, got, refused, read_step}
use xtd.Pipeline.Advance.{advance}
use xtd.Pipeline.Invariant.{contents, IsLive}
use xtd.Pipeline.Reading.{Answered, read_step_lem}
use xtd.Pipeline.Advancing.{Advanced, advance_lem}

-- A step of the reader leaves the held bytes.
Answered-kept :
    {p : Pipeline} (min_size : ℕ) (stopped : Bool) (out : Pipeline × ReaderPc)
    → IsLive p
    → Answered p min_size stopped out
    → IsLive out.0 × (contents out.0 ≡ contents p)
Answered-kept min_size stopped (q, reading m) live a = absurd a
Answered-kept min_size stopped (q, waiting m) live (e, going, short, same) = (
  subst IsLive (sym same) (record {
    used = live.used;
    buffered = live.buffered;
    actual = live.actual;
    bounded = live.bounded;
    positive = live.positive;
    small = live.small;
    narrow = live.narrow;
    pending = live.pending;
    examined = live.examined;
  }),
  ap contents same,
)
Answered-kept min_size stopped (q, got r) live a = (a.0, a.1)
Answered-kept min_size stopped (q, refused e) live a = absurd a

pub read-kept :
    {p : Pipeline} (pc : ReaderPc) (stopped : Bool)
    → IsLive p
    → let out = read_step p pc stopped in IsLive out.0 × (contents out.0 ≡ contents p)
unfolding read_step
read-kept {p} (reading min_size) stopped live = elim (read_step_lem min_size stopped live).0 [
  | inl (shut, e) ↦ subst (λ out. IsLive out.0 × (contents out.0 ≡ contents p)) (sym e) (live, refl)
  | inr (free, a) ↦ Answered-kept min_size stopped _ live a
]
read-kept (waiting min_size) stopped live =
    Answered-kept min_size stopped _ live (read_step_lem min_size stopped live).1
read-kept (got r) stopped live = (live, refl)
read-kept (refused e) stopped live = (live, refl)

-- An accepted `advance` drops what it says.
pub accepted-Advanced :
    {p : Pipeline} (upto examined : Position) (out : Pipeline × Bool)
    → IsLive p
    → advance p upto examined ≡ ok out
    → Advanced p upto.offset examined.offset out
accepted-Advanced {p} upto examined out live e = elim (advance_lem upto examined live) [
  | inl (_, refusal) ↦ absurd cc
  | inr (inl (_, _, refusal)) ↦ absurd cc
  | inr (inr (inl (_, _, _, refusal))) ↦ absurd cc
  | inr (inr (inr (_, _, _, (found, accepted, a)))) ↦
      let same : found ≡ out = cc in subst (Advanced p upto.offset examined.offset) same a
]
