-- ===== src/Pipeline/Transfer.antt =====
-- src/pipeline/pipeline_impl.h: one call of `write` and a reader that consumes all it gets, by turns.
pub mod Progress
pub mod Turn
pub mod Ending
use xtd.Base.{
  ℕ, zero, suc, ◌+◌, ◌-◌, ◌*◌, ◌/◌, ◌%◌, ◌^◌, ◌≤◌, ◌<◌, min, max, ◌≡◌, refl, sym, ap, ap₂, subst,
  ◌∙◌, ◌≡⟨◌⟩◌, ◌∎, ◌≢◌, ◌↔◌, ◌⊎◌, inl, inr, Bool, true, false, not, ◌&&◌, ◌||◌, Option, none, some,
  List, [], ◌∷◌, ◌++◌, map, append-nil, append_assoc, arith, dec_lt, ℕ_discrete, ltb, leb, ◌==◌,
  if◌then◌else◌, lt→ltb, le→ltb, le→leb, lt→leb, ltb→lt, ltb→le, ==_iff, ne→==, Bool-cases,
  Option-cases, if_cases, length, get_elem?, take, drop, flatten, push_back, length-append,
  length-push_back, length-take, length-drop, take-append-drop, take_all, drop_all, eq_nil,
  take-zero, drop-zero, take-nil, drop-nil, take-append, drop-append, drop-drop, take-min,
  take-take, take-add, drop-take, take_prefix, drop_prefix, get_elem?-append, get_elem?-append_left,
  get_elem?-is_some, flatten-append, size_mod, add_size, sub_size, add_size_exact, sub_size_exact,
  Error, Result, ok, err, out_of_range, invalid_argument, logic_error, undefined, ◌>>=◌, ◌>>◌,
  mul_size, require, count, remove, count-remove, length-remove,
}
use xtd.Position.{Position}
use xtd.View.{View, end}
use xtd.View.Slices.{bytes}
use xtd.Pipeline.State.{Pipeline}
use xtd.Pipeline.Write.{WriterPc, entering, asleep, returned, failed, write_step}
use xtd.Pipeline.Read.{ReadResult, ReaderPc, reading, waiting, got, refused, read_step}
use xtd.Pipeline.Advance.{advance}

-- What the reader does with what `read` gave: it consumes the whole buffer. A read that waits or
-- throws is an error here.
unfoldable pub consume_all : Pipeline × ReaderPc → Result (Pipeline × List ℕ)
consume_all (p, got r) = do
  out ← advance p (end r.buffer) (end r.buffer)
  ok (out.0, bytes r.buffer)
consume_all (p, refused e) = err e
consume_all (p, reading m) = err undefined
consume_all (p, waiting m) = err undefined

-- What comes after a section of `write`: its end, or the reader's turn and then the next section.
unfoldable pub after_section :
    (Pipeline → WriterPc → List ℕ → Result (ℕ × List ℕ))
    → Pipeline × WriterPc × Bool
    → List ℕ
    → Result (ℕ × List ℕ)
after_section next (p, returned count, notify) received = ok (count, received)
after_section next (p, failed e, notify) received = err e
after_section next (p, entering source copied, notify) received = do
  out ← consume_all (read_step p (reading 0) false)
  next out.0 (entering source copied) (received ++ out.1)
after_section next (p, asleep source copied, notify) received = do
  out ← consume_all (read_step p (reading 0) false)
  next out.0 (asleep source copied) (received ++ out.1)

-- The writer and the reader by turns, on fuel, up to the return of `write`: the count it returns
-- and all the bytes that the reader got.
module _ (allocate : Pipeline → List ℕ) where
  unfoldable pub transfer : ℕ → Pipeline → WriterPc → List ℕ → Result (ℕ × List ℕ)
  transfer zero p pc received = err undefined
  transfer (suc fuel) p pc received =
      after_section (λ q next l. transfer fuel q next l) (write_step allocate (λ _. false) p pc)
        received
