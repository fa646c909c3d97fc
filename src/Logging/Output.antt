-- ===== src/Logging/Output.antt =====
-- src/logging/sinks/log_sink.h: `write_to_output`.
pub mod Delivery
use xtd.Base.{
  ℕ, zero, suc, ◌+◌, ◌-◌, ◌*◌, ◌/◌, ◌%◌, ◌^◌, ◌≤◌, ◌<◌, min, max, ◌≡◌, refl, sym, ap, ap₂, subst,
  ◌∙◌, ◌≡⟨◌⟩◌, ◌∎, ◌≢◌, ◌↔◌, ◌⊎◌, inl, inr, Bool, true, false, not, ◌&&◌, ◌||◌, Option, none, some,
  List, [], ◌∷◌, ◌++◌, map, append-nil, append_assoc, arith, dec_lt, ℕ_discrete, ltb, leb, ◌==◌,
  if◌then◌else◌, lt→ltb, le→ltb, le→leb, lt→leb, ltb→lt, ltb→le, ==_iff, ne→==, Bool-cases,
  Option-cases, if_cases, length, get_elem?, take, drop, flatten, push_back, length-append,
  length-push_back, length-take, length-drop, take-append-drop, take_all, drop_all, eq_nil,
  take-zero, drop-zero, take-nil, drop-nil, take-append, drop-append, drop-drop, take-min,
  take-take, take-add, drop-take, take_prefix, drop_prefix, get_elem?-append, get_elem?-append_left,
  get_elem?-is_some, flatten-append, size_mod, add_size, sub_size, add_size_exact, sub_size_exact,
  Error, Result, ok, err, out_of_range, invalid_argument, logic_error, undefined, ◌>>=◌, ◌>>◌,
  mul_size, require, count, remove, count-remove, length-remove,
}

-- What one call of `::write` returns: a count, or -1 with `errno` at EINTR or at another error.
pub data WriteAnswer : Type 0 where
  wrote : ℕ → WriteAnswer
  interrupted : WriteAnswer
  failed : WriteAnswer

-- `answer` gives what the calls of `::write` return, by the number of the call and the bytes
-- offered; a call that returns a count has put so many of these bytes into the file.
module _ (answer : ℕ → List ℕ → WriteAnswer) (flush_on_write : Bool) where
  -- The loop, on fuel, from call number `call` on: the bytes in the file and whether `fsync` ran.
  unfoldable pub write_loop : ℕ → ℕ → List ℕ → ℕ → List ℕ → Option (List ℕ × Bool)
  write_loop zero call text offset file = none
  write_loop (suc fuel) call text offset file = elim (ltb offset (length text)) [
    | true ↦ elim (answer call (drop offset text)) [
      | wrote written ↦
          write_loop fuel (call + 1) text (add_size offset written)
            (file ++ take written (drop offset text))
      | interrupted ↦ write_loop fuel (call + 1) text offset file
      | failed ↦ some (file, false)
    ]
    | false ↦ some (file, flush_on_write)
  ]

  unfoldable pub write_to_output : ℕ → List ℕ → Option (List ℕ × Bool)
  unfolding write_loop
  write_to_output fuel text = write_loop fuel 0 text 0 []
