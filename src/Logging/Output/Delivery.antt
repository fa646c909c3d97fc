-- ===== src/Logging/Output/Delivery.antt =====
-- src/logging/sinks/log_sink.h: what of a message reaches the file.
use xtd.Base.{
  ℕ, zero, suc, ◌+◌, ◌-◌, ◌≤◌, ◌<◌, ◌≡◌, refl, sym, ap, ap₂, subst, ◌∙◌, ◌⊎◌, inl, inr, Bool, false,
  Option, some, List, arith, dec_lt, ℕ_discrete, ltb, lt→ltb, length, take, drop, length-drop,
  take-add, size_mod, add_size_exact,
}
use xtd.Logging.Output.{WriteAnswer, wrote, interrupted, failed, write_loop, write_to_output}

-- How `write_to_output` ends: all of the text is in the file, or a call failed behind a prefix of it.
pub record Delivered (answer : ℕ → List ℕ → WriteAnswer) (flush_on_write : Bool) (text : List ℕ)
    (out : Option (List ℕ × Bool)) : Type 0 where
  pub count : ℕ
  pub at_most : count ≤ length text
  pub synced : Bool
  pub result : out ≡ some (take count text, synced)
  pub reason :
      ((count ≡ length text) × (synced ≡ flush_on_write))
      ⊎ ((synced ≡ false) × ((call : ℕ) × (answer call (drop count text) ≡ failed)))

WriteAnswer-cases :
    (a : WriteAnswer) → ((n : ℕ) × (a ≡ wrote n)) ⊎ ((a ≡ interrupted) ⊎ (a ≡ failed))
WriteAnswer-cases (wrote n) = inl (n, refl)
WriteAnswer-cases interrupted = inr (inl refl)
WriteAnswer-cases failed = inr (inr refl)

module _ (answer : ℕ → List ℕ → WriteAnswer) (flush_on_write : Bool)
    (bounded : (call : ℕ) (rest : List ℕ) (n : ℕ) → answer call rest ≡ wrote n → n ≤ length rest)
    (idle : ℕ)
    (settles : (call : ℕ) (rest : List ℕ)
      → idle ≤ call
      → 0 < length rest
      → (answer call rest ≡ failed) ⊎ ((n : ℕ) × (0 < n) × (answer call rest ≡ wrote n)))
    (text : List ℕ) (small : length text < size_mod) where
  abbrev End : Option (List ℕ × Bool) → Type 0
  End = Delivered answer flush_on_write text

  -- A call that puts nothing in is an early one.
  early :
      (call offset : ℕ)
      → offset < length text
      → (answer call (drop offset text) ≡ interrupted) ⊎ (answer call (drop offset text) ≡ wrote 0)
      → call < idle
  early call offset more nothing = elim (dec_lt call idle) [
    | yes is_early ↦ is_early
    | no late ↦
        absurd
          (elim (settles call (drop offset text) (omega (arith, late))
            (omega (arith, length-drop offset text, more))) [
              | inl e ↦ elim nothing [ inl f ↦ cc (e, f) | inr f ↦ cc (e, f) ]
              | inr (n, some_n, e) ↦ elim nothing [
                | inl f ↦ cc (e, f)
                | inr f ↦ let same : n ≡ 0 = cc (e, f) in omega (arith, same, some_n)
              ]
            ])
  ]

  write_loop_lem :
      (fuel call offset : ℕ)
      → offset ≤ length text
      → (length text - offset) + (idle - call) < fuel
      → End (write_loop answer flush_on_write fuel call text offset (take offset text))
  unfolding write_loop
  write_loop_lem zero call offset on enough = absurd (omega arith)
  write_loop_lem (suc fuel) call offset on enough = elim (dec_lt offset (length text)) [
    | no over ↦
        let shut : ltb offset (length text) ≡ false = ground (arith, over) in
        let all : offset ≡ length text = omega (arith, on, over) in
        record {
          count = offset;
          at_most = on;
          synced = flush_on_write;
          result = rw (shut, write_loop) refl;
          reason = inl (all, refl);
        }
    | yes more ↦ elim (WriteAnswer-cases (answer call (drop offset text))) [
      | inr (inr e) ↦ record {
        count = offset;
        at_most = on;
        synced = false;
        result = rw (lt→ltb offset (length text) more, e, write_loop) refl;
        reason = inr (refl, (call, e));
      }
      | inr (inl e) ↦
          let later : call < idle = early call offset more (inl e) in
          subst End (sym (rw (lt→ltb offset (length text) more, e, write_loop) refl))
            (write_loop_lem fuel (call + 1) offset on (omega (arith, enough, later)))
      | inl (n, e) ↦
          let fits : n ≤ length text - offset =
            omega (arith, bounded call (drop offset text) n e, length-drop offset text) in
          let advances : (length text - (offset + n)) + (idle - (call + 1)) < fuel =
            elim (ℕ_discrete n 0) [
              | yes none_in ↦
                  omega
                    (arith, none_in, enough, early call offset more (inr (e ∙ ap wrote none_in)))
              | no some_in ↦ omega (arith, some_in, enough, fits)
            ] in
          subst End
            (sym (
              rw (lt→ltb offset (length text) more, e, write_loop)
                (ap₂ (write_loop answer flush_on_write fuel (call + 1) text)
                  (add_size_exact offset n (omega (arith, fits, small)))
                  (sym (take-add offset n text)))))
            (write_loop_lem fuel (call + 1) (offset + n) (omega (arith, fits, on)) advances)
    ]
  ]

-- Where every call of `::write` returns at most what it was offered, and from some call on each
-- fails or puts a byte in, `write_to_output` returns: after an interrupted or a partial write it
-- goes on right behind the bytes that are in the file, so that the file gets a prefix of the text,
-- no byte twice. This is the whole text, synced if the sink is to flush, unless a call failed for
-- the bytes that follow that prefix; then nothing is synced. The text is shorter than 2^64 bytes.
pub write_to_output_lem :
    (answer : ℕ → List ℕ → WriteAnswer) (flush_on_write : Bool)
    → ((call : ℕ) (rest : List ℕ) (n : ℕ) → answer call rest ≡ wrote n → n ≤ length rest)
    → (idle : ℕ)
    → ((call : ℕ) (rest : List ℕ)
        → idle ≤ call
        → 0 < length rest
        → (answer call rest ≡ failed) ⊎ ((n : ℕ) × (0 < n) × (answer call rest ≡ wrote n)))
    → (text : List ℕ) → length text < size_mod
    → Delivered answer flush_on_write text
        (write_to_output answer flush_on_write (length text + idle + 1) text)
unfolding write_to_output
write_to_output_lem answer flush_on_write bounded idle settles text small =
    write_loop_lem answer flush_on_write bounded idle settles text small (length text + idle + 1) 0
      0 (omega arith) (omega arith)
