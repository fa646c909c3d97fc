-- ===== src/Logging/Json.antt =====
-- RFC 8259: JSON values and the text they have, for src/logging/sinks/otel_serializer.h.
pub mod Reader
pub mod Reading
use xtd.Base.{
  ℕ, zero, suc, ◌+◌, ◌-◌, ◌*◌, ◌/◌, ◌%◌, ◌^◌, ◌≤◌, ◌<◌, min, max, ◌≡◌, refl, sym, ap, ap₂, subst,
  ◌∙◌, ◌≡⟨◌⟩◌, ◌∎, ◌≢◌, ◌↔◌, ◌⊎◌, inl, inr, Bool, true, false, not, ◌&&◌, ◌||◌, Option, none, some,
  List, [], ◌∷◌, ◌++◌, map, append-nil, append_assoc, arith, dec_lt, ℕ_discrete, ltb, leb, ◌==◌,
  if◌then◌else◌, lt→ltb, le→ltb, le→leb, lt→leb, ltb→lt, ltb→le, ==_iff, ne→==, Bool-cases,
  Option-cases, if_cases, length, get_elem?, take, drop, flatten, push_back, length-append,
  length-push_back, length-take, length-drop, take-append-drop, take_all, drop_all, eq_nil,
  take-zero, drop-zero, take-nil, drop-nil, take-append, drop-append, drop-drop, take-min,
  take-take, take-add, drop-take, take_prefix, drop_prefix, get_elem?-append, get_elem?-append_left,
  get_elem?-is_some, flatten-append, size_mod, add_size, sub_size, add_size_exact, sub_size_exact,
  Error, Result, ok, err, out_of_range, invalid_argument, logic_error, undefined, ◌>>=◌, ◌>>◌,
  mul_size, require, count, remove, count-remove, length-remove,
}
use xtd.Logging.Escape.{escape_json}

mutual
  pub data Json : Type 0 where
    text : List ℕ → Json
    number : List ℕ → Json
    array : Items → Json
    object : Members → Json

  pub data Items : Type 0 where
    nil : Items
    cons : Json → Items → Items

  pub data Members : Type 0 where
    none_left : Members
    member : List ℕ → Json → Members → Members

abbrev pub separate : Bool → List ℕ → List ℕ
separate true rest = rest
separate false rest = b',' ∷ rest

-- The text of a value in front of what follows it.
unfoldable mutual
  pub write : Json → List ℕ → List ℕ
  write (text t) rest = b'"' ∷ (escape_json t ++ (b'"' ∷ rest))
  write (number t) rest = t ++ rest
  write (array xs) rest = b'[' ∷ write_items true xs (b']' ∷ rest)
  write (object ms) rest = b'{' ∷ write_members true ms (b'}' ∷ rest)

  pub write_items : Bool → Items → List ℕ → List ℕ
  write_items first nil rest = rest
  write_items first (cons x xs) rest = separate first (write x (write_items false xs rest))

  pub write_members : Bool → Members → List ℕ → List ℕ
  write_members first none_left rest = rest
  write_members first (member k x ms) rest =
      separate first
        (b'"' ∷ (escape_json k ++ (b'"' ∷ b':' ∷ write x (write_members false ms rest))))

-- One more item at the end.
abbrev pub push : Items → Json → Items
push nil x = cons x nil
push (cons y xs) x = cons y (push xs x)

abbrev pub is_nil : Items → Bool
is_nil nil = true
is_nil (cons x xs) = false

pub write_items-push :
    (xs : Items) (x : Json) (rest : List ℕ)
    → write_items false (push xs x) rest ≡ write_items false xs (b',' ∷ write x rest)
unfolding write
write_items-push nil x rest = refl
write_items-push (cons y xs) x rest = ap (λ l. b',' ∷ write y l) (write_items-push xs x rest)

pub write_items-push_first :
    (xs : Items) (x : Json) (rest : List ℕ)
    → write_items true (push xs x) rest ≡ write_items true xs (separate (is_nil xs) (write x rest))
unfolding write
write_items-push_first nil x rest = refl
write_items-push_first (cons y xs) x rest = ap (write y) (write_items-push xs x rest)
