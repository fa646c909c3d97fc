-- ===== src/View/Copy/Overloads.antt =====
-- src/pipeline/segmented_byte_view.h: `copy_to` through a pointer and into a value.
use xtd.Base.{
  ℕ, ◌-◌, ◌≤◌, min, ◌≡◌, sym, ap, ◌∙◌, true, none, some, List, [], ◌++◌, append-nil, append_assoc,
  arith, dec_lt, ℕ_discrete, leb, ◌==◌, if◌then◌else◌, le→leb, lt→leb, ==_iff, ne→==, length, take,
  drop, length-take, take-append-drop, drop_all, drop-zero, drop-append, ok, err, out_of_range,
  invalid_argument,
}
use xtd.View.{View}
use xtd.View.Slices.{IsValid, bytes}
use xtd.View.Copy.{copy_to_pointer, copy_to_value}
use xtd.View.Copy.Laws.{filled, copy_to_lem}

-- A prefix with its own start dropped, and the rest.
drop-take-drop :
    (m n : ℕ) (xs : List ℕ) → m ≤ n → n ≤ length xs → drop m (take n xs) ++ drop n xs ≡ drop m xs
drop-take-drop m n xs h k = sym (
    ap (drop m) (sym (take-append-drop n xs))
    ∙ drop-append m (take n xs) (drop n xs)
    ∙ ap (λ ys. drop m (take n xs) ++ ys)
        (drop-zero (m - length (take n xs)) (drop n xs) (omega (arith, length-take n xs))))

copy_to_pointer_lem :
    (v : View) (block : List ℕ) (size : ℕ)
    → IsValid v
    → size ≤ length block
    → copy_to_pointer v (some block) size
      ≡ ok (min size v.size, filled (bytes v) (min size v.size) block)
unfolding copy_to_pointer
copy_to_pointer_lem v block size valid h =
    let sized : length (take size block) ≡ size = omega (arith, length-take size block) in
    rw (copy_to_lem v (take size block) valid, sized)
      (ap (λ d. ok (min size v.size, d))
        (append_assoc (take (min size v.size) (bytes v)) (drop (min size v.size) (take size block))
            (drop size block)
          ∙ ap (λ ys. take (min size v.size) (bytes v) ++ ys)
              (drop-take-drop (min size v.size) size block (omega arith) h)))

copy_to_null_lem :
    (v : View) (size : ℕ)
    → IsValid v
    → copy_to_pointer v none size ≡ (if size == 0 then ok (0, []) else err invalid_argument)
unfolding copy_to_pointer
copy_to_null_lem v size valid = elim (ℕ_discrete size 0) [
  | yes e ↦
      let n : min 0 v.size ≡ 0 = omega arith in rw ((==_iff size 0).1 e, copy_to_lem v [] valid, n)
  | no e ↦ rw (ne→== size 0 e)
]

copy_to_value_lem :
    (v : View) (value : List ℕ)
    → IsValid v
    → copy_to_value v value ≡ (
        if leb (length value) v.size
        then ok (true, take (length value) (bytes v))
        else err out_of_range)
unfolding copy_to_value
copy_to_value_lem v value valid = elim (dec_lt v.size (length value)) [
  | yes over ↦ rw (lt→leb (length value) v.size over)
  | no fits ↦
      let n : min (length value) v.size ≡ length value = omega arith in
      let same : (length value == length value) ≡ true = ground arith in
      rw (le→leb (length value) v.size (omega arith), copy_to_lem v value valid, n, same)
        (ap (λ d. ok (true, d))
          (ap (λ ys. take (length value) (bytes v) ++ ys)
              (drop_all (length value) value (omega arith))
            ∙ append-nil (take (length value) (bytes v))))
]

-- `copy_to` through a pointer writes only to the first `destination_size` bytes, and refuses a null
-- pointer with a size above 0; into a value it fills the whole value and reports success, and throws
-- `std::out_of_range` if the view is smaller than the value.
pub copy_to-overloads :
    (v : View) (block : List ℕ) (size : ℕ)
    → IsValid v
    → size ≤ length block
    → (copy_to_pointer v (some block) size
        ≡ ok (min size v.size, filled (bytes v) (min size v.size) block))
      × (copy_to_pointer v none size ≡ (if size == 0 then ok (0, []) else err invalid_argument))
      × (copy_to_value v block ≡ (
          if leb (length block) v.size
          then ok (true, take (length block) (bytes v))
          else err out_of_range))
copy_to-overloads v block size valid h = (
  copy_to_pointer_lem v block size valid h,
  copy_to_null_lem v size valid,
  copy_to_value_lem v block valid,
)
