-- ===== src/Pools/Arena.antt =====
-- src/pipeline/custom_allocators/arena_pool_resource.h: blocks in a ring.
pub mod Runs
pub mod Ring
pub mod Exclusive
use xtd.Base.{
  ℕ, zero, suc, ◌+◌, ◌-◌, ◌*◌, ◌/◌, ◌%◌, ◌^◌, ◌≤◌, ◌<◌, min, max, ◌≡◌, refl, sym, ap, ap₂, subst,
  ◌∙◌, ◌≡⟨◌⟩◌, ◌∎, ◌≢◌, ◌↔◌, ◌⊎◌, inl, inr, Bool, true, false, not, ◌&&◌, ◌||◌, Option, none, some,
  List, [], ◌∷◌, ◌++◌, map, append-nil, append_assoc, arith, dec_lt, ℕ_discrete, ltb, leb, ◌==◌,
  if◌then◌else◌, lt→ltb, le→ltb, le→leb, lt→leb, ltb→lt, ltb→le, ==_iff, ne→==, Bool-cases,
  Option-cases, if_cases, length, get_elem?, take, drop, flatten, push_back, length-append,
  length-push_back, length-take, length-drop, take-append-drop, take_all, drop_all, eq_nil,
  take-zero, drop-zero, take-nil, drop-nil, take-append, drop-append, drop-drop, take-min,
  take-take, take-add, drop-take, take_prefix, drop_prefix, get_elem?-append, get_elem?-append_left,
  get_elem?-is_some, flatten-append, size_mod, add_size, sub_size, add_size_exact, sub_size_exact,
  Error, Result, ok, err, out_of_range, invalid_argument, logic_error, undefined, ◌>>=◌, ◌>>◌,
  mul_size, require, count, remove, count-remove, length-remove,
}

-- A pointer is its distance from `m_storage`, so that `m_end` is the total
-- size.
pub record Arena : Type 0 where
  pub segment_size : ℕ
  pub max_pool_size : ℕ
  pub total_size : ℕ
  pub head : ℕ
  pub tail : ℕ
  pub active_buffers : ℕ

unfoldable pub create : ℕ → ℕ → Arena
create buffer_size max_pool_size = record {
  segment_size = buffer_size;
  max_pool_size = max_pool_size;
  total_size = mul_size buffer_size max_pool_size;
  head = 0;
  tail = 0;
  active_buffers = 0;
}

-- `arena_pool_resource::advance`
unfoldable pub advance : Arena → ℕ → ℕ
advance a pointer =
    let moved = pointer + a.segment_size in if moved == a.total_size then 0 else moved

unfoldable pub allocate : Arena → Result (ℕ × Arena)
unfolding advance
allocate a = do
  require (not (a.active_buffers == a.max_pool_size)) undefined
  ok (a.head, record a { head = advance a a.head; active_buffers = add_size a.active_buffers 1 })

-- `do_deallocate` does not look at the pointer.
unfoldable pub deallocate : Arena → ℕ → Result Arena
unfolding advance
deallocate a pointer = do
  require (ltb 0 a.active_buffers) undefined
  ok (record a { tail = advance a a.tail; active_buffers = sub_size a.active_buffers 1 })
