-- ===== src/Pools/Fixed.antt =====
-- src/pipeline/custom_allocators/fixed_pool_resource.h: blocks on a free list.
pub mod Owners
use xtd.Base.{
  ℕ, zero, suc, ◌+◌, ◌-◌, ◌*◌, ◌/◌, ◌%◌, ◌^◌, ◌≤◌, ◌<◌, min, max, ◌≡◌, refl, sym, ap, ap₂, subst,
  ◌∙◌, ◌≡⟨◌⟩◌, ◌∎, ◌≢◌, ◌↔◌, ◌⊎◌, inl, inr, Bool, true, false, not, ◌&&◌, ◌||◌, Option, none, some,
  List, [], ◌∷◌, ◌++◌, map, append-nil, append_assoc, arith, dec_lt, ℕ_discrete, ltb, leb, ◌==◌,
  if◌then◌else◌, lt→ltb, le→ltb, le→leb, lt→leb, ltb→lt, ltb→le, ==_iff, ne→==, Bool-cases,
  Option-cases, if_cases, length, get_elem?, take, drop, flatten, push_back, length-append,
  length-push_back, length-take, length-drop, take-append-drop, take_all, drop_all, eq_nil,
  take-zero, drop-zero, take-nil, drop-nil, take-append, drop-append, drop-drop, take-min,
  take-take, take-add, drop-take, take_prefix, drop_prefix, get_elem?-append, get_elem?-append_left,
  get_elem?-is_some, flatten-append, size_mod, add_size, sub_size, add_size_exact, sub_size_exact,
  Error, Result, ok, err, out_of_range, invalid_argument, logic_error, undefined, ◌>>=◌, ◌>>◌,
  mul_size, require, count, remove, count-remove, length-remove,
}

-- The last element of `m_available_buffers` stands first.
pub record FixedPool : Type 0 where
  pub available_buffers : List ℕ
  pub buffer_size : ℕ
  pub max_pool_size : ℕ

unfoldable pub create : ℕ → ℕ → FixedPool
create buffer_size max_pool_size = record {
  available_buffers = [];
  buffer_size = buffer_size;
  max_pool_size = max_pool_size;
}

-- `do_allocate`; `created` is what `operator new` returns where it is called.
unfoldable pub allocate : FixedPool → ℕ → ℕ × FixedPool
allocate pool created = elim pool.available_buffers [
  | [] ↦ (created, pool)
  | buffer ∷ others ↦ (buffer, record pool { available_buffers = others })
]

-- `do_deallocate`, with the block that goes to `operator delete`, if one does.
unfoldable pub deallocate : FixedPool → ℕ → FixedPool × Option ℕ
deallocate pool pointer =
    if ltb (length pool.available_buffers) pool.max_pool_size
    then (record pool { available_buffers = pointer ∷ pool.available_buffers }, none)
    else (pool, some pointer)

-- The destructor: what it deletes.
unfoldable pub destroy : FixedPool → List ℕ × FixedPool
destroy pool = (pool.available_buffers, record pool { available_buffers = [] })
