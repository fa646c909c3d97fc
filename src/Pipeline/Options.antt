-- ===== src/Pipeline/Options.antt =====
-- src/pipeline/pipeline_impl.h: the options of a pipeline and their validation.
use xtd.Base.{
  ℕ, ◌*◌, ◌/◌, ◌%◌, Bool, true, false, not, leb, ◌==◌, add_size, Result, ok, invalid_argument, ◌>>◌,
  require,
}

pub data AllocatorKind : Type 0 where
  fixed_pool_resource arena_pool_resource unsynchronized_pool_resource : AllocatorKind

pub record PipeOptions : Type 0 where
  pub buffer_size : ℕ
  pub resume_writer_threshold : ℕ
  pub pause_writer_threshold : ℕ
  pub allocator : AllocatorKind

abbrev pub default_options : PipeOptions
default_options = record {
  buffer_size = 1024 * 4;
  resume_writer_threshold = 1024 * 32;
  pause_writer_threshold = 1024 * 128;
  allocator = fixed_pool_resource;
}

pub record ValidatedOptions : Type 0 where
  pub buffer_size : ℕ
  pub pause_writer_threshold : ℕ
  pub resume_writer_threshold : ℕ
  pub max_pooled_segments : ℕ
  pub allocator : AllocatorKind

-- `static_cast<std::size_t>(test)`
abbrev pub count_of : Bool → ℕ
count_of true = 1
count_of false = 0

unfoldable pub validate_options : PipeOptions → Result ValidatedOptions
validate_options options = do
  require (not (options.buffer_size == 0)) invalid_argument
  require (not (options.pause_writer_threshold == 0)) invalid_argument
  require (leb options.resume_writer_threshold options.pause_writer_threshold) invalid_argument
  ok (record {
    buffer_size = options.buffer_size;
    pause_writer_threshold = options.pause_writer_threshold;
    resume_writer_threshold = options.resume_writer_threshold;
    max_pooled_segments =
        add_size (options.pause_writer_threshold / options.buffer_size)
          (count_of (not (options.pause_writer_threshold % options.buffer_size == 0)));
    allocator = options.allocator;
  })
