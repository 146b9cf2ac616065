-- ===== src/ThreadHost.antt =====
-- app/src/main/cpp/thread_host.h, thread_host.cc, and the configurations of thread.h. A string is a
-- list of bytes; a thread is the configuration that it starts with.
pub mod Threads
use environment_check.Prelude.{
  ℕ, ◌+◌, ◌*◌, ◌/◌, ◌%◌, Option, none, some, Bool, List, [], ◌∷◌, ◌++◌, ◌==◌, codes, if◌then◌else◌,
}

pub data ThreadType : Type 0 where
  platform ui raster io profiler : ThreadType

-- The values of the enumeration, one bit each.
abbrev pub bit : ThreadType → ℕ
bit platform = 1
bit ui = 2
bit raster = 4
bit io = 8
bit profiler = 16

pub data ThreadPriority : Type 0 where
  background normal display rasters : ThreadPriority

pub record ThreadConfig : Type 0 where
  pub name : List ℕ
  pub priority : ThreadPriority

-- `type_mask` is a `uint64_t`; the setter of the configuration is left out.
pub record ThreadHostConfig : Type 0 where
  pub type_mask : ℕ
  pub name_prefix : List ℕ
  pub platform_config : Option ThreadConfig
  pub ui_config : Option ThreadConfig
  pub raster_config : Option ThreadConfig
  pub io_config : Option ThreadConfig
  pub profiler_config : Option ThreadConfig

abbrev pub new_config : List ℕ → ℕ → ThreadHostConfig
new_config name_prefix mask = record {
  type_mask = mask;
  name_prefix = name_prefix;
  platform_config = none;
  ui_config = none;
  raster_config = none;
  io_config = none;
  profiler_config = none;
}

-- `mask & type`, and `mask | type`, for a type of one bit.
unfoldable pub has_bit : ℕ → ℕ → Bool
has_bit b mask = mask / b % 2 == 1

unfoldable pub with_bit : ℕ → ℕ → ℕ
unfolding has_bit
with_bit b mask = if has_bit b mask then mask else mask + b

unfoldable pub is_thread_needed : ThreadHostConfig → ThreadType → Bool
unfolding has_bit
is_thread_needed c type = has_bit (bit type) c.type_mask

unfoldable pub make_thread_name : ThreadType → List ℕ → List ℕ
make_thread_name platform prefix = prefix ++ codes ".platform"
make_thread_name ui prefix = prefix ++ codes ".ui"
make_thread_name io prefix = prefix ++ codes ".io"
make_thread_name raster prefix = prefix ++ codes ".raster"
make_thread_name profiler prefix = prefix ++ codes ".profiler"

unfoldable pub set_io_config : ThreadConfig → ThreadHostConfig → ThreadHostConfig
set_io_config config c = record c {
  type_mask = with_bit (bit io) c.type_mask;
  io_config = some config;
}

unfoldable pub set_ui_config : ThreadConfig → ThreadHostConfig → ThreadHostConfig
set_ui_config config c = record c {
  type_mask = with_bit (bit ui) c.type_mask;
  ui_config = some config;
}

unfoldable pub set_platform_config : ThreadConfig → ThreadHostConfig → ThreadHostConfig
set_platform_config config c = record c {
  type_mask = with_bit (bit platform) c.type_mask;
  platform_config = some config;
}

unfoldable pub set_raster_config : ThreadConfig → ThreadHostConfig → ThreadHostConfig
set_raster_config config c = record c {
  type_mask = with_bit (bit raster) c.type_mask;
  raster_config = some config;
}

unfoldable pub set_profiler_config : ThreadConfig → ThreadHostConfig → ThreadHostConfig
set_profiler_config config c = record c {
  type_mask = with_bit (bit profiler) c.type_mask;
  profiler_config = some config;
}

unfoldable pub create_thread : ThreadType → Option ThreadConfig → ThreadHostConfig → ThreadConfig
unfolding make_thread_name
create_thread type none c = record { name = make_thread_name type c.name_prefix; priority = normal }
create_thread type (some config) c = config

pub record ThreadHost : Type 0 where
  pub name_prefix : List ℕ
  pub platform_thread : Option ThreadConfig
  pub ui_thread : Option ThreadConfig
  pub raster_thread : Option ThreadConfig
  pub io_thread : Option ThreadConfig
  pub profiler_thread : Option ThreadConfig

abbrev pub thread_if : Bool → ThreadConfig → Option ThreadConfig
thread_if needed thread = if needed then some thread else none

unfoldable pub new_thread_host : ThreadHostConfig → ThreadHost
unfolding is_thread_needed create_thread
new_thread_host c = record {
  name_prefix = c.name_prefix;
  platform_thread =
      thread_if (is_thread_needed c platform) (create_thread platform c.platform_config c);
  ui_thread = thread_if (is_thread_needed c ui) (create_thread ui c.ui_config c);
  raster_thread = thread_if (is_thread_needed c raster) (create_thread raster c.raster_config c);
  io_thread = thread_if (is_thread_needed c io) (create_thread io c.io_config c);
  profiler_thread =
      thread_if (is_thread_needed c profiler) (create_thread profiler c.profiler_config c);
}

-- A call of the setter for a type, and calls in order.
unfoldable pub set_config : ThreadType → ThreadConfig → ThreadHostConfig → ThreadHostConfig
unfolding set_io_config set_ui_config set_platform_config set_raster_config set_profiler_config
set_config platform = set_platform_config
set_config ui = set_ui_config
set_config raster = set_raster_config
set_config io = set_io_config
set_config profiler = set_profiler_config

unfoldable pub configured : List (ThreadType × ThreadConfig) → ThreadHostConfig → ThreadHostConfig
unfolding set_config
configured [] c = c
configured ((type, config) ∷ cs) c = configured cs (set_config type config c)
