-- ===== src/ThreadHost/Threads.antt =====
-- Which threads a host has.
use environment_check.Prelude.{
  ℕ, ◌≡◌, refl, ap, ◌∙◌, Option, none, some, Bool, true, false, List, [], ◌∷◌, ◌==◌, ◌||◌,
  if◌then◌else◌, arith, Bool-cases, inl, inr,
}
use environment_check.ThreadHost.{
  ThreadType, platform, ui, raster, io, profiler, bit, ThreadConfig, ThreadHostConfig, ThreadHost,
  has_bit, with_bit, is_thread_needed, make_thread_name, create_thread, new_thread_host, set_config,
  configured, new_config, normal, thread_if,
}

abbrev pub same_type : ThreadType → ThreadType → Bool
same_type s t = bit s == bit t

-- The thread of a type, and its configuration.
abbrev pub thread_of : ThreadType → ThreadHost → Option ThreadConfig
thread_of platform h = h.platform_thread
thread_of ui h = h.ui_thread
thread_of raster h = h.raster_thread
thread_of io h = h.io_thread
thread_of profiler h = h.profiler_thread

abbrev pub config_of : ThreadType → ThreadHostConfig → Option ThreadConfig
config_of platform c = c.platform_config
config_of ui c = c.ui_config
config_of raster c = c.raster_config
config_of io c = c.io_config
config_of profiler c = c.profiler_config

has_bit-with_bit :
    (s t : ThreadType) (mask : ℕ)
    → has_bit (bit t) (with_bit (bit s) mask) ≡ (same_type s t || has_bit (bit t) mask)
unfolding has_bit with_bit
has_bit-with_bit s t mask = ground arith

config_of-set_config :
    (s t : ThreadType) (config : ThreadConfig) (c : ThreadHostConfig)
    → config_of t (set_config s config c) ≡ (if same_type s t then some config else config_of t c)
unfolding set_config
config_of-set_config s t config c = ground arith

type_mask-set_config :
    (s : ThreadType) (config : ThreadConfig) (c : ThreadHostConfig)
    → (set_config s config c).type_mask ≡ with_bit (bit s) c.type_mask
unfolding set_config
type_mask-set_config s config c = ground arith

needed-set_config :
    (s t : ThreadType) (config : ThreadConfig) (c : ThreadHostConfig)
    → is_thread_needed (set_config s config c) t ≡ (same_type s t || is_thread_needed c t)
unfolding is_thread_needed
needed-set_config s t config c =
    ap (has_bit (bit t)) (type_mask-set_config s config c) ∙ has_bit-with_bit s t c.type_mask

name_prefix-set_config :
    (s : ThreadType) (config : ThreadConfig) (c : ThreadHostConfig)
    → (set_config s config c).name_prefix ≡ c.name_prefix
unfolding set_config
name_prefix-set_config s config c = ground arith

-- The thread of one type: the setters of other types do not matter, the setter of its own makes it
-- needed, and the last one gives its configuration. Without one it is needed as the mask has it,
-- with the name of its type and normal priority.
abbrev pub expected :
    ThreadType
    → List ℕ
    → List (ThreadType × ThreadConfig)
    → Bool
    → Option ThreadConfig
    → Option ThreadConfig
expected t prefix [] false o = none
expected t prefix [] true (some config) = some config
expected t prefix [] true none =
    some (record { name = make_thread_name t prefix; priority = normal })
expected t prefix ((s, config) ∷ cs) needed o =
    if same_type s t then expected t prefix cs true (some config) else expected t prefix cs needed o

thread_if-expected :
    (t : ThreadType) (c : ThreadHostConfig) (needed : Bool) (o : Option ThreadConfig)
    → thread_if needed (create_thread t o c) ≡ expected t c.name_prefix [] needed o
unfolding create_thread
thread_if-expected t c false o = refl
thread_if-expected t c true none = refl
thread_if-expected t c true (some config) = refl

thread_of-new_thread_host :
    (t : ThreadType) (c : ThreadHostConfig)
    → thread_of t (new_thread_host c)
      ≡ thread_if (is_thread_needed c t) (create_thread t (config_of t c) c)
unfolding new_thread_host
thread_of-new_thread_host t c = ground arith

configured-expected :
    (t : ThreadType) (cs : List (ThreadType × ThreadConfig)) (c : ThreadHostConfig)
    → thread_of t (new_thread_host (configured cs c))
      ≡ expected t c.name_prefix cs (is_thread_needed c t) (config_of t c)
unfolding configured
configured-expected t [] c =
    thread_of-new_thread_host t c ∙ thread_if-expected t c (is_thread_needed c t) (config_of t c)
configured-expected t ((s, config) ∷ cs) c =
    configured-expected t cs (set_config s config c)
    ∙ rw
        (
          name_prefix-set_config s config c,
          needed-set_config s t config c,
          config_of-set_config s t config c,
        )
        (elim (Bool-cases (same_type s t)) [ inl y ↦ rw y | inr n ↦ rw n ])

-- A ThreadHost whose configuration got a prefix, a mask, and any calls of the setters, has a thread
-- of a type exactly if the bit of the type is in the mask or its setter was called. The thread has
-- the configuration of the last call of that setter, else the name made of the prefix and the type,
-- and normal priority.
pub thread_of-configured :
    (t : ThreadType) (cs : List (ThreadType × ThreadConfig)) (prefix : List ℕ) (mask : ℕ)
    → thread_of t (new_thread_host (configured cs (new_config prefix mask)))
      ≡ expected t prefix cs (has_bit (bit t) mask) none
unfolding is_thread_needed
thread_of-configured t cs prefix mask =
    configured-expected t cs (new_config prefix mask)
    ∙ ap (expected t prefix cs (has_bit (bit t) mask)) (no_config t)
  where
    no_config : (t : ThreadType) → config_of t (new_config prefix mask) ≡ none
    no_config t = ground arith
