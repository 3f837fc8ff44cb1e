-- ===== src/Memory/Manager.antt =====
-- memory/alloc.c: the loaded memory manager, and the calls that it serves.
use staxus.Base.{ℕ, Bool, true, false, Option, none, some}

-- `MemoryManager` over what it changes; a function pointer that the code compares with NULL is an
-- option. `init` has been given the memory map.
pub record Manager (W : Type 0) : Type 0 where
  pub init : Option (W → W)
  pub malloc : Option (ℕ → W → ℕ × W)
  pub aalloc : Option (ℕ → ℕ → W → ℕ × W)
  pub realloc : Option (ℕ → ℕ → W → ℕ × W)
  pub free : Option (ℕ → W → W)
  pub cleanup : Option (W → W)
  pub get_useable : Option (W → ℕ)
  pub get_available : Option (W → ℕ)

-- `gManager = {0}`
abbrev pub no_manager : {W : Type 0} → Manager W
no_manager = record {
  init = none;
  malloc = none;
  aalloc = none;
  realloc = none;
  free = none;
  cleanup = none;
  get_useable = none;
  get_available = none;
}

module _ {W : Type 0} where
  abbrev pub run : Option (W → W) → W → W
  run none w = w
  run (some f) w = f w

  -- What LoadMemoryManager does once the manager is in place.
  abbrev pub start : Manager W → W → Option (W → W) → Bool × Manager W × W
  start new w none = (false, new, w)
  start new w (some init) = (true, new, init w)

  -- The result, the manager that is loaded afterwards, and the world.
  unfoldable pub load_memory_manager : Manager W → Manager W × W → Bool × Manager W × W
  load_memory_manager new (old, w) = start new (run old.cleanup w) new.init

  -- A null pointer is 0.
  unfoldable pub malloc : ℕ → Manager W × W → ℕ × W
  malloc size (g, w) = elim g.malloc [ none ↦ (0, w) | some f ↦ f size w ]

  unfoldable pub aalloc : ℕ → ℕ → Manager W × W → ℕ × W
  aalloc size align (g, w) = elim g.aalloc [ none ↦ (0, w) | some f ↦ f size align w ]

  unfoldable pub realloc : ℕ → ℕ → Manager W × W → ℕ × W
  realloc ptr size (g, w) = elim g.realloc [ none ↦ (0, w) | some f ↦ f ptr size w ]

  unfoldable pub free : ℕ → Manager W × W → W
  free ptr (g, w) = elim g.free [ none ↦ w | some f ↦ f ptr w ]

  -- -1 as a `u64` where there is no function.
  unfoldable pub get_available_memory : Manager W × W → ℕ
  get_available_memory (g, w) = elim g.get_available [ none ↦ 18446744073709551615 | some f ↦ f w ]

  unfoldable pub get_useable_memory : Manager W × W → ℕ
  get_useable_memory (g, w) = elim g.get_useable [ none ↦ 18446744073709551615 | some f ↦ f w ]
