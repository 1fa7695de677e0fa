-- ===== src/MetadataCache.antt =====
-- `metadata_cache::cache` of include/rsafefs/layers/metadata_cache/cache.hpp and
-- lib/layers/metadata_cache/cache.cpp. `now` is the reading of the clock, in nanoseconds; there is
-- one caller, and each call is one step: `get` gives up the shared lock before it takes the unique one
-- to remove an entry that is too old, and what others do between the two is not modelled.
pub mod Invariant
pub mod Layer
use rsafe_fs.Base.{
  ℕ, ◌-◌, ◌/◌, Bool, true, false, List, [], Option, none, some, ℤ, pos, negsuc, ltb, leb,
  if◌then◌else◌, length,
}
use rsafe_fs.Base.Dict.{find, erase, emplace}
use rsafe_fs.Eviction.{EvictionPolicy}
use rsafe_fs.Fuse.{Stat}

-- `config`, without the policy, which has a state
pub record Config : Type 0 where
  pub size : ℕ
  pub time_out : ℤ

pub record Metadata : Type 0 where
  pub stbuf : Stat
  pub timestamp : ℕ

abbrev pub ns_per_sec : ℕ
ns_per_sec = 1_000_000_000

-- `now - timestamp` in whole seconds, below the time-out if there is one
unfoldable pub is_valid : ℤ → ℕ → Metadata → Bool
is_valid (pos t) now m = if ltb 0 t then ltb ((now - m.timestamp) / ns_per_sec) t else true
is_valid (negsuc t) now m = true

module _ {K : Type 0} {dec : Discrete K} (P : EvictionPolicy dec) where
  pub record Cache : Type 0 where
    pub entries : List (K × Metadata)
    pub policy : P.State

module _ {K : Type 0} (dec : Discrete K) (P : EvictionPolicy dec) (config : Config) where
  unfoldable pub init : Cache P
  init = record { entries = []; policy = P.empty }

  -- `cache_.erase(selected_path.value())`, if the policy selects one
  pub drop : Option K × P.State → Cache P → Cache P
  drop (none, p) c = record c { policy = p }
  drop (some k, p) c = record { entries = erase dec k c.entries; policy = p }

  pub make_room : Cache P → Cache P
  unfolding drop
  make_room c = if leb config.size (length c.entries) then drop (P.evict c.policy) c else c

  pub put : ℕ → K → Stat → Cache P → Cache P
  unfolding make_room
  put now path stbuf c = record {
    entries = emplace dec path (record { stbuf = stbuf; timestamp = now }) (make_room c).entries;
    policy = P.touch path (make_room c).policy;
  }

  pub remove : K → Cache P → Cache P
  remove path c = record { entries = erase dec path c.entries; policy = P.remove path c.policy }

  -- `true` and what is written to `stbuf` are `some` of it
  pub get : ℕ → K → Cache P → Option Stat × Cache P
  unfolding remove is_valid
  get now path c = elim (find dec path c.entries) [
    | none ↦ (none, c)
    | some m ↦
        if is_valid config.time_out now m
        then (some m.stbuf, record c { policy = P.touch path c.policy })
        else (none, remove path c)
  ]
