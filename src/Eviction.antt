-- ===== src/Eviction.antt =====
-- The eviction policies of the two caches: `cache_manager<T>` of
-- include/rsafefs/common/cache/cache_manager.hpp, which the caches call through the class
-- `eviction_policy` of include/rsafefs/layers/{data_cache,metadata_cache}/cache.hpp. The children
-- hold the two managers; here is what a cache may rely on, whichever it is given.
pub mod Lru
pub mod Rnd
use rsafe_fs.Base.{◌≡◌, ite, Bool, true, false, Option, none, some}

-- The key set without what an eviction took.
abbrev pub without : {K : Type 0} → Discrete K → Option K → K → Bool → Bool
without dec none q b = b
without dec (some k) q b = ite (dec k q) false b

-- `contains` is the set of keys that the policy tracks; `Valid` is the invariant of its state.
pub record EvictionPolicy {K : Type 0} (dec : Discrete K) : Type 1 where
  pub State : Type 0
  pub Valid : State → Type 0
  pub contains : K → State → Bool
  pub empty : State
  pub touch : K → State → State
  pub remove : K → State → State
  pub evict : State → Option K × State
  pub empty-Valid : Valid empty
  pub contains-empty : (q : K) → contains q empty ≡ false
  pub touch-Valid : (k : K) (s : State) → Valid s → Valid (touch k s)
  pub remove-Valid : (k : K) (s : State) → Valid s → Valid (remove k s)
  pub evict-Valid : (s : State) → Valid s → Valid (evict s).1
  pub contains-touch :
      (q k : K) (s : State) → Valid s → contains q (touch k s) ≡ ite (dec k q) true (contains q s)
  pub contains-remove :
      (q k : K) (s : State) → Valid s → contains q (remove k s) ≡ ite (dec k q) false (contains q s)
  pub contains-evict :
      (q : K) (s : State)
      → Valid s
      → contains q (evict s).1 ≡ without dec (evict s).0 q (contains q s)
  pub evict_held : (k : K) (s : State) → Valid s → (evict s).0 ≡ some k → contains k s ≡ true
  pub evict_none : (q : K) (s : State) → Valid s → (evict s).0 ≡ none → contains q s ≡ false
