-- ===== src/Eviction/Lru.antt =====
-- `lru_cache_manager` of include/rsafefs/common/cache/lru_manager.hpp, and the drivers that forward
-- to it: lib/layers/{data_cache,metadata_cache}/drivers/lru.cpp. A node of `keys_` is a pair of its
-- address and its value; an iterator is the address. The mutex makes each call one step.
pub mod Order
pub mod Recency
pub mod Policy
use rsafe_fs.Base.{ℕ, suc, ◌≡◌, ite, List, [], ◌∷◌, Option, none, some, ℕ_discrete, ◌<◌, All}
use rsafe_fs.Base.Dict.{find, erase, assign, Distinct}

-- `free` is an address that no node has had.
pub record LruManager (K : Type 0) : Type 0 where
  pub keys : List (ℕ × K)
  pub map : List (K × ℕ)
  pub free : ℕ

pub empty : {K : Type 0} → LruManager K
empty = record { keys = []; map = []; free = 0 }

-- `back()` and `pop_back()`; on an empty list both are undefined, and `none` here.
pub pop_back : {A : Type 0} → List A → Option (A × List A)
pop_back [] = none
pop_back (x ∷ []) = some (x, [])
pop_back (x ∷ y ∷ xs) = elim (pop_back (y ∷ xs)) [
  | none ↦ none
  | some (z, rest) ↦ some (z, x ∷ rest)
]

module _ {K : Type 0} (dec : Discrete K) where
  -- the nodes without the one that the key's iterator points to, if the key is mapped
  pub erase_node : K → LruManager K → List (ℕ × K)
  erase_node t s = elim (find dec t s.map) [ none ↦ s.keys | some it ↦ erase ℕ_discrete it s.keys ]

  pub touch : K → LruManager K → LruManager K
  unfolding erase_node
  touch t s = record {
    keys = (s.free, t) ∷ erase_node t s;
    map = assign dec t s.free s.map;
    free = suc s.free;
  }

  pub remove : K → LruManager K → LruManager K
  unfolding erase_node
  remove t s = record s { keys = erase_node t s; map = erase dec t s.map }

  -- The value of the last node, with that node and the map entry of its value gone.
  pub evict_back : Option ((ℕ × K) × List (ℕ × K)) → LruManager K → Option K × LruManager K
  evict_back none s = (none, s)
  evict_back (some ((it, t), rest)) s = (some t, record s { keys = rest; map = erase dec t s.map })

  pub evict : LruManager K → Option K × LruManager K
  unfolding pop_back evict_back
  evict s = elim s.map [ [] ↦ (none, s) | _ ∷ _ ↦ evict_back (pop_back s.keys) s ]
