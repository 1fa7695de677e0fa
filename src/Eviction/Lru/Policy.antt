-- ===== src/Eviction/Lru/Policy.antt =====
-- `lru_eviction`, the driver of both caches, meets what the caches rely on.
use rsafe_fs.Base.{
  ◌≡◌, refl, sym, ap, ◌∙◌, inl, inr, ite, Bool, true, false, none, some, is_some, arith,
}
use rsafe_fs.Base.Dict.{find, find-erase, find-assign}
use rsafe_fs.Eviction.{EvictionPolicy, without}
use rsafe_fs.Eviction.Lru
use rsafe_fs.Eviction.Lru.{LruManager}
use rsafe_fs.Eviction.Lru.Order.{
  IsValid, touch-IsValid, remove-IsValid, evict-IsValid, evict_cases, empty-IsValid, find_back,
}

module _ {K : Type 0} (dec : Discrete K) where
  abbrev pub contains : K → LruManager K → Bool
  contains q s = is_some (find dec q s.map)

  pub contains-touch :
      (q k : K) (s : LruManager K)
      → contains q (Lru.touch dec k s) ≡ ite (dec k q) true (contains q s)
  unfolding Lru.touch
  contains-touch q k s = ground (arith, find-assign dec q k s.free s.map)

  pub contains-remove :
      (q k : K) (s : LruManager K)
      → contains q (Lru.remove dec k s) ≡ ite (dec k q) false (contains q s)
  unfolding Lru.remove
  contains-remove q k s = ground (arith, find-erase dec q k s.map)

  pub contains-evict :
      (q : K) (s : LruManager K)
      → IsValid dec s
      → contains q (Lru.evict dec s).1 ≡ without dec (Lru.evict dec s).0 q (contains q s)
  contains-evict q s v = elim (evict_cases dec v) [
    | inl (e, h) ↦ rw e
    | inr (it, t, rest, p, e) ↦ rw e (ground (arith, find-erase dec q t s.map))
  ]

  pub evict_held :
      (k : K) (s : LruManager K)
      → IsValid dec s
      → (Lru.evict dec s).0 ≡ some k
      → contains k s ≡ true
  evict_held k s v h = elim (evict_cases dec v) [
    | inl (e, _) ↦ let stop : none ≡ some k = sym (ap (λ r. r.0) e) ∙ h in cc
    | inr (it, t, rest, p, e) ↦
        let same : some t ≡ some k = sym (ap (λ r. r.0) e) ∙ h in
        ground (arith, find_back dec v it t rest p, v.agree t)
  ]

  pub evict_none :
      (q : K) (s : LruManager K) → IsValid dec s → (Lru.evict dec s).0 ≡ none → contains q s ≡ false
  unfolding find
  evict_none q s v h = elim (evict_cases dec v) [
    | inl (e, nil) ↦ rw (v.agree q, nil)
    | inr (it, t, rest, p, e) ↦ let stop : some t ≡ none = sym (ap (λ r. r.0) e) ∙ h in cc
  ]

  pub empty_none : (q : K) → contains q Lru.empty ≡ false
  unfolding Lru.empty find
  empty_none q = refl

  -- Every law of `EvictionPolicy` holds of the manager.
  unfoldable pub policy : EvictionPolicy dec
  policy = record {
    State = LruManager K;
    Valid = IsValid dec;
    contains = contains;
    empty = Lru.empty;
    touch = Lru.touch dec;
    remove = Lru.remove dec;
    evict = Lru.evict dec;
    empty-Valid = empty-IsValid dec;
    contains-empty = empty_none;
    touch-Valid = λ k s v. touch-IsValid dec k v;
    remove-Valid = λ k s v. remove-IsValid dec k v;
    evict-Valid = λ s v. evict-IsValid dec v;
    contains-touch = λ q k s _. contains-touch q k s;
    contains-remove = λ q k s _. contains-remove q k s;
    contains-evict = contains-evict;
    evict_held = evict_held;
    evict_none = evict_none;
  }
