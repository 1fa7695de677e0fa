-- ===== src/MetadataCache/Invariant.antt =====
-- The cache and its policy agree on the keys, and the cache is bounded.
use rsafe_fs.Base.{
  ℕ, ◌+◌, ◌≤◌, max, ◌≡◌, [], none, some, is_some, arith, leb, length, Option-cases, Bool-cases, inl,
  inr, ◌⊎◌,
}
use rsafe_fs.Base.Dict.{
  find, erase, Distinct, find-erase, erase-Distinct, emplace-Distinct, length-erase,
  length-erase-le, length-emplace-le, find-emplace-some, nil_of_find,
}
use rsafe_fs.Eviction.{EvictionPolicy}
use rsafe_fs.Fuse.{Stat}
use rsafe_fs.MetadataCache.{
  Config, Metadata, Cache, is_valid, init, drop, make_room, put, remove, get,
}

module _ {K : Type 0} (dec : Discrete K) (P : EvictionPolicy dec) (config : Config) where
  -- The policy tracks exactly the cached paths, each path is cached once, and there are at most
  -- `size` of them, or one if the size is 0.
  pub record IsValid (c : Cache P) : Type 0 where
    pub policy_ok : P.Valid c.policy
    pub tracks : (q : K) → P.contains q c.policy ≡ is_some (find dec q c.entries)
    pub distinct : Distinct dec c.entries
    pub bounded : length c.entries ≤ max 1 config.size

  pub init-IsValid : IsValid (init dec P config)
  unfolding init find
  init-IsValid = record {
    policy_ok = P.empty-Valid;
    tracks = P.contains-empty;
    distinct = tt;
    bounded = omega arith;
  }

  module _ {c : Cache P} (v : IsValid c) where
    pub remove-IsValid : (path : K) → IsValid (remove dec P config path c)
    unfolding remove
    remove-IsValid path = record {
      policy_ok = P.remove-Valid path c.policy v.policy_ok;
      tracks = λ q. ground (
        arith,
        P.contains-remove q path c.policy v.policy_ok,
        find-erase dec q path c.entries,
        v.tracks q,
      );
      distinct = erase-Distinct dec path c.entries v.distinct;
      bounded = omega (arith, length-erase-le dec path c.entries, v.bounded);
    }

    -- What the policy selects is cached; where it selects nothing, the cache is empty.
    drop_cases :
        ((P.evict c.policy).0 ≡ none)
          × (c.entries ≡ [])
          × (drop dec P config (P.evict c.policy) c ≡ record c { policy = (P.evict c.policy).1 })
        ⊎ ((k : K) × (w : Metadata) × ((P.evict c.policy).0 ≡ some k)
            × (find dec k c.entries ≡ some w)
            × (drop dec P config (P.evict c.policy) c
                ≡ record { entries = erase dec k c.entries; policy = (P.evict c.policy).1 }))
    unfolding drop
    drop_cases = elim (Option-cases (P.evict c.policy).0) [
      | inl stop ↦ inl (
        stop,
        nil_of_find dec c.entries
            (λ q. ground (arith, P.evict_none q c.policy v.policy_ok stop, v.tracks q)),
        ground arith,
      )
      | inr (k, e) ↦ elim (Option-cases (find dec k c.entries)) [
        | inl miss ↦ absurd (ground (arith, P.evict_held k c.policy v.policy_ok e, v.tracks k))
        | inr (w, hit) ↦ inr (k, w, e, hit, ground arith)
      ]
    ]

    drop-IsValid : IsValid (drop dec P config (P.evict c.policy) c)
    drop-IsValid = elim drop_cases [
      | inl (stop, nil, e) ↦ rw e (record {
        policy_ok = P.evict-Valid c.policy v.policy_ok;
        tracks = λ q. ground (arith, P.contains-evict q c.policy v.policy_ok, v.tracks q);
        distinct = v.distinct;
        bounded = v.bounded;
      })
      | inr (k, w, found, hit, e) ↦ rw e (record {
        policy_ok = P.evict-Valid c.policy v.policy_ok;
        tracks = λ q. ground (
          arith,
          P.contains-evict q c.policy v.policy_ok,
          v.tracks q,
          find-erase dec q k c.entries,
        );
        distinct = erase-Distinct dec k c.entries v.distinct;
        bounded = omega (arith, length-erase-le dec k c.entries, v.bounded);
      })
    ]

    drop-fits : length (drop dec P config (P.evict c.policy) c).entries + 1 ≤ max 1 config.size
    drop-fits = elim drop_cases [
      | inl (stop, nil, e) ↦ rw (e, nil) (omega arith)
      | inr (k, w, found, hit, e) ↦
          rw e (omega (arith, length-erase dec k c.entries w v.distinct hit, v.bounded))
    ]

    make_room-IsValid : IsValid (make_room dec P config c)
    unfolding make_room
    make_room-IsValid = elim (Bool-cases (leb config.size (length c.entries))) [
      | inl full ↦ rw (full, make_room) drop-IsValid
      | inr fits ↦ rw (fits, make_room) v
    ]

    make_room-fits : length (make_room dec P config c).entries + 1 ≤ max 1 config.size
    unfolding make_room
    make_room-fits = elim (Bool-cases (leb config.size (length c.entries))) [
      | inl full ↦ rw (full, make_room) drop-fits
      | inr fits ↦ ground arith
    ]

    -- A `put` evicts before it inserts, so the bound is kept.
    pub put-IsValid :
        (now : ℕ) (path : K) (stbuf : Stat) → IsValid (put dec P config now path stbuf c)
    unfolding put
    put-IsValid now path stbuf =
        let r = make_room dec P config c in
        let ok = make_room-IsValid in
        let m : Metadata = record { stbuf = stbuf; timestamp = now } in
        record {
          policy_ok = P.touch-Valid path r.policy ok.policy_ok;
          tracks = λ q. ground (
            arith,
            P.contains-touch q path r.policy ok.policy_ok,
            ok.tracks q,
            find-emplace-some dec q path m r.entries,
          );
          distinct = emplace-Distinct dec path m r.entries ok.distinct;
          bounded = omega (arith, length-emplace-le dec path m r.entries, make_room-fits);
        }

    pub get-IsValid : (now : ℕ) (path : K) → IsValid (get dec P config now path c).1
    unfolding get
    get-IsValid now path = elim (Option-cases (find dec path c.entries)) [
      | inl miss ↦ rw (miss, get) v
      | inr (m, hit) ↦ elim (Bool-cases (is_valid config.time_out now m)) [
        | inl fresh ↦
            rw (hit, fresh, get)
              (record {
                policy_ok = P.touch-Valid path c.policy v.policy_ok;
                tracks = λ q. ground (
                  arith,
                  P.contains-touch q path c.policy v.policy_ok,
                  v.tracks q,
                  v.tracks path,
                );
                distinct = v.distinct;
                bounded = v.bounded;
              })
        | inr stale ↦ rw (hit, stale, get) (remove-IsValid path)
      ]
    ]
