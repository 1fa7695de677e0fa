-- ===== src/DataCache/Bounds.antt =====
-- The cache and its policy agree on the keys, and the bytes of the blocks are counted and bounded.
use rsafe_fs.Base.{
  ℕ, zero, suc, ◌+◌, ◌-◌, ◌*◌, ◌/◌, ◌%◌, ◌==◌, ◌≤◌, ◌<◌, ◌≡◌, refl, sym, ap, ◌∙◌, ite, false, List,
  [], none, some, is_some, arith, ltb, length, Option-cases, Bool-cases, inl, inr, ◌⊎◌, pos, is_neg,
  is_zero,
}
use rsafe_fs.Base.Dict.{
  find, erase, emplace, assign, Distinct, find-erase, find-emplace, find-assign, erase-Distinct,
  emplace-Distinct, assign-Distinct, length-erase, length-assign, length-emplace, emplace_present,
  nil_of_find, find-assign_self,
}
use rsafe_fs.Eviction.{EvictionPolicy}
use rsafe_fs.Fuse.{FileInfo, Timespec, Request}
use rsafe_fs.Fuse
use rsafe_fs.DataCache.{
  Config, Block, Cache, State, Progress, Step, stop, again, Outcome, size_mod, sub_size,
  remove_block, drop_selected, make_room, is_valid, use_block, update_block, insert_block, iterate,
  read_loop, read, init, fill, count,
}

pub sub_size-sub : (a b : ℕ) → b ≤ a → a < size_mod → sub_size a b ≡ a - b
unfolding sub_size
sub_size-sub a b h k = omega arith

pub Step-cases :
    {A : Type 0} (x : Step A)
    → ((o : Outcome) × (a : A) × (x ≡ stop o a)) ⊎ ((g : Progress) × (a : A) × (x ≡ again g a))
Step-cases (stop o a) = inl (o, a, refl)
Step-cases (again g a) = inr (g, a, refl)

-- The caller's buffers aside, no count of bytes reaches 2^64.
pub record IsSmall (config : Config) : Type 0 where
  pub positive : 0 < config.block_size
  pub fits : config.size + config.block_size < size_mod

module _ {K : Type 0} (deck : Discrete K) (dec : Discrete (K × ℕ)) (P : EvictionPolicy dec)
    (config : Config) {S : Type 0} (next : Fuse.Layer K S) (clock : S → ℕ × S) where
  -- `cache_size_` counts the blocks, and exceeds the configured size by one block at most.
  pub record IsValid (c : Cache P) : Type 0 where
    pub policy_ok : P.Valid c.policy
    pub tracks : (q : K × ℕ) → P.contains q c.policy ≡ is_some (find dec q c.entries)
    pub distinct : Distinct dec c.entries
    pub counted : c.cache_size ≡ config.block_size * length c.entries
    pub bounded : c.cache_size ≤ config.size + config.block_size

  pub init-IsValid : IsValid (init deck dec P config next clock)
  unfolding init find
  init-IsValid = record {
    policy_ok = P.empty-Valid;
    tracks = P.contains-empty;
    distinct = tt;
    counted = omega arith;
    bounded = omega arith;
  }

  module _ (small : IsSmall config) {c : Cache P} (v : IsValid c) where
    block_fits :
        (key : K × ℕ) (w : Block)
        → find dec key c.entries ≡ some w
        → (config.block_size ≤ c.cache_size)
          × (c.cache_size - config.block_size
              ≡ config.block_size * length (erase dec key c.entries))
    block_fits key w hit =
        let all : config.block_size * (length (erase dec key c.entries) + 1) ≡ c.cache_size =
          ap (λ (k : ℕ). config.block_size * k) (length-erase dec key c.entries w v.distinct hit)
          ∙ sym v.counted in
        (omega arith, omega arith)

    -- What `remove_block` is on a cached key.
    remove_block_hit :
        (key : K × ℕ) (w : Block) (p : P.State)
        → find dec key c.entries ≡ some w
        → remove_block deck dec P config next clock key (record c { policy = p }) ≡ record c {
          entries = erase dec key c.entries;
          cache_size = c.cache_size - config.block_size;
          policy = p;
        }
    unfolding remove_block
    remove_block_hit key w p hit = ground (
      arith,
      sub_size-sub c.cache_size config.block_size,
      (block_fits key w hit).0,
      v.bounded,
      small.fits,
    )

    -- A cached key leaves the cache and the policy together, by either of them first.
    removed-IsValid :
        (key : K × ℕ) (w : Block) (p : P.State)
        → find dec key c.entries ≡ some w
        → P.Valid p
        → ((q : K × ℕ) → P.contains q p ≡ ite (dec key q) false (P.contains q c.policy))
        → IsValid (record c {
          entries = erase dec key c.entries;
          cache_size = c.cache_size - config.block_size;
          policy = p;
        })
    removed-IsValid key w p hit ok cut = record {
      policy_ok = ok;
      tracks = λ q. ground (arith, cut q, v.tracks q, find-erase dec q key c.entries);
      distinct = erase-Distinct dec key c.entries v.distinct;
      counted = (block_fits key w hit).1;
      bounded = omega (arith, v.bounded);
    }

    -- What the policy selects is cached; where it selects nothing, the cache is empty.
    drop_cases :
        ((c.cache_size ≡ 0)
          × (drop_selected deck dec P config next clock (P.evict c.policy) c
              ≡ record c { policy = (P.evict c.policy).1 })
          × ((P.evict c.policy).0 ≡ none))
        ⊎ ((k : K × ℕ) × (w : Block) × ((P.evict c.policy).0 ≡ some k)
            × (find dec k c.entries ≡ some w)
            × (drop_selected deck dec P config next clock (P.evict c.policy) c ≡ record c {
              entries = erase dec k c.entries;
              cache_size = c.cache_size - config.block_size;
              policy = (P.evict c.policy).1;
            }))
    unfolding drop_selected
    drop_cases = elim (Option-cases (P.evict c.policy).0) [
      | inl nothing ↦
          let nil : c.entries ≡ [] =
            nil_of_find dec c.entries
              (λ q. ground (arith, P.evict_none q c.policy v.policy_ok nothing, v.tracks q)) in
          inl (
            v.counted
                ∙ ap (λ (l : List ((K × ℕ) × Block)). config.block_size * length l) nil
                ∙ omega arith,
            ground arith,
            nothing,
          )
      | inr (k, e) ↦ elim (Option-cases (find dec k c.entries)) [
        | inl miss ↦ absurd (ground (arith, P.evict_held k c.policy v.policy_ok e, v.tracks k))
        | inr (w, hit) ↦
            inr (k, w, e, hit, ground (arith, remove_block_hit k w (P.evict c.policy).1 hit))
      ]
    ]

    -- After the eviction of a miss the cache is valid, and a block more is within the bound.
    pub make_room-IsValid :
        IsValid (make_room deck dec P config next clock c)
        × ((make_room deck dec P config next clock c).cache_size ≤ config.size)
    unfolding make_room
    make_room-IsValid = elim (Bool-cases (ltb config.size c.cache_size)) [
      | inr fits ↦ rw (fits, make_room) (v, ground arith)
      | inl over ↦ elim drop_cases [
        | inl (none_left, e, nothing) ↦ absurd (ground arith)
        | inr (k, w, found, hit, e) ↦
            rw (over, make_room, e)
              (
                removed-IsValid k w (P.evict c.policy).1 hit (P.evict-Valid c.policy v.policy_ok)
                    (λ q. ground (arith, P.contains-evict q c.policy v.policy_ok)),
                omega (arith, (block_fits k w hit).0, v.bounded),
              )
      ]
    ]

  abbrev pub after : Step (State deck dec P config next clock) → State deck dec P config next clock
  after (stop o st) = st
  after (again v st) = st

  module _ (small : IsSmall config) (path : K) (fi : FileInfo) (size : ℕ) (mtime : Timespec) where
    touched-IsValid :
        (key : K × ℕ) (w : Block) {c : Cache P}
        → IsValid c
        → find dec key c.entries ≡ some w
        → IsValid (record c { policy = P.touch key c.policy })
    touched-IsValid key w {c} v hit = record {
      policy_ok = P.touch-Valid key c.policy v.policy_ok;
      tracks = λ q.
          ground (arith, P.contains-touch q key c.policy v.policy_ok, v.tracks q, v.tracks key);
      distinct = v.distinct;
      counted = v.counted;
      bounded = v.bounded;
    }

    use_block-IsValid :
        (id : ℕ) (b w : Block) (g : Progress) {c : Cache P} (s : S)
        → IsValid c
        → find dec (path, id) c.entries ≡ some w
        → IsValid
            (after (use_block deck dec P config next clock path fi size mtime id b g (c, s))).0
    unfolding use_block
    use_block-IsValid id b w g {c} s v hit =
        let ok = touched-IsValid (path, id) w v hit in ground arith

    replaced-IsValid :
        (key : K × ℕ) (b w : Block) {c : Cache P}
        → IsValid c
        → find dec key c.entries ≡ some w
        → IsValid (record c { entries = assign dec key b c.entries })
    replaced-IsValid key b w {c} v hit = record {
      policy_ok = v.policy_ok;
      tracks = λ q. ground (arith, v.tracks q, v.tracks key, find-assign dec q key b c.entries);
      distinct = assign-Distinct dec key b c.entries v.distinct;
      counted =
          v.counted
          ∙ ap (λ (k : ℕ). config.block_size * k)
              (sym (length-erase dec key c.entries w v.distinct hit)
                ∙ sym (length-assign dec key b c.entries));
      bounded = v.bounded;
    }

    inserted-IsValid :
        (key : K × ℕ) (b : Block) {c : Cache P}
        → IsValid c
        → c.cache_size ≤ config.size
        → IsValid (record c {
          entries = emplace dec key b c.entries;
          cache_size = elim (find dec key c.entries) [
            | none ↦ (c.cache_size + config.block_size) % size_mod
            | some _ ↦ c.cache_size
          ];
          policy = P.touch key c.policy;
        })
    inserted-IsValid key b {c} v room = elim (Option-cases (find dec key c.entries)) [
      | inl miss ↦ record {
        policy_ok = P.touch-Valid key c.policy v.policy_ok;
        tracks = λ q. ground (
          arith,
          P.contains-touch q key c.policy v.policy_ok,
          v.tracks q,
          find-emplace dec q key b c.entries miss,
        );
        distinct = emplace-Distinct dec key b c.entries v.distinct;
        counted = rw miss (
            omega (
              arith,
              small.fits,
              v.counted,
              length-emplace dec key b c.entries miss,
              ap (λ (k : ℕ). config.block_size * k) (length-emplace dec key b c.entries miss),
            ));
        bounded = rw miss (omega (arith, small.fits));
      }
      | inr (w, hit) ↦ record {
        policy_ok = P.touch-Valid key c.policy v.policy_ok;
        tracks = λ q. ground (
          arith,
          P.contains-touch q key c.policy v.policy_ok,
          v.tracks q,
          v.tracks key,
          emplace_present dec key b c.entries hit,
        );
        distinct = emplace-Distinct dec key b c.entries v.distinct;
        counted = rw (hit, emplace_present dec key b c.entries hit) v.counted;
        bounded = rw hit v.bounded;
      }
    ]

    update_block-IsValid :
        (id : ℕ) (b w : Block) (g : Progress) {c : Cache P} (s : S)
        → IsValid c
        → find dec (path, id) c.entries ≡ some w
        → IsValid
            (after (update_block deck dec P config next clock path fi size mtime id b g (c, s))).0
    unfolding update_block
    update_block-IsValid id b w g {c} s v hit =
        let (r, s₁) = next (Request.read path config.block_size (pos b.offset) fi) s in
        let (now, s₂) = clock s₁ in
        let b' : Block = record {
          buf = fill b.buf r.buf;
          size = count r.res;
          offset = b.offset;
          timestamp = now;
          mtime = mtime;
        } in
        let key : K × ℕ = (path, id) in
        elim (Bool-cases (is_neg r.res)) [
          | inl bad ↦
              rw (bad, update_block, remove_block_hit small v key w c.policy hit)
                (removed-IsValid small v key w (P.remove key c.policy) hit
                  (P.remove-Valid key c.policy v.policy_ok)
                  (λ q. P.contains-remove q key c.policy v.policy_ok))
          | inr good ↦
              rw (good, update_block)
                (use_block-IsValid id b' b' g s₂ (replaced-IsValid key b' w v hit)
                  (find-assign_self dec key b' c.entries))
        ]

    insert_block-IsValid :
        (id : ℕ) (g : Progress) {c : Cache P} (s : S)
        → IsValid c
        → IsValid
            (after (insert_block deck dec P config next clock path fi size mtime id g (c, s))).0
    unfolding insert_block
    insert_block-IsValid id g {c} s v =
        let (r, s₁) =
          next (Request.read path config.block_size (pos (id * config.block_size)) fi) s in
        let (ok, room) = make_room-IsValid small v in
        elim (Bool-cases (is_neg r.res)) [
          | inl bad ↦ rw (bad, insert_block) ok
          | inr good ↦ elim (Bool-cases (is_zero r.res)) [
            | inl empty ↦ rw (good, empty, insert_block) ok
            | inr full ↦ rw (good, full, insert_block) (inserted-IsValid (path, id) _ ok room)
          ]
        ]

    iterate-IsValid :
        (g : Progress) {c : Cache P} (s : S)
        → IsValid c
        → IsValid (after (iterate deck dec P config next clock path fi size mtime g (c, s))).0
    unfolding iterate
    iterate-IsValid g {c} s v =
        let id = g.seeker / config.block_size in
        elim (Option-cases (find dec (path, id) c.entries)) [
          | inl miss ↦ rw (miss, iterate) (insert_block-IsValid id g s v)
          | inr (b, hit) ↦
              let (fresh, s') = is_valid deck dec P config next clock mtime b s in
              elim (Bool-cases fresh) [
                | inl yes' ↦ rw (hit, yes', iterate) (use_block-IsValid id b b g s' v hit)
                | inr no' ↦ rw (hit, no', iterate) (update_block-IsValid id b b g s' v hit)
              ]
        ]

    read_loop-IsValid :
        (fuel : ℕ) (g : Progress) {c : Cache P} (s : S)
        → IsValid c
        → IsValid (read_loop deck dec P config next clock path fi size mtime fuel g (c, s)).1.0
    unfolding read_loop
    read_loop-IsValid zero g s v = v
    read_loop-IsValid (suc fuel) g {c} s v =
        let kept = iterate-IsValid g s v in
        elim (Bool-cases (g.readed == size)) [
          | inl stops ↦ rw (stops, read_loop) v
          | inr goes ↦
              elim (Step-cases (iterate deck dec P config next clock path fi size mtime g (c, s))) [
                | inl (o, (c', s'), e) ↦ rw (goes, e, read_loop) (rw e at kept)
                | inr (g', (c', s'), e) ↦
                    rw (goes, e, read_loop) (read_loop-IsValid fuel g' s' (rw e at kept))
              ]
        ]

  -- `cache_size_` stays exact and bounded, and the policy in step with the map, through a read,
  -- whatever the next layer answers: provided that the size of a block is not 0, and that it and
  -- the configured size stay below 2^64 together.
  pub read-IsValid :
      IsSmall config
      → (path : K) (size offset : ℕ) (fi : FileInfo) (c : Cache P) (s : S) → IsValid c
      → IsValid (read deck dec P config next clock path size offset fi (c, s)).1.0
  unfolding read
  read-IsValid small path size offset fi c s v = elim (Option-cases (find deck path c.mtimes)) [
    | inl closed ↦ rw (closed, read) v
    | inr (mtime, opened) ↦
        rw (opened, read) (read_loop-IsValid small path fi size mtime (2 * size + 2) _ s v)
  ]
