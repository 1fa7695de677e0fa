-- ===== src/MetadataCache/Layer/Coherence.antt =====
-- What the layer of lib/layers/metadata_cache/metadata_cache.cpp shows of the metadata, against the
-- next layer called directly.
use rsafe_fs.Base.{
  ℕ, ◌≡◌, refl, sym, ap, ap₂, ◌∙◌, subst, true, false, List, [], ◌∷◌, Option, none, some, arith,
  is_zero, if◌then◌else◌, Option-cases, Bool-cases, ◌⊎◌, inl, inr, pos, eq_zero_of_is_zero,
}
use rsafe_fs.Base.Dict.{find, member, find-erase, find-emplace_inv}
use rsafe_fs.Eviction.{EvictionPolicy}
use rsafe_fs.Fuse.{FileInfo, Timespec, Stat, Request, Reply, ok_reply, zero_stat, zero_info}
use rsafe_fs.Fuse
use rsafe_fs.MetadataCache.{Config, Metadata, Cache, drop, make_room, put, remove, get}
use rsafe_fs.MetadataCache.Layer
use rsafe_fs.MetadataCache.Layer.{State, handle}
use rsafe_fs.MetadataCache.Layer.View.{
  attributes, but_blksize, view, is_stat, attr, affected, Behaves, AllBehave,
}

module _ {K : Type 0} (dec : Discrete K) (P : EvictionPolicy dec) (config : Config)
    (parent : K → Option K) {S : Type 0} (next : Fuse.Layer K S) where
  unfoldable pub forgets : List K → Cache P → Cache P
  forgets [] c = c
  forgets (p ∷ ps) c = forgets ps (remove dec P config p c)

  find-forgets :
      (q : K) (ps : List K) (c : Cache P)
      → find dec q (forgets ps c).entries ≡ (if member dec q ps then none else find dec q c.entries)
  unfolding forgets remove member
  find-forgets q [] c = refl
  find-forgets q (p ∷ ps) c =
      ground (arith, find-forgets q ps (remove dec P config p c), find-erase dec q p c.entries)

  -- Every operation but the two drops what it affects, then calls the next layer.
  pub handle_forward :
      (now later : ℕ) (r : Request K) (c : Cache P) (s : S)
      → is_stat r ≡ false
      → handle dec P config parent next now later r (c, s)
        ≡ ((next r s).0, (forgets (affected parent r) c, (next r s).1))
  unfolding handle is_stat affected forgets
  handle_forward now later (Request.getattr p) c s h = cc
  handle_forward now later (Request.fgetattr p fi) c s h = cc
  handle_forward now later r c s h = ground arith

  -- Every cached entry is what the next layer says.
  abbrev pub IsCoherent : State dec P config parent next → Type 0
  IsCoherent (c, s) =
      (p : K) (m : Metadata)
      → find dec p c.entries ≡ some m
      → attr next p s ≡ some (but_blksize m.stbuf)

  find-get :
      (now : ℕ) (path q : K) (c : Cache P) (m : Metadata)
      → find dec q (get dec P config now path c).1.entries ≡ some m
      → find dec q c.entries ≡ some m
  unfolding get remove
  find-get now path q c m h = ground (arith, find-erase dec q path c.entries)

  get_hit :
      (now : ℕ) (path : K) (c : Cache P) (st : Stat)
      → (get dec P config now path c).0 ≡ some st
      → (m : Metadata) × (find dec path c.entries ≡ some m) × (m.stbuf ≡ st)
  unfolding get
  get_hit now path c st h = elim (Option-cases (find dec path c.entries)) [
    | inl miss ↦ absurd (ground arith)
    | inr (m, hit) ↦ (m, hit, ground arith)
  ]

  find-make_room :
      (q : K) (c : Cache P) (m : Metadata)
      → find dec q (make_room dec P config c).entries ≡ some m
      → find dec q c.entries ≡ some m
  unfolding make_room drop
  find-make_room q c m h = elim (Option-cases (P.evict c.policy).0) [
    | inl stop ↦ ground arith
    | inr (k, e) ↦ ground (arith, find-erase dec q k c.entries)
  ]

  find-put :
      (later : ℕ) (path q : K) (st : Stat) (c : Cache P) (m : Metadata)
      → find dec q (put dec P config later path st c).entries ≡ some m
      → (find dec q c.entries ≡ some m) ⊎ ((path ≡ q) × (st ≡ m.stbuf))
  unfolding put
  find-put later path q st c m h =
      let e : Metadata = record { stbuf = st; timestamp = later } in
      elim (find-emplace_inv dec q path e m (make_room dec P config c).entries h) [
        | inl old ↦ inl (find-make_room q c m old)
        | inr (p, same) ↦ inr (p, ap (λ x. x.stbuf) same)
      ]

  store-IsCoherent :
      (later : ℕ) (path : K) (c : Cache P) (r : Reply) (s : S)
      → (is_zero r.res ≡ true → attr next path s ≡ some (but_blksize r.stbuf))
      → IsCoherent (c, s)
      → IsCoherent (Layer.store dec P config parent next later path (r, s) c).1
  unfolding Layer.store
  store-IsCoherent later path c r s told co = elim (Bool-cases (is_zero r.res)) [
    | inr bad ↦ λ q m h. co q m (ground arith)
    | inl good ↦ λ q m h. elim (find-put later path q r.stbuf c m (ground arith)) [
      | inl old ↦ co q m old
      | inr (p, same) ↦ rw (← p) (told good ∙ ap (λ x. some (but_blksize x)) same)
    ]
  ]

  -- A stat through the cache: the caller sees what the next layer would say.
  abbrev Agrees :
      Request K → State dec P config parent next → Reply × State dec P config parent next → Type 0
  Agrees r (c, s) (reply, (c', s')) =
      (view r reply ≡ view r (next r s).0) × (s' ≡ (next r s).1) × IsCoherent (c', s')

  attributes_of_zero :
      (r : Reply) (st : Stat) (fi : FileInfo)
      → r.res ≡ pos 0
      → but_blksize r.stbuf ≡ but_blksize st
      → attributes (record ok_reply { stbuf = st; info = fi }) ≡ attributes r
  attributes_of_zero r st fi zero same = rw (zero, same)

  stbuf_of_zero :
      (r g : Reply)
      → is_zero r.res ≡ true
      → is_zero g.res ≡ true
      → attributes r ≡ attributes g
      → but_blksize r.stbuf ≡ but_blksize g.stbuf
  stbuf_of_zero r g h k same = rw (h, k) at (ap (λ x. x.stbuf) same)

  -- A known path answers with 0 and the known attributes.
  known_attributes :
      (path : K) (s : S) (st : Stat) (fi : FileInfo)
      → attr next path s ≡ some (but_blksize st)
      → attributes (record ok_reply { stbuf = st; info = fi })
        ≡ attributes (next (Request.getattr path) s).0
  unfolding attr
  known_attributes path s st fi h =
      let r = (next (Request.getattr path) s).0 in
      elim (Bool-cases (is_zero r.res)) [
        | inl good ↦
            let zero : r.res ≡ pos 0 = eq_zero_of_is_zero r.res good in
            let same : some (but_blksize r.stbuf) ≡ some (but_blksize st) = ground arith in
            let stats : but_blksize r.stbuf ≡ but_blksize st = cc (same) in
            attributes_of_zero r st fi zero stats
        | inr bad ↦ absurd (ground arith)
      ]

  told_by_getattr :
      (path : K) (s : S)
      → is_zero (next (Request.getattr path) s).0.res ≡ true
      → attr next path s ≡ some (but_blksize (next (Request.getattr path) s).0.stbuf)
  unfolding attr
  told_by_getattr path s h = rw h

  told_by_fgetattr :
      (path : K) (fi : FileInfo) (s : S)
      → attributes (next (Request.fgetattr path fi) s).0
        ≡ attributes (next (Request.getattr path) s).0
      → is_zero (next (Request.fgetattr path fi) s).0.res ≡ true
      → attr next path s ≡ some (but_blksize (next (Request.fgetattr path fi) s).0.stbuf)
  told_by_fgetattr path fi s same h =
      let r = (next (Request.fgetattr path fi) s).0 in
      let g = (next (Request.getattr path) s).0 in
      let result : r.res ≡ g.res = ap (λ x. x.res) same in
      let good : is_zero g.res ≡ true = sym (ap is_zero result) ∙ h in
      told_by_getattr path s good ∙ ap some (stbuf_of_zero g r good h (sym same))

  getattr-Agrees :
      (now later : ℕ) (path : K) (c : Cache P) (s : S)
      → (next (Request.getattr path) s).1 ≡ s
      → IsCoherent (c, s)
      → Agrees
          (Request.getattr path)
          (c, s)
          (Layer.metadata_cache_getattr dec P config parent next now later path (c, s))
  unfolding Layer.metadata_cache_getattr view
  getattr-Agrees now later path c s pure co =
      let c' = (get dec P config now path c).1 in
      let (r, s') = next (Request.getattr path) s in
      let co' : IsCoherent (c', s) = λ q m h. co q m (find-get now path q c m h) in
      elim (Option-cases (get dec P config now path c).0) [
        | inl miss ↦
            rw (miss, Layer.metadata_cache_getattr)
              (
                refl,
                refl,
                rw pure (store-IsCoherent later path c' r s (told_by_getattr path s) co'),
              )
        | inr (st, hit) ↦
            let (m, there, same) = get_hit now path c st hit in
            rw (hit, Layer.metadata_cache_getattr)
              (
                known_attributes path s st zero_info
                    (co path m there ∙ ap (λ x. some (but_blksize x)) same),
                sym pure,
                co',
              )
      ]

  fgetattr-Agrees :
      (now later : ℕ) (path : K) (fi : FileInfo) (c : Cache P) (s : S)
      → Behaves dec parent next (Request.fgetattr path fi) s
      → IsCoherent (c, s)
      → Agrees
          (Request.fgetattr path fi)
          (c, s)
          (Layer.metadata_cache_fgetattr dec P config parent next now later path fi (c, s))
  unfolding Behaves Layer.metadata_cache_fgetattr view
  fgetattr-Agrees now later path fi c s (pure, agree) co =
      let c' = (get dec P config now path c).1 in
      let (r, s') = next (Request.fgetattr path fi) s in
      let co' : IsCoherent (c', s) = λ q m h. co q m (find-get now path q c m h) in
      elim (Option-cases (get dec P config now path c).0) [
        | inl miss ↦
            rw (miss, Layer.metadata_cache_fgetattr)
              (
                refl,
                refl,
                rw pure (store-IsCoherent later path c' r s (told_by_fgetattr path fi s agree) co'),
              )
        | inr (st, hit) ↦
            let (m, there, same) = get_hit now path c st hit in
            rw (hit, Layer.metadata_cache_fgetattr)
              (
                known_attributes path s st fi
                      (co path m there ∙ ap (λ x. some (but_blksize x)) same)
                    ∙ sym agree,
                sym pure,
                co',
              )
      ]

  forward-Agrees :
      (now later : ℕ) (r : Request K) (c : Cache P) (s : S)
      → ((q : K)
          → member dec q (affected parent r) ≡ false
          → attr next q (next r s).1 ≡ attr next q s)
      → IsCoherent (c, s)
      → is_stat r ≡ false
      → Agrees r (c, s) (handle dec P config parent next now later r (c, s))
  forward-Agrees now later r c s covered co h = rw (handle_forward now later r c s h) (
    refl,
    refl,
    λ q m found. elim (Bool-cases (member dec q (affected parent r))) [
      | inl gone ↦ absurd (ground (arith, find-forgets q (affected parent r) c))
      | inr kept ↦ covered q kept ∙ co q m (ground (arith, find-forgets q (affected parent r) c))
    ],
  )

  handle-Agrees :
      (now later : ℕ) (r : Request K) (c : Cache P) (s : S)
      → Behaves dec parent next r s
      → IsCoherent (c, s)
      → Agrees r (c, s) (handle dec P config parent next now later r (c, s))
  unfolding handle is_stat Behaves
  handle-Agrees now later (Request.getattr path) c s ok co = getattr-Agrees now later path c s ok co
  handle-Agrees now later (Request.fgetattr path fi) c s ok co =
      fgetattr-Agrees now later path fi c s ok co
  handle-Agrees now later r c s ok co = forward-Agrees now later r c s ok co refl

  -- The replies, as the caller reads them, and the final state of the next layer: with the cache,
  -- and without it.
  pub run : List (ℕ × ℕ × Request K) → State dec P config parent next → List Reply × S
  run [] (c, s) = ([], s)
  run ((now, later, r) ∷ rs) st =
      let (reply, st') = handle dec P config parent next now later r st in
      let (replies, s) = run rs st' in (view r reply ∷ replies, s)

  pub run_direct : List (ℕ × ℕ × Request K) → S → List Reply × S
  run_direct [] s = ([], s)
  run_direct ((now, later, r) ∷ rs) s =
      let (reply, s') = next r s in
      let (replies, s'') = run_direct rs s' in (view r reply ∷ replies, s'')

  -- From a cache whose entries are what the next layer says, a history of operations through the
  -- functions of the layer gives the same replies, as the caller reads them, and the same final state of
  -- the next layer as the next layer alone: provided that in that history each `getattr` and `fgetattr`
  -- changes nothing, each `fgetattr` agrees with a `getattr` of its path but for `st_blksize`, and each
  -- other operation changes the attributes only of the paths that the layer drops for it.
  pub run_transparent :
      (rs : List (ℕ × ℕ × Request K)) (c : Cache P) (s : S)
      → AllBehave dec parent next rs s
      → IsCoherent (c, s)
      → run rs (c, s) ≡ run_direct rs s
  unfolding run run_direct
  run_transparent [] c s ok co = refl
  run_transparent ((now, later, r) ∷ rs) c s ok co =
      let st' = (handle dec P config parent next now later r (c, s)).1 in
      let (same, lower, co') = handle-Agrees now later r c s ok.0 co in
      let rest =
        run_transparent rs st'.0 st'.1 (subst (AllBehave dec parent next rs) (sym lower) ok.1) co'
        ∙ ap (run_direct rs) lower in
      ap₂ (λ v (e : List Reply × S). (v ∷ e.0, e.1)) same rest
