-- ===== src/DataCache/Correct/Loop.antt =====
-- The loop of `read`: each round copies the file's bytes, or caches the block that the next round
-- copies from.
use rsafe_fs.Base.{
  ℕ, ◌+◌, ◌-◌, ◌*◌, ◌/◌, ◌≤◌, ◌<◌, ◌≡◌, ◌≢◌, refl, ap, ap₂, ◌∙◌, min, Bool, true, false, List, ◌++◌,
  none, some, is_some, arith, ◌==◌, ltb, if◌then◌else◌, length, Option-cases, Bool-cases, inl, inr,
  pos, is_neg, is_zero, replicate, length-replicate,
}
use native.Mathlib.Nat.{div-mul-le_self, lt-div-mul-add}
use rsafe_fs.Base.Dict.{
  find, emplace, assign, find-erase_inv, find-assign_inv, find-emplace_inv, is_some-emplace_self,
}
use rsafe_fs.Eviction.{EvictionPolicy}
use rsafe_fs.Fuse.{FileInfo, Timespec, Request}
use rsafe_fs.Fuse
use rsafe_fs.DataCache.{
  Config, Block, Cache, State, Progress, Step, stop, again, done, count, size_mod, sub_size, fill,
  copy, same_time, use_block, update_block, insert_block, make_room, remove_block, drop_selected,
}
use rsafe_fs.DataCache.Bounds.{sub_size-sub, IsSmall}
use rsafe_fs.DataCache.Correct.{
  slice, length-slice, slice_add, slice_end, IsServed, IsFresh, copy-IsFresh, reread-IsFresh,
}

-- A cached block of the path: it is the file's if it is as old as the file.
pub record IsCached (file : List ℕ) (block_size : ℕ) (mtime : Timespec) (id : ℕ) (b : Block)
    : Type 0 where
  pub start : b.offset ≡ id * block_size
  pub room : length b.buf ≡ block_size
  pub fresh : same_time b.mtime mtime ≡ true → IsFresh file block_size id b

pub bit_le : (b : Bool) → (if b then 0 else 1) ≤ 1
bit_le true = omega arith
bit_le false = omega arith

module _ (file : List ℕ) {K : Type 0} (deck : Discrete K) (dec : Discrete (K × ℕ))
    (P : EvictionPolicy dec) (config : Config) (small : IsSmall config) {S : Type 0}
    (next : Fuse.Layer K S) (clock : S → ℕ × S) (path : K) (fi : FileInfo) (size offset : ℕ)
    (mtime : Timespec) (fits : offset + size < size_mod) where
  -- How far the loop has come.
  pub record IsAt (g : Progress) : Type 0 where
    pub readed_le : g.readed ≤ size
    pub seeker_eq : g.seeker ≡ offset + g.readed
    pub out_eq : g.out ≡ slice file g.readed offset
    pub in_file : g.seeker ≤ length file

  abbrev pub IsCoherent : List ((K × ℕ) × Block) → Type 0
  IsCoherent entries =
      (id : ℕ) (b : Block)
      → find dec (path, id) entries ≡ some b
      → IsCached file config.block_size mtime id b

  abbrev pub expected : List ℕ
  expected = slice file size offset

  -- The rounds that are left, at most.
  abbrev pub left : Progress → Cache P → ℕ
  left g c =
      2 * (size - g.readed)
      + (if is_some (find dec (path, g.seeker / config.block_size) c.entries) then 0 else 1)

  -- A round that started with `n` rounds left ends the read with the file's bytes, or comes nearer.
  abbrev pub Rounds : (S → Type 0) → ℕ → Step (State deck dec P config next clock) → Type 0
  Rounds Holds n (stop o (c, s)) =
      (o ≡ done (length expected) expected) × IsCoherent c.entries × Holds s
  Rounds Holds n (again g (c, s)) = IsAt g × IsCoherent c.entries × Holds s × (left g c < n)

  -- Where the loop stands in its block.
  block_bounds :
      (b : Block) (g : Progress)
      → IsAt g
      → IsFresh file config.block_size (g.seeker / config.block_size) b
      → let start = g.seeker / config.block_size * config.block_size in
        (start ≤ g.seeker)
        × (g.seeker - start < config.block_size)
        × (g.seeker - start ≤ b.size)
        × (b.size ≡ min config.block_size (length file - start))
  block_bounds b g a f =
      let start = g.seeker / config.block_size * config.block_size in
      let low : start ≤ g.seeker = div-mul-le_self g.seeker config.block_size in
      let high : g.seeker < start + config.block_size =
        lt-div-mul-add {a = g.seeker} small.positive in
      let eq : b.size ≡ min config.block_size (length file - start) =
        f.size_eq ∙ length-slice file config.block_size start in
      (low, omega arith, omega (arith, a.in_file), eq)

  -- At the end of the file the loop has copied what there is.
  ended :
      (g : Progress)
      → IsAt g
      → length file ≤ g.seeker
      → done g.readed g.out ≡ done (length expected) expected
  ended g a h =
      let rest : length file ≤ offset + g.readed = omega (arith, a.seeker_eq) in
      let same : g.out ≡ expected =
        a.out_eq ∙ slice_end file g.readed size offset a.readed_le rest in
      let count : g.readed ≡ length expected =
        omega (arith, length-slice file size offset, a.in_file, a.seeker_eq, a.readed_le) in
      ap₂ done count same

  pub finished :
      (g : Progress)
      → IsAt g
      → g.readed ≡ size
      → done g.readed g.out ≡ done (length expected) expected
  finished g a h =
      let same : g.out ≡ expected = a.out_eq ∙ ap (λ n. slice file n offset) h in
      let count : g.readed ≡ length expected =
        omega (arith, length-slice file size offset, a.in_file, a.seeker_eq) in
      ap₂ done count same

  moved : (n : ℕ) (g : Progress) → Progress
  moved n g = record {
    readed = g.readed + n;
    seeker = g.seeker + n;
    out = g.out ++ slice file n g.seeker;
  }

  moved-IsAt :
      (n : ℕ) (g : Progress)
      → IsAt g
      → n ≤ size - g.readed
      → g.seeker + n ≤ length file
      → IsAt (moved n g)
  unfolding moved
  moved-IsAt n g a h k = record {
    readed_le = omega (arith, a.readed_le);
    seeker_eq = omega (arith, a.seeker_eq);
    out_eq =
        ap₂ (λ l o. l ++ slice file n o) a.out_eq a.seeker_eq ∙ slice_add file g.readed n offset;
    in_file = k;
  }

  -- The rest of the file is copied, as far as the block reaches.
  pub use_block-Rounds :
      (Holds : S → Type 0) (b : Block) (g : Progress) (c : Cache P) (s : S)
      → IsAt g
      → g.readed ≢ size
      → IsFresh file config.block_size (g.seeker / config.block_size) b
      → IsCoherent c.entries
      → Holds s
      → Rounds Holds (2 * (size - g.readed)) (
          use_block deck dec P config next clock path fi size mtime
            (g.seeker / config.block_size)
            b
            g
            (c, s))
  unfolding use_block moved
  use_block-Rounds Holds b g c s a goes f co holds =
      let id = g.seeker / config.block_size in
      let start = id * config.block_size in
      let (low, high, inside, eq) = block_bounds b g a f in
      let at = g.seeker - start in
      let n = min (size - g.readed) (b.size - at) in
      let e₁ : sub_size g.seeker b.offset ≡ at =
        ap (sub_size g.seeker) f.start
        ∙ sub_size-sub g.seeker start low (omega (arith, a.seeker_eq, a.readed_le)) in
      let e₂ : sub_size size g.readed ≡ size - g.readed =
        sub_size-sub size g.readed a.readed_le (omega arith) in
      let e₃ : sub_size b.size at ≡ b.size - at =
        sub_size-sub b.size at inside (omega (arith, small.fits)) in
      let n_le : n ≤ size - g.readed = omega arith in
      elim (Bool-cases (n == 0)) [
        | inl none_left ↦
            let zero_n : n ≡ 0 = ground arith in
            rw (e₁, e₂, e₃, none_left, use_block)
              (ended g a (omega (arith, a.readed_le)), co, holds)
        | inr some_left ↦
            let pos_n : 0 < n = ground arith in
            let bytes : copy b.buf at n ≡ some (slice file n g.seeker) =
              copy-IsFresh file config.block_size id at n b f (omega arith)
              ∙ ap (λ (o : ℕ). some (slice file n o)) (omega arith) in
            let on : g.seeker + n ≤ length file = omega (arith, a.in_file) in
            let nearer =
              bit_le (is_some (find dec (path, (g.seeker + n) / config.block_size) c.entries)) in
            rw (e₁, e₂, e₃, some_left, bytes, use_block)
              (rw (e₁, e₂, e₃) (moved-IsAt n g a n_le on, co, holds, omega (arith, nearer)))
      ]

  IsFresh-IsCached :
      (id : ℕ) (b : Block)
      → IsFresh file config.block_size id b
      → IsCached file config.block_size mtime id b
  IsFresh-IsCached id b f = record { start = f.start; room = f.room; fresh = λ _. f }

  assign-IsCoherent :
      (id : ℕ) (b : Block) (entries : List ((K × ℕ) × Block))
      → IsFresh file config.block_size id b
      → IsCoherent entries
      → IsCoherent (assign dec (path, id) b entries)
  assign-IsCoherent id b entries f co j w h =
      elim (find-assign_inv dec (path, j) (path, id) b w entries h) [
        | inl old ↦ co j w old
        | inr (p, same) ↦
            let here : id ≡ j = ap (λ k. k.1) p in rw (← here, ← same) (IsFresh-IsCached id b f)
      ]

  emplace-IsCoherent :
      (id : ℕ) (b : Block) (entries : List ((K × ℕ) × Block))
      → IsFresh file config.block_size id b
      → IsCoherent entries
      → IsCoherent (emplace dec (path, id) b entries)
  emplace-IsCoherent id b entries f co j w h =
      elim (find-emplace_inv dec (path, j) (path, id) b w entries h) [
        | inl old ↦ co j w old
        | inr (p, same) ↦
            let here : id ≡ j = ap (λ k. k.1) p in rw (← here, ← same) (IsFresh-IsCached id b f)
      ]

  remove_block-IsCoherent :
      (key : K × ℕ) (c : Cache P)
      → IsCoherent c.entries
      → IsCoherent (remove_block deck dec P config next clock key c).entries
  unfolding remove_block
  remove_block-IsCoherent key c co j w h =
      co j w (ground (arith, find-erase_inv dec (path, j) key w c.entries))

  make_room-IsCoherent :
      (c : Cache P)
      → IsCoherent c.entries
      → IsCoherent (make_room deck dec P config next clock c).entries
  unfolding make_room drop_selected
  make_room-IsCoherent c co = elim (Option-cases (P.evict c.policy).0) [
    | inl nothing ↦ λ j w h. co j w (ground arith)
    | inr (key, e) ↦ λ j w h.
        let c' : Cache P = record c { policy = (P.evict c.policy).1 } in
        elim (Bool-cases (ltb config.size c.cache_size)) [
          | inl over ↦ remove_block-IsCoherent key c' co j w (ground arith)
          | inr fits' ↦ co j w (ground arith)
        ]
  ]

  module _ (Holds : S → Type 0) (served : IsServed file next clock path Holds) where
    pub update_block-Rounds :
        (b : Block) (g : Progress) (c : Cache P) (s : S)
        → IsAt g
        → g.readed ≢ size
        → IsCached file config.block_size mtime (g.seeker / config.block_size) b
        → IsCoherent c.entries
        → Holds s
        → Rounds Holds (2 * (size - g.readed)) (
            update_block deck dec P config next clock path fi size mtime
              (g.seeker / config.block_size)
              b
              g
              (c, s))
    unfolding update_block
    update_block-Rounds b g c s a goes k co holds =
        let id = g.seeker / config.block_size in
        let bs = config.block_size in
        let (r, s₁) = next (Request.read path bs (pos b.offset) fi) s in
        let (now, s₂) = clock s₁ in
        let res = served.read_res bs b.offset fi s holds in
        let good : is_neg r.res ≡ false = rw res refl in
        let b' : Block = record {
          buf = fill b.buf r.buf;
          size = count r.res;
          offset = b.offset;
          timestamp = now;
          mtime = mtime;
        } in
        let f =
          reread-IsFresh file bs id now b.offset b.buf r mtime k.room k.start res
            (served.read_buf bs b.offset fi s holds) in
        rw (good, update_block)
          (use_block-Rounds Holds b' g (record c { entries = assign dec (path, id) b' c.entries })
            s₂ a goes f (assign-IsCoherent id b' c.entries f co)
            (served.clock_holds s₁ (served.read_holds bs b.offset fi s holds)))

    pub insert_block-Rounds :
        (g : Progress) (c : Cache P) (s : S)
        → IsAt g
        → g.readed ≢ size
        → find dec (path, g.seeker / config.block_size) c.entries ≡ none
        → IsCoherent c.entries
        → Holds s
        → Rounds Holds (left g c) (
            insert_block deck dec P config next clock path fi size mtime
              (g.seeker / config.block_size)
              g
              (c, s))
    unfolding insert_block
    insert_block-Rounds g c s a goes miss co holds =
        let bs = config.block_size in
        let id = g.seeker / bs in
        let start = id * bs in
        let c' = make_room deck dec P config next clock c in
        let (r, s₁) = next (Request.read path bs (pos start) fi) s in
        let (now, s₂) = clock s₁ in
        let res = served.read_res bs start fi s holds in
        let good : is_neg r.res ≡ false = rw res refl in
        let b : Block = record {
          buf = fill (replicate bs 0) r.buf;
          size = count r.res;
          offset = start;
          timestamp = now;
          mtime = mtime;
        } in
        let f =
          reread-IsFresh file bs id now start (replicate bs 0) r mtime (length-replicate bs 0) refl
            res (served.read_buf bs start fi s holds) in
        let co' = make_room-IsCoherent c co in
        let holds₁ = served.read_holds bs start fi s holds in
        elim (Bool-cases (is_zero r.res)) [
          | inl empty ↦
              let zero_res : is_zero (pos (length (slice file bs start))) ≡ true =
                rw res at empty in
              let low : start ≤ g.seeker = div-mul-le_self g.seeker bs in
              let none_there : length (slice file bs start) ≡ 0 = ground arith in
              let over : length file ≤ g.seeker =
                omega (arith, length-slice file bs start, small.positive) in
              rw (good, empty, insert_block) (ended g a over, co', holds₁)
          | inr full ↦
              rw (good, full, insert_block)
                (
                  a,
                  emplace-IsCoherent id b c'.entries f co',
                  served.clock_holds s₁ holds₁,
                  rw (miss, is_some-emplace_self) (omega arith),
                )
        ]
