-- ===== src/DataCache/Correct/Session.antt =====
-- A path that is opened on an empty cache and then read any number of times.
use rsafe_fs.Base.{
  ℕ, zero, suc, ◌+◌, ◌≤◌, ◌<◌, ◌≡◌, refl, sym, ap, ap₂, ◌∙◌, false, List, [], ◌∷◌, Option, none,
  some, arith, length, All, Option-cases, Bool-cases, inl, inr, is_neg, ◌==◌, ◌/◌, ◌*◌, pos,
}
use rsafe_fs.Base.Dict.{find, assign, find-assign_self}
use rsafe_fs.Eviction.{EvictionPolicy}
use rsafe_fs.Fuse.{FileInfo, Timespec, Request}
use rsafe_fs.Fuse
use rsafe_fs.DataCache
use rsafe_fs.DataCache.{
  Config, Block, Cache, State, Progress, Step, stop, again, Outcome, done, size_mod, init,
  open_file, read, fill, count,
}
use rsafe_fs.DataCache.Bounds.{IsSmall, Step-cases}
use rsafe_fs.DataCache.Correct.{slice, IsServed}
use rsafe_fs.DataCache.Correct.Loop.{IsCached}
use rsafe_fs.DataCache.Correct.Read.{read_lem}

module _ {K : Type 0} (deck : Discrete K) (dec : Discrete (K × ℕ)) (P : EvictionPolicy dec)
    (config : Config) {S : Type 0} (next : Fuse.Layer K S) (clock : S → ℕ × S) where
  abbrev mtimes_of : Step (State deck dec P config next clock) → List (K × Timespec)
  mtimes_of (stop o (c, s)) = c.mtimes
  mtimes_of (again v (c, s)) = c.mtimes

  remove_block-mtimes :
      (key : K × ℕ) (c : Cache P)
      → Cache.mtimes (DataCache.remove_block deck dec P config next clock key c) ≡ c.mtimes
  unfolding DataCache.remove_block
  remove_block-mtimes key c = ground arith

  drop_selected-mtimes :
      (x : Option (K × ℕ) × P.State) (c : Cache P)
      → Cache.mtimes (DataCache.drop_selected deck dec P config next clock x c) ≡ c.mtimes
  unfolding DataCache.drop_selected
  drop_selected-mtimes (none, p) c = refl
  drop_selected-mtimes (some key, p) c = remove_block-mtimes key (record c { policy = p })

  make_room-mtimes :
      (c : Cache P) → Cache.mtimes (DataCache.make_room deck dec P config next clock c) ≡ c.mtimes
  unfolding DataCache.make_room
  make_room-mtimes c = ground (arith, drop_selected-mtimes (P.evict c.policy) c)

  module _ (path : K) (fi : FileInfo) (size : ℕ) (mtime : Timespec) where
    use_block-mtimes :
        (id : ℕ) (b : Block) (v : Progress) (c : Cache P) (s : S)
        → mtimes_of
            (DataCache.use_block deck dec P config next clock path fi size mtime id b v (c, s))
          ≡ c.mtimes
    unfolding DataCache.use_block
    use_block-mtimes id b v c s = ground arith

    update_block-mtimes :
        (id : ℕ) (b : Block) (v : Progress) (c : Cache P) (s : S)
        → mtimes_of
            (DataCache.update_block deck dec P config next clock path fi size mtime id b v (c, s))
          ≡ c.mtimes
    unfolding DataCache.update_block
    update_block-mtimes id b v c s =
        let (r, s₁) = next (Request.read path config.block_size (pos b.offset) fi) s in
        let (now, s₂) = clock s₁ in
        let b' : Block = record {
          buf = fill b.buf r.buf;
          size = count r.res;
          offset = b.offset;
          timestamp = now;
          mtime = mtime;
        } in
        elim (Bool-cases (is_neg r.res)) [
          | inl bad ↦ rw (DataCache.update_block, bad) (remove_block-mtimes (path, id) c)
          | inr good ↦
              rw (DataCache.update_block, good)
                (use_block-mtimes id b' v
                  (record c { entries = assign dec (path, id) b' c.entries }) s₂)
        ]

    insert_block-mtimes :
        (id : ℕ) (v : Progress) (c : Cache P) (s : S)
        → mtimes_of
            (DataCache.insert_block deck dec P config next clock path fi size mtime id v (c, s))
          ≡ c.mtimes
    unfolding DataCache.insert_block
    insert_block-mtimes id v c s = ground (arith, make_room-mtimes c)

    iterate-mtimes :
        (v : Progress) (c : Cache P) (s : S)
        → mtimes_of (DataCache.iterate deck dec P config next clock path fi size mtime v (c, s))
          ≡ c.mtimes
    unfolding DataCache.iterate
    iterate-mtimes v c s =
        let id = v.seeker / config.block_size in
        elim (Option-cases (find dec (path, id) c.entries)) [
          | inl miss ↦ rw (DataCache.iterate, miss) (insert_block-mtimes id v c s)
          | inr (b, hit) ↦
              let (fresh, s') = DataCache.is_valid deck dec P config next clock mtime b s in
              elim (Bool-cases fresh) [
                | inl ok ↦ rw (DataCache.iterate, hit, ok) (use_block-mtimes id b v c s')
                | inr old ↦ rw (DataCache.iterate, hit, old) (update_block-mtimes id b v c s')
              ]
        ]

    read_loop-mtimes :
        (fuel : ℕ) (v : Progress) (c : Cache P) (s : S)
        → Cache.mtimes
            (DataCache.read_loop deck dec P config next clock path fi size mtime fuel v (c, s)).1.0
          ≡ c.mtimes
    unfolding DataCache.read_loop
    read_loop-mtimes zero v c s = refl
    read_loop-mtimes (suc fuel) v c s =
        let kept = iterate-mtimes v c s in
        elim (Bool-cases (v.readed == size)) [
          | inl stops ↦ rw (DataCache.read_loop, stops) refl
          | inr goes ↦
              elim (Step-cases
                (DataCache.iterate deck dec P config next clock path fi size mtime v (c, s))) [
                  | inl (o, (c', s'), e) ↦
                      rw (DataCache.read_loop, goes, e) (sym (ap mtimes_of e) ∙ kept)
                  | inr (v', (c', s'), e) ↦
                      rw (DataCache.read_loop, goes, e)
                        (read_loop-mtimes fuel v' c' s' ∙ sym (ap mtimes_of e) ∙ kept)
                ]
        ]

  read-mtimes :
      (path : K) (size offset : ℕ) (fi : FileInfo) (c : Cache P) (s : S)
      → Cache.mtimes (read deck dec P config next clock path size offset fi (c, s)).1.0 ≡ c.mtimes
  unfolding read
  read-mtimes path size offset fi c s = elim (Option-cases (find deck path c.mtimes)) [
    | inl closed ↦ rw (read, closed) refl
    | inr (mtime, opened) ↦
        let v : Progress = record { readed = 0; seeker = offset; out = [] } in
        rw (read, opened) (read_loop-mtimes path fi size mtime (2 * size + 2) v c s)
  ]

-- a size and an offset, within the file
abbrev pub IsWithin : List ℕ → ℕ × ℕ → Type 0
IsWithin file (size, offset) = (offset ≤ length file) × (offset + size < size_mod)

-- What the reads give, by the file alone.
abbrev pub answers : List ℕ → List (ℕ × ℕ) → List Outcome
answers file [] = []
answers file ((size, offset) ∷ rs) =
    done (length (slice file size offset)) (slice file size offset) ∷ answers file rs

module _ (file : List ℕ) {K : Type 0} (deck : Discrete K) (dec : Discrete (K × ℕ))
    (P : EvictionPolicy dec) (config : Config) {S : Type 0} (next : Fuse.Layer K S)
    (clock : S → ℕ × S) (path : K) (fi : FileInfo) where
  -- The results of reads, by size and offset, one behind the other.
  abbrev pub run_reads : List (ℕ × ℕ) → State deck dec P config next clock → List Outcome
  run_reads [] st = []
  run_reads ((size, offset) ∷ rs) st =
      let (o, st') = read deck dec P config next clock path size offset fi st in
      o ∷ run_reads rs st'

  module _ (small : IsSmall config) (Holds : S → Type 0)
      (served : IsServed file next clock path Holds) where
    run_reads-answers :
        (mtime : Timespec) (rs : List (ℕ × ℕ)) (c : Cache P) (s : S)
        → All (IsWithin file) rs
        → find deck path c.mtimes ≡ some mtime
        → ((id : ℕ) (b : Block)
            → find dec (path, id) c.entries ≡ some b
            → IsCached file config.block_size mtime id b)
        → Holds s
        → run_reads rs (c, s) ≡ answers file rs
    run_reads-answers mtime [] c s within opened co holds = refl
    run_reads-answers mtime ((size, offset) ∷ rs) c s ((inside, fits), within) opened co holds =
        let (o, (c', s')) = read deck dec P config next clock path size offset fi (c, s) in
        let (same, co', holds') =
          read_lem file deck dec P config small next clock path fi size offset mtime fits Holds
            served c s opened inside co holds in
        let kept = read-mtimes deck dec P config next clock path size offset fi c s in
        ap₂ ◌∷◌ same
          (run_reads-answers mtime rs c' s' within (ap (find deck path) kept ∙ opened) co' holds')

    -- A path that is opened on a cache without blocks, and then read any number of times from within
    -- the file, is read as the file is, with every read ended within its fuel, whatever is cached,
    -- evicted and out of time on the way: provided that the open succeeds, and that the next layer
    -- serves the file behind it.
    pub open_file-run_reads :
        (rs : List (ℕ × ℕ)) (s : S)
        → All (IsWithin file) rs
        → is_neg (next (Request.open_file path fi) s).0.res ≡ false
        → is_neg (next (Request.getattr path) (next (Request.open_file path fi) s).1).0.res ≡ false
        → Holds (next (Request.getattr path) (next (Request.open_file path fi) s).1).1
        → run_reads rs
            (open_file deck dec P config next clock path fi
              (init deck dec P config next clock, s)).1
          ≡ answers file rs
    unfolding open_file init find
    open_file-run_reads rs s within good told holds =
        let (r, s₁) = next (Request.open_file path fi) s in
        let (a, s₂) = next (Request.getattr path) s₁ in
        let c : Cache P = record (init deck dec P config next clock) {
          mtimes = assign deck path a.stbuf.mtim [];
        } in
        rw (open_file, good, told)
          (run_reads-answers a.stbuf.mtim rs c s₂ within
            (find-assign_self deck path a.stbuf.mtim []) (λ id b h. absurd cc) holds)
