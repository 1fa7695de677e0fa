-- ===== src/DataCache/Correct/Read.antt =====
-- A whole read: it ends, and gives the file's bytes.
use rsafe_fs.Base.{
  ℕ, zero, suc, ◌+◌, ◌-◌, ◌*◌, ◌/◌, ◌≤◌, ◌<◌, ◌≡◌, ◌≢◌, refl, true, List, [], some, is_some, arith,
  ltb, ◌==◌, length, Option-cases, Bool-cases, inl, inr, ℤ, pos, negsuc,
}
use rsafe_fs.Base.Dict.{find}
use rsafe_fs.Eviction.{EvictionPolicy}
use rsafe_fs.Fuse.{FileInfo, Timespec}
use rsafe_fs.Fuse
use rsafe_fs.DataCache.{
  Config, Block, Cache, State, Progress, Step, stop, again, Outcome, done, size_mod, same_time,
  in_time, is_valid, iterate, read_loop, read, use_block, update_block, insert_block,
}
use rsafe_fs.DataCache.Bounds.{IsSmall, Step-cases}
use rsafe_fs.DataCache.Correct.{slice, IsServed}
use rsafe_fs.DataCache.Correct.Loop
use rsafe_fs.DataCache.Correct.Loop.{IsCached, bit_le}

module _ (file : List ℕ) {K : Type 0} (deck : Discrete K) (dec : Discrete (K × ℕ))
    (P : EvictionPolicy dec) (config : Config) (small : IsSmall config) {S : Type 0}
    (next : Fuse.Layer K S) (clock : S → ℕ × S) (path : K) (fi : FileInfo) (size offset : ℕ)
    (mtime : Timespec) (fits : offset + size < size_mod) (Holds : S → Type 0)
    (served : IsServed file next clock path Holds) where
  abbrev IsAt : Progress → Type 0
  IsAt = Loop.IsAt file deck dec P config small next clock path fi size offset mtime fits

  abbrev pub IsCoherent : List ((K × ℕ) × Block) → Type 0
  IsCoherent =
      Loop.IsCoherent file deck dec P config small next clock path fi size offset mtime fits

  abbrev left : Progress → Cache P → ℕ
  left = Loop.left file deck dec P config small next clock path fi size offset mtime fits

  abbrev Rounds : ℕ → Step (State deck dec P config next clock) → Type 0
  Rounds = Loop.Rounds file deck dec P config small next clock path fi size offset mtime fits Holds

  in_time_holds :
      (t : ℤ) (b : Block) (s : S) → Holds s → Holds (in_time deck dec P config next clock t b s).1
  unfolding in_time
  in_time_holds (pos t) b s holds =
      let later = served.clock_holds s holds in
      elim (Bool-cases (ltb 0 t)) [ inl p ↦ rw p later | inr p ↦ rw p holds ]
  in_time_holds (negsuc t) b s holds = holds

  -- The check of a block keeps what the next layer serves, and passes only blocks of the file's age.
  is_valid_facts :
      (b : Block) (s : S)
      → Holds s
      → let (fresh, s') = is_valid deck dec P config next clock mtime b s in
        Holds s' × (fresh ≡ true → same_time b.mtime mtime ≡ true)
  unfolding is_valid
  is_valid_facts b s holds = elim (Bool-cases (same_time b.mtime mtime)) [
    | inl same ↦ rw (same, is_valid) (in_time_holds config.time_out b s holds, λ _. refl)
    | inr other ↦ rw (other, is_valid) (holds, λ e. e)
  ]

  weaken :
      (m n : ℕ) (x : Step (State deck dec P config next clock)) → m ≤ n → Rounds m x → Rounds n x
  weaken m n (stop o st) h r = r
  weaken m n (again g st) h (a, co, holds, l) = (a, co, holds, omega arith)

  iterate-Rounds :
      (m : ℕ) (g : Progress) (c : Cache P) (s : S)
      → left g c ≤ m
      → IsAt g
      → g.readed ≢ size
      → IsCoherent c.entries
      → Holds s
      → Rounds m (iterate deck dec P config next clock path fi size mtime g (c, s))
  unfolding iterate
  iterate-Rounds m g c s all a goes co holds =
      let id = g.seeker / config.block_size in
      elim (Option-cases (find dec (path, id) c.entries)) [
        | inl miss ↦
            let x = insert_block deck dec P config next clock path fi size mtime id g (c, s) in
            rw (miss, iterate)
              (weaken (left g c) m x all (
                Loop.insert_block-Rounds file deck dec P config small next clock path fi size offset
                  mtime fits Holds served g c s a goes miss co holds))
        | inr (b, hit) ↦
            let k = co id b hit in
            let (fresh, s') = is_valid deck dec P config next clock mtime b s in
            let (holds', same) = is_valid_facts b s holds in
            let n = 2 * (size - g.readed) in
            let enough : n ≤ m = omega arith in
            elim (Bool-cases fresh) [
              | inl ok ↦
                  let x =
                    use_block deck dec P config next clock path fi size mtime id b g (c, s') in
                  rw (hit, ok, iterate)
                    (weaken n m x enough (
                      Loop.use_block-Rounds file deck dec P config small next clock path fi size
                        offset mtime fits Holds b g c s' a goes (k.fresh (same ok)) co holds'))
              | inr old ↦
                  let x =
                    update_block deck dec P config next clock path fi size mtime id b g (c, s') in
                  rw (hit, old, iterate)
                    (weaken n m x enough (
                      Loop.update_block-Rounds file deck dec P config small next clock path fi size
                        offset mtime fits Holds served b g c s' a goes k co holds'))
            ]
      ]

  abbrev IsRead : Outcome × State deck dec P config next clock → Type 0
  IsRead (o, (c, s)) =
      (o ≡ done (length (slice file size offset)) (slice file size offset))
      × IsCoherent c.entries
      × Holds s

  read_loop-IsRead :
      (fuel : ℕ) (g : Progress) (c : Cache P) (s : S)
      → left g c < fuel
      → IsAt g
      → IsCoherent c.entries
      → Holds s
      → IsRead (read_loop deck dec P config next clock path fi size mtime fuel g (c, s))
  unfolding read_loop
  read_loop-IsRead zero g c s h a co holds = absurd (omega arith)
  read_loop-IsRead (suc fuel) g c s h a co holds = elim (Bool-cases (g.readed == size)) [
    | inl stops ↦
        let all : g.readed ≡ size = ground arith in
        rw (stops, read_loop)
          (
            Loop.finished file deck dec P config small next clock path fi size offset mtime fits g a
                all,
            co,
            holds,
          )
    | inr goes ↦
        let more : g.readed ≢ size = ground arith in
        let r = iterate-Rounds (left g c) g c s (omega arith) a more co holds in
        elim (Step-cases (iterate deck dec P config next clock path fi size mtime g (c, s))) [
          | inl (o, (c', s'), e) ↦ rw (goes, e, read_loop) (rw e at r)
          | inr (g', (c', s'), e) ↦
              let (a', co', holds', l) : Rounds (left g c) (again g' (c', s')) = rw e at r in
              rw (goes, e, read_loop) (read_loop-IsRead fuel g' c' s' (omega arith) a' co' holds')
        ]
  ]

  -- While the next layer serves the file, a read of an open path from anywhere within the file ends,
  -- within the fuel, and gives exactly the bytes that the file has there, and their number, provided
  -- that the blocks cached of the path lie in their places and that each one with the modification time
  -- of the open holds the file's bytes; a block of another time may hold any. After the read, the blocks
  -- cached of the path are so again.
  pub read_lem :
      (c : Cache P) (s : S)
      → find deck path c.mtimes ≡ some mtime
      → offset ≤ length file
      → IsCoherent c.entries
      → Holds s
      → let (o, (c', s')) = read deck dec P config next clock path size offset fi (c, s) in
        (o ≡ done (length (slice file size offset)) (slice file size offset))
        × IsCoherent c'.entries
        × Holds s'
  unfolding read
  read_lem c s opened within co holds =
      let g : Progress = record { readed = 0; seeker = offset; out = [] } in
      let a : IsAt g = record {
        readed_le = omega arith;
        seeker_eq = omega arith;
        out_eq = refl;
        in_file = within;
      } in
      let bit = bit_le (is_some (find dec (path, offset / config.block_size) c.entries)) in
      rw (opened, read) (read_loop-IsRead (2 * size + 2) g c s (omega (arith, bit)) a co holds)
