-- ===== src/DataCache/PastEnd.antt =====
-- Reads that start behind the end of the file, within a block that is cached.
use rsafe_fs.Base.{
  ℕ, suc, ◌+◌, ◌-◌, ◌*◌, ◌/◌, ◌≤◌, ◌<◌, ◌≡◌, refl, ap, ◌∙◌, min, true, false, List, [], some, arith,
  ◌==◌, length, take, drop,
}
use rsafe_fs.Base.Dict.{find}
use rsafe_fs.Eviction.{EvictionPolicy}
use rsafe_fs.Fuse.{FileInfo, Timespec}
use rsafe_fs.Fuse
use rsafe_fs.DataCache.{
  Config, Block, Cache, again, done, size_mod, sub_size, copy, is_valid, use_block, iterate,
  read_loop, read,
}
use rsafe_fs.DataCache.Bounds.{sub_size-sub}

-- The difference wraps, so it never is the smaller one.
sub_size_wraps :
    (size a b : ℕ) → a < b → b ≤ size_mod → size + b ≤ size_mod → min size (sub_size a b) ≡ size
unfolding sub_size
sub_size_wraps size a b h k l = omega arith

copy_inside :
    (buf : List ℕ) (at n : ℕ) → at + n ≤ length buf → copy buf at n ≡ some (take n (drop at buf))
unfolding copy
copy_inside buf at n h = ground arith

module _ {K : Type 0} (deck : Discrete K) (dec : Discrete (K × ℕ)) (P : EvictionPolicy dec)
    (config : Config) {S : Type 0} (next : Fuse.Layer K S) (clock : S → ℕ × S) (path : K)
    (fi : FileInfo) (size offset : ℕ) (mtime : Timespec) where
  -- The round that copies: all that was asked for, in one go.
  overrun :
      (b : Block) (c : Cache P) (s : S)
      → 0 < size
      → offset + size < size_mod
      → b.offset + b.size < offset
      → offset - b.offset + size ≤ length b.buf
      → use_block deck dec P config next clock path fi size mtime
          (offset / config.block_size)
          b
          (record { readed = 0; seeker = offset; out = [] })
          (c, s)
        ≡ again
            (record {
              readed = size;
              seeker = offset + size;
              out = take size (drop (offset - b.offset) b.buf);
            })
            (record c { policy = P.touch (path, offset / config.block_size) c.policy }, s)
  unfolding use_block
  overrun b c s some_size fits behind room =
      let e₁ : sub_size offset b.offset ≡ offset - b.offset =
        sub_size-sub offset b.offset (omega arith) (omega arith) in
      let e₂ : sub_size size 0 ≡ size =
        sub_size-sub size 0 (omega arith) (omega arith) ∙ omega arith in
      let e₃ : min size (sub_size b.size (offset - b.offset)) ≡ size =
        sub_size_wraps size b.size (offset - b.offset) (omega arith) (omega arith) (omega arith) in
      let e₄ : (size == 0) ≡ false = ground arith in
      let e₅ : copy b.buf (offset - b.offset) size
          ≡ some (take size (drop (offset - b.offset) b.buf)) =
        copy_inside b.buf _ size room in
      rw (e₁, e₂, e₃, e₄, e₅, use_block)
        (rw (e₁, e₂, e₃)
          (ap
            (λ (n : ℕ).
              again
                (record {
                  readed = n;
                  seeker = offset + size;
                  out = take size (drop (offset - b.offset) b.buf);
                })
                (record c { policy = P.touch (path, offset / config.block_size) c.policy }, s))
            (omega arith)))

  -- A cached block in force, whose `size_` bytes end before the read begins, and whose buffer
  -- reaches as far as the read does: the read gives `size` bytes of what lies behind the block's
  -- data, where the file has none.
  pub read_past_end :
      (b : Block) (c : Cache P) (s : S)
      → 0 < size
      → offset + size < size_mod
      → find deck path c.mtimes ≡ some mtime
      → find dec (path, offset / config.block_size) c.entries ≡ some b
      → (is_valid deck dec P config next clock mtime b s).0 ≡ true
      → b.offset + b.size < offset
      → offset - b.offset + size ≤ length b.buf
      → (read deck dec P config next clock path size offset fi (c, s)).0
        ≡ done size (take size (drop (offset - b.offset) b.buf))
  unfolding read read_loop iterate
  read_past_end b c s some_size fits opened hit ok behind room =
      let fuel : 2 * size + 2 ≡ suc (suc (2 * size)) = omega arith in
      let s' = (is_valid deck dec P config next clock mtime b s).1 in
      let e = overrun b c s' some_size fits behind room in
      let goes : (0 == size) ≡ false = ground arith in
      let stops : (size == size) ≡ true = ground arith in
      rw (opened, fuel, read, goes, hit, ok, e, read_loop) (rw stops refl)
