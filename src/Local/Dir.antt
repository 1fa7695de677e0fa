-- ===== src/Local/Dir.antt =====
-- The directory streams of lib/layers/local/local_operations.cpp (`local_opendir`, `local_readdir`,
-- `local_releasedir`), and the same functions of lib/layers/local/nfs_operations.cpp. The stream of the C
-- library is a parameter; the object behind `fi->fh` is passed along.
pub mod Pages
pub mod Session
use rsafe_fs.Base.{
  ℕ, zero, suc, ◌*◌, ◌==◌, Bool, true, false, List, Option, none, some, ℤ, pos, negsuc,
  if◌then◌else◌,
}
use rsafe_fs.Fuse.{Stat, DirEntry, zero_stat}
use rsafe_fs.Local.{neg, is_failed}

-- `struct dirent`: the fields that are read
pub record Dirent : Type 0 where
  pub d_name : List ℕ
  pub d_ino : ℕ
  pub d_type : ℕ

-- `readdir`, `telldir` and `seekdir` on a `DIR`
pub record DirStream (D : Type 0) : Type 0 where
  pub read_entry : D → Option Dirent × D
  pub tell : D → ℤ
  pub seek : ℤ → D → D

-- `struct local_dirp` (`struct dir_handle` in the nfs mode)
pub record LocalDirp (D : Type 0) : Type 0 where
  pub dp : D
  pub entry : Option Dirent
  pub offset : ℤ

-- `==` on `off_t`
unfoldable pub same_offset : ℤ → ℤ → Bool
same_offset (pos a) (pos b) = a == b
same_offset (negsuc a) (negsuc b) = a == b
same_offset (pos a) (negsuc b) = false
same_offset (negsuc a) (pos b) = false

-- what the filler gets: the inode and the type (`<< 12`) of the entry, and the offset behind it
unfoldable pub filled_entry : Dirent → ℤ → DirEntry
filled_entry e nextoff = record {
  name = e.d_name;
  st = record zero_stat { ino = e.d_ino; mode = e.d_type * 4096 };
  offset = nextoff;
}

-- `opendir` behind the allocation: the object of a directory, or `-errno`
unfoldable pub local_opendir : {D : Type 0} → Option D → ℕ → ℤ × Option (LocalDirp D)
local_opendir none errno = (neg errno, none)
local_opendir (some dp) errno = (pos 0, some (record { dp = dp; entry = none; offset = pos 0 }))

-- The result of `closedir` is dropped; the nfs mode gives it back.
unfoldable pub local_releasedir : ℤ → ℕ → ℤ
local_releasedir closed errno = pos 0

unfoldable pub nfs_releasedir : ℤ → ℕ → ℤ
nfs_releasedir closed errno = if same_offset closed (pos 0) then pos 0 else neg errno

module _ {D F : Type 0} (dir : DirStream D) (filler : DirEntry → F → Bool × F) where
  -- the entry that is kept from the last time, or the next one
  unfoldable pub next_entry : LocalDirp D → Option Dirent × D
  next_entry d = elim d.entry [ none ↦ dir.read_entry d.dp | some e ↦ (some e, d.dp) ]

  -- The loop: it ends at the end of the directory, or at an entry that the filler has no room for, which
  -- is kept. `none` is out of fuel.
  unfoldable pub fill_loop : ℕ → LocalDirp D → F → Option (LocalDirp D × F)
  fill_loop zero d f = none
  fill_loop (suc fuel) d f =
      let (next, dp) = next_entry d in
      elim next [
        | none ↦ some (record d { dp = dp; entry = none }, f)
        | some e ↦
            let nextoff = dir.tell dp in
            let (full, f') = filler (filled_entry e nextoff) f in
            let rest = fill_loop fuel (record { dp = dp; entry = none; offset = nextoff }) f' in
            if full then some (record d { dp = dp; entry = some e }, f') else rest
      ]

  unfoldable pub local_readdir : ℕ → ℤ → LocalDirp D → F → Option (LocalDirp D × F)
  local_readdir fuel offset d f =
      if same_offset offset d.offset
      then fill_loop fuel d f
      else fill_loop fuel (record { dp = dir.seek offset d.dp; entry = none; offset = offset }) f
