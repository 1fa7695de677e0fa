-- ===== src/Tests/Remote.antt =====
-- The upload of buffered writes, and the messages.
use rsafe_fs.Base.{◌↔◌, ℕ, ◌≡◌, List, [], ◌∷◌, arith}
use rsafe_fs.Fuse.{FileInfo, Stat, zero_info, zero_stat, zero_time, Statvfs}
use rsafe_fs.AsyncClient.{Block}
use rsafe_fs.Messages.{
  fill_struct_stat, fill_struct_stat_message, fill_fuse_file_info, fill_struct_file_info_message,
  fill_struct_statvfs, fill_struct_statvfs_message,
}
use rsafe_fs.Messages.Roundtrip.{
  StatFits, FileInfoFits, TimespecFits, fill_struct_stat-message, fill_fuse_file_info-message,
  fill_struct_statvfs-exact, StatvfsFits,
}

-- two blocks that merge, and one of another file
abbrev block : ℕ → List ℕ → ℕ → ℕ → Block ℕ
block path buf size offset = record {
  path = path;
  buf = buf;
  size = size;
  offset = offset;
  fi = zero_info;
}

abbrev rest : List (Block ℕ)
rest = block 1 (3 ∷ []) 1 2 ∷ block 2 (4 ∷ []) 1 0 ∷ []

abbrev stat : Stat
stat = record zero_stat { mode = 33188; size = 5_000_000_000 }

zero_time-TimespecFits : TimespecFits zero_time
zero_time-TimespecFits = record { sec_fits = omega arith; nsec_fits = omega arith }

stat-StatFits : StatFits stat
stat-StatFits = record {
  dev_fits = omega arith;
  ino_fits = omega arith;
  mode_fits = omega arith;
  nlink_fits = omega arith;
  uid_fits = omega arith;
  gid_fits = omega arith;
  rdev_fits = omega arith;
  size_fits = omega arith;
  blksize_fits = omega arith;
  blocks_fits = omega arith;
  atim_fits = zero_time-TimespecFits;
  mtim_fits = zero_time-TimespecFits;
  ctim_fits = zero_time-TimespecFits;
}

fill_struct_stat-message_example : fill_struct_stat (fill_struct_stat_message stat) ≡ stat
fill_struct_stat-message_example = fill_struct_stat-message stat stat-StatFits

abbrev handle : FileInfo
handle = record zero_info { flags = 2; fh = 140_000_000_000_000 }

handle-FileInfoFits : FileInfoFits handle
handle-FileInfoFits = record {
  flags_fits = omega arith;
  fh_old_fits = omega arith;
  writepage_fits = omega arith;
  direct_io_fits = omega arith;
  keep_cache_fits = omega arith;
  flush_fits = omega arith;
  nonseekable_fits = omega arith;
  flock_release_fits = omega arith;
  padding_fits = omega arith;
  fh_fits = omega arith;
  lock_owner_fits = omega arith;
}

fill_fuse_file_info-message_example :
    fill_fuse_file_info (fill_struct_file_info_message handle) ≡ handle
fill_fuse_file_info-message_example = fill_fuse_file_info-message handle handle-FileInfoFits

-- a file system of 20 TiB
abbrev large : Statvfs
large = record {
  bsize = 4096;
  frsize = 4096;
  blocks = 5_368_709_120;
  bfree = 5_000_000_000;
  bavail = 5_000_000_000;
  files = 1000;
  ffree = 900;
  favail = 900;
  fsid = 7;
  flag = 0;
  namemax = 255;
}

fill_struct_statvfs-exact_example :
    (fill_struct_statvfs (fill_struct_statvfs_message large) ≡ large) ↔ StatvfsFits large
fill_struct_statvfs-exact_example = fill_struct_statvfs-exact large
