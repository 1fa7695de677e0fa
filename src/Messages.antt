-- ===== src/Messages.antt =====
-- The conversions of include/rsafefs/fuse_rpc/grpc/structs_fillers.hpp between the structures of the
-- system and the messages of protos/fuse_operations.proto, field by field, each through the width
-- that the message gives it.
pub mod Roundtrip
use rsafe_fs.Base.{ℕ, ◌+◌, ◌-◌, ◌%◌, ◌^◌, ltb, if◌then◌else◌, ℤ, pos, negsuc, List}
use rsafe_fs.Fuse.{Timespec, Stat, FileInfo, Statvfs, DirEntry}

-- the fields of a message, each as the bits that it holds
pub record Int32 : Type 0 where
  pub bits : ℕ

pub record Uint32 : Type 0 where
  pub bits : ℕ

pub record Uint64 : Type 0 where
  pub bits : ℕ

pub record Int64 : Type 0 where
  pub bits : ℕ

-- The conversion to the type of a field.
unfoldable pub set_i32 : ℕ → Int32
set_i32 n = record { bits = n % 2 ^ 32 }

unfoldable pub set_u32 : ℕ → Uint32
set_u32 n = record { bits = n % 2 ^ 32 }

unfoldable pub set_u64 : ℕ → Uint64
set_u64 n = record { bits = n % 2 ^ 64 }

-- The conversion back, to 64 bits: an `int32` is extended by its sign.
unfoldable pub get_i32 : Int32 → ℕ
get_i32 x = if ltb x.bits (2 ^ 31) then x.bits else 2 ^ 64 - 2 ^ 32 + x.bits

-- An `int` and an `off_t` in two's complement, as the setters of the fields take them.
unfoldable pub set_int : ℤ → Int32
set_int (pos n) = record { bits = n % 2 ^ 32 }
set_int (negsuc n) = record { bits = 2 ^ 32 - 1 - n % 2 ^ 32 }

unfoldable pub get_int : Int32 → ℤ
get_int x = if ltb x.bits (2 ^ 31) then pos x.bits else negsuc (2 ^ 32 - 1 - x.bits)

-- the conversion from `off_t` to the 64 bits of `size_t`, and back
unfoldable pub of_off : ℤ → ℕ
of_off (pos n) = n % 2 ^ 64
of_off (negsuc n) = 2 ^ 64 - 1 - n % 2 ^ 64

unfoldable pub to_off : ℕ → ℤ
to_off n = if ltb n (2 ^ 63) then pos n else negsuc (2 ^ 64 - 1 - n)

unfoldable pub set_i64 : ℤ → Int64
set_i64 x = record { bits = of_off x }

unfoldable pub get_i64 : Int64 → ℤ
get_i64 x = to_off x.bits

-- A `dev_t` goes into an `int64` and comes out of it with the same bits.
unfoldable pub set_dev : ℕ → Int64
set_dev n = record { bits = n % 2 ^ 64 }

abbrev pub get_u32 : Uint32 → ℕ
get_u32 x = x.bits

abbrev pub get_u64 : Uint64 → ℕ
get_u64 x = x.bits

-- the messages
pub record StructTimespec : Type 0 where
  pub sec : Uint64
  pub nsec : Uint64

pub record StructStat : Type 0 where
  pub dev : Int32
  pub ino : Uint64
  pub mode : Uint32
  pub nlink : Uint32
  pub uid : Uint32
  pub gid : Uint32
  pub rdev : Int32
  pub size : Uint64
  pub blksize : Uint32
  pub blocks : Uint64
  pub atim : StructTimespec
  pub mtim : StructTimespec
  pub ctim : StructTimespec

pub record StructFuseFileInfo : Type 0 where
  pub flags : Int32
  pub fh_old : Uint64
  pub writepage : Int32
  pub direct_io : Uint32
  pub keep_cache : Uint32
  pub flush : Uint32
  pub nonseekable : Uint32
  pub flock_release : Uint32
  pub padding : Uint32
  pub fh : Uint64
  pub lock_owner : Uint64

pub record StructStatvfs : Type 0 where
  pub bsize : Uint64
  pub frsize : Uint64
  pub blocks : Uint32
  pub bfree : Uint32
  pub bavail : Uint32
  pub files : Uint32
  pub ffree : Uint32
  pub favail : Uint32
  pub fsid : Uint64
  pub flag : Uint64
  pub namemax : Uint64

pub record StructDirInfoEntry : Type 0 where
  pub name : List ℕ
  pub stbuf : StructStat
  pub offset : Uint64

unfoldable pub fill_struct_timespec_message : Timespec → StructTimespec
fill_struct_timespec_message x = record { sec = set_u64 x.sec; nsec = set_u64 x.nsec }

unfoldable pub fill_struct_timespec : StructTimespec → Timespec
fill_struct_timespec x = record { sec = get_u64 x.sec; nsec = get_u64 x.nsec }

unfoldable pub fill_struct_file_info_message : FileInfo → StructFuseFileInfo
fill_struct_file_info_message x = record {
  flags = set_i32 x.flags;
  fh_old = set_u64 x.fh_old;
  writepage = set_i32 x.writepage;
  direct_io = set_u32 x.direct_io;
  keep_cache = set_u32 x.keep_cache;
  flush = set_u32 x.flush;
  nonseekable = set_u32 x.nonseekable;
  flock_release = set_u32 x.flock_release;
  padding = set_u32 x.padding;
  fh = set_u64 x.fh;
  lock_owner = set_u64 x.lock_owner;
}

unfoldable pub fill_fuse_file_info : StructFuseFileInfo → FileInfo
fill_fuse_file_info x = record {
  flags = get_i32 x.flags;
  fh_old = get_u64 x.fh_old;
  writepage = get_i32 x.writepage;
  direct_io = get_u32 x.direct_io;
  keep_cache = get_u32 x.keep_cache;
  flush = get_u32 x.flush;
  nonseekable = get_u32 x.nonseekable;
  flock_release = get_u32 x.flock_release;
  padding = get_u32 x.padding;
  fh = get_u64 x.fh;
  lock_owner = get_u64 x.lock_owner;
}

unfoldable pub fill_struct_stat_message : Stat → StructStat
fill_struct_stat_message x = record {
  dev = set_i32 x.dev;
  ino = set_u64 x.ino;
  mode = set_u32 x.mode;
  nlink = set_u32 x.nlink;
  uid = set_u32 x.uid;
  gid = set_u32 x.gid;
  rdev = set_i32 x.rdev;
  size = set_u64 x.size;
  blksize = set_u32 x.blksize;
  blocks = set_u64 x.blocks;
  atim = fill_struct_timespec_message x.atim;
  mtim = fill_struct_timespec_message x.mtim;
  ctim = fill_struct_timespec_message x.ctim;
}

unfoldable pub fill_struct_stat : StructStat → Stat
fill_struct_stat x = record {
  dev = get_i32 x.dev;
  ino = get_u64 x.ino;
  mode = get_u32 x.mode;
  nlink = get_u32 x.nlink;
  uid = get_u32 x.uid;
  gid = get_u32 x.gid;
  rdev = get_i32 x.rdev;
  size = get_u64 x.size;
  blksize = get_u32 x.blksize;
  blocks = get_u64 x.blocks;
  atim = fill_struct_timespec x.atim;
  mtim = fill_struct_timespec x.mtim;
  ctim = fill_struct_timespec x.ctim;
}

unfoldable pub fill_struct_statvfs_message : Statvfs → StructStatvfs
fill_struct_statvfs_message x = record {
  bsize = set_u64 x.bsize;
  frsize = set_u64 x.frsize;
  blocks = set_u32 x.blocks;
  bfree = set_u32 x.bfree;
  bavail = set_u32 x.bavail;
  files = set_u32 x.files;
  ffree = set_u32 x.ffree;
  favail = set_u32 x.favail;
  fsid = set_u64 x.fsid;
  flag = set_u64 x.flag;
  namemax = set_u64 x.namemax;
}

unfoldable pub fill_struct_statvfs : StructStatvfs → Statvfs
fill_struct_statvfs x = record {
  bsize = get_u64 x.bsize;
  frsize = get_u64 x.frsize;
  blocks = get_u32 x.blocks;
  bfree = get_u32 x.bfree;
  bavail = get_u32 x.bavail;
  files = get_u32 x.files;
  ffree = get_u32 x.ffree;
  favail = get_u32 x.favail;
  fsid = get_u64 x.fsid;
  flag = get_u64 x.flag;
  namemax = get_u64 x.namemax;
}

unfoldable pub fill_struct_dir_entry_info : DirEntry → StructDirInfoEntry
fill_struct_dir_entry_info x = record {
  name = x.name;
  stbuf = fill_struct_stat_message x.st;
  offset = set_u64 (of_off x.offset);
}
