-- ===== src/Fuse.antt =====
-- The interface between the layers: `struct fuse_operations` of libfuse as the program uses it
-- (include/rsafefs/fuse_wrapper/fuse31.hpp), with the structures that its operations fill.
use rsafe_fs.Base.{ℕ, List, [], ℤ, pos}

-- `struct timespec`; a negative `tv_sec` is not used.
pub record Timespec : Type 0 where
  pub sec : ℕ
  pub nsec : ℕ

-- `struct stat`
pub record Stat : Type 0 where
  pub dev : ℕ
  pub ino : ℕ
  pub mode : ℕ
  pub nlink : ℕ
  pub uid : ℕ
  pub gid : ℕ
  pub rdev : ℕ
  pub size : ℕ
  pub blksize : ℕ
  pub blocks : ℕ
  pub atim : Timespec
  pub mtim : Timespec
  pub ctim : Timespec

-- `struct fuse_file_info`
pub record FileInfo : Type 0 where
  pub flags : ℕ
  pub fh_old : ℕ
  pub writepage : ℕ
  pub direct_io : ℕ
  pub keep_cache : ℕ
  pub flush : ℕ
  pub nonseekable : ℕ
  pub flock_release : ℕ
  pub padding : ℕ
  pub fh : ℕ
  pub lock_owner : ℕ

-- `struct statvfs`
pub record Statvfs : Type 0 where
  pub bsize : ℕ
  pub frsize : ℕ
  pub blocks : ℕ
  pub bfree : ℕ
  pub bavail : ℕ
  pub files : ℕ
  pub ffree : ℕ
  pub favail : ℕ
  pub fsid : ℕ
  pub flag : ℕ
  pub namemax : ℕ

-- an entry that `readdir` gives to its filler: the name, the attributes and the offset
pub record DirEntry : Type 0 where
  pub name : List ℕ
  pub st : Stat
  pub offset : ℤ

abbrev pub zero_time : Timespec
zero_time = record { sec = 0; nsec = 0 }

-- `struct stat stbuf {}`
abbrev pub zero_stat : Stat
zero_stat = record {
  dev = 0;
  ino = 0;
  mode = 0;
  nlink = 0;
  uid = 0;
  gid = 0;
  rdev = 0;
  size = 0;
  blksize = 0;
  blocks = 0;
  atim = zero_time;
  mtim = zero_time;
  ctim = zero_time;
}

-- `struct statvfs stbuf {}`
abbrev pub zero_statvfs : Statvfs
zero_statvfs = record {
  bsize = 0;
  frsize = 0;
  blocks = 0;
  bfree = 0;
  bavail = 0;
  files = 0;
  ffree = 0;
  favail = 0;
  fsid = 0;
  flag = 0;
  namemax = 0;
}

-- `fuse_file_info fi{}`
abbrev pub zero_info : FileInfo
zero_info = record {
  flags = 0;
  fh_old = 0;
  writepage = 0;
  direct_io = 0;
  keep_cache = 0;
  flush = 0;
  nonseekable = 0;
  flock_release = 0;
  padding = 0;
  fh = 0;
  lock_owner = 0;
}

-- A call of one of the operations that the layers pass on, with its arguments.
pub data Request (FilePath : Type 0) : Type 0 where
  getattr : FilePath → Request FilePath
  fgetattr : FilePath → FileInfo → Request FilePath
  access : FilePath → ℕ → Request FilePath
  readlink : FilePath → ℕ → Request FilePath
  opendir : FilePath → FileInfo → Request FilePath
  readdir : FilePath → ℤ → FileInfo → Request FilePath
  releasedir : FilePath → FileInfo → Request FilePath
  mknod : FilePath → ℕ → ℕ → Request FilePath
  mkdir : FilePath → ℕ → Request FilePath
  symlink : FilePath → FilePath → Request FilePath
  unlink : FilePath → Request FilePath
  rmdir : FilePath → Request FilePath
  rename : FilePath → FilePath → Request FilePath
  link : FilePath → FilePath → Request FilePath
  chmod : FilePath → ℕ → Request FilePath
  chown : FilePath → ℕ → ℕ → Request FilePath
  truncate : FilePath → ℤ → Request FilePath
  ftruncate : FilePath → ℤ → FileInfo → Request FilePath
  utimens : FilePath → Timespec → Timespec → Request FilePath
  create : FilePath → ℕ → FileInfo → Request FilePath
  open_file : FilePath → FileInfo → Request FilePath
  read : FilePath → ℕ → ℤ → FileInfo → Request FilePath
  write : FilePath → List ℕ → ℤ → FileInfo → Request FilePath
  statfs : FilePath → Request FilePath
  flush : FilePath → FileInfo → Request FilePath
  release : FilePath → FileInfo → Request FilePath
  fsync : FilePath → ℤ → FileInfo → Request FilePath
  fallocate : FilePath → ℕ → ℤ → ℤ → FileInfo → Request FilePath
  setxattr : FilePath → List ℕ → List ℕ → ℕ → Request FilePath
  getxattr : FilePath → List ℕ → ℕ → Request FilePath
  listxattr : FilePath → ℕ → Request FilePath
  removexattr : FilePath → List ℕ → Request FilePath

-- What a call gives back: its result, and what it left in `stbuf`, `fi` and `buf`, where it has them;
-- `entries` is what `readdir` offers a filler that takes every entry.
pub record Reply : Type 0 where
  pub res : ℤ
  pub stbuf : Stat
  pub info : FileInfo
  pub buf : List ℕ
  pub vfs : Statvfs
  pub entries : List DirEntry

abbrev pub ok_reply : Reply
ok_reply = record {
  res = pos 0;
  stbuf = zero_stat;
  info = zero_info;
  buf = [];
  vfs = zero_statvfs;
  entries = [];
}

-- A layer over a state `S`: each operation is a step of it.
abbrev pub Layer : Type 0 → Type 0 → Type 0
Layer FilePath S = Request FilePath → S → Reply × S
