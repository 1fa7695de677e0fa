-- ===== src/Rpc/Answers.antt =====
-- The calls of protos/fuse_operations.proto and what the stub of gRPC gives for them. The stub is
-- generated code over a library and stands here as a parameter, `Network`; `Delivers` says what the
-- program relies on.
use rsafe_fs.Base.{ℕ, List, [], ◌++◌, take, replicate, Bool, Option}
use rsafe_fs.Fuse.{zero_info, zero_stat, zero_statvfs}
use rsafe_fs.Messages.{
  Int32, Uint32, Uint64, Int64, StructTimespec, StructStat, StructFuseFileInfo, StructStatvfs,
  StructDirInfoEntry, fill_struct_stat_message, fill_struct_file_info_message,
  fill_struct_statvfs_message,
}

-- A request message of one of the methods, with its fields.
pub data Call (FilePath : Type 0) : Type 0 where
  getattr : FilePath → Call FilePath
  fgetattr : FilePath → StructFuseFileInfo → Call FilePath
  access : FilePath → Int32 → Call FilePath
  readlink : FilePath → Uint64 → Call FilePath
  opendir : FilePath → StructFuseFileInfo → Call FilePath
  readdir : FilePath → Uint64 → StructFuseFileInfo → Call FilePath
  releasedir : FilePath → StructFuseFileInfo → Call FilePath
  mknod : FilePath → Uint32 → Int64 → Call FilePath
  mkdir : FilePath → Uint32 → Call FilePath
  symlink : FilePath → FilePath → Call FilePath
  unlink : FilePath → Call FilePath
  rmdir : FilePath → Call FilePath
  rename : FilePath → FilePath → Call FilePath
  link : FilePath → FilePath → Call FilePath
  chmod : FilePath → Uint32 → Call FilePath
  chown : FilePath → Uint32 → Uint32 → Call FilePath
  truncate : FilePath → Int64 → Call FilePath
  ftruncate : FilePath → Int64 → StructFuseFileInfo → Call FilePath
  utimens : FilePath → StructTimespec → StructTimespec → Call FilePath
  create : FilePath → Uint32 → StructFuseFileInfo → Call FilePath
  open_file : FilePath → StructFuseFileInfo → Call FilePath
  read : FilePath → Uint64 → Int64 → StructFuseFileInfo → Call FilePath
  write : FilePath → Uint64 → Int64 → List ℕ → StructFuseFileInfo → Call FilePath
  statfs : FilePath → Call FilePath
  flush : FilePath → StructFuseFileInfo → Call FilePath
  release : FilePath → StructFuseFileInfo → Call FilePath
  fsync : FilePath → Int32 → StructFuseFileInfo → Call FilePath
  fallocate : FilePath → Int32 → Int64 → Int64 → StructFuseFileInfo → Call FilePath
  setxattr : FilePath → List ℕ → Uint64 → Int32 → List ℕ → Call FilePath
  getxattr : FilePath → List ℕ → Uint64 → Call FilePath
  listxattr : FilePath → Uint64 → Call FilePath
  removexattr : FilePath → List ℕ → Call FilePath

-- A reply message: the fields of all of them, those that a message does not have at their default.
pub record Answer : Type 0 where
  pub result : Int32
  pub stbuf : StructStat
  pub info : StructFuseFileInfo
  pub buf : List ℕ
  pub vfs : StructStatvfs
  pub entries : List StructDirInfoEntry

-- A message as it is constructed: every field is zero or empty.
abbrev pub empty_answer : Answer
empty_answer = record {
  result = record { bits = 0 };
  stbuf = fill_struct_stat_message zero_stat;
  info = fill_struct_file_info_message zero_info;
  buf = [];
  vfs = fill_struct_statvfs_message zero_statvfs;
  entries = [];
}

-- `buf->resize(size)` and then the bytes that an operation leaves at the front of the buffer
unfoldable pub resized : ℕ → List ℕ → List ℕ
resized size bytes = take size (bytes ++ replicate size 0)

-- the two kinds of streams that the client keeps for an open path
pub data Kind : Type 0 where
  reading : Kind
  writing : Kind

-- The stub with everything behind it: a call of a method gives an answer, unless the status is not
-- `ok`; `Write` on the stream of a path says whether it was sent, `Read` gives an answer or fails;
-- a stream is begun when it is made, and `WritesDone` ends it.
pub record Network (FilePath : Type 0) (N : Type 0) : Type 0 where
  pub unary : Call FilePath → N → Option Answer × N
  pub begin_stream : Kind → FilePath → N → N
  pub stream_write : Kind → FilePath → Call FilePath → N → Bool × N
  pub stream_read : Kind → FilePath → N → Option Answer × N
  pub writes_done : Kind → FilePath → N → N
