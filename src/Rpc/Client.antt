-- ===== src/Rpc/Client.antt =====
-- The synchronous client (lib/fuse_rpc/grpc/sync_client.cpp): every operation fills a request, calls
-- the stub, and reads the reply; reads and writes go over a stream that is kept for the path. The
-- bytes that a call leaves in `buf` are those that the client copies there. A call is a step: the
-- locks of the streams hold a write to a stream and the read of its answer together.
pub mod Paths
pub mod Files
pub mod Session
pub mod Streams
use rsafe_fs.Base.{
  ℕ, ◌%◌, ◌==◌, ℤ, pos, negsuc, List, [], ◌∷◌, take, map, length, Bool, true, false, ◌||◌, Option,
  none, some, if◌then◌else◌,
}
use rsafe_fs.Base.Dict.{delete, member}
use rsafe_fs.Fuse.{Timespec, FileInfo, DirEntry, Request, Reply, ok_reply}
use rsafe_fs.Messages.{
  set_i32, set_u32, set_u64, get_u64, set_int, get_int, set_i64, set_dev, of_off, to_off,
  fill_struct_timespec_message, fill_struct_file_info_message, fill_fuse_file_info,
  fill_struct_stat, fill_struct_statvfs, StructDirInfoEntry,
}
use rsafe_fs.Rpc.Answers.{Call, Answer, Kind, reading, writing, Network}

-- The paths with a stream: the keys of `read_streams_` and `write_streams_`.
pub record SyncClient (FilePath : Type 0) : Type 0 where
  pub read_streams : List FilePath
  pub write_streams : List FilePath

abbrev pub no_streams : {FilePath : Type 0} → SyncClient FilePath
no_streams = record { read_streams = []; write_streams = [] }

-- The reply of a call that fails: -1, and what the caller passed is left as it was.
abbrev pub failed : Reply
failed = record ok_reply { res = negsuc 0 }

-- The bytes copied from a reply: `res` of them, if there are any.
unfoldable pub copied : ℤ → List ℕ → List ℕ
copied (pos n) bytes = take n bytes
copied (negsuc n) bytes = []

-- `res == -1`
unfoldable pub is_minus_one : ℤ → Bool
is_minus_one (pos n) = false
is_minus_one (negsuc n) = n == 0

-- an entry of the reply as it is given to the filler
unfoldable pub dir_entry : StructDirInfoEntry → DirEntry
dir_entry e = record {
  name = e.name;
  st = fill_struct_stat e.stbuf;
  offset = to_off (get_u64 e.offset);
}

-- The loop over the entries: it ends when the filler says that it is full.
unfoldable pub fill_entries {ℓ} :
    {B : Type ℓ} → (DirEntry → B → Bool × B) → List StructDirInfoEntry → B → B
fill_entries filler [] b = b
fill_entries filler (e ∷ es) b =
    let (full, b') = filler (dir_entry e) b in
    let rest = fill_entries filler es b' in if full then b' else rest

-- The client, with the network behind it.
abbrev pub State : Type 0 → Type 0 → Type 0
State FilePath N = SyncClient FilePath × N

module _ {FilePath N : Type 0} (dec : Discrete FilePath) (net : Network FilePath N) where
  -- `try_emplace`: a stream is made only for a path that has none.
  unfoldable pub emplace_stream : Kind → FilePath → State FilePath N → State FilePath N
  emplace_stream reading path (c, n) =
      if member dec path c.read_streams
      then (c, n)
      else (record c { read_streams = path ∷ c.read_streams }, net.begin_stream reading path n)
  emplace_stream writing path (c, n) =
      if member dec path c.write_streams
      then (c, n)
      else (record c { write_streams = path ∷ c.write_streams }, net.begin_stream writing path n)

  -- `O_ACCMODE` is 3; O_RDONLY, O_WRONLY and O_RDWR are 0, 1 and 2.
  unfoldable pub create_streams : FilePath → ℕ → State FilePath N → State FilePath N
  create_streams path flags st =
      let mode = flags % 4 in
      if (mode == 0) || (flags == 0)
      then emplace_stream reading path st
      else if (mode == 1) || (flags == 1)
      then emplace_stream writing path st
      else if (mode == 2) || (flags == 2)
      then emplace_stream writing path (emplace_stream reading path st)
      else st

  unfoldable pub remove_stream : Kind → FilePath → State FilePath N → State FilePath N
  remove_stream reading path (c, n) =
      if member dec path c.read_streams
      then (
        record c { read_streams = delete dec path c.read_streams },
        net.writes_done reading path n,
      )
      else (c, n)
  remove_stream writing path (c, n) =
      if member dec path c.write_streams
      then (
        record c { write_streams = delete dec path c.write_streams },
        net.writes_done writing path n,
      )
      else (c, n)

  unfoldable pub remove_streams : FilePath → State FilePath N → State FilePath N
  remove_streams path st = remove_stream writing path (remove_stream reading path st)

  -- A call of the stub: on a status that is not `ok` it fails, otherwise the reply is read.
  unfoldable pub unary :
      Call FilePath → Reply → (Answer → Reply) → State FilePath N → Reply × State FilePath N
  unary request untouched filled (c, n) =
      let (answer, n') = net.unary request n in
      (elim answer [ none ↦ untouched | some a ↦ filled a ], (c, n'))
