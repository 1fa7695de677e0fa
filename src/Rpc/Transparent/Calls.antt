-- ===== src/Rpc/Transparent/Calls.antt =====
-- Every operation of the remote layer, and a session of them.
use rsafe_fs.Base.{
  sym, ℤ, ◌≡◌, refl, ◌∙◌, arith, if◌then◌else◌, none, some, List, [], ◌∷◌, ◌++◌, map,
}
use mathlib.Core.List.{append-nil, append_assoc}
use rsafe_fs.Fuse.{DirEntry, FileInfo, Request, Reply, Layer}
use rsafe_fs.Messages.{StructDirInfoEntry, get_int}
use rsafe_fs.Rpc.Answers.{Answer, Network}
use rsafe_fs.Rpc.Client.{
  SyncClient, State, create_streams, remove_streams, is_minus_one, dir_entry, fill_entries,
}
use rsafe_fs.Rpc.Client.Paths
use rsafe_fs.Rpc.Client.Files
use rsafe_fs.Rpc.Client.Session.{handle, take_all}
use rsafe_fs.Rpc.Observed.{RequestFits, Fitting, lost}
use rsafe_fs.Rpc.Requests.{message, read_answer}
use rsafe_fs.Rpc.Transparent.{
  Delivers, Outcome, nothing, something, failed, answered, create_streams-view, remove_streams-view,
  unary-Got, unary-Outcome,
}
use rsafe_fs.Rpc.Transparent.Exchange.{read-Outcome, write-Outcome}

-- A filler that is never full gets every entry.
fill_entries-take_all :
    (es : List StructDirInfoEntry) (acc : List DirEntry)
    → fill_entries take_all es acc ≡ acc ++ map dir_entry es
unfolding fill_entries
fill_entries-take_all [] acc = sym (append-nil acc)
fill_entries-take_all (e ∷ es) acc =
    fill_entries-take_all es (acc ++ (dir_entry e ∷ []))
    ∙ append_assoc acc (dir_entry e ∷ []) (map dir_entry es)

module _ {FilePath N S : Type 0} (operations : Layer FilePath S) (net : Network FilePath N)
    (view : N → S) (d : Delivers operations net view) (dec : Discrete FilePath) where
  -- A call of the stub behind which the client sees to its streams.
  abbrev called :
      Request FilePath
      → (Answer → State FilePath N → State FilePath N)
      → State FilePath N
      → Reply × State FilePath N
  called request after (c, n) =
      let (answer, n') = net.unary (message request) n in
      elim answer [
        | none ↦ (lost request, (c, n'))
        | some a ↦ (read_answer request a, after a (c, n'))
      ]

  called-Outcome :
      (request : Request FilePath) (after : Answer → State FilePath N → State FilePath N)
      (c : SyncClient FilePath) (n : N)
      → ((a : Answer) (c : SyncClient FilePath) (n : N) → view (after a (c, n)).1 ≡ view n)
      → RequestFits request
      → Fitting operations request
      → let (reply, (c', n')) = called request after (c, n) in
        Outcome operations net view request (view n) reply (view n')
  called-Outcome request after c n same fit ok =
      elim (unary-Got operations net view d dec request n fit ok) [
        | nothing k miss b e u ↦ rw (called, miss) (failed k (ground arith) refl e u)
        | something k a hit b e z ↦
            rw (called, hit, same a c (net.unary (message request) n).1)
              (answered k (ground arith) e z)
      ]

  -- what `create` and `open` do to the streams
  abbrev after_open : FilePath → FileInfo → Answer → State FilePath N → State FilePath N
  after_open path fi a st =
      if is_minus_one (get_int a.result) then st else create_streams dec net path fi.flags st

  after_open-view :
      (path : FilePath) (fi : FileInfo) (a : Answer) (c : SyncClient FilePath) (n : N)
      → view (after_open path fi a (c, n)).1 ≡ view n
  after_open-view path fi a c n =
      ground (arith, create_streams-view operations net view d dec path fi.flags c n)

  readdir-Outcome :
      (path : FilePath) (offset : ℤ) (fi : FileInfo) (c : SyncClient FilePath) (n : N)
      → let request = Request.readdir path offset fi in
        RequestFits request
        → Fitting operations request
        → let (reply, (c', n')) = handle dec net request (c, n) in
          Outcome operations net view request (view n) reply (view n')
  unfolding handle Paths.readdir message read_answer lost
  readdir-Outcome path offset fi c n fit ok =
      let request = Request.readdir path offset fi in
      elim (unary-Got operations net view d dec request n fit ok) [
        | nothing k miss b e u ↦ rw (handle, Paths.readdir, miss) (failed k b refl e u)
        | something k a hit b e z ↦
            rw (handle, Paths.readdir, hit, fill_entries-take_all a.entries []) (answered k b e z)
      ]

  -- A call through the client ends in one of two ways, whatever the network does: it fails, and the
  -- request was carried out at most once (twice for a read or a write); or its reply is that of the
  -- operation called directly, and a read or a write may have been carried out once before, over a
  -- stream whose answer was lost. The request and the replies to it fit the fields of their
  -- messages; the network delivers the answers of the server, which carries out a request that fails
  -- once or not at all.
  pub handle-Outcome :
      (request : Request FilePath) (c : SyncClient FilePath) (n : N)
      → RequestFits request
      → Fitting operations request
      → let (reply, (c', n')) = handle dec net request (c, n) in
        Outcome operations net view request (view n) reply (view n')
  unfolding handle message read_answer lost Paths.getattr Paths.fgetattr Paths.access Paths.readlink
      Paths.opendir Paths.readdir Paths.releasedir Paths.mknod Paths.mkdir Paths.symlink
      Paths.unlink Paths.rmdir Paths.rename Paths.link Paths.chmod Paths.chown Paths.truncate
      Paths.ftruncate Paths.utimens Files.create Files.open_file Files.statfs Files.flush
      Files.release Files.fsync Files.fallocate Files.setxattr Files.getxattr Files.listxattr
      Files.removexattr Files.opened
  handle-Outcome (Request.getattr path) c n fit ok =
      unary-Outcome operations net view d dec (Request.getattr path) c n fit ok
  handle-Outcome (Request.fgetattr path fi) c n fit ok =
      unary-Outcome operations net view d dec (Request.fgetattr path fi) c n fit ok
  handle-Outcome (Request.access path mask) c n fit ok =
      unary-Outcome operations net view d dec (Request.access path mask) c n fit ok
  handle-Outcome (Request.readlink path size) c n fit ok =
      unary-Outcome operations net view d dec (Request.readlink path size) c n fit ok
  handle-Outcome (Request.opendir path fi) c n fit ok =
      unary-Outcome operations net view d dec (Request.opendir path fi) c n fit ok
  handle-Outcome (Request.readdir path offset fi) c n fit ok =
      readdir-Outcome path offset fi c n fit ok
  handle-Outcome (Request.releasedir path fi) c n fit ok =
      unary-Outcome operations net view d dec (Request.releasedir path fi) c n fit ok
  handle-Outcome (Request.mknod path mode rdev) c n fit ok =
      unary-Outcome operations net view d dec (Request.mknod path mode rdev) c n fit ok
  handle-Outcome (Request.mkdir path mode) c n fit ok =
      unary-Outcome operations net view d dec (Request.mkdir path mode) c n fit ok
  handle-Outcome (Request.symlink from to) c n fit ok =
      unary-Outcome operations net view d dec (Request.symlink from to) c n fit ok
  handle-Outcome (Request.unlink path) c n fit ok =
      unary-Outcome operations net view d dec (Request.unlink path) c n fit ok
  handle-Outcome (Request.rmdir path) c n fit ok =
      unary-Outcome operations net view d dec (Request.rmdir path) c n fit ok
  handle-Outcome (Request.rename from to) c n fit ok =
      unary-Outcome operations net view d dec (Request.rename from to) c n fit ok
  handle-Outcome (Request.link from to) c n fit ok =
      unary-Outcome operations net view d dec (Request.link from to) c n fit ok
  handle-Outcome (Request.chmod path mode) c n fit ok =
      unary-Outcome operations net view d dec (Request.chmod path mode) c n fit ok
  handle-Outcome (Request.chown path uid gid) c n fit ok =
      unary-Outcome operations net view d dec (Request.chown path uid gid) c n fit ok
  handle-Outcome (Request.truncate path size) c n fit ok =
      unary-Outcome operations net view d dec (Request.truncate path size) c n fit ok
  handle-Outcome (Request.ftruncate path size fi) c n fit ok =
      unary-Outcome operations net view d dec (Request.ftruncate path size fi) c n fit ok
  handle-Outcome (Request.utimens path tim0 tim1) c n fit ok =
      unary-Outcome operations net view d dec (Request.utimens path tim0 tim1) c n fit ok
  handle-Outcome (Request.create path mode fi) c n fit ok =
      called-Outcome (Request.create path mode fi) (after_open path fi) c n
        (after_open-view path fi) fit ok
  handle-Outcome (Request.open_file path fi) c n fit ok =
      called-Outcome (Request.open_file path fi) (after_open path fi) c n (after_open-view path fi)
        fit ok
  handle-Outcome (Request.read path size offset fi) c n fit ok =
      read-Outcome operations net view d dec path size offset fi c n fit ok
  handle-Outcome (Request.write path buf offset fi) c n fit ok =
      write-Outcome operations net view d dec path buf offset fi c n fit ok
  handle-Outcome (Request.statfs path) c n fit ok =
      unary-Outcome operations net view d dec (Request.statfs path) c n fit ok
  handle-Outcome (Request.flush path fi) c n fit ok =
      unary-Outcome operations net view d dec (Request.flush path fi) c n fit ok
  handle-Outcome (Request.release path fi) c n fit ok =
      called-Outcome (Request.release path fi) (λ a st. remove_streams dec net path st) c n
        (λ a c n. remove_streams-view operations net view d dec path c n) fit ok
  handle-Outcome (Request.fsync path isdatasync fi) c n fit ok =
      unary-Outcome operations net view d dec (Request.fsync path isdatasync fi) c n fit ok
  handle-Outcome (Request.fallocate path mode offset len fi) c n fit ok =
      unary-Outcome operations net view d dec (Request.fallocate path mode offset len fi) c n fit ok
  handle-Outcome (Request.setxattr path name value flags) c n fit ok =
      unary-Outcome operations net view d dec (Request.setxattr path name value flags) c n fit ok
  handle-Outcome (Request.getxattr path name size) c n fit ok =
      unary-Outcome operations net view d dec (Request.getxattr path name size) c n fit ok
  handle-Outcome (Request.listxattr path size) c n fit ok =
      unary-Outcome operations net view d dec (Request.listxattr path size) c n fit ok
  handle-Outcome (Request.removexattr path name) c n fit ok =
      unary-Outcome operations net view d dec (Request.removexattr path name) c n fit ok
