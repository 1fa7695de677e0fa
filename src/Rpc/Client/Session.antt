-- ===== src/Rpc/Client/Session.antt =====
-- The functions of the remote layer (lib/layers/rpc_client/rpc_client.cpp), each of which forwards to the
-- client. `init_layer` puts all but the last five of them into the table.
use rsafe_fs.Base.{Bool, false, List, [], ◌∷◌, ◌++◌}
use rsafe_fs.Fuse.{DirEntry, Request, Reply, ok_reply}
use rsafe_fs.Rpc.Answers.{Network}
use rsafe_fs.Rpc.Client.{State}
use rsafe_fs.Rpc.Client.Paths
use rsafe_fs.Rpc.Client.Files

-- the filler that takes every entry (lib/fuse_rpc/utils/dir_info.cpp)
abbrev pub take_all : DirEntry → List DirEntry → Bool × List DirEntry
take_all e es = (false, es ++ (e ∷ []))

module _ {FilePath N : Type 0} (dec : Discrete FilePath) (net : Network FilePath N) where
  unfoldable pub handle : Request FilePath → State FilePath N → Reply × State FilePath N
  handle (Request.getattr path) st = Paths.getattr dec net path st
  handle (Request.fgetattr path fi) st = Paths.fgetattr dec net path fi st
  handle (Request.access path mask) st = Paths.access dec net path mask st
  handle (Request.readlink path size) st = Paths.readlink dec net path size st
  handle (Request.opendir path fi) st = Paths.opendir dec net path fi st
  handle (Request.readdir path offset fi) st =
      let ((res, info, entries), st') = Paths.readdir dec net take_all [] path offset fi st in
      (record ok_reply { res = res; info = info; entries = entries }, st')
  handle (Request.releasedir path fi) st = Paths.releasedir dec net path fi st
  handle (Request.mknod path mode rdev) st = Paths.mknod dec net path mode rdev st
  handle (Request.mkdir path mode) st = Paths.mkdir dec net path mode st
  handle (Request.symlink from to) st = Paths.symlink dec net from to st
  handle (Request.unlink path) st = Paths.unlink dec net path st
  handle (Request.rmdir path) st = Paths.rmdir dec net path st
  handle (Request.rename from to) st = Paths.rename dec net from to st
  handle (Request.link from to) st = Paths.link dec net from to st
  handle (Request.chmod path mode) st = Paths.chmod dec net path mode st
  handle (Request.chown path uid gid) st = Paths.chown dec net path uid gid st
  handle (Request.truncate path size) st = Paths.truncate dec net path size st
  handle (Request.ftruncate path size fi) st = Paths.ftruncate dec net path size fi st
  handle (Request.utimens path tim0 tim1) st = Paths.utimens dec net path tim0 tim1 st
  handle (Request.create path mode fi) st = Files.create dec net path mode fi st
  handle (Request.open_file path fi) st = Files.open_file dec net path fi st
  handle (Request.read path size offset fi) st = Files.read dec net path size offset fi st
  handle (Request.write path buf offset fi) st = Files.write dec net path buf offset fi st
  handle (Request.statfs path) st = Files.statfs dec net path st
  handle (Request.flush path fi) st = Files.flush dec net path fi st
  handle (Request.release path fi) st = Files.release dec net path fi st
  handle (Request.fsync path isdatasync fi) st = Files.fsync dec net path isdatasync fi st
  handle (Request.fallocate path mode offset len fi) st =
      Files.fallocate dec net path mode offset len fi st
  handle (Request.setxattr path name value flags) st =
      Files.setxattr dec net path name value flags st
  handle (Request.getxattr path name size) st = Files.getxattr dec net path name size st
  handle (Request.listxattr path size) st = Files.listxattr dec net path size st
  handle (Request.removexattr path name) st = Files.removexattr dec net path name st
