-- ===== src/Rpc/Server.antt =====
-- What the server does with the request of a call (lib/fuse_rpc/grpc/server.cpp): the class of calls
-- that `server::run` registers for its method.
mod Paths
mod Files
pub mod Streams
pub mod Calls
unfoldable pub use Paths.*
unfoldable pub use Files.*
use rsafe_fs.Fuse.{Layer}
use rsafe_fs.Rpc.Answers.{Call, Answer}

module _ {FilePath S : Type 0} (operations : Layer FilePath S) where
  -- The method that a request belongs to is the one whose class `server::run` registers for it.
  unfoldable pub serve : Call FilePath → S → Answer × S
  serve (Call.getattr path) = getattr_data operations path
  serve (Call.fgetattr path fi) = fgetattr_data operations path fi
  serve (Call.access path mask) = access_data operations path mask
  serve (Call.readlink path size) = readlink_data operations path size
  serve (Call.opendir path fi) = opendir_data operations path fi
  serve (Call.readdir path offset fi) = readdir_data operations path offset fi
  serve (Call.releasedir path fi) = releasedir_data operations path fi
  serve (Call.mknod path mode rdev) = mknod_data operations path mode rdev
  serve (Call.mkdir path mode) = mkdir_data operations path mode
  serve (Call.symlink from to) = symlink_data operations from to
  serve (Call.unlink path) = unlink_data operations path
  serve (Call.rmdir path) = rmdir_data operations path
  serve (Call.rename from to) = rename_data operations from to
  serve (Call.link from to) = link_data operations from to
  serve (Call.chmod path mode) = chmod_data operations path mode
  serve (Call.chown path uid gid) = chown_data operations path uid gid
  serve (Call.truncate path size) = truncate_data operations path size
  serve (Call.ftruncate path size fi) = ftruncate_data operations path size fi
  serve (Call.utimens path tim0 tim1) = utimens_data operations path tim0 tim1
  serve (Call.create path mode fi) = create_data operations path mode fi
  serve (Call.open_file path fi) = open_file_data operations path fi
  serve (Call.read path size offset fi) = read_data operations path size offset fi
  serve (Call.write path size offset buf fi) = write_data operations path size offset buf fi
  serve (Call.statfs path) = statfs_data operations path
  serve (Call.flush path fi) = flush_data operations path fi
  serve (Call.release path fi) = release_data operations path fi
  serve (Call.fsync path isdatasync fi) = fsync_data operations path isdatasync fi
  serve (Call.fallocate path mode offset len fi) = fallocate_data operations path mode offset len fi
  serve (Call.setxattr path name size flags value) =
      setxattr_data operations path name size flags value
  serve (Call.getxattr path name size) = getxattr_data operations path name size
  serve (Call.listxattr path size) = listxattr_data operations path size
  serve (Call.removexattr path name) = removexattr_data operations path name
