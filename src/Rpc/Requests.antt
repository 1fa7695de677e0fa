-- ===== src/Rpc/Requests.antt =====
-- What the operations of the client (lib/fuse_rpc/grpc/sync_client.cpp) put into the message of a request, and
-- what they read of the answer.
use rsafe_fs.Base.{length, take, map}
use rsafe_fs.Fuse.{Request, Reply, ok_reply}
use rsafe_fs.Messages.{
  set_i32, set_u32, set_u64, set_int, get_int, set_i64, set_dev, of_off,
  fill_struct_timespec_message, fill_struct_file_info_message, fill_fuse_file_info,
  fill_struct_stat, fill_struct_statvfs,
}
use rsafe_fs.Rpc.Answers.{Call, Answer}
use rsafe_fs.Rpc.Client.{copied, dir_entry}

-- The message of a request, as the operation of the client fills it.
unfoldable pub message : {FilePath : Type 0} → Request FilePath → Call FilePath
message (Request.getattr path) = Call.getattr path
message (Request.fgetattr path fi) = Call.fgetattr path (fill_struct_file_info_message fi)
message (Request.access path mask) = Call.access path (set_i32 mask)
message (Request.readlink path size) = Call.readlink path (set_u64 size)
message (Request.opendir path fi) = Call.opendir path (fill_struct_file_info_message fi)
message (Request.readdir path offset fi) =
    Call.readdir path (set_u64 (of_off offset)) (fill_struct_file_info_message fi)
message (Request.releasedir path fi) = Call.releasedir path (fill_struct_file_info_message fi)
message (Request.mknod path mode rdev) = Call.mknod path (set_u32 mode) (set_dev rdev)
message (Request.mkdir path mode) = Call.mkdir path (set_u32 mode)
message (Request.symlink from to) = Call.symlink from to
message (Request.unlink path) = Call.unlink path
message (Request.rmdir path) = Call.rmdir path
message (Request.rename from to) = Call.rename from to
message (Request.link from to) = Call.link from to
message (Request.chmod path mode) = Call.chmod path (set_u32 mode)
message (Request.chown path uid gid) = Call.chown path (set_u32 uid) (set_u32 gid)
message (Request.truncate path size) = Call.truncate path (set_i64 size)
message (Request.ftruncate path size fi) =
    Call.ftruncate path (set_i64 size) (fill_struct_file_info_message fi)
message (Request.utimens path tim0 tim1) =
    Call.utimens path (fill_struct_timespec_message tim0) (fill_struct_timespec_message tim1)
message (Request.create path mode fi) =
    Call.create path (set_u32 mode) (fill_struct_file_info_message fi)
message (Request.open_file path fi) = Call.open_file path (fill_struct_file_info_message fi)
message (Request.read path size offset fi) =
    Call.read path (set_u64 size) (set_i64 offset) (fill_struct_file_info_message fi)
message (Request.write path buf offset fi) =
    Call.write path (set_u64 (length buf)) (set_i64 offset) buf
      (fill_struct_file_info_message (record fi { flush = 1 }))
message (Request.statfs path) = Call.statfs path
message (Request.flush path fi) = Call.flush path (fill_struct_file_info_message fi)
message (Request.release path fi) = Call.release path (fill_struct_file_info_message fi)
message (Request.fsync path isdatasync fi) =
    Call.fsync path (set_int isdatasync) (fill_struct_file_info_message fi)
message (Request.fallocate path mode offset len fi) =
    Call.fallocate path (set_i32 mode) (set_i64 offset) (set_i64 len)
      (fill_struct_file_info_message fi)
message (Request.setxattr path name value flags) =
    Call.setxattr path name (set_u64 (length value)) (set_i32 flags) value
message (Request.getxattr path name size) = Call.getxattr path name (set_u64 size)
message (Request.listxattr path size) = Call.listxattr path (set_u64 size)
message (Request.removexattr path name) = Call.removexattr path name

-- What the operation of the client reads of the answer.
unfoldable pub read_answer : {FilePath : Type 0} → Request FilePath → Answer → Reply
read_answer (Request.getattr path) a = record ok_reply {
  res = get_int a.result;
  stbuf = fill_struct_stat a.stbuf;
}
read_answer (Request.fgetattr path fi) a = record ok_reply {
  res = get_int a.result;
  stbuf = fill_struct_stat a.stbuf;
  info = fill_fuse_file_info a.info;
}
read_answer (Request.readlink path size) a = record ok_reply {
  res = get_int a.result;
  buf = take size a.buf;
}
read_answer (Request.opendir path fi) a = record ok_reply {
  res = get_int a.result;
  info = fill_fuse_file_info a.info;
}
read_answer (Request.readdir path offset fi) a = record ok_reply {
  res = get_int a.result;
  entries = map dir_entry a.entries;
  info = fill_fuse_file_info a.info;
}
read_answer (Request.releasedir path fi) a = record ok_reply {
  res = get_int a.result;
  info = fill_fuse_file_info a.info;
}
read_answer (Request.ftruncate path size fi) a = record ok_reply {
  res = get_int a.result;
  info = fill_fuse_file_info a.info;
}
read_answer (Request.create path mode fi) a = record ok_reply {
  res = get_int a.result;
  info = fill_fuse_file_info a.info;
}
read_answer (Request.open_file path fi) a = record ok_reply {
  res = get_int a.result;
  info = fill_fuse_file_info a.info;
}
read_answer (Request.read path size offset fi) a = record ok_reply {
  res = get_int a.result;
  buf = copied (get_int a.result) a.buf;
  info = fill_fuse_file_info a.info;
}
read_answer (Request.write path buf offset fi) a = record ok_reply {
  res = get_int a.result;
  info = fill_fuse_file_info a.info;
}
read_answer (Request.statfs path) a = record ok_reply {
  res = get_int a.result;
  vfs = fill_struct_statvfs a.vfs;
}
read_answer (Request.flush path fi) a = record ok_reply {
  res = get_int a.result;
  info = fill_fuse_file_info a.info;
}
read_answer (Request.release path fi) a = record ok_reply {
  res = get_int a.result;
  info = fill_fuse_file_info a.info;
}
read_answer (Request.fsync path isdatasync fi) a = record ok_reply {
  res = get_int a.result;
  info = fill_fuse_file_info a.info;
}
read_answer (Request.fallocate path mode offset len fi) a = record ok_reply {
  res = get_int a.result;
  info = fill_fuse_file_info a.info;
}
read_answer (Request.getxattr path name size) a = record ok_reply {
  res = get_int a.result;
  buf = copied (get_int a.result) a.buf;
}
read_answer (Request.listxattr path size) a = record ok_reply {
  res = get_int a.result;
  buf = copied (get_int a.result) a.buf;
}
read_answer request a = record ok_reply { res = get_int a.result }
