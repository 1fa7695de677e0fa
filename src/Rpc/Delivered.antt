-- ===== src/Rpc/Delivered.antt =====
-- A call as the client of lib/fuse_rpc/grpc/sync_client.cpp and the server of lib/fuse_rpc/grpc/server.cpp
-- make it between them: what is read of the answer to the message is the direct reply.
pub mod Bytes
use Bytes.{copied-resized, take-resized, dir_entry-info, take_all_length, flushed}
use rsafe_fs.Base.{◌≡◌, refl, List, length, take, map}
use rsafe_fs.Fuse.{FileInfo, Request, Reply, Layer, ok_reply}
use rsafe_fs.Messages.{
  set_i32, set_u32, set_u64, set_int, get_int, set_i64, set_dev, of_off,
  fill_struct_timespec_message, fill_struct_file_info_message, fill_fuse_file_info,
  fill_struct_stat, fill_struct_statvfs,
}
use rsafe_fs.Messages.Roundtrip.{
  get_i32-set_i32, get_u32-set_u32, get_u64-set_u64, get_i64-set_i64, to_off-set_i64,
  to_off-set_u64, set_dev_bits, fill_struct_timespec-message, get_int-set_int,
  fill_fuse_file_info-message, fill_struct_stat-message, fill_struct_statvfs-message,
}
use rsafe_fs.Rpc.Answers.{Call, Answer}
use rsafe_fs.Rpc.Server
use rsafe_fs.Rpc.Client.{copied, dir_entry}
use rsafe_fs.Rpc.Observed.{RequestFits, Fitting, direct, sent, observed}
use rsafe_fs.Rpc.Requests.{message, read_answer}

module _ {FilePath S : Type 0} (operations : Layer FilePath S) where
  -- What the client reads of the server's answer to its message is what the operation gives back,
  -- and the server's state is as after the operation.
  pub delivered :
      (request : Request FilePath) (s : S)
      → RequestFits request
      → Fitting operations request
      → let (a, s') = Server.serve operations (message request) s in
        (read_answer request a, s') ≡ direct operations request s
  unfolding Server.serve direct sent observed message read_answer Server.getattr_data
      Server.fgetattr_data Server.access_data Server.readlink_data Server.opendir_data
      Server.readdir_data Server.releasedir_data Server.mknod_data Server.mkdir_data
      Server.symlink_data Server.unlink_data Server.rmdir_data Server.rename_data Server.link_data
      Server.chmod_data Server.chown_data Server.truncate_data Server.ftruncate_data
      Server.utimens_data Server.create_data Server.open_file_data Server.read_data
      Server.write_data Server.statfs_data Server.flush_data Server.release_data Server.fsync_data
      Server.fallocate_data Server.setxattr_data Server.getxattr_data Server.listxattr_data
      Server.removexattr_data
  delivered (Request.getattr path) s fit ok =
      let r : Reply = (operations (sent (Request.getattr path)) s).0 in
      let f = (ok s).0 in
      rw (get_int-set_int r.res f.res_fits, fill_struct_stat-message r.stbuf f.stbuf_fits) refl
  delivered (Request.fgetattr path fi) s fit ok =
      let r : Reply = (operations (sent (Request.fgetattr path fi)) s).0 in
      let f = (ok s).0 in
      rw
        (
          fill_fuse_file_info-message fi fit,
          get_int-set_int r.res f.res_fits,
          fill_struct_stat-message r.stbuf f.stbuf_fits,
          fill_fuse_file_info-message r.info f.info_fits,
        )
        refl
  delivered (Request.access path mask) s fit ok =
      let r : Reply = (operations (sent (Request.access path mask)) s).0 in
      let f = (ok s).0 in rw (get_i32-set_i32 fit, get_int-set_int r.res f.res_fits) refl
  delivered (Request.readlink path size) s fit ok =
      let r : Reply = (operations (sent (Request.readlink path size)) s).0 in
      let f = (ok s).0 in
      rw (get_u64-set_u64 fit, get_int-set_int r.res f.res_fits, take-resized size r.buf) refl
  delivered (Request.opendir path fi) s fit ok =
      let r : Reply = (operations (sent (Request.opendir path fi)) s).0 in
      let f = (ok s).0 in
      rw
        (
          fill_fuse_file_info-message fi fit,
          get_int-set_int r.res f.res_fits,
          fill_fuse_file_info-message r.info f.info_fits,
        )
        refl
  delivered (Request.readdir path offset fi) s fit ok =
      let r : Reply = (operations (sent (Request.readdir path offset fi)) s).0 in
      let f = (ok s).0 in
      rw
        (
          to_off-set_u64 offset fit.0,
          fill_fuse_file_info-message fi fit.1,
          get_int-set_int r.res f.res_fits,
          dir_entry-info r.entries f.entries_fits,
          fill_fuse_file_info-message r.info f.info_fits,
        )
        refl
  delivered (Request.releasedir path fi) s fit ok =
      let r : Reply = (operations (sent (Request.releasedir path fi)) s).0 in
      let f = (ok s).0 in
      rw
        (
          fill_fuse_file_info-message fi fit,
          get_int-set_int r.res f.res_fits,
          fill_fuse_file_info-message r.info f.info_fits,
        )
        refl
  delivered (Request.mknod path mode rdev) s fit ok =
      let r : Reply = (operations (sent (Request.mknod path mode rdev)) s).0 in
      let f = (ok s).0 in
      rw (get_u32-set_u32 fit.0, set_dev_bits fit.1, get_int-set_int r.res f.res_fits) refl
  delivered (Request.mkdir path mode) s fit ok =
      let r : Reply = (operations (sent (Request.mkdir path mode)) s).0 in
      let f = (ok s).0 in rw (get_u32-set_u32 fit, get_int-set_int r.res f.res_fits) refl
  delivered (Request.symlink from to) s fit ok =
      let r : Reply = (operations (sent (Request.symlink from to)) s).0 in
      let f = (ok s).0 in rw (get_int-set_int r.res f.res_fits) refl
  delivered (Request.unlink path) s fit ok =
      let r : Reply = (operations (sent (Request.unlink path)) s).0 in
      let f = (ok s).0 in rw (get_int-set_int r.res f.res_fits) refl
  delivered (Request.rmdir path) s fit ok =
      let r : Reply = (operations (sent (Request.rmdir path)) s).0 in
      let f = (ok s).0 in rw (get_int-set_int r.res f.res_fits) refl
  delivered (Request.rename from to) s fit ok =
      let r : Reply = (operations (sent (Request.rename from to)) s).0 in
      let f = (ok s).0 in rw (get_int-set_int r.res f.res_fits) refl
  delivered (Request.link from to) s fit ok =
      let r : Reply = (operations (sent (Request.link from to)) s).0 in
      let f = (ok s).0 in rw (get_int-set_int r.res f.res_fits) refl
  delivered (Request.chmod path mode) s fit ok =
      let r : Reply = (operations (sent (Request.chmod path mode)) s).0 in
      let f = (ok s).0 in rw (get_u32-set_u32 fit, get_int-set_int r.res f.res_fits) refl
  delivered (Request.chown path uid gid) s fit ok =
      let r : Reply = (operations (sent (Request.chown path uid gid)) s).0 in
      let f = (ok s).0 in
      rw (get_u32-set_u32 fit.0, get_u32-set_u32 fit.1, get_int-set_int r.res f.res_fits) refl
  delivered (Request.truncate path size) s fit ok =
      let r : Reply = (operations (sent (Request.truncate path size)) s).0 in
      let f = (ok s).0 in rw (to_off-set_i64 size fit, get_int-set_int r.res f.res_fits) refl
  delivered (Request.ftruncate path size fi) s fit ok =
      let r : Reply = (operations (sent (Request.ftruncate path size fi)) s).0 in
      let f = (ok s).0 in
      rw
        (
          to_off-set_i64 size fit.0,
          fill_fuse_file_info-message fi fit.1,
          get_int-set_int r.res f.res_fits,
          fill_fuse_file_info-message r.info f.info_fits,
        )
        refl
  delivered (Request.utimens path tim0 tim1) s fit ok =
      let r : Reply = (operations (sent (Request.utimens path tim0 tim1)) s).0 in
      let f = (ok s).0 in
      rw
        (
          fill_struct_timespec-message tim0 fit.0,
          fill_struct_timespec-message tim1 fit.1,
          get_int-set_int r.res f.res_fits,
        )
        refl
  delivered (Request.create path mode fi) s fit ok =
      let r : Reply = (operations (sent (Request.create path mode fi)) s).0 in
      let f = (ok s).0 in
      rw
        (
          get_u32-set_u32 fit.0,
          fill_fuse_file_info-message fi fit.1,
          get_int-set_int r.res f.res_fits,
          fill_fuse_file_info-message r.info f.info_fits,
        )
        refl
  delivered (Request.open_file path fi) s fit ok =
      let r : Reply = (operations (sent (Request.open_file path fi)) s).0 in
      let f = (ok s).0 in
      rw
        (
          fill_fuse_file_info-message fi fit,
          get_int-set_int r.res f.res_fits,
          fill_fuse_file_info-message r.info f.info_fits,
        )
        refl
  delivered (Request.read path size offset fi) s fit ok =
      let r : Reply = (operations (sent (Request.read path size offset fi)) s).0 in
      let f = (ok s).0 in
      rw
        (
          get_u64-set_u64 fit.0,
          get_i64-set_i64 offset fit.1,
          fill_fuse_file_info-message fi fit.2,
          get_int-set_int r.res f.res_fits,
          copied-resized size r.res r.buf (ok s).1,
          fill_fuse_file_info-message r.info f.info_fits,
        )
        refl
  delivered (Request.write path buf offset fi) s fit ok =
      let r : Reply = (operations (sent (Request.write path buf offset fi)) s).0 in
      let f = (ok s).0 in
      rw
        (
          get_u64-set_u64 fit.0,
          get_i64-set_i64 offset fit.1,
          fill_fuse_file_info-message (record fi { flush = 1 }) (flushed fi fit.2),
          take_all_length buf,
          get_int-set_int r.res f.res_fits,
          fill_fuse_file_info-message r.info f.info_fits,
        )
        refl
  delivered (Request.statfs path) s fit ok =
      let r : Reply = (operations (sent (Request.statfs path)) s).0 in
      let f = (ok s).0 in
      rw (get_int-set_int r.res f.res_fits, fill_struct_statvfs-message r.vfs f.vfs_fits) refl
  delivered (Request.flush path fi) s fit ok =
      let r : Reply = (operations (sent (Request.flush path fi)) s).0 in
      let f = (ok s).0 in
      rw
        (
          fill_fuse_file_info-message fi fit,
          get_int-set_int r.res f.res_fits,
          fill_fuse_file_info-message r.info f.info_fits,
        )
        refl
  delivered (Request.release path fi) s fit ok =
      let r : Reply = (operations (sent (Request.release path fi)) s).0 in
      let f = (ok s).0 in
      rw
        (
          fill_fuse_file_info-message fi fit,
          get_int-set_int r.res f.res_fits,
          fill_fuse_file_info-message r.info f.info_fits,
        )
        refl
  delivered (Request.fsync path isdatasync fi) s fit ok =
      let r : Reply = (operations (sent (Request.fsync path isdatasync fi)) s).0 in
      let f = (ok s).0 in
      rw
        (
          get_int-set_int isdatasync fit.0,
          fill_fuse_file_info-message fi fit.1,
          get_int-set_int r.res f.res_fits,
          fill_fuse_file_info-message r.info f.info_fits,
        )
        refl
  delivered (Request.fallocate path mode offset len fi) s fit ok =
      let r : Reply = (operations (sent (Request.fallocate path mode offset len fi)) s).0 in
      let f = (ok s).0 in
      rw
        (
          get_i32-set_i32 fit.0,
          get_i64-set_i64 offset fit.1,
          get_i64-set_i64 len fit.2,
          fill_fuse_file_info-message fi fit.3,
          get_int-set_int r.res f.res_fits,
          fill_fuse_file_info-message r.info f.info_fits,
        )
        refl
  delivered (Request.setxattr path name value flags) s fit ok =
      let r : Reply = (operations (sent (Request.setxattr path name value flags)) s).0 in
      let f = (ok s).0 in
      rw
        (
          get_u64-set_u64 fit.0,
          get_i32-set_i32 fit.1,
          take_all_length value,
          get_int-set_int r.res f.res_fits,
        )
        refl
  delivered (Request.getxattr path name size) s fit ok =
      let r : Reply = (operations (sent (Request.getxattr path name size)) s).0 in
      let f = (ok s).0 in
      rw
        (
          get_u64-set_u64 fit,
          get_int-set_int r.res f.res_fits,
          copied-resized size r.res r.buf (ok s).1,
        )
        refl
  delivered (Request.listxattr path size) s fit ok =
      let r : Reply = (operations (sent (Request.listxattr path size)) s).0 in
      let f = (ok s).0 in
      rw
        (
          get_u64-set_u64 fit,
          get_int-set_int r.res f.res_fits,
          copied-resized size r.res r.buf (ok s).1,
        )
        refl
  delivered (Request.removexattr path name) s fit ok =
      let r : Reply = (operations (sent (Request.removexattr path name)) s).0 in
      let f = (ok s).0 in rw (get_int-set_int r.res f.res_fits) refl
