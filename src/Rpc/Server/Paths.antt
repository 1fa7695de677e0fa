-- ===== src/Rpc/Server/Paths.antt =====
-- The case PROCESS of the calls on names (lib/fuse_rpc/grpc/server.cpp): from the fields of a request to
-- those of the reply.
use rsafe_fs.Base.{map}
use rsafe_fs.Fuse.{Request, Layer}
use rsafe_fs.Messages.{
  Int32, Uint32, Uint64, Int64, StructTimespec, StructFuseFileInfo, get_i32, get_u32, get_u64,
  set_int, to_off, fill_struct_timespec, fill_fuse_file_info, fill_struct_file_info_message,
  fill_struct_stat_message, fill_struct_dir_entry_info,
}
use rsafe_fs.Rpc.Answers.{Answer, empty_answer, resized}

module _ {FilePath S : Type 0} (operations : Layer FilePath S) where
  unfoldable pub getattr_data : FilePath → S → Answer × S
  getattr_data path s =
      let (r, s') = operations (Request.getattr path) s in
      (record empty_answer { stbuf = fill_struct_stat_message r.stbuf; result = set_int r.res }, s')

  unfoldable pub fgetattr_data : FilePath → StructFuseFileInfo → S → Answer × S
  fgetattr_data path fi s =
      let (r, s') = operations (Request.fgetattr path (fill_fuse_file_info fi)) s in
      (
        record empty_answer {
          stbuf = fill_struct_stat_message r.stbuf;
          info = fill_struct_file_info_message r.info;
          result = set_int r.res;
        },
        s',
      )

  unfoldable pub access_data : FilePath → Int32 → S → Answer × S
  access_data path mask s =
      let (r, s') = operations (Request.access path (get_i32 mask)) s in
      (record empty_answer { result = set_int r.res }, s')

  unfoldable pub readlink_data : FilePath → Uint64 → S → Answer × S
  readlink_data path size s =
      let (r, s') = operations (Request.readlink path (get_u64 size)) s in
      (record empty_answer { buf = resized (get_u64 size) r.buf; result = set_int r.res }, s')

  unfoldable pub opendir_data : FilePath → StructFuseFileInfo → S → Answer × S
  opendir_data path fi s =
      let (r, s') = operations (Request.opendir path (fill_fuse_file_info fi)) s in
      (
        record empty_answer { info = fill_struct_file_info_message r.info; result = set_int r.res },
        s',
      )

  unfoldable pub readdir_data : FilePath → Uint64 → StructFuseFileInfo → S → Answer × S
  readdir_data path offset fi s =
      let (r, s') =
        operations (Request.readdir path (to_off (get_u64 offset)) (fill_fuse_file_info fi)) s in
      (
        record empty_answer {
          entries = map fill_struct_dir_entry_info r.entries;
          info = fill_struct_file_info_message r.info;
          result = set_int r.res;
        },
        s',
      )

  unfoldable pub releasedir_data : FilePath → StructFuseFileInfo → S → Answer × S
  releasedir_data path fi s =
      let (r, s') = operations (Request.releasedir path (fill_fuse_file_info fi)) s in
      (
        record empty_answer { info = fill_struct_file_info_message r.info; result = set_int r.res },
        s',
      )

  unfoldable pub mknod_data : FilePath → Uint32 → Int64 → S → Answer × S
  mknod_data path mode rdev s =
      let (r, s') = operations (Request.mknod path (get_u32 mode) rdev.bits) s in
      (record empty_answer { result = set_int r.res }, s')

  unfoldable pub mkdir_data : FilePath → Uint32 → S → Answer × S
  mkdir_data path mode s =
      let (r, s') = operations (Request.mkdir path (get_u32 mode)) s in
      (record empty_answer { result = set_int r.res }, s')

  unfoldable pub symlink_data : FilePath → FilePath → S → Answer × S
  symlink_data from to s =
      let (r, s') = operations (Request.symlink from to) s in
      (record empty_answer { result = set_int r.res }, s')

  unfoldable pub unlink_data : FilePath → S → Answer × S
  unlink_data path s =
      let (r, s') = operations (Request.unlink path) s in
      (record empty_answer { result = set_int r.res }, s')

  unfoldable pub rmdir_data : FilePath → S → Answer × S
  rmdir_data path s =
      let (r, s') = operations (Request.rmdir path) s in
      (record empty_answer { result = set_int r.res }, s')

  unfoldable pub rename_data : FilePath → FilePath → S → Answer × S
  rename_data from to s =
      let (r, s') = operations (Request.rename from to) s in
      (record empty_answer { result = set_int r.res }, s')

  unfoldable pub link_data : FilePath → FilePath → S → Answer × S
  link_data from to s =
      let (r, s') = operations (Request.link from to) s in
      (record empty_answer { result = set_int r.res }, s')

  unfoldable pub chmod_data : FilePath → Uint32 → S → Answer × S
  chmod_data path mode s =
      let (r, s') = operations (Request.chmod path (get_u32 mode)) s in
      (record empty_answer { result = set_int r.res }, s')

  unfoldable pub chown_data : FilePath → Uint32 → Uint32 → S → Answer × S
  chown_data path uid gid s =
      let (r, s') = operations (Request.chown path (get_u32 uid) (get_u32 gid)) s in
      (record empty_answer { result = set_int r.res }, s')

  unfoldable pub truncate_data : FilePath → Int64 → S → Answer × S
  truncate_data path size s =
      let (r, s') = operations (Request.truncate path (to_off size.bits)) s in
      (record empty_answer { result = set_int r.res }, s')

  unfoldable pub ftruncate_data : FilePath → Int64 → StructFuseFileInfo → S → Answer × S
  ftruncate_data path size fi s =
      let (r, s') =
        operations (Request.ftruncate path (to_off size.bits) (fill_fuse_file_info fi)) s in
      (
        record empty_answer { info = fill_struct_file_info_message r.info; result = set_int r.res },
        s',
      )

  unfoldable pub utimens_data : FilePath → StructTimespec → StructTimespec → S → Answer × S
  utimens_data path tim0 tim1 s =
      let (r, s') =
        operations (Request.utimens path (fill_struct_timespec tim0) (fill_struct_timespec tim1))
          s in
      (record empty_answer { result = set_int r.res }, s')
