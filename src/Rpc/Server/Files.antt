-- ===== src/Rpc/Server/Files.antt =====
-- The case PROCESS of the calls on open files, and of those on extended attributes
-- (lib/fuse_rpc/grpc/server.cpp).
use rsafe_fs.Base.{ℕ, List, take}
use rsafe_fs.Fuse.{Request, Layer}
use rsafe_fs.Messages.{
  Int32, Uint32, Uint64, Int64, StructFuseFileInfo, get_i32, get_u32, get_u64, set_int, get_int,
  get_i64, fill_fuse_file_info, fill_struct_file_info_message, fill_struct_statvfs_message,
}
use rsafe_fs.Rpc.Answers.{Answer, empty_answer, resized}

module _ {FilePath S : Type 0} (operations : Layer FilePath S) where
  unfoldable pub create_data : FilePath → Uint32 → StructFuseFileInfo → S → Answer × S
  create_data path mode fi s =
      let (r, s') = operations (Request.create path (get_u32 mode) (fill_fuse_file_info fi)) s in
      (
        record empty_answer { info = fill_struct_file_info_message r.info; result = set_int r.res },
        s',
      )

  unfoldable pub open_file_data : FilePath → StructFuseFileInfo → S → Answer × S
  open_file_data path fi s =
      let (r, s') = operations (Request.open_file path (fill_fuse_file_info fi)) s in
      (
        record empty_answer { info = fill_struct_file_info_message r.info; result = set_int r.res },
        s',
      )

  unfoldable pub read_data : FilePath → Uint64 → Int64 → StructFuseFileInfo → S → Answer × S
  read_data path size offset fi s =
      let (r, s') =
        operations (Request.read path (get_u64 size) (get_i64 offset) (fill_fuse_file_info fi)) s in
      (
        record empty_answer {
          buf = resized (get_u64 size) r.buf;
          info = fill_struct_file_info_message r.info;
          result = set_int r.res;
        },
        s',
      )

  unfoldable pub write_data :
      FilePath → Uint64 → Int64 → List ℕ → StructFuseFileInfo → S → Answer × S
  write_data path size offset buf fi s =
      let (r, s') =
        operations
          (Request.write path (take (get_u64 size) buf) (get_i64 offset) (fill_fuse_file_info fi))
          s in
      (
        record empty_answer { info = fill_struct_file_info_message r.info; result = set_int r.res },
        s',
      )

  unfoldable pub statfs_data : FilePath → S → Answer × S
  statfs_data path s =
      let (r, s') = operations (Request.statfs path) s in
      (record empty_answer { vfs = fill_struct_statvfs_message r.vfs; result = set_int r.res }, s')

  unfoldable pub flush_data : FilePath → StructFuseFileInfo → S → Answer × S
  flush_data path fi s =
      let (r, s') = operations (Request.flush path (fill_fuse_file_info fi)) s in
      (
        record empty_answer { info = fill_struct_file_info_message r.info; result = set_int r.res },
        s',
      )

  unfoldable pub release_data : FilePath → StructFuseFileInfo → S → Answer × S
  release_data path fi s =
      let (r, s') = operations (Request.release path (fill_fuse_file_info fi)) s in
      (
        record empty_answer { info = fill_struct_file_info_message r.info; result = set_int r.res },
        s',
      )

  unfoldable pub fsync_data : FilePath → Int32 → StructFuseFileInfo → S → Answer × S
  fsync_data path isdatasync fi s =
      let (r, s') =
        operations (Request.fsync path (get_int isdatasync) (fill_fuse_file_info fi)) s in
      (
        record empty_answer { info = fill_struct_file_info_message r.info; result = set_int r.res },
        s',
      )

  unfoldable pub fallocate_data :
      FilePath → Int32 → Int64 → Int64 → StructFuseFileInfo → S → Answer × S
  fallocate_data path mode offset len fi s =
      let (r, s') =
        operations
          (Request.fallocate path (get_i32 mode) (get_i64 offset) (get_i64 len)
            (fill_fuse_file_info fi))
          s in
      (
        record empty_answer { info = fill_struct_file_info_message r.info; result = set_int r.res },
        s',
      )

  unfoldable pub setxattr_data : FilePath → List ℕ → Uint64 → Int32 → List ℕ → S → Answer × S
  setxattr_data path name size flags value s =
      let (r, s') =
        operations (Request.setxattr path name (take (get_u64 size) value) (get_i32 flags)) s in
      (record empty_answer { result = set_int r.res }, s')

  unfoldable pub getxattr_data : FilePath → List ℕ → Uint64 → S → Answer × S
  getxattr_data path name size s =
      let (r, s') = operations (Request.getxattr path name (get_u64 size)) s in
      (record empty_answer { buf = resized (get_u64 size) r.buf; result = set_int r.res }, s')

  unfoldable pub listxattr_data : FilePath → Uint64 → S → Answer × S
  listxattr_data path size s =
      let (r, s') = operations (Request.listxattr path (get_u64 size)) s in
      (record empty_answer { buf = resized (get_u64 size) r.buf; result = set_int r.res }, s')

  unfoldable pub removexattr_data : FilePath → List ℕ → S → Answer × S
  removexattr_data path name s =
      let (r, s') = operations (Request.removexattr path name) s in
      (record empty_answer { result = set_int r.res }, s')
