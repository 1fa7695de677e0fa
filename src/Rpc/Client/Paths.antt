-- ===== src/Rpc/Client/Paths.antt =====
-- The operations on names of the synchronous client (lib/fuse_rpc/grpc/sync_client.cpp).
use rsafe_fs.Base.{ℕ, ℤ, negsuc, take, Bool, none, some}
use rsafe_fs.Fuse.{Timespec, FileInfo, DirEntry, Reply, ok_reply}
use rsafe_fs.Messages.{
  set_i32, set_u32, set_u64, get_int, set_i64, set_dev, of_off, fill_struct_timespec_message,
  fill_struct_file_info_message, fill_fuse_file_info, fill_struct_stat,
}
use rsafe_fs.Rpc.Answers.{Call, Network}
use rsafe_fs.Rpc.Client.{failed, fill_entries, State, unary}

module _ {FilePath N : Type 0} (dec : Discrete FilePath) (net : Network FilePath N) where
  unfoldable pub getattr : FilePath → State FilePath N → Reply × State FilePath N
  getattr path =
      unary dec net (Call.getattr path) failed
        (λ a. record ok_reply { stbuf = fill_struct_stat a.stbuf; res = get_int a.result })

  unfoldable pub fgetattr : FilePath → FileInfo → State FilePath N → Reply × State FilePath N
  fgetattr path fi =
      unary dec net (Call.fgetattr path (fill_struct_file_info_message fi))
        (record failed { info = fi })
        (λ a. record ok_reply {
          stbuf = fill_struct_stat a.stbuf;
          info = fill_fuse_file_info a.info;
          res = get_int a.result;
        })

  unfoldable pub access : FilePath → ℕ → State FilePath N → Reply × State FilePath N
  access path mask =
      unary dec net (Call.access path (set_i32 mask)) failed
        (λ a. record ok_reply { res = get_int a.result })

  unfoldable pub readlink : FilePath → ℕ → State FilePath N → Reply × State FilePath N
  readlink path size =
      unary dec net (Call.readlink path (set_u64 size)) failed
        (λ a. record ok_reply { buf = take size a.buf; res = get_int a.result })

  unfoldable pub opendir : FilePath → FileInfo → State FilePath N → Reply × State FilePath N
  opendir path fi =
      unary dec net (Call.opendir path (fill_struct_file_info_message fi))
        (record failed { info = fi })
        (λ a. record ok_reply { info = fill_fuse_file_info a.info; res = get_int a.result })

  -- `readdir` with its filler; `buf` is what the filler fills.
  unfoldable pub readdir :
      {B : Type 0}
      → (DirEntry → B → Bool × B)
      → B
      → FilePath
      → ℤ
      → FileInfo
      → State FilePath N
      → (ℤ × FileInfo × B) × State FilePath N
  readdir filler buf path offset fi (c, n) =
      let request =
        Call.readdir path (set_u64 (of_off offset)) (fill_struct_file_info_message fi) in
      let (answer, n') = net.unary request n in
      elim answer [
        | none ↦ ((negsuc 0, fi, buf), (c, n'))
        | some a ↦ (
          (get_int a.result, fill_fuse_file_info a.info, fill_entries filler a.entries buf),
          (c, n'),
        )
      ]

  unfoldable pub releasedir : FilePath → FileInfo → State FilePath N → Reply × State FilePath N
  releasedir path fi =
      unary dec net (Call.releasedir path (fill_struct_file_info_message fi))
        (record failed { info = fi })
        (λ a. record ok_reply { info = fill_fuse_file_info a.info; res = get_int a.result })

  unfoldable pub mknod : FilePath → ℕ → ℕ → State FilePath N → Reply × State FilePath N
  mknod path mode rdev =
      unary dec net (Call.mknod path (set_u32 mode) (set_dev rdev)) failed
        (λ a. record ok_reply { res = get_int a.result })

  unfoldable pub mkdir : FilePath → ℕ → State FilePath N → Reply × State FilePath N
  mkdir path mode =
      unary dec net (Call.mkdir path (set_u32 mode)) failed
        (λ a. record ok_reply { res = get_int a.result })

  unfoldable pub symlink : FilePath → FilePath → State FilePath N → Reply × State FilePath N
  symlink from to =
      unary dec net (Call.symlink from to) failed (λ a. record ok_reply { res = get_int a.result })

  unfoldable pub unlink : FilePath → State FilePath N → Reply × State FilePath N
  unlink path =
      unary dec net (Call.unlink path) failed (λ a. record ok_reply { res = get_int a.result })

  unfoldable pub rmdir : FilePath → State FilePath N → Reply × State FilePath N
  rmdir path =
      unary dec net (Call.rmdir path) failed (λ a. record ok_reply { res = get_int a.result })

  unfoldable pub rename : FilePath → FilePath → State FilePath N → Reply × State FilePath N
  rename from to =
      unary dec net (Call.rename from to) failed (λ a. record ok_reply { res = get_int a.result })

  unfoldable pub link : FilePath → FilePath → State FilePath N → Reply × State FilePath N
  link from to =
      unary dec net (Call.link from to) failed (λ a. record ok_reply { res = get_int a.result })

  unfoldable pub chmod : FilePath → ℕ → State FilePath N → Reply × State FilePath N
  chmod path mode =
      unary dec net (Call.chmod path (set_u32 mode)) failed
        (λ a. record ok_reply { res = get_int a.result })

  unfoldable pub chown : FilePath → ℕ → ℕ → State FilePath N → Reply × State FilePath N
  chown path uid gid =
      unary dec net (Call.chown path (set_u32 uid) (set_u32 gid)) failed
        (λ a. record ok_reply { res = get_int a.result })

  unfoldable pub truncate : FilePath → ℤ → State FilePath N → Reply × State FilePath N
  truncate path size =
      unary dec net (Call.truncate path (set_i64 size)) failed
        (λ a. record ok_reply { res = get_int a.result })

  unfoldable pub ftruncate : FilePath → ℤ → FileInfo → State FilePath N → Reply × State FilePath N
  ftruncate path size fi =
      unary dec net (Call.ftruncate path (set_i64 size) (fill_struct_file_info_message fi))
        (record failed { info = fi })
        (λ a. record ok_reply { info = fill_fuse_file_info a.info; res = get_int a.result })

  unfoldable pub utimens :
      FilePath → Timespec → Timespec → State FilePath N → Reply × State FilePath N
  utimens path tim0 tim1 =
      unary dec net
        (Call.utimens path (fill_struct_timespec_message tim0) (fill_struct_timespec_message tim1))
        failed (λ a. record ok_reply { res = get_int a.result })
