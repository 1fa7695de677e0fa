-- ===== src/Local/Nfs.antt =====
-- The operations of lib/layers/local/nfs_operations.cpp over the system calls of the local layer; the
-- directory streams are in `Dir` of the local layer. `under` is `root_path + path`, `parent` is `parent_path`;
-- `has_direct` and `clear_direct` test and clear `O_DIRECT`.
pub mod Descriptors
pub mod Sync
use rsafe_fs.Base.{
  ℕ, ◌-◌, Bool, true, false, List, [], ◌∷◌, ℤ, pos, negsuc, is_neg, is_zero, not, ◌&&◌,
  if◌then◌else◌, ◌==◌,
}
use rsafe_fs.Fuse.{Timespec, FileInfo, Reply, ok_reply}
use rsafe_fs.Local.{Syscall, Result, is_failed, neg, local_readlink}

module _ {FilePath S : Type 0} (sys : Syscall FilePath → S → Result × S)
    (under parent : FilePath → FilePath) (is_fifo has_direct : ℕ → Bool)
    (clear_direct : ℕ → ℕ) where
  -- The result of `close` counts only where the `fsync` before it did not fail.
  unfoldable pub sync_path : FilePath → S → ℤ × S
  sync_path path s =
      let (fd, s₁) = sys (Syscall.open_read_only path) s in
      let (f, s₂) = sys (Syscall.fsync fd.res) s₁ in
      let (c, s₃) = sys (Syscall.close fd.res) s₂ in
      if is_failed fd.res
      then (neg fd.errno, s₁)
      else if is_failed f.res
      then (neg f.errno, s₃)
      else (if is_failed c.res then neg c.errno else pos 0, s₃)

  -- the calls of `sync_path`, one behind the other, up to the first that fails
  unfoldable pub sync_all : List FilePath → S → ℤ × S
  sync_all [] s = (pos 0, s)
  sync_all (p ∷ ps) s =
      let (r, s') = sync_path p s in let rest = sync_all ps s' in if is_neg r then (r, s') else rest

  -- a call that changes the tree, and what is synchronised behind it
  unfoldable pub change : Syscall FilePath → List FilePath → S → Reply × S
  change call paths s =
      let (r, s₁) = sys call s in
      let (res, s₂) = sync_all paths s₁ in
      if is_failed r.res
      then (record ok_reply { res = neg r.errno }, s₁)
      else (record ok_reply { res = res }, s₂)

  -- `(call == 0) ? 0 : -errno`
  unfoldable pub checked : Syscall FilePath → S → Reply × S
  checked call s =
      let (r, s') = sys call s in
      (record ok_reply { res = if is_zero r.res then pos 0 else neg r.errno; stbuf = r.stbuf }, s')

  unfoldable pub nfs_getattr : FilePath → S → Reply × S
  nfs_getattr path = checked (Syscall.lstat (under path))

  unfoldable pub nfs_fgetattr : FilePath → FileInfo → S → Reply × S
  nfs_fgetattr path fi = checked (Syscall.fstat (pos fi.fh))

  unfoldable pub nfs_access : FilePath → ℕ → S → Reply × S
  nfs_access path mask = checked (Syscall.access (under path) mask)

  unfoldable pub nfs_readlink : FilePath → ℕ → S → Reply × S
  nfs_readlink path size s =
      let (r, s') = sys (Syscall.readlink (under path) (size - 1)) s in
      if is_failed r.res
      then (record ok_reply { res = neg r.errno }, s')
      else (record ok_reply { buf = r.buf }, s')

  unfoldable pub nfs_mknod : FilePath → ℕ → ℕ → S → Reply × S
  nfs_mknod path mode rdev =
      change
        (if is_fifo mode
          then Syscall.mkfifo (under path) mode
          else Syscall.mknod (under path) mode rdev)
        (parent (under path) ∷ [])

  unfoldable pub nfs_mkdir : FilePath → ℕ → S → Reply × S
  nfs_mkdir path mode =
      change (Syscall.mkdir (under path) mode) (under path ∷ parent (under path) ∷ [])

  unfoldable pub nfs_unlink : FilePath → S → Reply × S
  nfs_unlink path = change (Syscall.unlink (under path)) (parent (under path) ∷ [])

  unfoldable pub nfs_rmdir : FilePath → S → Reply × S
  nfs_rmdir path = change (Syscall.rmdir (under path)) (parent (under path) ∷ [])

  unfoldable pub nfs_symlink : FilePath → FilePath → S → Reply × S
  nfs_symlink from to = change (Syscall.symlink (under from) (under to)) (parent (under to) ∷ [])

  unfoldable pub nfs_rename : FilePath → FilePath → S → Reply × S
  nfs_rename from to =
      change (Syscall.rename (under from) (under to))
        (under to ∷ parent (under from) ∷ parent (under to) ∷ [])

  unfoldable pub nfs_link : FilePath → FilePath → S → Reply × S
  nfs_link from to =
      change (Syscall.link (under from) (under to))
        (under from ∷ under to ∷ parent (under from) ∷ parent (under to) ∷ [])

  unfoldable pub nfs_chmod : FilePath → ℕ → S → Reply × S
  nfs_chmod path mode = checked (Syscall.chmod (under path) mode)

  unfoldable pub nfs_chown : FilePath → ℕ → ℕ → S → Reply × S
  nfs_chown path uid gid = checked (Syscall.lchown (under path) uid gid)

  unfoldable pub nfs_truncate : FilePath → ℤ → S → Reply × S
  nfs_truncate path size = checked (Syscall.truncate (under path) size)

  unfoldable pub nfs_ftruncate : FilePath → ℤ → FileInfo → S → Reply × S
  nfs_ftruncate path size fi = checked (Syscall.ftruncate (pos fi.fh) size)

  -- the first argument is `AT_FDCWD`, -100
  unfoldable pub nfs_utimens : FilePath → Timespec → Timespec → S → Reply × S
  nfs_utimens path atime mtime = checked (Syscall.utimensat (negsuc 99) (under path) atime mtime)

  unfoldable pub nfs_statfs : FilePath → S → Reply × S
  nfs_statfs path s =
      let (r, s') = sys (Syscall.statvfs (under path)) s in
      (record ok_reply { res = if is_zero r.res then pos 0 else neg r.errno; vfs = r.vfs }, s')

  -- the block on `O_DIRECT`
  unfoldable pub without_direct : FileInfo → FileInfo
  without_direct fi =
      if has_direct fi.flags then record fi { flags = clear_direct fi.flags; direct_io = 1 } else fi

  abbrev handle_of : ℤ → ℕ
  handle_of (pos n) = n
  handle_of (negsuc n) = n

  -- Where the descriptor is not stored, it stays open.
  unfoldable pub nfs_create : FilePath → ℕ → FileInfo → S → Reply × S
  nfs_create path mode fi₀ s =
      let fi = without_direct fi₀ in
      let (fd, s₁) = sys (Syscall.open_create (under path) fi.flags mode) s in
      let (f, s₂) = sys (Syscall.fsync fd.res) s₁ in
      let (r, s₃) = sync_path (parent (under path)) s₂ in
      if is_failed fd.res
      then (record ok_reply { res = neg fd.errno; info = fi }, s₁)
      else if is_failed f.res
      then (record ok_reply { res = neg f.errno; info = fi }, s₂)
      else if is_neg r
      then (record ok_reply { res = r; info = fi }, s₃)
      else (record ok_reply { info = record fi { fh = handle_of fd.res } }, s₃)

  unfoldable pub nfs_open : FilePath → FileInfo → S → Reply × S
  nfs_open path fi₀ s =
      let fi = without_direct fi₀ in
      let (fd, s') = sys (Syscall.open_flags (under path) fi.flags) s in
      if is_failed fd.res
      then (record ok_reply { res = neg fd.errno; info = fi }, s')
      else (record ok_reply { info = record fi { fh = handle_of fd.res } }, s')

  unfoldable pub nfs_read : FilePath → ℕ → ℤ → FileInfo → S → Reply × S
  nfs_read path size offset fi s =
      let (r, s') = sys (Syscall.pread (pos fi.fh) size offset) s in
      (record ok_reply { res = if is_failed r.res then neg r.errno else r.res; buf = r.buf }, s')

  -- `fi->flush` is the stable flag of the request.
  unfoldable pub nfs_write : FilePath → List ℕ → ℤ → FileInfo → S → Reply × S
  nfs_write path bytes offset fi s =
      let (w, s₁) = sys (Syscall.pwrite (pos fi.fh) bytes offset) s in
      let (f, s₂) = sys (Syscall.fsync (pos fi.fh)) s₁ in
      if is_failed w.res
      then (record ok_reply { res = neg w.errno }, s₁)
      else if fi.flush == 0
      then (record ok_reply { res = w.res }, s₁)
      else (record ok_reply { res = if is_failed f.res then neg f.errno else w.res }, s₂)

  unfoldable pub nfs_flush : FilePath → FileInfo → S → Reply × S
  nfs_flush path fi = checked (Syscall.fsync (pos fi.fh))

  unfoldable pub nfs_release : FilePath → FileInfo → S → Reply × S
  nfs_release path fi = checked (Syscall.close (pos fi.fh))

  unfoldable pub nfs_fsync : FilePath → ℤ → FileInfo → S → Reply × S
  nfs_fsync path isdatasync fi =
      checked
        (if is_zero isdatasync then Syscall.fsync (pos fi.fh) else Syscall.fdatasync (pos fi.fh))
