-- ===== src/Local.antt =====
-- The operations of lib/layers/local/local_operations.cpp; the directory streams are in `Dir`. The
-- system is a parameter: `sys` makes a system call, on a state of its own. `under` is `root_path +
-- path`, and each operation that opens a descriptor of its own closes it. A handle is not -1,
-- which no `open` that succeeds gives, so its test in `local_read` and `local_write` is left out.
pub mod Durable
pub mod Nfs
pub mod Dir
pub mod Descriptors
use rsafe_fs.Base.{
  ℕ, suc, ◌-◌, Bool, true, false, List, [], Option, none, some, ℤ, pos, negsuc, is_neg, is_zero,
  if◌then◌else◌, ◌==◌,
}
use rsafe_fs.Fuse.{FileInfo, Timespec, Stat, Statvfs, Request, Reply, ok_reply, zero_stat}
use rsafe_fs.Fuse

-- the system calls, with their arguments; a descriptor is an integer
pub data Syscall (FilePath : Type 0) : Type 0 where
  lstat : FilePath → Syscall FilePath
  fstat : ℤ → Syscall FilePath
  dup : ℤ → Syscall FilePath
  close : ℤ → Syscall FilePath
  access : FilePath → ℕ → Syscall FilePath
  readlink : FilePath → ℕ → Syscall FilePath
  open_flags : FilePath → ℕ → Syscall FilePath
  open_create : FilePath → ℕ → ℕ → Syscall FilePath
  open_exclusive : FilePath → ℕ → Syscall FilePath
  open_read_only : FilePath → Syscall FilePath
  open_write_only : FilePath → Syscall FilePath
  mkfifo : FilePath → ℕ → Syscall FilePath
  mknod : FilePath → ℕ → ℕ → Syscall FilePath
  mkdir : FilePath → ℕ → Syscall FilePath
  unlink : FilePath → Syscall FilePath
  rmdir : FilePath → Syscall FilePath
  symlink : FilePath → FilePath → Syscall FilePath
  rename : FilePath → FilePath → Syscall FilePath
  link : FilePath → FilePath → Syscall FilePath
  chmod : FilePath → ℕ → Syscall FilePath
  lchown : FilePath → ℕ → ℕ → Syscall FilePath
  truncate : FilePath → ℤ → Syscall FilePath
  ftruncate : ℤ → ℤ → Syscall FilePath
  pread : ℤ → ℕ → ℤ → Syscall FilePath
  pwrite : ℤ → List ℕ → ℤ → Syscall FilePath
  fsync : ℤ → Syscall FilePath
  fdatasync : ℤ → Syscall FilePath
  utime : FilePath → ℕ → ℕ → Syscall FilePath
  utimensat : ℤ → FilePath → Timespec → Timespec → Syscall FilePath
  statvfs : FilePath → Syscall FilePath

-- What a system call gives: its result, `errno`, and what it wrote through its pointers.
pub record Result : Type 0 where
  pub res : ℤ
  pub errno : ℕ
  pub stbuf : Stat
  pub buf : List ℕ
  pub vfs : Statvfs

-- `res == -1`
unfoldable pub is_failed : ℤ → Bool
is_failed (pos n) = false
is_failed (negsuc n) = n == 0

-- `-errno`
unfoldable pub neg : ℕ → ℤ
neg n = if n == 0 then pos 0 else negsuc (n - 1)

module _ {FilePath S : Type 0} (sys : Syscall FilePath → S → Result × S)
    (under : FilePath → FilePath) (is_regular is_fifo : ℕ → Bool) where
  -- the frame of most operations: one call, `-errno` if it fails, and 0
  unfoldable pub single : Syscall FilePath → S → Reply × S
  single call s =
      let (r, s') = sys call s in
      (record ok_reply { res = if is_failed r.res then neg r.errno else pos 0 }, s')

  unfoldable pub local_getattr : FilePath → S → Reply × S
  local_getattr path s =
      let (r, s') = sys (lstat (under path)) s in
      (
        record ok_reply { res = if is_failed r.res then neg r.errno else pos 0; stbuf = r.stbuf },
        s',
      )

  -- `st_blksize` is set to 0 behind the call.
  unfoldable pub local_fgetattr : FilePath → FileInfo → S → Reply × S
  local_fgetattr path fi s =
      let (r, s') = sys (fstat (pos fi.fh)) s in
      (
        record ok_reply {
          res = if is_failed r.res then neg r.errno else pos 0;
          stbuf = record r.stbuf { blksize = 0 };
        },
        s',
      )

  unfoldable pub local_flush : FilePath → FileInfo → S → Reply × S
  local_flush path fi s = let (d, s') = sys (dup (pos fi.fh)) s in single (close d.res) s'

  unfoldable pub local_access : FilePath → ℕ → S → Reply × S
  local_access path mask = single (access (under path) mask)

  unfoldable pub local_readlink : FilePath → ℕ → S → Reply × S
  local_readlink path size s =
      let (r, s') = sys (readlink (under path) (size - 1)) s in
      if is_failed r.res
      then (record ok_reply { res = neg r.errno }, s')
      else (record ok_reply { buf = r.buf }, s')

  unfoldable pub local_mknod : FilePath → ℕ → ℕ → S → Reply × S
  local_mknod path mode rdev s =
      if is_regular mode
      then (let (fd, s₁) = sys (open_exclusive (under path) mode) s in
          if is_neg fd.res
          then (record ok_reply { res = if is_failed fd.res then neg fd.errno else pos 0 }, s₁)
          else single (close fd.res) s₁)
      else if is_fifo mode
      then single (mkfifo (under path) mode) s
      else single (mknod (under path) mode rdev) s

  unfoldable pub local_mkdir : FilePath → ℕ → S → Reply × S
  local_mkdir path mode = single (mkdir (under path) mode)

  unfoldable pub local_unlink : FilePath → S → Reply × S
  local_unlink path = single (unlink (under path))

  unfoldable pub local_rmdir : FilePath → S → Reply × S
  local_rmdir path = single (rmdir (under path))

  -- Both names are taken under the root, the target of the link too.
  unfoldable pub local_symlink : FilePath → FilePath → S → Reply × S
  local_symlink from to = single (symlink (under from) (under to))

  unfoldable pub local_rename : FilePath → FilePath → S → Reply × S
  local_rename from to = single (rename (under from) (under to))

  unfoldable pub local_link : FilePath → FilePath → S → Reply × S
  local_link from to = single (link (under from) (under to))

  unfoldable pub local_chmod : FilePath → ℕ → S → Reply × S
  local_chmod path mode = single (chmod (under path) mode)

  unfoldable pub local_chown : FilePath → ℕ → ℕ → S → Reply × S
  local_chown path uid gid = single (lchown (under path) uid gid)

  -- Without a handle, by the path.
  unfoldable pub local_ftruncate : FilePath → ℤ → Option FileInfo → S → Reply × S
  local_ftruncate path size (some fi) = single (ftruncate (pos fi.fh) size)
  local_ftruncate path size none = single (truncate (under path) size)

  unfoldable pub local_truncate : FilePath → ℤ → S → Reply × S
  local_truncate path size = single (truncate (under path) size)

  -- the two times of `struct utimbuf`
  unfoldable pub local_utime : FilePath → ℕ → ℕ → S → Reply × S
  local_utime path actime modtime = single (utime (under path) actime modtime)

  -- The first argument is the descriptor 0, not `AT_FDCWD`.
  unfoldable pub local_utimens : FilePath → Timespec → Timespec → S → Reply × S
  local_utimens path atime mtime = single (utimensat (pos 0) (under path) atime mtime)

  unfoldable pub local_statfs : FilePath → S → Reply × S
  local_statfs path s =
      let (r, s') = sys (statvfs (under path)) s in
      (record ok_reply { res = if is_failed r.res then neg r.errno else pos 0; vfs = r.vfs }, s')

  -- the descriptor, in `fi->fh`
  unfoldable pub opened : FileInfo → Result × S → Reply × S
  opened fi (r, s) =
      if is_failed r.res then (record ok_reply { res = neg r.errno; info = fi }, s) else (
        record ok_reply { info = record fi { fh = elim r.res [ pos n ↦ n | negsuc n ↦ n ] } },
        s,
      )

  unfoldable pub local_create : FilePath → ℕ → FileInfo → S → Reply × S
  local_create path mode fi s = opened fi (sys (open_create (under path) fi.flags mode) s)

  unfoldable pub local_open : FilePath → FileInfo → S → Reply × S
  local_open path fi s = opened fi (sys (open_flags (under path) fi.flags) s)

  -- `pread`, and what the result is
  unfoldable pub read_at : ℤ → ℕ → ℤ → S → Reply × S
  read_at fd size offset s =
      let (r, s') = sys (pread fd size offset) s in
      (record ok_reply { res = if is_failed r.res then neg r.errno else r.res; buf = r.buf }, s')

  unfoldable pub local_read : FilePath → ℕ → ℤ → Option FileInfo → S → Reply × S
  local_read path size offset (some fi) s = read_at (pos fi.fh) size offset s
  local_read path size offset none s =
      let (fd, s₁) = sys (open_read_only (under path)) s in
      let (r, s₂) = read_at fd.res size offset s₁ in
      let (c, s₃) = sys (close fd.res) s₂ in
      if is_failed fd.res then (record ok_reply { res = neg fd.errno }, s₁) else (r, s₃)

  -- `pwrite`, then `fsync`, whose failure is the result
  unfoldable pub write_at : ℤ → List ℕ → ℤ → S → Reply × S
  write_at fd bytes offset s =
      let (w, s₁) = sys (pwrite fd bytes offset) s in
      let (f, s₂) = sys (fsync fd) s₁ in
      let res = if is_failed w.res then neg w.errno else w.res in
      (record ok_reply { res = if is_failed f.res then neg f.errno else res }, s₂)

  unfoldable pub local_write : FilePath → List ℕ → ℤ → Option FileInfo → S → Reply × S
  local_write path bytes offset (some fi) s = write_at (pos fi.fh) bytes offset s
  local_write path bytes offset none s =
      let (fd, s₁) = sys (open_write_only (under path)) s in
      let (r, s₂) = write_at fd.res bytes offset s₁ in
      let (c, s₃) = sys (close fd.res) s₂ in
      if is_failed fd.res then (record ok_reply { res = neg fd.errno }, s₁) else (r, s₃)

  -- The results of these two are not looked at.
  unfoldable pub local_release : FilePath → FileInfo → S → Reply × S
  local_release path fi s = let (r, s') = sys (close (pos fi.fh)) s in (ok_reply, s')

  unfoldable pub local_fsync : FilePath → ℤ → FileInfo → S → Reply × S
  local_fsync path isdatasync fi s = let (r, s') = sys (fsync (pos fi.fh)) s in (ok_reply, s')
