-- ===== src/Tests/Nfs.antt =====
-- The operations of the nfs mode, on a system where every call succeeds.
use rsafe_fs.Base.{ℕ, ◌+◌, ◌≡◌, refl, Bool, false, [], ◌∷◌, pos, is_neg}
use rsafe_fs.Fuse.{zero_stat, zero_statvfs}
use rsafe_fs.Local.{Syscall, Result, is_failed}
use rsafe_fs.Local.Durable.{SetsErrno}
use rsafe_fs.Local.Nfs.{sync_path, sync_all, change, nfs_rename}
use rsafe_fs.Local.Nfs.Sync.{Synced, nfs_rename-Synced}

-- the state counts the calls
unfoldable system : Syscall ℕ → ℕ → Result × ℕ
system call s =
    (record { res = pos 0; errno = 0; stbuf = zero_stat; buf = []; vfs = zero_statvfs }, s + 1)

abbrev same : ℕ → ℕ
same n = n

abbrev never : ℕ → Bool
never n = false

system-SetsErrno : SetsErrno system
unfolding system is_failed
system-SetsErrno call s h = cc

renamed : is_neg (nfs_rename system same same never never same 1 2 0).0.res ≡ false
unfolding nfs_rename change sync_all sync_path system is_failed
renamed = refl

nfs_rename-Synced_example :
    let (r, s) = system (Syscall.rename 1 2) 0 in
    (is_failed r.res ≡ false)
    × Synced system same same never never same
        (2 ∷ 1 ∷ 2 ∷ [])
        s
        (nfs_rename system same same never never same 1 2 0).1
nfs_rename-Synced_example =
    nfs_rename-Synced system same same never never same 1 2 0 system-SetsErrno renamed
