-- ===== src/Local/Nfs/Descriptors.antt =====
-- The descriptors that the operations of lib/layers/local/nfs_operations.cpp leave open.
use rsafe_fs.Base.{ℕ, ◌≡◌, refl, ◌∙◌, Bool, ◌||◌, ℤ, is_neg, Bool-cases, inl, inr}
use rsafe_fs.Fuse.{FileInfo}
use rsafe_fs.Local.{Syscall, Result, is_failed}
use rsafe_fs.Local.Descriptors.{
  names, is_open_call, is_close_call, HasTable, names-is_failed, bracket, unopened,
}
use rsafe_fs.Local.Nfs.{sync_path, nfs_create, without_direct}

module _ {FilePath S : Type 0} (sys : Syscall FilePath → S → Result × S) (is_open : S → ℕ → Bool)
    (t : HasTable sys is_open) (under parent : FilePath → FilePath) (is_fifo has_direct : ℕ → Bool)
    (clear_direct : ℕ → ℕ) where
  fsync-is_open : (fd : ℤ) (s : S) (x : ℕ) → is_open (sys (Syscall.fsync fd) s).1 x ≡ is_open s x
  unfolding is_open_call is_close_call
  fsync-is_open fd s x = t.keeps (Syscall.fsync fd) s x refl refl

  -- `sync_path` leaves the table of descriptors as it was, whether its open, its fsync or its close
  -- fails: the descriptor that it opened is closed.
  pub sync_path-is_open :
      (path : FilePath) (s : S) (x : ℕ)
      → is_open (sync_path sys under parent is_fifo has_direct clear_direct path s).1 x
        ≡ is_open s x
  unfolding sync_path is_open_call
  sync_path-is_open path s x =
      let call : Syscall FilePath = Syscall.open_read_only path in
      let (fd, s₁) = sys call s in
      let (f, s₂) = sys (Syscall.fsync fd.res) s₁ in
      let closed = bracket sys is_open t call s s₂ x refl (fsync-is_open fd.res s₁ x) in
      elim (Bool-cases (is_failed fd.res)) [
        | inl bad ↦
            rw (sync_path, bad)
              (unopened sys is_open t call s x refl (names-is_failed fd.res x bad))
        | inr good ↦ elim (Bool-cases (is_failed f.res)) [
          | inl bad ↦ rw (sync_path, good, bad) closed
          | inr fine ↦ rw (sync_path, good, fine) closed
        ]
      ]

  -- A create of the nfs mode leaves the descriptor that its open gave in the table on every branch, the
  -- ones with an error behind the open too, and changes nothing else: the parent's is closed.
  pub nfs_create-is_open :
      (path : FilePath) (mode : ℕ) (fi : FileInfo) (s : S) (x : ℕ)
      → let flags = (without_direct sys under parent is_fifo has_direct clear_direct fi).flags in
        let (fd, s₁) = sys (Syscall.open_create (under path) flags mode) s in
        is_open (nfs_create sys under parent is_fifo has_direct clear_direct path mode fi s).1 x
        ≡ (names fd.res x || is_open s x)
  unfolding nfs_create is_open_call
  nfs_create-is_open path mode fi s x =
      let flags = (without_direct sys under parent is_fifo has_direct clear_direct fi).flags in
      let call : Syscall FilePath = Syscall.open_create (under path) flags mode in
      let (fd, s₁) = sys call s in
      let (f, s₂) = sys (Syscall.fsync fd.res) s₁ in
      let (r, s₃) =
        sync_path sys under parent is_fifo has_direct clear_direct (parent (under path)) s₂ in
      let opened = t.opens call s x refl in
      let synced = fsync-is_open fd.res s₁ x ∙ opened in
      let ended = sync_path-is_open (parent (under path)) s₂ x ∙ synced in
      elim (Bool-cases (is_failed fd.res)) [
        | inl bad ↦ rw (nfs_create, bad) opened
        | inr good ↦ elim (Bool-cases (is_failed f.res)) [
          | inl bad ↦ rw (nfs_create, good, bad) synced
          | inr fine ↦ elim (Bool-cases (is_neg r)) [
            | inl bad ↦ rw (nfs_create, good, fine, bad) ended
            | inr done ↦ rw (nfs_create, good, fine, done) ended
          ]
        ]
      ]
