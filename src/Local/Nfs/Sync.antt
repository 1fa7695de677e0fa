-- ===== src/Local/Nfs/Sync.antt =====
-- What the results of the operations that change the tree promise
-- (lib/layers/local/nfs_operations.cpp).
use rsafe_fs.Base.{
  ℕ, ◌≡◌, refl, Bool, false, List, [], ◌∷◌, is_neg, subst, arith, Bool-cases, inl, inr,
}
use rsafe_fs.Local.{Syscall, Result, is_failed}
use rsafe_fs.Local.Durable.{SetsErrno, neg-is_neg}
use rsafe_fs.Local.Nfs.{sync_path, sync_all, change, nfs_rename}

module _ {FilePath S : Type 0} (sys : Syscall FilePath → S → Result × S)
    (under parent : FilePath → FilePath) (is_fifo has_direct : ℕ → Bool)
    (clear_direct : ℕ → ℕ) where
  -- From the first state to the second, each path in turn was opened, synchronised and closed, by
  -- three system calls that did not fail, and no other was made.
  unfoldable pub Synced : List FilePath → S → S → Type 0
  Synced [] s end = s ≡ end
  Synced (p ∷ ps) s end =
      let (fd, s₁) = sys (Syscall.open_read_only p) s in
      let (f, s₂) = sys (Syscall.fsync fd.res) s₁ in
      let (c, s₃) = sys (Syscall.close fd.res) s₂ in
      (is_failed fd.res ≡ false)
      × (is_failed f.res ≡ false)
      × (is_failed c.res ≡ false)
      × Synced ps s₃ end

  -- What a result of `sync_path` that is not negative stands for.
  sync_path_calls :
      (p : FilePath) (s : S)
      → SetsErrno sys
      → is_neg (sync_path sys under parent is_fifo has_direct clear_direct p s).0 ≡ false
      → let (fd, s₁) = sys (Syscall.open_read_only p) s in
        let (f, s₂) = sys (Syscall.fsync fd.res) s₁ in
        let (c, s₃) = sys (Syscall.close fd.res) s₂ in
        (is_failed fd.res ≡ false)
        × (is_failed f.res ≡ false)
        × (is_failed c.res ≡ false)
        × ((sync_path sys under parent is_fifo has_direct clear_direct p s).1 ≡ s₃)
  unfolding sync_path
  sync_path_calls p s sets h =
      let (fd, s₁) = sys (Syscall.open_read_only p) s in
      let (f, s₂) = sys (Syscall.fsync fd.res) s₁ in
      let (c, s₃) = sys (Syscall.close fd.res) s₂ in
      elim (Bool-cases (is_failed fd.res)) [
        | inl bad ↦
            let e = neg-is_neg fd.errno (sets (Syscall.open_read_only p) s bad) in
            absurd (ground arith)
        | inr opened ↦ elim (Bool-cases (is_failed f.res)) [
          | inl bad ↦
              let e = neg-is_neg f.errno (sets (Syscall.fsync fd.res) s₁ bad) in
              absurd (ground arith)
          | inr synced ↦ elim (Bool-cases (is_failed c.res)) [
            | inl bad ↦
                let e = neg-is_neg c.errno (sets (Syscall.close fd.res) s₂ bad) in
                absurd (ground arith)
            | inr closed ↦ (opened, synced, closed, ground arith)
          ]
        ]
      ]

  sync_all-Synced :
      (ps : List FilePath) (s : S)
      → SetsErrno sys
      → is_neg (sync_all sys under parent is_fifo has_direct clear_direct ps s).0 ≡ false
      → Synced ps s (sync_all sys under parent is_fifo has_direct clear_direct ps s).1
  unfolding sync_all Synced
  sync_all-Synced [] s sets h = refl
  sync_all-Synced (p ∷ ps) s sets h =
      let (r, s') = sync_path sys under parent is_fifo has_direct clear_direct p s in
      elim (Bool-cases (is_neg r)) [
        | inl bad ↦ absurd (ground arith)
        | inr good ↦
            let (opened, synced, closed, same) = sync_path_calls p s sets good in
            rw (good) (
              opened,
              synced,
              closed,
              subst
                  (λ u.
                    Synced ps u (sync_all sys under parent is_fifo has_direct clear_direct ps s').1)
                  same (sync_all-Synced ps s' sets (ground arith)),
            )
      ]

  -- A rename whose result is not negative was made by a call that did not fail, and behind it the new
  -- path, the parent of the old one and the parent of the new one were each opened, synchronised and
  -- closed, in this order, by calls that did not fail, and no other call was made: provided that a call
  -- that fails sets `errno`.
  pub nfs_rename-Synced :
      (from to : FilePath) (s : S)
      → SetsErrno sys
      → is_neg (nfs_rename sys under parent is_fifo has_direct clear_direct from to s).0.res ≡ false
      → let (r, s') = sys (Syscall.rename (under from) (under to)) s in
        (is_failed r.res ≡ false)
        × Synced
            (under to ∷ parent (under from) ∷ parent (under to) ∷ [])
            s'
            (nfs_rename sys under parent is_fifo has_direct clear_direct from to s).1
  unfolding nfs_rename change
  nfs_rename-Synced from to s sets h =
      let call : Syscall FilePath = Syscall.rename (under from) (under to) in
      let (r, s') = sys call s in
      elim (Bool-cases (is_failed r.res)) [
        | inl bad ↦ let e = neg-is_neg r.errno (sets call s bad) in absurd (ground arith)
        | inr good ↦
            let paths = under to ∷ parent (under from) ∷ parent (under to) ∷ [] in
            (good, rw good (sync_all-Synced paths s' sets (ground arith)))
      ]
