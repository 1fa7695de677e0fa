-- ===== src/Local/Durable.antt =====
-- What the result of a write promises.
use rsafe_fs.Base.{
  ℕ, ◌<◌, ◌≡◌, refl, Bool, true, false, List, some, ℤ, pos, is_neg, arith, Bool-cases, inl, inr,
}
use rsafe_fs.Fuse.{FileInfo}
use rsafe_fs.Local.{Syscall, Result, is_failed, neg, write_at, local_write}

-- A failed call sets `errno`, which is not 0.
abbrev pub SetsErrno : {FilePath S : Type 0} → (Syscall FilePath → S → Result × S) → Type 0
SetsErrno {FilePath} {S} sys =
    (call : Syscall FilePath) (s : S)
    → is_failed (sys call s).0.res ≡ true
    → 0 < (sys call s).0.errno

pub neg-is_neg : (n : ℕ) → 0 < n → is_neg (neg n) ≡ true
unfolding neg
neg-is_neg n h = ground arith

module _ {FilePath S : Type 0} (sys : Syscall FilePath → S → Result × S)
    (under : FilePath → FilePath) (is_regular is_fifo : ℕ → Bool) (sets : SetsErrno sys) where
  -- A write through a handle whose result is not negative was written and synchronised: the result
  -- is what `pwrite` gave, and neither `pwrite` nor the `fsync` behind it failed.
  pub local_write_durable :
      (path : FilePath) (bytes : List ℕ) (offset : ℤ) (fi : FileInfo) (s : S)
      → is_neg (local_write sys under is_regular is_fifo path bytes offset (some fi) s).0.res
        ≡ false
      → let reply = (local_write sys under is_regular is_fifo path bytes offset (some fi) s).0 in
        let (w, s₁) = sys (Syscall.pwrite (pos fi.fh) bytes offset) s in
        let f = (sys (Syscall.fsync (pos fi.fh)) s₁).0 in
        (reply.res ≡ w.res) × (is_failed w.res ≡ false) × (is_failed f.res ≡ false)
  unfolding local_write write_at
  local_write_durable path bytes offset fi s h =
      let (w, s₁) = sys (Syscall.pwrite (pos fi.fh) bytes offset) s in
      let f = (sys (Syscall.fsync (pos fi.fh)) s₁).0 in
      elim (Bool-cases (is_failed f.res)) [
        | inl lost ↦
            let e = neg-is_neg f.errno (sets (Syscall.fsync (pos fi.fh)) s₁ lost) in
            absurd (ground arith)
        | inr synced ↦ elim (Bool-cases (is_failed w.res)) [
          | inl unwritten ↦
              let e =
                neg-is_neg w.errno (sets (Syscall.pwrite (pos fi.fh) bytes offset) s unwritten) in
              absurd (ground arith)
          | inr written ↦ (rw (synced, written) refl, written, synced)
        ]
      ]
