-- ===== src/Local/Descriptors.antt =====
-- The descriptors that the operations of lib/layers/local/local_operations.cpp leave open.
use rsafe_fs.Base.{
  ℕ, ◌≡◌, refl, sym, ◌∙◌, ap, arith, Bool, true, false, not, ◌&&◌, ◌||◌, List, none, ℤ, pos, negsuc,
  is_neg, ◌==◌, Bool-cases, inl, inr,
}
use rsafe_fs.Local.{
  Syscall, Result, is_failed, local_read, read_at, local_write, write_at, local_mknod, single,
}

-- the result of a call is the descriptor `x`
unfoldable pub names : ℤ → ℕ → Bool
names (pos n) x = n == x
names (negsuc n) x = false

-- the calls that give a descriptor
unfoldable pub is_open_call : {FilePath : Type 0} → Syscall FilePath → Bool
is_open_call (Syscall.dup fd) = true
is_open_call (Syscall.open_flags p flags) = true
is_open_call (Syscall.open_create p flags mode) = true
is_open_call (Syscall.open_exclusive p mode) = true
is_open_call (Syscall.open_read_only p) = true
is_open_call (Syscall.open_write_only p) = true
is_open_call _ = false

unfoldable pub is_close_call : {FilePath : Type 0} → Syscall FilePath → Bool
is_close_call (Syscall.close fd) = true
is_close_call _ = false

-- The table of descriptors of a process: a new descriptor is one that is not open, `close` frees its
-- descriptor, and the other calls do not touch the table.
pub record HasTable {FilePath S : Type 0} (sys : Syscall FilePath → S → Result × S)
    (is_open : S → ℕ → Bool) : Type 0 where
  pub opens :
      (call : Syscall FilePath) (s : S) (x : ℕ)
      → is_open_call call ≡ true
      → is_open (sys call s).1 x ≡ (names (sys call s).0.res x || is_open s x)
  pub is_new :
      (call : Syscall FilePath) (s : S) (x : ℕ)
      → is_open_call call ≡ true
      → (names (sys call s).0.res x && is_open s x) ≡ false
  pub closes :
      (fd : ℤ) (s : S) (x : ℕ)
      → is_open (sys (Syscall.close fd) s).1 x ≡ (is_open s x && not (names fd x))
  pub keeps :
      (call : Syscall FilePath) (s : S) (x : ℕ)
      → is_open_call call ≡ false
      → is_close_call call ≡ false
      → is_open (sys call s).1 x ≡ is_open s x

pub names-is_failed : (r : ℤ) (x : ℕ) → is_failed r ≡ true → names r x ≡ false
unfolding names is_failed
names-is_failed (pos n) x h = absurd (ground arith)
names-is_failed (negsuc n) x h = refl

names-is_neg : (r : ℤ) (x : ℕ) → is_neg r ≡ true → names r x ≡ false
unfolding names
names-is_neg (pos n) x h = absurd (ground arith)
names-is_neg (negsuc n) x h = refl

-- a descriptor that was new, and is freed
freed : (a b : Bool) → (a && b) ≡ false → ((a || b) && not a) ≡ b
freed true true h = sym h
freed true false h = refl
freed false true h = refl
freed false false h = refl

module _ {FilePath S : Type 0} (sys : Syscall FilePath → S → Result × S) (is_open : S → ℕ → Bool)
    (t : HasTable sys is_open) where
  -- opened, used without a change of the table, and closed
  pub bracket :
      (call : Syscall FilePath) (s s₁ : S) (x : ℕ)
      → is_open_call call ≡ true
      → is_open s₁ x ≡ is_open (sys call s).1 x
      → is_open (sys (Syscall.close (sys call s).0.res) s₁).1 x ≡ is_open s x
  bracket call s s₁ x h same =
      t.closes (sys call s).0.res s₁ x
      ∙ ap (λ b. b && not (names (sys call s).0.res x)) (same ∙ t.opens call s x h)
      ∙ freed (names (sys call s).0.res x) (is_open s x) (t.is_new call s x h)

  -- an opening that failed
  pub unopened :
      (call : Syscall FilePath) (s : S) (x : ℕ)
      → is_open_call call ≡ true
      → names (sys call s).0.res x ≡ false
      → is_open (sys call s).1 x ≡ is_open s x
  unopened call s x h miss = t.opens call s x h ∙ ap (λ b. b || is_open s x) miss

  module _ (under : FilePath → FilePath) (is_regular is_fifo : ℕ → Bool) where
    read_at-is_open :
        (fd : ℤ) (size : ℕ) (offset : ℤ) (s : S) (x : ℕ)
        → is_open (read_at sys under is_regular is_fifo fd size offset s).1 x ≡ is_open s x
    unfolding read_at is_open_call is_close_call
    read_at-is_open fd size offset s x = t.keeps (Syscall.pread fd size offset) s x refl refl

    write_at-is_open :
        (fd : ℤ) (bytes : List ℕ) (offset : ℤ) (s : S) (x : ℕ)
        → is_open (write_at sys under is_regular is_fifo fd bytes offset s).1 x ≡ is_open s x
    unfolding write_at is_open_call is_close_call
    write_at-is_open fd bytes offset s x =
        t.keeps (Syscall.fsync fd) _ x refl refl
        ∙ t.keeps (Syscall.pwrite fd bytes offset) s x refl refl

    local_read-is_open :
        (path : FilePath) (size : ℕ) (offset : ℤ) (s : S) (x : ℕ)
        → is_open (local_read sys under is_regular is_fifo path size offset none s).1 x
          ≡ is_open s x
    unfolding local_read is_open_call
    local_read-is_open path size offset s x =
        let call : Syscall FilePath = Syscall.open_read_only (under path) in
        let (fd, s₁) = sys call s in
        elim (Bool-cases (is_failed fd.res)) [
          | inl bad ↦ rw (local_read, bad) (unopened call s x refl (names-is_failed fd.res x bad))
          | inr good ↦
              rw (local_read, good)
                (bracket call s _ x refl (read_at-is_open fd.res size offset s₁ x))
        ]

    local_write-is_open :
        (path : FilePath) (bytes : List ℕ) (offset : ℤ) (s : S) (x : ℕ)
        → is_open (local_write sys under is_regular is_fifo path bytes offset none s).1 x
          ≡ is_open s x
    unfolding local_write is_open_call
    local_write-is_open path bytes offset s x =
        let call : Syscall FilePath = Syscall.open_write_only (under path) in
        let (fd, s₁) = sys call s in
        elim (Bool-cases (is_failed fd.res)) [
          | inl bad ↦ rw (local_write, bad) (unopened call s x refl (names-is_failed fd.res x bad))
          | inr good ↦
              rw (local_write, good)
                (bracket call s _ x refl (write_at-is_open fd.res bytes offset s₁ x))
        ]

    local_mknod-is_open :
        (path : FilePath) (mode rdev : ℕ) (s : S) (x : ℕ)
        → is_open (local_mknod sys under is_regular is_fifo path mode rdev s).1 x ≡ is_open s x
    unfolding local_mknod single is_open_call is_close_call
    local_mknod-is_open path mode rdev s x =
        let call : Syscall FilePath = Syscall.open_exclusive (under path) mode in
        let (fd, s₁) = sys call s in
        elim (Bool-cases (is_regular mode)) [
          | inl regular ↦ elim (Bool-cases (is_neg fd.res)) [
            | inl bad ↦
                rw (local_mknod, regular, bad) (unopened call s x refl (names-is_neg fd.res x bad))
            | inr good ↦ rw (local_mknod, regular, good) (bracket call s s₁ x refl refl)
          ]
          | inr other ↦ elim (Bool-cases (is_fifo mode)) [
            | inl fifo ↦
                rw (local_mknod, other, fifo)
                  (t.keeps (Syscall.mkfifo (under path) mode) s x refl refl)
            | inr node ↦
                rw (local_mknod, other, node)
                  (t.keeps (Syscall.mknod (under path) mode rdev) s x refl refl)
          ]
        ]

    -- A read and a write without a handle and a mknod open a descriptor of their own, and leave the
    -- table of descriptors as it was, whatever fails.
    pub local-is_open :
        (path : FilePath) (size mode rdev : ℕ) (bytes : List ℕ) (offset : ℤ) (s : S) (x : ℕ)
        → (is_open (local_read sys under is_regular is_fifo path size offset none s).1 x
            ≡ is_open s x)
          × (is_open (local_write sys under is_regular is_fifo path bytes offset none s).1 x
              ≡ is_open s x)
          × (is_open (local_mknod sys under is_regular is_fifo path mode rdev s).1 x ≡ is_open s x)
    local-is_open path size mode rdev bytes offset s x = (
      local_read-is_open path size offset s x,
      local_write-is_open path bytes offset s x,
      local_mknod-is_open path mode rdev s x,
    )
