-- ===== src/Tests/Descriptors.antt =====
-- A process that may have one descriptor, 3: a second one is refused with `EMFILE`, 24.
use rsafe_fs.Base.{
  ℕ, ◌≡◌, refl, Bool, true, false, not, ◌&&◌, ◌||◌, [], ◌∷◌, none, ℤ, pos, negsuc, ◌==◌, arith,
}
use rsafe_fs.Fuse.{zero_stat, zero_statvfs, zero_info}
use rsafe_fs.Local.{Syscall, Result, local_read, local_write, local_mknod, is_failed, neg}
use rsafe_fs.Local.Descriptors.{names, is_open_call, is_close_call, HasTable, local-is_open}
use rsafe_fs.Local.Nfs.{nfs_create, without_direct, sync_path}
use rsafe_fs.Local.Nfs.Descriptors.{nfs_create-is_open, sync_path-is_open}

abbrev result : ℤ → ℕ → Result
result r e = record { res = r; errno = e; stbuf = zero_stat; buf = []; vfs = zero_statvfs }

abbrev open_one : Bool → Result × Bool
open_one true = (result (negsuc 0) 24, true)
open_one false = (result (pos 3) 0, true)

unfoldable one_slot : Syscall ℕ → Bool → Result × Bool
one_slot (Syscall.dup fd) b = open_one b
one_slot (Syscall.open_flags p flags) b = open_one b
one_slot (Syscall.open_create p flags mode) b = open_one b
one_slot (Syscall.open_exclusive p mode) b = open_one b
one_slot (Syscall.open_read_only p) b = open_one b
one_slot (Syscall.open_write_only p) b = open_one b
one_slot (Syscall.close fd) b = (result (pos 0) 0, b && not (names fd 3))
one_slot _ b = (result (pos 0) 0, b)

unfoldable in_slot : Bool → ℕ → Bool
in_slot b x = b && (3 == x)

open_one-opens :
    (b : Bool) (x : ℕ) → in_slot (open_one b).1 x ≡ (names (open_one b).0.res x || in_slot b x)
unfolding in_slot names
open_one-opens true x = refl
open_one-opens false x = ground arith

open_one-is_new : (b : Bool) (x : ℕ) → (names (open_one b).0.res x && in_slot b x) ≡ false
unfolding in_slot names
open_one-is_new true x = refl
open_one-is_new false x = ground arith

slot-closes :
    (fd : ℤ) (b : Bool) (x : ℕ)
    → in_slot (b && not (names fd 3)) x ≡ (in_slot b x && not (names fd x))
unfolding in_slot names
slot-closes (pos n) true x = ground arith
slot-closes (pos n) false x = refl
slot-closes (negsuc n) true x = ground arith
slot-closes (negsuc n) false x = refl

slot-opens :
    (call : Syscall ℕ) (b : Bool) (x : ℕ)
    → is_open_call call ≡ true
    → in_slot (one_slot call b).1 x ≡ (names (one_slot call b).0.res x || in_slot b x)
unfolding one_slot is_open_call
slot-opens (Syscall.dup fd) b x h = open_one-opens b x
slot-opens (Syscall.open_flags p flags) b x h = open_one-opens b x
slot-opens (Syscall.open_create p flags mode) b x h = open_one-opens b x
slot-opens (Syscall.open_exclusive p mode) b x h = open_one-opens b x
slot-opens (Syscall.open_read_only p) b x h = open_one-opens b x
slot-opens (Syscall.open_write_only p) b x h = open_one-opens b x
slot-opens _ b x h = absurd (ground arith)

slot-is_new :
    (call : Syscall ℕ) (b : Bool) (x : ℕ)
    → is_open_call call ≡ true
    → (names (one_slot call b).0.res x && in_slot b x) ≡ false
unfolding one_slot is_open_call
slot-is_new (Syscall.dup fd) b x h = open_one-is_new b x
slot-is_new (Syscall.open_flags p flags) b x h = open_one-is_new b x
slot-is_new (Syscall.open_create p flags mode) b x h = open_one-is_new b x
slot-is_new (Syscall.open_exclusive p mode) b x h = open_one-is_new b x
slot-is_new (Syscall.open_read_only p) b x h = open_one-is_new b x
slot-is_new (Syscall.open_write_only p) b x h = open_one-is_new b x
slot-is_new _ b x h = absurd (ground arith)

slot-keeps :
    (call : Syscall ℕ) (b : Bool) (x : ℕ)
    → is_open_call call ≡ false
    → is_close_call call ≡ false
    → in_slot (one_slot call b).1 x ≡ in_slot b x
unfolding one_slot is_open_call is_close_call
slot-keeps (Syscall.dup fd) b x h k = absurd (ground arith)
slot-keeps (Syscall.open_flags p flags) b x h k = absurd (ground arith)
slot-keeps (Syscall.open_create p flags mode) b x h k = absurd (ground arith)
slot-keeps (Syscall.open_exclusive p mode) b x h k = absurd (ground arith)
slot-keeps (Syscall.open_read_only p) b x h k = absurd (ground arith)
slot-keeps (Syscall.open_write_only p) b x h k = absurd (ground arith)
slot-keeps (Syscall.close fd) b x h k = absurd (ground arith)
slot-keeps _ b x h k = refl

one_slot-HasTable : HasTable one_slot in_slot
unfolding one_slot
one_slot-HasTable = record {
  opens = slot-opens;
  is_new = slot-is_new;
  closes = slot-closes;
  keeps = slot-keeps;
}

abbrev same : ℕ → ℕ
same n = n

abbrev never : ℕ → Bool
never n = false

abbrev always : ℕ → Bool
always n = true

local-is_open_example :
    (in_slot (local_read one_slot same always never 1 4 (pos 0) none false).1 3 ≡ in_slot false 3)
    × (in_slot (local_write one_slot same always never 1 (7 ∷ []) (pos 0) none false).1 3
        ≡ in_slot false 3)
    × (in_slot (local_mknod one_slot same always never 1 2 0 false).1 3 ≡ in_slot false 3)
local-is_open_example =
    local-is_open one_slot in_slot one_slot-HasTable same always never 1 4 2 0 (7 ∷ []) (pos 0)
      false 3

-- The parent cannot be opened, and the descriptor of the new file stays.
nfs_create-is_open_example :
    let flags = (without_direct one_slot same same never never same zero_info).flags in
    let (fd, s₁) = one_slot (Syscall.open_create 1 flags 2) false in
    in_slot (nfs_create one_slot same same never never same 1 2 zero_info false).1 3
    ≡ (names fd.res 3 || in_slot false 3)
nfs_create-is_open_example =
    nfs_create-is_open one_slot in_slot one_slot-HasTable same same never never same 1 2 zero_info
      false 3

sync_path-is_open_example :
    in_slot (sync_path one_slot same same never never same 1 false).1 3 ≡ in_slot false 3
sync_path-is_open_example =
    sync_path-is_open one_slot in_slot one_slot-HasTable same same never never same 1 false 3

create_refused :
    (nfs_create one_slot same same never never same 1 2 zero_info false).0.res ≡ negsuc 23
unfolding nfs_create sync_path without_direct one_slot names is_failed neg
create_refused = refl
