-- ===== src/Messages/Roundtrip.antt =====
-- What survives the messages.
use native.Mathlib.Nat.{mod-lt}
use rsafe_fs.Base.{subst, ◌↔◌, ℤ, pos, negsuc, ◌-◌, ℕ, ◌%◌, ◌^◌, ◌<◌, ◌≡◌, refl, arith}
use rsafe_fs.Fuse.{Timespec, Stat, FileInfo, Statvfs, DirEntry}
use rsafe_fs.Messages.{
  set_i32, set_u32, set_u64, get_i32, get_u32, get_u64, fill_struct_timespec_message,
  fill_struct_timespec, fill_struct_file_info_message, fill_fuse_file_info,
  fill_struct_stat_message, fill_struct_stat, fill_struct_statvfs_message, fill_struct_statvfs,
  set_int, get_int, set_i64, get_i64, set_dev, of_off, to_off,
}

-- The values that the fields of the messages hold without a loss.
pub record TimespecFits (x : Timespec) : Type 0 where
  pub sec_fits : x.sec < 2 ^ 64
  pub nsec_fits : x.nsec < 2 ^ 64

pub record FileInfoFits (x : FileInfo) : Type 0 where
  pub flags_fits : x.flags < 2 ^ 31
  pub fh_old_fits : x.fh_old < 2 ^ 64
  pub writepage_fits : x.writepage < 2 ^ 31
  pub direct_io_fits : x.direct_io < 2 ^ 32
  pub keep_cache_fits : x.keep_cache < 2 ^ 32
  pub flush_fits : x.flush < 2 ^ 32
  pub nonseekable_fits : x.nonseekable < 2 ^ 32
  pub flock_release_fits : x.flock_release < 2 ^ 32
  pub padding_fits : x.padding < 2 ^ 32
  pub fh_fits : x.fh < 2 ^ 64
  pub lock_owner_fits : x.lock_owner < 2 ^ 64

pub record StatFits (x : Stat) : Type 0 where
  pub dev_fits : x.dev < 2 ^ 31
  pub ino_fits : x.ino < 2 ^ 64
  pub mode_fits : x.mode < 2 ^ 32
  pub nlink_fits : x.nlink < 2 ^ 32
  pub uid_fits : x.uid < 2 ^ 32
  pub gid_fits : x.gid < 2 ^ 32
  pub rdev_fits : x.rdev < 2 ^ 31
  pub size_fits : x.size < 2 ^ 64
  pub blksize_fits : x.blksize < 2 ^ 32
  pub blocks_fits : x.blocks < 2 ^ 64
  pub atim_fits : TimespecFits x.atim
  pub mtim_fits : TimespecFits x.mtim
  pub ctim_fits : TimespecFits x.ctim

pub record StatvfsFits (x : Statvfs) : Type 0 where
  pub bsize_fits : x.bsize < 2 ^ 64
  pub frsize_fits : x.frsize < 2 ^ 64
  pub blocks_fits : x.blocks < 2 ^ 32
  pub bfree_fits : x.bfree < 2 ^ 32
  pub bavail_fits : x.bavail < 2 ^ 32
  pub files_fits : x.files < 2 ^ 32
  pub ffree_fits : x.ffree < 2 ^ 32
  pub favail_fits : x.favail < 2 ^ 32
  pub fsid_fits : x.fsid < 2 ^ 64
  pub flag_fits : x.flag < 2 ^ 64
  pub namemax_fits : x.namemax < 2 ^ 64

-- the values of an `int`, of an `off_t` and of a `dev_t`
abbrev pub IntFits : ℤ → Type 0
IntFits (pos n) = n < 2 ^ 31
IntFits (negsuc n) = n < 2 ^ 31

abbrev pub OffFits : ℤ → Type 0
OffFits (pos n) = n < 2 ^ 63
OffFits (negsuc n) = n < 2 ^ 63

pub record DirEntryFits (e : DirEntry) : Type 0 where
  pub st_fits : StatFits e.st
  pub offset_fits : OffFits e.offset

pub get_i32-set_i32 : {n : ℕ} → n < 2 ^ 31 → get_i32 (set_i32 n) ≡ n
unfolding get_i32 set_i32
get_i32-set_i32 {n} h = let e : n % 2 ^ 32 ≡ n = omega arith in rw e (ground arith)

pub get_u32-set_u32 : {n : ℕ} → n < 2 ^ 32 → get_u32 (set_u32 n) ≡ n
unfolding set_u32
get_u32-set_u32 h = omega arith

pub get_u64-set_u64 : {n : ℕ} → n < 2 ^ 64 → get_u64 (set_u64 n) ≡ n
unfolding set_u64
get_u64-set_u64 h = omega arith

pub fill_struct_timespec-message :
    (x : Timespec) → TimespecFits x → fill_struct_timespec (fill_struct_timespec_message x) ≡ x
unfolding fill_struct_timespec fill_struct_timespec_message
fill_struct_timespec-message x f = rw (get_u64-set_u64 f.sec_fits, get_u64-set_u64 f.nsec_fits) refl

-- A file's open handle that fits the message comes out of it as it went in.
pub fill_fuse_file_info-message :
    (x : FileInfo) → FileInfoFits x → fill_fuse_file_info (fill_struct_file_info_message x) ≡ x
unfolding fill_fuse_file_info fill_struct_file_info_message
fill_fuse_file_info-message x f =
    rw
      (
        get_i32-set_i32 f.flags_fits,
        get_u64-set_u64 f.fh_old_fits,
        get_i32-set_i32 f.writepage_fits,
        get_u32-set_u32 f.direct_io_fits,
        get_u32-set_u32 f.keep_cache_fits,
        get_u32-set_u32 f.flush_fits,
        get_u32-set_u32 f.nonseekable_fits,
        get_u32-set_u32 f.flock_release_fits,
        get_u32-set_u32 f.padding_fits,
        get_u64-set_u64 f.fh_fits,
        get_u64-set_u64 f.lock_owner_fits,
      )
      refl

-- The attributes of a file whose device numbers are below 2^31, whose mode, link count, owner and
-- block size are below 2^32, and whose other numbers are below 2^64, come out of the message as they
-- went in.
pub fill_struct_stat-message :
    (x : Stat) → StatFits x → fill_struct_stat (fill_struct_stat_message x) ≡ x
unfolding fill_struct_stat fill_struct_stat_message
fill_struct_stat-message x f =
    rw
      (
        get_i32-set_i32 f.dev_fits,
        get_u64-set_u64 f.ino_fits,
        get_u32-set_u32 f.mode_fits,
        get_u32-set_u32 f.nlink_fits,
        get_u32-set_u32 f.uid_fits,
        get_u32-set_u32 f.gid_fits,
        get_i32-set_i32 f.rdev_fits,
        get_u64-set_u64 f.size_fits,
        get_u32-set_u32 f.blksize_fits,
        get_u64-set_u64 f.blocks_fits,
        fill_struct_timespec-message x.atim f.atim_fits,
        fill_struct_timespec-message x.mtim f.mtim_fits,
        fill_struct_timespec-message x.ctim f.ctim_fits,
      )
      refl

pub fill_struct_statvfs-message :
    (x : Statvfs) → StatvfsFits x → fill_struct_statvfs (fill_struct_statvfs_message x) ≡ x
unfolding fill_struct_statvfs fill_struct_statvfs_message
fill_struct_statvfs-message x f =
    rw
      (
        get_u64-set_u64 f.bsize_fits,
        get_u64-set_u64 f.frsize_fits,
        get_u32-set_u32 f.blocks_fits,
        get_u32-set_u32 f.bfree_fits,
        get_u32-set_u32 f.bavail_fits,
        get_u32-set_u32 f.files_fits,
        get_u32-set_u32 f.ffree_fits,
        get_u32-set_u32 f.favail_fits,
        get_u64-set_u64 f.fsid_fits,
        get_u64-set_u64 f.flag_fits,
        get_u64-set_u64 f.namemax_fits,
      )
      refl

pub get_int-set_int : (x : ℤ) → IntFits x → get_int (set_int x) ≡ x
unfolding get_int set_int
get_int-set_int (pos n) h = let e : n % 2 ^ 32 ≡ n = omega arith in rw e (ground arith)
get_int-set_int (negsuc n) h =
    let e : n % 2 ^ 32 ≡ n = omega arith in
    let back : 2 ^ 32 - 1 - (2 ^ 32 - 1 - n) ≡ n = omega arith in rw e (ground (arith, back))

pub to_off-of_off : (x : ℤ) → OffFits x → to_off (of_off x) ≡ x
unfolding to_off of_off
to_off-of_off (pos n) h = let e : n % 2 ^ 64 ≡ n = omega arith in rw e (ground arith)
to_off-of_off (negsuc n) h =
    let e : n % 2 ^ 64 ≡ n = omega arith in
    let back : 2 ^ 64 - 1 - (2 ^ 64 - 1 - n) ≡ n = omega arith in rw e (ground (arith, back))

pub of_off-lt : (x : ℤ) → of_off x < 2 ^ 64
unfolding of_off
of_off-lt (pos n) = omega arith
of_off-lt (negsuc n) = omega arith

pub get_i64-set_i64 : (x : ℤ) → OffFits x → get_i64 (set_i64 x) ≡ x
unfolding get_i64 set_i64
get_i64-set_i64 x h = to_off-of_off x h

-- the size of a truncation, which the server reads as a `size_t`
pub to_off-set_i64 : (x : ℤ) → OffFits x → to_off (set_i64 x).bits ≡ x
unfolding set_i64
to_off-set_i64 x h = to_off-of_off x h

pub to_off-set_u64 : (x : ℤ) → OffFits x → to_off (set_u64 (of_off x)).bits ≡ x
to_off-set_u64 x h = rw (get_u64-set_u64 (of_off-lt x)) (to_off-of_off x h)

pub set_dev_bits : {n : ℕ} → n < 2 ^ 64 → (set_dev n).bits ≡ n
unfolding set_dev
set_dev_bits h = omega arith

-- What comes out of a field is below its width.
get_u32-lt : (n : ℕ) → get_u32 (set_u32 n) < 2 ^ 32
unfolding set_u32
get_u32-lt n = mod-lt n (omega arith)

get_u64-lt : (n : ℕ) → get_u64 (set_u64 n) < 2 ^ 64
unfolding set_u64
get_u64-lt n = mod-lt n (omega arith)

-- What a file system says of itself comes out of its message as it went in exactly if each value fits
-- its field, the six counts of blocks and of files below 2^32: a count from 2^32 on is lost.
pub fill_struct_statvfs-exact :
    (x : Statvfs) → (fill_struct_statvfs (fill_struct_statvfs_message x) ≡ x) ↔ StatvfsFits x
unfolding fill_struct_statvfs fill_struct_statvfs_message
fill_struct_statvfs-exact x = (
  (λ e. subst StatvfsFits e (record {
    bsize_fits = get_u64-lt x.bsize;
    frsize_fits = get_u64-lt x.frsize;
    blocks_fits = get_u32-lt x.blocks;
    bfree_fits = get_u32-lt x.bfree;
    bavail_fits = get_u32-lt x.bavail;
    files_fits = get_u32-lt x.files;
    ffree_fits = get_u32-lt x.ffree;
    favail_fits = get_u32-lt x.favail;
    fsid_fits = get_u64-lt x.fsid;
    flag_fits = get_u64-lt x.flag;
    namemax_fits = get_u64-lt x.namemax;
  })),
  fill_struct_statvfs-message x,
)
