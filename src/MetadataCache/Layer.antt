-- ===== src/MetadataCache/Layer.antt =====
-- The operations of lib/layers/metadata_cache/metadata_cache.cpp. `next` is the next layer, over a
-- state of its own; `parent` is `std::filesystem::path::parent_path`, with `none` where
-- `has_parent_path` is false; `now` and `later` are the clock at the `get` and at the `put`.
pub mod Bounded
pub mod Coherence
pub mod View
use rsafe_fs.Base.{ℕ, Bool, List, Option, none, some, ℤ, is_zero, if◌then◌else◌}
use rsafe_fs.Eviction.{EvictionPolicy}
use rsafe_fs.Fuse.{FileInfo, Timespec, Stat, Request, Reply, ok_reply}
use rsafe_fs.Fuse
use rsafe_fs.MetadataCache
use rsafe_fs.MetadataCache.{Config, Cache, put, remove, get}

module _ {K : Type 0} (dec : Discrete K) (P : EvictionPolicy dec) (config : Config)
    (parent : K → Option K) {S : Type 0} (next : Fuse.Layer K S) where
  abbrev pub State : Type 0
  State = Cache P × S

  -- what follows the call of the next layer in `getattr` and `fgetattr`
  pub store : ℕ → K → Reply × S → Cache P → Reply × State
  store later path (r, s) c =
      (r, (if is_zero r.res then put dec P config later path r.stbuf c else c, s))

  pub metadata_cache_getattr : ℕ → ℕ → K → State → Reply × State
  unfolding store
  metadata_cache_getattr now later path (c, s) =
      let (hit, c') = get dec P config now path c in
      elim hit [
        | some stbuf ↦ (record ok_reply { stbuf = stbuf }, (c', s))
        | none ↦ store later path (next (Request.getattr path) s) c'
      ]

  pub metadata_cache_fgetattr : ℕ → ℕ → K → FileInfo → State → Reply × State
  unfolding store
  metadata_cache_fgetattr now later path fi (c, s) =
      let (hit, c') = get dec P config now path c in
      elim hit [
        | some stbuf ↦ (record ok_reply { stbuf = stbuf; info = fi }, (c', s))
        | none ↦ store later path (next (Request.fgetattr path fi) s) c'
      ]

  -- `cache->remove(path)` and `cache->remove(p.parent_path())` on their own
  abbrev forget : K → Cache P → Cache P
  forget = remove dec P config

  abbrev forget_parent : K → Cache P → Cache P
  forget_parent path c = elim (parent path) [ none ↦ c | some dir ↦ forget dir c ]

  -- `return next_layer.op(…)`
  abbrev forward : Request K → State → Reply × State
  forward r (c, s) = let (reply, s') = next r s in (reply, (c, s'))

  pub metadata_cache_mknod : K → ℕ → ℕ → State → Reply × State
  metadata_cache_mknod path mode rdev (c, s) =
      forward (Request.mknod path mode rdev) (forget_parent path (forget path c), s)

  pub metadata_cache_mkdir : K → ℕ → State → Reply × State
  metadata_cache_mkdir path mode (c, s) =
      forward (Request.mkdir path mode) (forget_parent path (forget path c), s)

  pub metadata_cache_symlink : K → K → State → Reply × State
  metadata_cache_symlink from to (c, s) =
      forward (Request.symlink from to) (forget_parent to (forget to (forget from c)), s)

  pub metadata_cache_unlink : K → State → Reply × State
  metadata_cache_unlink path (c, s) =
      forward (Request.unlink path) (forget_parent path (forget path c), s)

  pub metadata_cache_rmdir : K → State → Reply × State
  metadata_cache_rmdir path (c, s) =
      forward (Request.rmdir path) (forget_parent path (forget path c), s)

  pub metadata_cache_rename : K → K → State → Reply × State
  metadata_cache_rename from to (c, s) =
      forward (Request.rename from to)
        (forget_parent to (forget_parent from (forget to (forget from c))), s)

  pub metadata_cache_link : K → K → State → Reply × State
  metadata_cache_link from to (c, s) =
      forward (Request.link from to) (forget_parent to (forget to (forget from c)), s)

  pub metadata_cache_chmod : K → ℕ → State → Reply × State
  metadata_cache_chmod path mode (c, s) = forward (Request.chmod path mode) (forget path c, s)

  pub metadata_cache_chown : K → ℕ → ℕ → State → Reply × State
  metadata_cache_chown path uid gid (c, s) = forward (Request.chown path uid gid) (forget path c, s)

  pub metadata_cache_truncate : K → ℤ → State → Reply × State
  metadata_cache_truncate path size (c, s) = forward (Request.truncate path size) (forget path c, s)

  pub metadata_cache_ftruncate : K → ℤ → FileInfo → State → Reply × State
  metadata_cache_ftruncate path size fi (c, s) =
      forward (Request.ftruncate path size fi) (forget path c, s)

  -- The function is there, but `init_layer` does not stack it.
  unfoldable pub metadata_cache_utimens : K → Timespec → Timespec → State → Reply × State
  metadata_cache_utimens path atime mtime (c, s) =
      forward (Request.utimens path atime mtime) (forget path c, s)

  pub metadata_cache_create : K → ℕ → FileInfo → State → Reply × State
  metadata_cache_create path mode fi (c, s) =
      forward (Request.create path mode fi) (forget_parent path (forget path c), s)

  pub metadata_cache_open : K → FileInfo → State → Reply × State
  metadata_cache_open path fi (c, s) = forward (Request.open_file path fi) (forget path c, s)

  pub metadata_cache_flush : K → FileInfo → State → Reply × State
  metadata_cache_flush path fi (c, s) = forward (Request.flush path fi) (forget path c, s)

  pub metadata_cache_release : K → FileInfo → State → Reply × State
  metadata_cache_release path fi (c, s) = forward (Request.release path fi) (forget path c, s)

  pub metadata_cache_fsync : K → ℤ → FileInfo → State → Reply × State
  metadata_cache_fsync path isdatasync fi (c, s) =
      forward (Request.fsync path isdatasync fi) (forget path c, s)

  -- The function of the layer for each operation that has one to be stacked, and the next layer's for the
  -- others: a way to state what the functions do together. The table that the program builds is in
  -- `Config.Stack`, and has none of these functions.
  pub handle : ℕ → ℕ → Request K → State → Reply × State
  unfolding metadata_cache_getattr metadata_cache_fgetattr metadata_cache_mknod metadata_cache_mkdir
      metadata_cache_symlink metadata_cache_unlink metadata_cache_rmdir metadata_cache_rename
      metadata_cache_link metadata_cache_chmod metadata_cache_chown metadata_cache_truncate
      metadata_cache_ftruncate metadata_cache_create metadata_cache_open metadata_cache_flush
      metadata_cache_release metadata_cache_fsync
  handle now later (Request.getattr path) = metadata_cache_getattr now later path
  handle now later (Request.fgetattr path fi) = metadata_cache_fgetattr now later path fi
  handle now later (Request.mknod path mode rdev) = metadata_cache_mknod path mode rdev
  handle now later (Request.mkdir path mode) = metadata_cache_mkdir path mode
  handle now later (Request.symlink from to) = metadata_cache_symlink from to
  handle now later (Request.unlink path) = metadata_cache_unlink path
  handle now later (Request.rmdir path) = metadata_cache_rmdir path
  handle now later (Request.rename from to) = metadata_cache_rename from to
  handle now later (Request.link from to) = metadata_cache_link from to
  handle now later (Request.chmod path mode) = metadata_cache_chmod path mode
  handle now later (Request.chown path uid gid) = metadata_cache_chown path uid gid
  handle now later (Request.truncate path size) = metadata_cache_truncate path size
  handle now later (Request.ftruncate path size fi) = metadata_cache_ftruncate path size fi
  handle now later (Request.create path mode fi) = metadata_cache_create path mode fi
  handle now later (Request.open_file path fi) = metadata_cache_open path fi
  handle now later (Request.flush path fi) = metadata_cache_flush path fi
  handle now later (Request.release path fi) = metadata_cache_release path fi
  handle now later (Request.fsync path isdatasync fi) = metadata_cache_fsync path isdatasync fi
  handle now later r = forward r
