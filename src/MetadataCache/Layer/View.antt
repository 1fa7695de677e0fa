-- ===== src/MetadataCache/Layer/View.antt =====
-- What is seen of lib/layers/metadata_cache/metadata_cache.cpp from outside, and what is asked of the
-- layer below it.
use rsafe_fs.Base.{
  ℕ, ◌≡◌, Bool, true, false, List, [], ◌∷◌, ◌++◌, Option, none, some, is_zero, if◌then◌else◌,
}
use rsafe_fs.Base.Dict.{member}
use rsafe_fs.Fuse.{FileInfo, Timespec, Stat, Request, Reply, ok_reply, zero_stat, zero_info}
use rsafe_fs.Fuse

-- `st_blksize` aside, which the local layer gives in a `getattr` and not in an `fgetattr`.
abbrev pub but_blksize : Stat → Stat
but_blksize st = record st { blksize = 0 }

-- What a caller reads of a reply: of `getattr` and `fgetattr` the result, and the attributes but
-- `st_blksize` if the result is 0; of any other operation the whole reply.
abbrev pub attributes : Reply → Reply
attributes r = record ok_reply {
  res = r.res;
  stbuf = if is_zero r.res then but_blksize r.stbuf else zero_stat;
}

unfoldable pub view : {K : Type 0} → Request K → Reply → Reply
view (Request.getattr path) r = attributes r
view (Request.fgetattr path fi) r = attributes r
view q r = r

unfoldable pub is_stat : {K : Type 0} → Request K → Bool
is_stat (Request.getattr path) = true
is_stat (Request.fgetattr path fi) = true
is_stat q = false

module _ {K S : Type 0} (next : Fuse.Layer K S) where
  -- What the next layer says of a path.
  unfoldable pub attr : K → S → Option Stat
  attr p s =
      let r = (next (Request.getattr p) s).0 in
      if is_zero r.res then some (but_blksize r.stbuf) else none

module _ {K : Type 0} (parent : K → Option K) where
  parents : K → List K
  parents p = elim (parent p) [ none ↦ [] | some dir ↦ dir ∷ [] ]

  -- The paths whose attributes an operation may change, as the layer takes it.
  unfoldable pub affected : Request K → List K
  unfolding parents
  affected (Request.mknod p mode rdev) = p ∷ parents p
  affected (Request.mkdir p mode) = p ∷ parents p
  affected (Request.symlink from to) = from ∷ to ∷ parents to
  affected (Request.unlink p) = p ∷ parents p
  affected (Request.rmdir p) = p ∷ parents p
  affected (Request.rename from to) = from ∷ to ∷ (parents from ++ parents to)
  affected (Request.link from to) = from ∷ to ∷ parents to
  affected (Request.chmod p mode) = p ∷ []
  affected (Request.chown p uid gid) = p ∷ []
  affected (Request.truncate p size) = p ∷ []
  affected (Request.ftruncate p size fi) = p ∷ []
  affected (Request.create p mode fi) = p ∷ parents p
  affected (Request.open_file p fi) = p ∷ []
  affected (Request.flush p fi) = p ∷ []
  affected (Request.release p fi) = p ∷ []
  affected (Request.fsync p isdatasync fi) = p ∷ []
  affected q = []

module _ {K S : Type 0} (dec : Discrete K) (parent : K → Option K) (next : Fuse.Layer K S) where
  -- What is asked of the next layer in one call: a `getattr` changes nothing; an `fgetattr` changes
  -- nothing and agrees with a `getattr` of its path, as it does through a handle of that file; any other
  -- operation changes the attributes of no path but the ones that it affects.
  unfoldable pub Behaves : Request K → S → Type 0
  Behaves (Request.getattr p) s = (next (Request.getattr p) s).1 ≡ s
  Behaves (Request.fgetattr p fi) s =
      ((next (Request.fgetattr p fi) s).1 ≡ s)
      × (attributes (next (Request.fgetattr p fi) s).0 ≡ attributes (next (Request.getattr p) s).0)
  Behaves r s =
      (q : K) → member dec q (affected parent r) ≡ false → attr next q (next r s).1 ≡ attr next q s

  -- The same of the calls of a history, each in the state that the ones before it lead to.
  abbrev pub AllBehave : List (ℕ × ℕ × Request K) → S → Type 0
  AllBehave [] s = Unit
  AllBehave ((now, later, r) ∷ rs) s = Behaves r s × AllBehave rs (next r s).1
