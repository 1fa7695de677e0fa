-- ===== src/Tests/Metadata.antt =====
-- The metadata cache over a file system that has one file, of some size.
use rsafe_fs.Base.{
  Bool, false, ℕ, ◌≡◌, refl, List, [], ◌∷◌, Option, some, arith, ◌==◌, pos, negsuc, if◌then◌else◌,
  ℕ_discrete,
}
use rsafe_fs.Base.Dict.{find, member}
use rsafe_fs.Eviction.{EvictionPolicy}
use rsafe_fs.Eviction.Lru.Policy.{policy}
use rsafe_fs.Fuse.{FileInfo, Stat, Request, Reply, ok_reply, zero_stat, zero_statvfs, zero_info}
use rsafe_fs.Fuse
use rsafe_fs.MetadataCache.{Config, Cache, init}
use rsafe_fs.MetadataCache.Invariant.{IsValid, init-IsValid}
use rsafe_fs.MetadataCache.Layer.{handle}
use rsafe_fs.MetadataCache.Layer.Bounded.{handle-IsValid}
use rsafe_fs.MetadataCache.Layer.Coherence.{IsCoherent, run, run_direct, run_transparent}
use rsafe_fs.MetadataCache.Layer.View.{Behaves, AllBehave, affected, attr}
use rsafe_fs.Local.{
  Syscall, Result, is_failed, neg, single, local_getattr, local_fgetattr, local_truncate,
}

abbrev sized : ℕ → Stat
sized n = record zero_stat { size = n; blksize = 4096 }

abbrev result : ℕ → Result
result e = record { res = pos 0; errno = e; stbuf = zero_stat; buf = []; vfs = zero_statvfs }

-- The file is 7; its size is the state.
-- `lstat` of the file gives its block size too, and `fstat` is of its handle, 3.
unfoldable system : Syscall ℕ → ℕ → Result × ℕ
system (Syscall.lstat p) s =
    (record (result 2) { res = if p == 7 then pos 0 else negsuc 0; stbuf = sized s }, s)
system (Syscall.fstat fd) s = (record (result 0) { stbuf = sized s }, s)
system (Syscall.truncate p n) s = (result 0, if p == 7 then 3 else s)
system call s = (result 0, s)

abbrev same : ℕ → ℕ
same n = n

abbrev never : ℕ → Bool
never n = false

-- the local layer
unfoldable lower : Fuse.Layer ℕ ℕ
lower (Request.getattr p) s = local_getattr system same never never p s
lower (Request.fgetattr p fi) s = local_fgetattr system same never never p fi s
lower (Request.truncate p n) s = local_truncate system same never never p n s
lower r s = (ok_reply, s)

abbrev P : EvictionPolicy ℕ_discrete
P = policy ℕ_discrete

abbrev config : Config
config = record { size = 2; time_out = pos 10 }

abbrev parent : ℕ → Option ℕ
parent p = some 0

abbrev empty : Cache P
empty = init ℕ_discrete P config

handle-IsValid_example :
    IsValid ℕ_discrete P config
      (handle ℕ_discrete P config parent lower 0 1 (Request.getattr 7) (empty, 4)).1.0
handle-IsValid_example =
    handle-IsValid ℕ_discrete P config parent lower 0 1 (Request.getattr 7) empty 4
      (init-IsValid ℕ_discrete P config)

truncate-Behaves : Behaves ℕ_discrete parent lower (Request.truncate 7 (pos 3)) 4
unfolding Behaves lower local_getattr local_truncate single system is_failed neg attr affected
    member
truncate-Behaves q h = ground arith

-- The `fgetattr` finds the attributes of the `getattr` before it.
abbrev history : List (ℕ × ℕ × Request ℕ)
history =
    (0, 1, Request.getattr 7)
    ∷ (2, 3, Request.fgetattr 7 (record zero_info { fh = 3 }))
    ∷ (4, 5, Request.truncate 7 (pos 3))
    ∷ (6, 7, Request.getattr 7)
    ∷ []

history-AllBehave : AllBehave ℕ_discrete parent lower history 4
unfolding Behaves lower local_getattr local_fgetattr local_truncate single system is_failed neg
history-AllBehave = (refl, ((refl, refl), (truncate-Behaves, (refl, tt))))

empty-IsCoherent : IsCoherent ℕ_discrete P config parent lower (empty, 4)
unfolding init find
empty-IsCoherent p m h = cc

run_transparent_example :
    run ℕ_discrete P config parent lower history (empty, 4)
    ≡ run_direct ℕ_discrete P config parent lower history 4
run_transparent_example =
    run_transparent ℕ_discrete P config parent lower history empty 4 history-AllBehave
      empty-IsCoherent
