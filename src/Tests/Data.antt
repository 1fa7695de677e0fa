-- ===== src/Tests/Data.antt =====
-- The data cache over a file of five bytes, with blocks of four.
use rsafe_fs.Base.{
  ℕ, suc, ◌-◌, ◌/◌, ◌≡◌, refl, true, List, [], ◌∷◌, some, arith, pos, length, take, drop,
  ℕ_discrete, inl, inr, ap,
}
use rsafe_fs.Base.Dict.{find, assign, find-assign_inv}
use rsafe_fs.Eviction.{EvictionPolicy}
use rsafe_fs.Eviction.Lru.Policy.{policy}
use rsafe_fs.Fuse.{Timespec, Request, ok_reply, zero_info, zero_time}
use rsafe_fs.Fuse
use rsafe_fs.DataCache.{
  Config, Block, Cache, init, open_file, read, done, in_time, is_valid, same_time,
}
use rsafe_fs.DataCache.Bounds.{IsSmall, IsValid, init-IsValid, read-IsValid}
use rsafe_fs.DataCache.Correct.{IsServed, slice}
use rsafe_fs.DataCache.Correct.Read.{IsCoherent, read_lem}
use rsafe_fs.DataCache.Correct.Session.{run_reads, open_file-run_reads}
use rsafe_fs.DataCache.PastEnd.{read_past_end}

abbrev file : List ℕ
file = 10 ∷ 20 ∷ 30 ∷ 40 ∷ 50 ∷ []

unfoldable lower : Fuse.Layer ℕ ℕ
lower (Request.read p n (pos o) fi) s =
    (record ok_reply { res = pos (length (slice file n o)); buf = slice file n o }, s)
lower r s = (ok_reply, s)

abbrev clock : ℕ → ℕ × ℕ
clock s = (s, suc s)

abbrev Always : ℕ → Type 0
Always s = Unit {0}

lower-IsServed : IsServed file lower clock 0 Always
unfolding lower
lower-IsServed = record {
  read_res = λ n o fi s h. refl;
  read_buf = λ n o fi s h. refl;
  read_holds = λ n o fi s h. tt;
  clock_holds = λ s h. tt;
}

key_discrete : Discrete (ℕ × ℕ)
key_discrete = hlevel (ℕ_discrete)

abbrev P : EvictionPolicy key_discrete
P = policy key_discrete

abbrev config : Config
config = record { size = 8; block_size = 4; time_out = pos 0 }

config-IsSmall : IsSmall config
config-IsSmall = record { positive = omega arith; fits = omega arith }

abbrev empty : Cache P
empty = init ℕ_discrete key_discrete P config lower clock

-- the path 0 is open
abbrev opened : Cache P
opened = record empty { mtimes = (0, zero_time) ∷ [] }

opened_hit : find ℕ_discrete 0 opened.mtimes ≡ some zero_time
unfolding find ℕ_discrete
opened_hit = refl

opened-IsValid : IsValid ℕ_discrete key_discrete P config lower clock opened
opened-IsValid =
    let v = init-IsValid ℕ_discrete key_discrete P config lower clock in
    record {
      policy_ok = v.policy_ok;
      tracks = v.tracks;
      distinct = v.distinct;
      counted = v.counted;
      bounded = v.bounded;
    }

read-IsValid_example :
    IsValid ℕ_discrete key_discrete P config lower clock
      (read ℕ_discrete key_discrete P config lower clock 0 3 2 zero_info (opened, 0)).1.0
read-IsValid_example =
    read-IsValid ℕ_discrete key_discrete P config lower clock config-IsSmall 0 3 2 zero_info opened
      0 opened-IsValid

-- room for one block, which is one of an older file
abbrev narrow : Config
narrow = record { size = 4; block_size = 4; time_out = pos 0 }

narrow-IsSmall : IsSmall narrow
narrow-IsSmall = record { positive = omega arith; fits = omega arith }

abbrev stale : Block
stale = record {
  buf = 1 ∷ 2 ∷ 3 ∷ 4 ∷ [];
  size = 4;
  offset = 0;
  timestamp = 0;
  mtime = record { sec = 9; nsec = 9 };
}

abbrev outdated : Cache P
outdated = record (init ℕ_discrete key_discrete P narrow lower clock) {
  entries = assign key_discrete (0, 0) stale [];
  mtimes = (0, zero_time) ∷ [];
  policy = P.touch (0, 0) P.empty;
  cache_size = 4;
}

outdated_hit : find ℕ_discrete 0 outdated.mtimes ≡ some zero_time
unfolding find ℕ_discrete
outdated_hit = refl

outdated-IsCoherent :
    IsCoherent file ℕ_discrete key_discrete P narrow narrow-IsSmall lower clock 0 zero_info 3 2
      zero_time
      (omega arith)
      Always
      lower-IsServed
      outdated.entries
unfolding find same_time
outdated-IsCoherent id b h = elim (find-assign_inv key_discrete (0, id) (0, 0) stale b [] h) [
  | inl old ↦ absurd cc
  | inr (p, same) ↦
      let here : 0 ≡ id = ap (λ (k : ℕ × ℕ). k.1) p in
      rw (← here, ← same) (record { start = omega arith; room = refl; fresh = λ e. absurd cc })
]

-- Three bytes, over the border of the blocks: the block that is cached is read again, and then makes
-- room for the second.
read_lem_example :
    let (o, (c, s)) =
      read ℕ_discrete key_discrete P narrow lower clock 0 3 2 zero_info (outdated, 0) in
    (o ≡ done 3 (30 ∷ 40 ∷ 50 ∷ []))
    × IsCoherent file ℕ_discrete key_discrete P narrow narrow-IsSmall lower clock 0 zero_info 3 2
        zero_time
        (omega arith)
        Always
        lower-IsServed
        c.entries
    × Always s
read_lem_example =
    read_lem file ℕ_discrete key_discrete P narrow narrow-IsSmall lower clock 0 zero_info 3 2
      zero_time (omega arith) Always lower-IsServed outdated 0 outdated_hit (omega arith)
      outdated-IsCoherent tt

-- Three reads of an opened path, with room for one block.
abbrev reads : List (ℕ × ℕ)
reads = (3, 2) ∷ (2, 0) ∷ (9, 1) ∷ []

open_file-run_reads_example :
    run_reads file ℕ_discrete key_discrete P narrow lower clock 0 zero_info reads
      (open_file ℕ_discrete key_discrete P narrow lower clock 0 zero_info
        (init ℕ_discrete key_discrete P narrow lower clock, 0)).1
    ≡ done 3 (30 ∷ 40 ∷ 50 ∷ []) ∷ done 2 (10 ∷ 20 ∷ []) ∷ done 4 (20 ∷ 30 ∷ 40 ∷ 50 ∷ []) ∷ []
unfolding lower
open_file-run_reads_example =
    open_file-run_reads file ℕ_discrete key_discrete P narrow lower clock 0 zero_info narrow-IsSmall
      Always lower-IsServed reads 0
      ((omega arith, omega arith), ((omega arith, omega arith), ((omega arith, omega arith), tt)))
      refl refl tt

-- what the second block is, once it has been read
abbrev last : Block
last = record { buf = 50 ∷ 0 ∷ 0 ∷ 0 ∷ []; size = 1; offset = 4; timestamp = 0; mtime = zero_time }

abbrev filled : Cache P
filled = record opened { entries = ((0, 1), last) ∷ []; cache_size = 4 }

filled_hit : find key_discrete (0, 6 / config.block_size) filled.entries ≡ some last
unfolding find key_discrete ℕ_discrete
filled_hit = refl

last_valid : (is_valid ℕ_discrete key_discrete P config lower clock zero_time last 0).0 ≡ true
unfolding is_valid in_time same_time
last_valid = refl

-- a byte at 6, of a file of five bytes
read_past_end_example :
    (read ℕ_discrete key_discrete P config lower clock 0 1 6 zero_info (filled, 0)).0
    ≡ done 1 (take 1 (drop (6 - 4) last.buf))
read_past_end_example =
    read_past_end ℕ_discrete key_discrete P config lower clock 0 zero_info 1 6 zero_time last filled
      0 (omega arith) (omega arith) opened_hit filled_hit last_valid (omega arith) (omega arith)
