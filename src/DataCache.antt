-- ===== src/DataCache.antt =====
-- `data_cache::cache` of include/rsafefs/layers/data_cache/cache.hpp and
-- lib/layers/data_cache/cache.cpp, with one caller: each access to the maps holds its mutex.
-- `next` is the next layer over a state of its own, and `clock` reads the time in nanoseconds.
-- Offsets are not negative, and the sums of offsets and sizes stay below 2^63, so only the
-- subtractions of `size_t` are written with their wrap-around.
pub mod Bounds
pub mod Correct
pub mod PastEnd
use rsafe_fs.Base.{
  ℕ, zero, suc, ◌+◌, ◌-◌, ◌*◌, ◌/◌, ◌%◌, ◌^◌, min, Bool, true, false, ◌&&◌, List, [], ◌∷◌, ◌++◌,
  Option, none, some, ℤ, pos, negsuc, is_neg, is_zero, ltb, leb, ◌==◌, if◌then◌else◌, length, take,
  drop, replicate, ℕ_discrete,
}
use rsafe_fs.Base.Dict.{find, erase, emplace, assign}
use rsafe_fs.Eviction.{EvictionPolicy}
use rsafe_fs.Fuse.{FileInfo, Timespec, Stat, Request, Reply, zero_stat}
use rsafe_fs.Fuse

abbrev pub size_mod : ℕ
size_mod = 2 ^ 64

-- `a - b` on `size_t`
unfoldable pub sub_size : ℕ → ℕ → ℕ
sub_size a b = (a + size_mod - b) % size_mod

abbrev pub ns_per_sec : ℕ
ns_per_sec = 1_000_000_000

-- `config`, without the policy, which has a state
pub record Config : Type 0 where
  pub size : ℕ
  pub block_size : ℕ
  pub time_out : ℤ

pub record Block : Type 0 where
  pub buf : List ℕ
  pub size : ℕ
  pub offset : ℕ
  pub timestamp : ℕ
  pub mtime : Timespec

-- A read into a buffer leaves its bytes at the front.
unfoldable pub fill : List ℕ → List ℕ → List ℕ
fill old l = l ++ drop (length l) old

-- `memcpy` of `n` bytes from `buf + at`; `none` where it would read outside the buffer
unfoldable pub copy : List ℕ → ℕ → ℕ → Option (List ℕ)
copy buf at n = if leb (at + n) (length buf) then some (take n (drop at buf)) else none

-- a result that is not negative, as a `size_t`
abbrev pub count : ℤ → ℕ
count (pos n) = n
count (negsuc n) = size_mod - suc n

-- How a read ends: `readed` and the bytes in the caller's buffer, an error, or a `memcpy` outside a
-- block; `exhausted` means that the fuel of the model ran out.
pub data Outcome : Type 0 where
  done : ℕ → List ℕ → Outcome
  failed : ℤ → Outcome
  overread : Outcome
  exhausted : Outcome

-- `readed`, `seeker`, and the bytes copied so far
pub record Progress : Type 0 where
  pub readed : ℕ
  pub seeker : ℕ
  pub out : List ℕ

pub data Step (A : Type 0) : Type 0 where
  stop : Outcome → A → Step A
  again : Progress → A → Step A

module _ {K : Type 0} {dec : Discrete (K × ℕ)} (P : EvictionPolicy dec) where
  pub record Cache : Type 0 where
    pub entries : List ((K × ℕ) × Block)
    pub cache_size : ℕ
    pub policy : P.State
    pub mtimes : List (K × Timespec)

-- the comparison of `mtime_` with the current one
unfoldable pub same_time : Timespec → Timespec → Bool
same_time a b = (a.sec == b.sec) && (a.nsec == b.nsec)

module _ {K : Type 0} (deck : Discrete K) (dec : Discrete (K × ℕ)) (P : EvictionPolicy dec)
    (config : Config) {S : Type 0} (next : Fuse.Layer K S) (clock : S → ℕ × S) where
  abbrev pub State : Type 0
  State = Cache P × S

  unfoldable pub init : Cache P
  init = record { entries = []; cache_size = 0; policy = P.empty; mtimes = [] }

  unfoldable pub open_file : K → FileInfo → State → ℤ × State
  open_file path fi (c, s) =
      let (r, s₁) = next (Request.open_file path fi) s in
      let (a, s₂) = next (Request.getattr path) s₁ in
      if is_neg r.res
      then (r.res, (c, s₁))
      else if is_neg a.res
      then (a.res, (c, s₂))
      else (pos 0, (record c { mtimes = assign deck path a.stbuf.mtim c.mtimes }, s₂))

  unfoldable pub release : K → FileInfo → State → ℤ × State
  release path fi (c, s) =
      let (r, s') = next (Request.release path fi) s in
      (r.res, (record c { mtimes = erase deck path c.mtimes }, s'))

  pub remove_block : K × ℕ → Cache P → Cache P
  remove_block key c = elim (find dec key c.entries) [
    | none ↦ c
    | some _ ↦ record c {
      entries = erase dec key c.entries;
      cache_size = sub_size c.cache_size config.block_size;
    }
  ]

  -- the eviction of a miss: what the policy selects, if anything
  pub drop_selected : Option (K × ℕ) × P.State → Cache P → Cache P
  drop_selected (none, p) c = record c { policy = p }
  drop_selected (some key, p) c = remove_block key (record c { policy = p })

  pub make_room : Cache P → Cache P
  make_room c = if ltb config.size c.cache_size then drop_selected (P.evict c.policy) c else c

  -- `block::is_valid`; the clock is read only if there is a time-out
  unfoldable pub in_time : ℤ → Block → S → Bool × S
  in_time (pos t) b s =
      let (now, s') = clock s in
      if ltb 0 t then (ltb ((now - b.timestamp) / ns_per_sec) t, s') else (true, s)
  in_time (negsuc t) b s = (true, s)

  unfoldable pub is_valid : Timespec → Block → S → Bool × S
  is_valid file_mtime b s =
      if same_time b.mtime file_mtime then in_time config.time_out b s else (false, s)

  module _ (path : K) (fi : FileInfo) (size : ℕ) (file_mtime : Timespec) where
    -- the end of an iteration that found a block: the copy out of it
    pub use_block : ℕ → Block → Progress → State → Step State
    use_block block_id b v (c, s) =
        let at = sub_size v.seeker b.offset in
        let n = min (sub_size size v.readed) (sub_size b.size at) in
        if n == 0 then stop (done v.readed v.out) (c, s) else elim (copy b.buf at n) [
          | none ↦ stop overread (c, s)
          | some bytes ↦
              again (record { readed = v.readed + n; seeker = v.seeker + n; out = v.out ++ bytes })
                (record c { policy = P.touch (path, block_id) c.policy }, s)
        ]

    -- a block that is not valid any more is read again, or removed if that fails
    pub update_block : ℕ → Block → Progress → State → Step State
    update_block block_id b v (c, s) =
        let (r, s₁) = next (Request.read path config.block_size (pos b.offset) fi) s in
        let (now, s₂) = clock s₁ in
        let b' : Block = record {
          buf = fill b.buf r.buf;
          size = count r.res;
          offset = b.offset;
          timestamp = now;
          mtime = file_mtime;
        } in
        let key : K × ℕ = (path, block_id) in
        if is_neg r.res
        then stop (failed r.res)
            (record (remove_block key c) { policy = P.remove key (remove_block key c).policy }, s₂)
        else use_block block_id b' v (record c { entries = assign dec key b' c.entries }, s₂)

    -- a block that is not cached is read, and inserted if there is anything in it
    pub insert_block : ℕ → Progress → State → Step State
    insert_block block_id v (c, s) =
        let c' = make_room c in
        let block_offset = block_id * config.block_size in
        let (r, s₁) = next (Request.read path config.block_size (pos block_offset) fi) s in
        let (now, s₂) = clock s₁ in
        let b : Block = record {
          buf = fill (replicate config.block_size 0) r.buf;
          size = count r.res;
          offset = block_offset;
          timestamp = now;
          mtime = file_mtime;
        } in
        let key : K × ℕ = (path, block_id) in
        if is_neg r.res
        then stop (failed r.res) (c', s₁)
        else if is_zero r.res
        then stop (done v.readed v.out) (c', s₁)
        else again v (
          record c' {
            entries = emplace dec key b c'.entries;
            cache_size = elim (find dec key c'.entries) [
              | none ↦ (c'.cache_size + config.block_size) % size_mod
              | some _ ↦ c'.cache_size
            ];
            policy = P.touch key c'.policy;
          },
          s₂,
        )

    -- the body of the loop behind its test
    pub iterate : Progress → State → Step State
    iterate v (c, s) =
        let block_id = v.seeker / config.block_size in
        elim (find dec (path, block_id) c.entries) [
          | none ↦ insert_block block_id v (c, s)
          | some b ↦
              let (valid, s') = is_valid file_mtime b s in
              if valid then use_block block_id b v (c, s') else update_block block_id b v (c, s')
        ]

    -- `while (readed != size)`
    pub read_loop : ℕ → Progress → State → Outcome × State
    read_loop zero v st = (exhausted, st)
    read_loop (suc fuel) v st =
        if v.readed == size
        then (done v.readed v.out, st)
        else (elim (iterate v st) [ stop o st' ↦ (o, st') | again v' st' ↦ read_loop fuel v' st' ])

  -- An uncached path goes to the next layer; so does one that is not open. Each round of the loop
  -- copies a byte or caches a block that the next round uses, so twice the size and two is fuel enough.
  pub read : K → ℕ → ℕ → FileInfo → State → Outcome × State
  read path size offset fi (c, s) = elim (find deck path c.mtimes) [
    | none ↦
        let (r, s') = next (Request.read path size (pos offset) fi) s in
        ((if is_neg r.res then failed r.res else done (count r.res) r.buf), (c, s'))
    | some file_mtime ↦
        read_loop path fi size file_mtime (2 * size + 2)
          (record { readed = 0; seeker = offset; out = [] }) (c, s)
  ]
