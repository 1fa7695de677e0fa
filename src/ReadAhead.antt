-- ===== src/ReadAhead.antt =====
-- `read_ahead::cache` of include/rsafefs/layers/read_ahead/read_ahead_cache.hpp and
-- lib/layers/read_ahead/read_ahead_cache.cpp, with one caller. Offsets are not negative, and sizes
-- are below 2^31, so that a count of bytes is an `int`.
pub mod Correct
pub mod History
use rsafe_fs.Base.{
  ℕ, ◌+◌, ◌-◌, min, max, Bool, true, false, List, [], ◌∷◌, Option, none, some, ℤ, pos, negsuc,
  is_neg, leb, ◌&&◌, if◌then◌else◌, take, replicate,
}
use rsafe_fs.Base.Dict.{find, erase, emplace, assign}
use rsafe_fs.Fuse.{FileInfo, Request}
use rsafe_fs.Fuse
use rsafe_fs.DataCache.{fill, copy, count}

pub record Buffer : Type 0 where
  pub size : ℕ
  pub offset : ℤ
  pub buf : List ℕ

-- How a read ends: a count and the bytes in the caller's buffer, an error, or undefined behaviour.
pub data Outcome : Type 0 where
  done : ℕ → List ℕ → Outcome
  failed : ℤ → Outcome
  undefined : Outcome

-- `buffer::buffer()`
abbrev pub new_buffer : Buffer
new_buffer = record { size = 0; offset = negsuc 0; buf = [] }

-- `buffer::update`
unfoldable pub update : ℕ → ℕ → List ℕ → Buffer → Buffer
update size offset buf b = record { size = size; offset = pos offset; buf = buf }

-- the test of `buffer::read`; an offset below 0 is the -1 of an empty buffer
unfoldable pub holds : ℕ → ℕ → Buffer → Bool
holds size offset b = elim b.offset [
  | pos o ↦ leb o offset && leb (offset + size) (o + b.size)
  | negsuc _ ↦ false
]

-- where the bytes lie in the buffer
unfoldable pub position : ℕ → Buffer → ℕ
position offset b = elim b.offset [ pos o ↦ offset - o | negsuc _ ↦ offset ]

-- `buffer::read`: `none` is its -1
unfoldable pub buffer_read : ℕ → ℕ → Buffer → Option Outcome
buffer_read size offset b =
    if holds size offset b
    then some (elim (copy b.buf (position offset b) size) [
      | none ↦ undefined
      | some bytes ↦ done size bytes
    ])
    else none

module _ {K : Type 0} (deck : Discrete K) (size_ : ℕ) {S : Type 0} (next : Fuse.Layer K S) where
  abbrev pub State : Type 0
  State = List (K × Buffer) × S

  unfoldable pub open_file : K → FileInfo → State → ℤ × State
  open_file path fi (buffers, s) =
      let (r, s') = next (Request.open_file path fi) s in
      (r.res, (emplace deck path new_buffer buffers, s'))

  unfoldable pub release : K → FileInfo → State → ℤ × State
  release path fi (buffers, s) =
      let (r, s') = next (Request.release path fi) s in (r.res, (erase deck path buffers, s'))

  -- the read of the next layer, at least as long as the configured size
  unfoldable pub fetch : K → ℕ → ℕ → FileInfo → Buffer → State → Outcome × State
  fetch path size offset fi b (buffers, s) =
      let buf_size = max size size_ in
      let (r, s') = next (Request.read path buf_size (pos offset) fi) s in
      let new_buf = fill (replicate buf_size 0) r.buf in
      let n = min (count r.res) size in
      if is_neg r.res then (failed r.res, (buffers, s')) else (
        done n (take n new_buf),
        (assign deck path (update (count r.res) offset new_buf b) buffers, s'),
      )

  -- `buffers_.find(path)->second`, of a path that has no buffer, is undefined.
  unfoldable pub read : K → ℕ → ℕ → FileInfo → State → Outcome × State
  read path size offset fi (buffers, s) = elim (find deck path buffers) [
    | none ↦ (undefined, (buffers, s))
    | some b ↦ elim (buffer_read size offset b) [
      | some o ↦ (o, (buffers, s))
      | none ↦ fetch path size offset fi b (buffers, s)
    ]
  ]
