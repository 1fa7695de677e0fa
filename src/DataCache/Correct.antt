-- ===== src/DataCache/Correct.antt =====
-- Reads through the cache, against the file that the next layer serves.
pub mod Loop
pub mod Read
pub mod Session
use rsafe_fs.Base.{
  ℕ, zero, suc, ◌+◌, ◌-◌, ◌*◌, ◌/◌, ◌%◌, ◌≤◌, ◌<◌, ◌≡◌, refl, sym, ap, ◌∙◌, min, Bool, true, false,
  List, [], ◌∷◌, ◌++◌, Option, none, some, arith, ◌==◌, leb, if◌then◌else◌, length, take, drop,
  length-take, length-drop, length-append, take-drop-take, take_add, drop-drop, take_of_length-le,
  take_append, drop_of_length-le, Option-cases, Bool-cases, inl, inr, ◌⊎◌, ℤ, pos,
}
use native.Mathlib.Nat.{div-add-mod, mod-lt}
use rsafe_fs.Fuse.{FileInfo, Timespec, Request, Reply}
use rsafe_fs.Fuse
use rsafe_fs.DataCache.{Block, Progress, size_mod, sub_size, fill, copy, count, same_time}
use rsafe_fs.DataCache.Bounds.{sub_size-sub}

module _ (file : List ℕ) where
  -- the bytes of the file that a read of `n` at `o` gives
  abbrev pub slice : ℕ → ℕ → List ℕ
  slice n o = take n (drop o file)

  pub length-slice : (n o : ℕ) → length (slice n o) ≡ min n (length file - o)
  length-slice n o = length-take n (drop o file) ∙ ap (min n) (length-drop o file)

  -- Two slices, one behind the other.
  pub slice_add : (n m o : ℕ) → slice n o ++ slice m (o + n) ≡ slice (n + m) o
  slice_add n m o =
      ap (λ l. slice n o ++ take m l) (sym (drop-drop n o file)) ∙ take_add n m (drop o file)

  -- Once the file has ended, a longer read gives no more.
  pub slice_end : (n m o : ℕ) → n ≤ m → length file ≤ o + n → slice n o ≡ slice m o
  slice_end n m o h end =
      take_of_length-le n (drop o file) (omega (arith, length-drop o file))
      ∙ sym (take_of_length-le m (drop o file) (omega (arith, length-drop o file)))

  -- The next layer serves the file at the path while `Holds` of its state.
  pub record IsServed {K S : Type 0} (next : Fuse.Layer K S) (clock : S → ℕ × S) (path : K)
      (Holds : S → Type 0) : Type 0 where
    pub read_res :
        (n o : ℕ) (fi : FileInfo) (s : S)
        → Holds s
        → (next (Request.read path n (pos o) fi) s).0.res ≡ pos (length (slice n o))
    pub read_buf :
        (n o : ℕ) (fi : FileInfo) (s : S)
        → Holds s
        → (next (Request.read path n (pos o) fi) s).0.buf ≡ slice n o
    pub read_holds :
        (n o : ℕ) (fi : FileInfo) (s : S)
        → Holds s
        → Holds (next (Request.read path n (pos o) fi) s).1
    pub clock_holds : (s : S) → Holds s → Holds (clock s).1

  module _ (block_size : ℕ) where
    -- The block holds its part of the file.
    pub record IsFresh (id : ℕ) (b : Block) : Type 0 where
      pub start : b.offset ≡ id * block_size
      pub room : length b.buf ≡ block_size
      pub size_eq : b.size ≡ length (slice block_size (id * block_size))
      pub content : take b.size b.buf ≡ slice block_size (id * block_size)

    -- A byte of a fresh block is the file's byte.
    pub copy-IsFresh :
        (id at n : ℕ) (b : Block)
        → IsFresh id b
        → at + n ≤ b.size
        → copy b.buf at n ≡ some (slice n (id * block_size + at))
    unfolding copy
    copy-IsFresh id at n b f h =
        let within : at + n ≤ block_size =
          omega (arith, f.size_eq, length-slice block_size (id * block_size)) in
        let same : take n (drop at b.buf) ≡ slice n (id * block_size + at) =
          sym (take-drop-take n at b.size b.buf h)
          ∙ ap (λ l. take n (drop at l)) f.content
          ∙ take-drop-take n at block_size (drop (id * block_size) file) within
          ∙ ap (take n) (drop-drop at (id * block_size) file) in
        ground (arith, same, f.room)

    -- What a read of the block leaves in its buffer.
    pub fill-IsFresh :
        (id time : ℕ) (old : List ℕ) (mtime : Timespec)
        → length old ≡ block_size
        → IsFresh id (record {
          buf = fill old (slice block_size (id * block_size));
          size = length (slice block_size (id * block_size));
          offset = id * block_size;
          timestamp = time;
          mtime = mtime;
        })
    unfolding fill
    fill-IsFresh id time old mtime h =
        let l = slice block_size (id * block_size) in
        record {
          start = refl;
          room =
              length-append l (drop (length l) old)
              ∙ omega
                  (arith, length-drop (length l) old, length-slice block_size (id * block_size));
          size_eq = refl;
          content = take_append l (drop (length l) old);
        }

    pub reread-IsFresh :
        (id time o : ℕ) (old : List ℕ) (r : Reply) (mtime : Timespec)
        → length old ≡ block_size
        → o ≡ id * block_size
        → r.res ≡ pos (length (slice block_size o))
        → r.buf ≡ slice block_size o
        → IsFresh id (record {
          buf = fill old r.buf;
          size = count r.res;
          offset = o;
          timestamp = time;
          mtime = mtime;
        })
    reread-IsFresh id time o old r mtime room e res buf =
        rw (res, buf, e) (fill-IsFresh id time old mtime room)
