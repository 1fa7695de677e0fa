-- ===== src/ReadAhead/Correct.antt =====
-- Reads through the buffers, against the file that the next layer serves.
use rsafe_fs.Base.{
  ℕ, ◌+◌, ◌-◌, ◌≤◌, ◌≡◌, sym, ap, ap₂, ◌∙◌, min, true, List, ◌++◌, ℤ-cases, dec_le, length-take,
  some, arith, length, take, drop, length-append, take-drop-take, take_append, drop-drop, inl, inr,
  pos,
}
use rsafe_fs.DataCache.{copy}
use rsafe_fs.DataCache.Correct.{slice, slice_end, length-slice}
use rsafe_fs.ReadAhead.{Buffer, Outcome, done, update, holds, position, buffer_read}

-- What a buffer holds from its offset on is the file's.
pub record IsBuffered (file : List ℕ) (b : Buffer) : Type 0 where
  pub room : b.size ≤ length b.buf
  pub content : (o : ℕ) → b.offset ≡ pos o → take b.size b.buf ≡ slice file b.size o

pos-inj : {m n : ℕ} → pos m ≡ pos n → m ≡ n
pos-inj h = cc

take_prefix : (n : ℕ) (xs ys : List ℕ) → n ≤ length xs → take n (xs ++ ys) ≡ take n xs
take_prefix n xs ys h =
    sym (take-drop-take n 0 (length xs) (xs ++ ys) (omega arith)) ∙ ap (take n) (take_append xs ys)

module _ (file : List ℕ) where
  abbrev pub expected : ℕ → ℕ → Outcome
  expected size offset = done (length (slice file size offset)) (slice file size offset)

  -- The test passes only for bytes behind the buffer's offset, within its size.
  holds_inv :
      (size offset : ℕ) (b : Buffer)
      → holds size offset b ≡ true
      → (o : ℕ) × (b.offset ≡ pos o) × (o ≤ offset) × (offset + size ≤ o + b.size)
  unfolding holds
  holds_inv size offset b h = elim (ℤ-cases b.offset) [
    | inl (o, e) ↦ (o, e, ground arith, ground arith)
    | inr (n, e) ↦ absurd (ground arith)
  ]

  -- What a hit copies.
  hit_bytes :
      (size offset o : ℕ) (b : Buffer)
      → IsBuffered file b
      → b.offset ≡ pos o
      → o ≤ offset
      → offset + size ≤ o + b.size
      → copy b.buf (offset - o) size ≡ some (slice file size offset)
  unfolding copy
  hit_bytes size offset o b k e low high =
      let same : take size (drop (offset - o) b.buf) ≡ slice file size offset =
        sym (take-drop-take size (offset - o) b.size b.buf (omega arith))
        ∙ ap (λ l. take size (drop (offset - o) l)) (k.content o e)
        ∙ take-drop-take size (offset - o) b.size (drop o file) (omega arith)
        ∙ ap (take size) (drop-drop (offset - o) o file)
        ∙ ap (λ n. take size (drop n file)) {x = o + (offset - o)} (omega arith) in
      ground (arith, same, k.room)

  hit_length :
      (size offset o : ℕ) (b : Buffer)
      → IsBuffered file b
      → b.offset ≡ pos o
      → o ≤ offset
      → offset + size ≤ o + b.size
      → size ≡ length (slice file size offset)
  hit_length size offset o b k e low high =
      let all : length (take b.size b.buf) ≡ length (slice file b.size o) =
        ap (length {A = ℕ}) (k.content o e) in
      omega (
        arith,
        all,
        length-take b.size b.buf,
        k.room,
        length-slice file b.size o,
        length-slice file size offset,
      )

  pub buffer_read_hit :
      (size offset : ℕ) (b : Buffer)
      → IsBuffered file b
      → holds size offset b ≡ true
      → buffer_read size offset b ≡ some (expected size offset)
  unfolding buffer_read position
  buffer_read_hit size offset b k h =
      let (o, e, low, high) = holds_inv size offset b h in
      rw (h, buffer_read, e, hit_bytes size offset o b k e low high)
        (ap (λ n. some (done n (slice file size offset))) (hit_length size offset o b k e low high))

  -- What a miss leaves of the longer read.
  pub miss_bytes :
      (size req offset : ℕ) (zeros : List ℕ)
      → size ≤ req
      → let n = min (length (slice file req offset)) size in
        done n (take n (slice file req offset ++ zeros)) ≡ expected size offset
  miss_bytes size req offset zeros h =
      let n = min (length (slice file req offset)) size in
      let l₁ = length-slice file req offset in
      let l₂ = length-slice file size offset in
      let front : take n (slice file req offset ++ zeros) ≡ slice file n offset =
        take_prefix n (slice file req offset) zeros (omega arith)
        ∙ take-drop-take n 0 req (drop offset file) (omega arith) in
      let same : slice file n offset ≡ slice file size offset =
        elim (dec_le size (length (slice file req offset))) [
          | yes all ↦ ap (λ k. slice file k offset) {x = n} {y = size} (omega arith)
          | no short ↦ slice_end file n size offset (omega arith) (omega arith)
        ] in
      ap₂ done {x = n} (omega arith) (front ∙ same)

  slice_self : (n o : ℕ) → slice file n o ≡ slice file (length (slice file n o)) o
  slice_self n o =
      let l = length-slice file n o in
      elim (dec_le n (length (slice file n o))) [
        | yes all ↦ ap (λ k. slice file k o) {x = n} (omega arith)
        | no short ↦ sym (slice_end file (length (slice file n o)) n o (omega arith) (omega arith))
      ]

  -- What a miss puts into the buffer.
  pub fetched-IsBuffered :
      (req offset : ℕ) (zeros : List ℕ) (b : Buffer)
      → IsBuffered file
          (update (length (slice file req offset)) offset (slice file req offset ++ zeros) b)
  unfolding update
  fetched-IsBuffered req offset zeros b = record {
    room = omega (arith, length-append (slice file req offset) zeros);
    content = λ o e.
        take_append (slice file req offset) zeros
        ∙ slice_self req offset
        ∙ ap (λ k. slice file (length (slice file req offset)) k) (pos-inj e);
  }
