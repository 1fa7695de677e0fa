-- ===== src/AsyncClient/Merge.antt =====
-- One request: how many blocks `send_block` of lib/fuse_rpc/grpc/async_client.cpp merges into it, and
-- the bytes that it asks for.
use rsafe_fs.Base.{
  ℕ, suc, ◌+◌, ◌≤◌, ◌≡◌, refl, sym, ap, ◌∙◌, true, List, [], ◌∷◌, ◌++◌, some, leb, ◌&&◌, take,
  length, All, length-append, take_of_length-le, Bool-cases, inl, inr, arith,
}
use mathlib.Core.List.{append-nil}
use rsafe_fs.Fuse.{FileInfo}
use rsafe_fs.AsyncClient.{Block, WriteRequest, same_info, is_mergeable, merge, gather, send_block}

-- One byte that is to be written: of which path, through which handle, where, and which.
abbrev pub ByteWrite : Type 0 → Type 0
ByteWrite K = K × FileInfo × ℕ × ℕ

unfoldable pub spread : {K : Type 0} → K → FileInfo → ℕ → List ℕ → List (ByteWrite K)
spread path fi offset [] = []
spread path fi offset (b ∷ bs) = (path, fi, offset, b) ∷ spread path fi (offset + 1) bs

-- The byte writes of the blocks, in the order of the calls of `write`; and of the requests.
unfoldable pub of_blocks : {K : Type 0} → List (Block K) → List (ByteWrite K)
of_blocks [] = []
of_blocks (b ∷ bs) = spread b.path b.fi b.offset b.buf ++ of_blocks bs

-- The server writes the first `size` bytes of `buf`.
unfoldable pub of_requests : {K : Type 0} → List (WriteRequest K) → List (ByteWrite K)
of_requests [] = []
of_requests (r ∷ rs) = spread r.path r.info r.offset (take r.size r.buf) ++ of_requests rs

-- A block as `write` makes it.
abbrev pub IsSized : {K : Type 0} → Block K → Type 0
IsSized b = b.size ≡ length b.buf

spread-append :
    {K : Type 0} (path : K) (fi : FileInfo) (offset : ℕ) (xs ys : List ℕ)
    → spread path fi offset (xs ++ ys)
      ≡ spread path fi offset xs ++ spread path fi (offset + length xs) ys
unfolding spread
spread-append path fi offset [] ys = ap (λ n. spread path fi n ys) (omega arith)
spread-append path fi offset (x ∷ xs) ys = ap (◌∷◌ (path, fi, offset, x)) (
    spread-append path fi (offset + 1) xs ys
    ∙ ap (λ n. spread path fi (offset + 1) xs ++ spread path fi n ys) {x = offset + 1 + length xs}
        {y = offset + suc (length xs)} (omega arith))

same_info_lem : (a b : FileInfo) → same_info a b ≡ true → a ≡ b
unfolding same_info
same_info_lem a b h = ground arith

module _ {K : Type 0} (dec : Discrete K) where
  -- What the test of `is_mergeable` gives.
  is_mergeable_lem :
      (a b : Block K)
      → is_mergeable dec a b ≡ true
      → (a.path ≡ b.path) × (a.offset + a.size ≡ b.offset) × (a.fi ≡ b.fi)
  unfolding is_mergeable
  is_mergeable_lem a b h = elim (dec a.path b.path) [
    | yes p ↦ (p, ground arith, same_info_lem a.fi b.fi (ground arith))
    | no n ↦ absurd (ground arith)
  ]

  module _ (max_block_size : ℕ) where
    -- What the loop takes of the blocks behind the one that it has just taken.
    merge_lem :
        (n size : ℕ) (last : Block K) (bs : List (Block K))
        → IsSized last
        → All IsSized bs
        → (k : ℕ) × ((merge dec max_block_size n size last bs).0 ≡ n + k)
          × ((merge dec max_block_size n size last bs).1
              ≡ size + length (gather dec max_block_size (take k bs)))
          × (k ≤ length bs)
          × (of_blocks (take k bs)
              ≡ spread last.path last.fi
                  (last.offset + last.size)
                  (gather dec max_block_size (take k bs)))
    unfolding merge gather of_blocks spread
    merge_lem n size last [] sized all = (0, omega arith, omega arith, omega arith, refl)
    merge_lem n size last (b ∷ bs) sized all =
        elim (Bool-cases (leb (size + b.size) max_block_size && is_mergeable dec last b)) [
          | inr stops ↦ (0, ground arith, ground arith, omega arith, refl)
          | inl goes ↦
              let (k, counted, summed, within, same) =
                merge_lem (n + 1) (size + b.size) b bs all.0 all.1 in
              let fits : is_mergeable dec last b ≡ true = ground arith in
              let (path, place, info) = is_mergeable_lem last b fits in
              let whole : take b.size b.buf ≡ b.buf =
                take_of_length-le b.size b.buf (omega (arith, all.0)) in
              let rest = gather dec max_block_size (take k bs) in
              let start : b.offset + b.size ≡ b.offset + length b.buf =
                ap (λ (m : ℕ). b.offset + m) all.0 in
              (
                suc k,
                ground arith,
                ground (arith, length-append b.buf rest, all.0),
                omega arith,
                rw (whole, path, place, info)
                    (ap (λ l. spread b.path b.fi b.offset b.buf ++ l)
                        (same ∙ ap (λ m. spread b.path b.fi m rest) start)
                      ∙ sym (spread-append b.path b.fi b.offset b.buf rest)),
              )
        ]

    -- The first request: of how many blocks, and that it asks for their bytes.
    pub send_block_lem :
        (first : Block K) (bs : List (Block K))
        → All IsSized (first ∷ bs)
        → (r : WriteRequest K) × (k : ℕ) × (send_block dec max_block_size (first ∷ bs)
            ≡ some (r, suc k))
          × (k ≤ length bs)
          × (r.size ≡ length r.buf)
          × (of_blocks (take (suc k) (first ∷ bs))
              ≡ spread r.path r.info r.offset (take r.size r.buf))
    unfolding send_block of_blocks gather
    send_block_lem first [] all =
        let whole : take first.size first.buf ≡ first.buf =
          take_of_length-le first.size first.buf (omega (arith, all.0)) in
        let r : WriteRequest K = record {
          path = first.path;
          offset = first.offset;
          info = first.fi;
          buf = take first.size first.buf;
          size = first.size;
        } in
        let sized : r.size ≡ length r.buf = omega (arith, all.0, ap (length {A = ℕ}) whole) in
        (
          r,
          0,
          refl,
          omega arith,
          sized,
          append-nil (spread first.path first.fi first.offset first.buf)
              ∙ ap (spread first.path first.fi first.offset)
                  (sym whole ∙ sym (take_of_length-le r.size r.buf (omega (arith, sized)))),
        )
    send_block_lem first (second ∷ bs) all =
        let (k, counted, summed, within, same) =
          merge_lem 1 first.size first (second ∷ bs) all.0 all.1 in
        let whole : take first.size first.buf ≡ first.buf =
          take_of_length-le first.size first.buf (omega (arith, all.0)) in
        let rest = gather dec max_block_size (take k (second ∷ bs)) in
        let sent : ℕ → WriteRequest K = λ n. record {
          path = first.path;
          offset = first.offset;
          info = first.fi;
          buf = gather dec max_block_size (take n (first ∷ second ∷ bs));
          size = (merge dec max_block_size 1 first.size first (second ∷ bs)).1;
        } in
        let r = sent (suc k) in
        let sized : r.size ≡ length r.buf =
          summed ∙ rw whole (omega (arith, length-append first.buf rest, all.0)) in
        (
          r,
          k,
          ap (λ n. some (sent n, n)) {y = suc k} (counted ∙ omega arith),
          within,
          sized,
          ap (λ l. spread first.path first.fi first.offset first.buf ++ l)
                (same ∙ ap (λ (m : ℕ). spread first.path first.fi (first.offset + m) rest) all.0)
              ∙ sym (spread-append first.path first.fi first.offset first.buf rest)
              ∙ ap (λ l. spread first.path first.fi first.offset (l ++ rest)) (sym whole)
              ∙ ap (spread first.path first.fi first.offset)
                  (sym (take_of_length-le r.size r.buf (omega (arith, sized)))),
        )
