-- ===== src/Local/Dir/Session.antt =====
-- A directory that is opened and read in pages, each from the offset of the last entry before it.
use rsafe_fs.Base.{
  ℕ, zero, suc, ◌+◌, ◌<◌, ◌≡◌, refl, sym, ap, ◌∙◌, arith, true, List, [], ◌∷◌, ◌++◌, Option, none,
  some, length, take, drop, ℤ, pos, negsuc, take-nil, length-drop,
}
use rsafe_fs.Fuse.{DirEntry}
use rsafe_fs.Local.Dir.{
  filled_entry, Dirent, DirStream, LocalDirp, same_offset, local_readdir, local_opendir,
}
use rsafe_fs.Local.Dir.Pages.{
  page_filler, last_offset, Lists, listing, Stands, before, stop, fill_loop_lem,
}

-- The pages that a caller reads, with room for so many entries each.
unfoldable pub read_pages :
    {D : Type 0} → DirStream D → ℕ → List ℕ → ℤ → LocalDirp D → Option (LocalDirp D × List DirEntry)
read_pages dir fuel [] offset d = some (d, [])
read_pages dir fuel (room ∷ rooms) offset d =
    elim (local_readdir dir page_filler fuel offset d (room, [])) [
      | none ↦ none
      | some (d', (left, page)) ↦ elim (read_pages dir fuel rooms (last_offset offset page) d') [
        | none ↦ none
        | some (end, pages) ↦ some (end, page ++ pages)
      ]
    ]

abbrev pub total_room : List ℕ → ℕ
total_room [] = 0
total_room (n ∷ ns) = n + total_room ns

same_offset_self : (x : ℤ) → same_offset x x ≡ true
unfolding same_offset
same_offset_self (pos n) = ground arith
same_offset_self (negsuc n) = ground arith

module _ {D : Type 0} (dir : DirStream D) (at : ℕ → D) (cookie : ℕ → ℤ) (entries : List Dirent)
    (h : Lists dir at cookie entries) where
  listing-stop :
      (i room n : ℕ) (es : List Dirent)
      → listing dir at cookie i (take room es)
          ++ listing dir at cookie (stop dir at cookie entries h i room es) (take n (drop room es))
        ≡ listing dir at cookie i (take (room + n) es)
  unfolding listing
  listing-stop i zero n [] =
      ap (λ k. listing dir at cookie i (take k [])) {x = n} {y = 0 + n} (omega arith)
  listing-stop i zero n (e ∷ es) =
      ap (λ k. listing dir at cookie i (take k (e ∷ es))) {x = n} {y = 0 + n} (omega arith)
  listing-stop i (suc room) n [] =
      ap (listing dir at cookie i) (take-nil n ∙ sym (take-nil (suc room + n)))
  listing-stop i (suc room) n (e ∷ es) =
      ap (◌∷◌ (filled_entry e (cookie (suc i)))) (listing-stop (suc i) room n es)
      ∙ ap (λ k. listing dir at cookie i (take k (e ∷ es))) {x = suc (room + n)} {y = suc room + n}
          (omega arith)

  read_pages_lem :
      (rooms : List ℕ) (fuel i : ℕ) (d : LocalDirp D) (es : List Dirent)
      → Stands dir at cookie entries i d
      → drop i entries ≡ es
      → length es < fuel
      → (d' : LocalDirp D) × (read_pages dir fuel rooms d.offset d
          ≡ some (d', listing dir at cookie i (take (total_room rooms) es)))
  unfolding read_pages listing local_readdir
  read_pages_lem [] fuel i d es st p enough = (d, refl)
  read_pages_lem (room ∷ rooms) fuel i d es st p enough =
      let (d', left, same, st', rest, last) =
        fill_loop_lem dir at cookie entries h fuel i room [] d es st p enough in
      let page = listing dir at cookie i (take room es) in
      let j = stop dir at cookie entries h i room es in
      let first : local_readdir dir page_filler fuel d.offset d (room, [])
          ≡ some (d', (left, page)) =
        rw (local_readdir, same_offset_self d.offset) same in
      let (end, pages) =
        read_pages_lem rooms fuel j d' (drop room es) st' rest
          (omega (arith, enough, length-drop room es)) in
      (
        end,
        rw (read_pages, first, sym last, pages)
            (ap (λ k. some (end, k)) (listing-stop i room (total_room rooms) es)),
      )

  -- A directory that does not change, opened and read in pages of any sizes, each from the offset of
  -- the last entry that the caller took, gives its entries in order, each once, as many as there was
  -- room for; a page ends within as many turns as there are entries and one more.
  pub read_pages-listing :
      (rooms : List ℕ)
      → let d : LocalDirp D = record { dp = at 0; entry = none; offset = pos 0 } in
        (d' : LocalDirp D) × (local_opendir (some (at 0)) 0 ≡ (pos 0, some d))
        × (read_pages dir (length entries + 1) rooms (pos 0) d
            ≡ some (d', listing dir at cookie 0 (take (total_room rooms) entries)))
  unfolding local_opendir
  read_pages-listing rooms =
      let (d', pages) =
        read_pages_lem rooms (length entries + 1) 0
          (record { dp = at 0; entry = none; offset = pos 0 }) entries (before refl refl) refl
          (omega arith) in
      (d', refl, pages)
