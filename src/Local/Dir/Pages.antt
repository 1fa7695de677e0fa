-- ===== src/Local/Dir/Pages.antt =====
-- A directory read in pages.
use rsafe_fs.Base.{
  take-nil, drop-nil, ℕ, zero, suc, ◌<◌, ◌≡◌, refl, sym, ap, ◌∙◌, arith, Bool, true, false, List,
  [], ◌∷◌, ◌++◌, none, some, length, take, drop, ℤ,
}
use mathlib.Core.List.{append-nil, append_assoc}
use rsafe_fs.Fuse.{DirEntry}
use rsafe_fs.Local.Dir.{Dirent, DirStream, LocalDirp, filled_entry, next_entry, fill_loop}

-- A filler with room for some entries, and what it has taken.
abbrev pub page_filler : DirEntry → ℕ × List DirEntry → Bool × (ℕ × List DirEntry)
page_filler e (zero, l) = (true, (zero, l))
page_filler e (suc room, l) = (false, (room, l ++ (e ∷ [])))

-- The offset that a caller passes next: that of the last entry it took, if there is one.
abbrev pub last_offset : ℤ → List DirEntry → ℤ
last_offset o [] = o
last_offset o (e ∷ es) = last_offset e.offset es

module _ {D : Type 0} (dir : DirStream D) (at : ℕ → D) (cookie : ℕ → ℤ) where
  -- A directory with some entries, which does not change: `readdir` gives them one behind the other,
  -- and a position is told by an offset that leads back to it.
  pub record Lists (entries : List Dirent) : Type 0 where
    pub reads_end : (i : ℕ) → drop i entries ≡ [] → dir.read_entry (at i) ≡ (none, at i)
    pub reads :
        (i : ℕ) (e : Dirent) (es : List Dirent)
        → drop i entries ≡ e ∷ es
        → dir.read_entry (at i) ≡ (some e, at (suc i))
    pub tells : (i : ℕ) → dir.tell (at i) ≡ cookie i
    pub seeks : (i : ℕ) (d : D) → dir.seek (cookie i) d ≡ at i

  -- the entries from a position on, as they are given to a filler
  unfoldable pub listing : ℕ → List Dirent → List DirEntry
  listing i [] = []
  listing i (e ∷ es) = filled_entry e (cookie (suc i)) ∷ listing (suc i) es

  -- A stream stands before an entry, which it may have read already.
  pub data Stands (entries : List Dirent) (i : ℕ) (d : LocalDirp D) : Type 0 where
    before : d.dp ≡ at i → d.entry ≡ none → Stands entries i d
    kept :
        (e : Dirent) (es : List Dirent)
        → drop i entries ≡ e ∷ es
        → d.dp ≡ at (suc i)
        → d.entry ≡ some e
        → Stands entries i d

  module _ (entries : List Dirent) (h : Lists entries) where
    next_end :
        (i : ℕ) (d : LocalDirp D)
        → Stands entries i d
        → drop i entries ≡ []
        → next_entry dir page_filler d ≡ (none, at i)
    unfolding next_entry
    next_end i d (before p e) none_left = rw (next_entry, e, p) (h.reads_end i none_left)
    next_end i d (kept e es some_left p q) none_left = absurd cc

    next_some :
        (i : ℕ) (d : LocalDirp D) (e : Dirent) (es : List Dirent)
        → Stands entries i d
        → drop i entries ≡ e ∷ es
        → next_entry dir page_filler d ≡ (some e, at (suc i))
    unfolding next_entry
    next_some i d e es (before p q) left = rw (next_entry, q, p) (h.reads i e es left)
    next_some i d e es (kept e' es' left' p q) left =
        let same : e' ≡ e = cc in rw (next_entry, q, p, same) refl

    drop-suc :
        (i : ℕ) (l : List Dirent) (e : Dirent) (es : List Dirent)
        → drop i l ≡ e ∷ es
        → drop (suc i) l ≡ es
    drop-suc zero [] e es p = cc
    drop-suc zero (x ∷ l) e es p = cc
    drop-suc (suc i) [] e es p = cc
    drop-suc (suc i) (x ∷ l) e es p = drop-suc i l e es p

    -- One turn of the loop at an entry that the filler takes, and at one for which it has no room.
    loop_takes :
        (fuel i room : ℕ) (l : List DirEntry) (d : LocalDirp D) (e : Dirent) (es : List Dirent)
        → Stands entries i d
        → drop i entries ≡ e ∷ es
        → fill_loop dir page_filler (suc fuel) d (suc room, l)
          ≡ fill_loop dir page_filler fuel
              (record { dp = at (suc i); entry = none; offset = cookie (suc i) })
              (room, l ++ (filled_entry e (cookie (suc i)) ∷ []))
    unfolding fill_loop
    loop_takes fuel i room l d e es st left =
        let n = next_some i d e es st left in
        rw (fill_loop, ap (λ x. x.0) n, ap (λ x. x.1) n, h.tells (suc i)) refl

    loop_full :
        (fuel i : ℕ) (l : List DirEntry) (d : LocalDirp D) (e : Dirent) (es : List Dirent)
        → Stands entries i d
        → drop i entries ≡ e ∷ es
        → fill_loop dir page_filler (suc fuel) d (zero, l)
          ≡ some (record d { dp = at (suc i); entry = some e }, (zero, l))
    unfolding fill_loop
    loop_full fuel i l d e es st left =
        let n = next_some i d e es st left in rw (fill_loop, ap (λ x. x.0) n, ap (λ x. x.1) n) refl

    loop_end :
        (fuel i room : ℕ) (l : List DirEntry) (d : LocalDirp D)
        → Stands entries i d
        → drop i entries ≡ []
        → fill_loop dir page_filler (suc fuel) d (room, l)
          ≡ some (record d { dp = at i; entry = none }, (room, l))
    unfolding fill_loop
    loop_end fuel i room l d st left =
        let n = next_end i d st left in rw (fill_loop, ap (λ x. x.0) n, ap (λ x. x.1) n) refl

    -- the position behind a page
    abbrev pub stop : ℕ → ℕ → List Dirent → ℕ
    stop i room [] = i
    stop i zero (e ∷ es) = i
    stop i (suc room) (e ∷ es) = stop (suc i) room es

    pub fill_loop_lem :
        (fuel i room : ℕ) (l : List DirEntry) (d : LocalDirp D) (es : List Dirent)
        → Stands entries i d
        → drop i entries ≡ es
        → length es < fuel
        → (d' : LocalDirp D) × (left : ℕ) × (fill_loop dir page_filler fuel d (room, l)
            ≡ some (d', (left, l ++ listing i (take room es))))
          × Stands entries (stop i room es) d'
          × (drop (stop i room es) entries ≡ drop room es)
          × (d'.offset ≡ last_offset d.offset (listing i (take room es)))
    unfolding listing filled_entry
    fill_loop_lem zero i room l d es st p enough = absurd (omega arith)
    fill_loop_lem (suc fuel) i room l d [] st p enough = (
      record d { dp = at i; entry = none },
      room,
      loop_end fuel i room l d st p
          ∙ ap (λ k. some (record d { dp = at i; entry = none }, (room, k)))
              (rw (take-nil room) (sym (append-nil l))),
      before refl refl,
      p ∙ sym (drop-nil room),
      rw (take-nil room) refl,
    )
    fill_loop_lem (suc fuel) i zero l d (e ∷ es) st p enough = (
      record d { dp = at (suc i); entry = some e },
      zero,
      loop_full fuel i l d e es st p
          ∙ ap (λ k. some (record d { dp = at (suc i); entry = some e }, (zero, k)))
              (sym (append-nil l)),
      kept e es p refl refl,
      p,
      refl,
    )
    fill_loop_lem (suc fuel) i (suc room) l d (e ∷ es) st p enough =
        let next : LocalDirp D = record {
          dp = at (suc i);
          entry = none;
          offset = cookie (suc i);
        } in
        let l' : List DirEntry = l ++ (filled_entry e (cookie (suc i)) ∷ []) in
        let (d', left, same, st', rest, last) =
          fill_loop_lem fuel (suc i) room l' next es (before refl refl) (drop-suc i entries e es p)
            (omega arith) in
        (
          d',
          left,
          loop_takes fuel i room l d e es st p
              ∙ same
              ∙ ap (λ k. some (d', (left, k)))
                  (append_assoc l (filled_entry e (cookie (suc i)) ∷ [])
                    (listing (suc i) (take room es))),
          st',
          rest,
          last,
        )
