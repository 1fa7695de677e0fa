-- ===== src/ReadAhead/History.antt =====
-- Histories of one path: opens, reads and releases, in any order in which an open stands between each
-- release and the reads behind it (lib/layers/read_ahead/read_ahead_cache.cpp). Any release drops the
-- buffer of the path, also while another handle is open.
use rsafe_fs.Base.{
  ℕ, ◌≡◌, refl, sym, ap, ap₂, subst, ◌∙◌, max, Bool, true, false, List, [], ◌∷◌, ◌++◌, none, some,
  is_some, arith, length, drop, replicate, Option-cases, Bool-cases, inl, inr, ◌&&◌,
}
use rsafe_fs.Base.Dict.{
  find, erase, emplace, find-assign_self, is_some-emplace_self, find-emplace_inv, find-erase,
}
use rsafe_fs.Fuse.{FileInfo, Request}
use rsafe_fs.Fuse
use rsafe_fs.DataCache.{fill}
use rsafe_fs.DataCache.Correct.{slice, IsServed}
use rsafe_fs.ReadAhead
use rsafe_fs.ReadAhead.{
  Buffer, Outcome, done, State, new_buffer, update, holds, buffer_read, open_file, release, fetch,
}
use rsafe_fs.ReadAhead.Correct.{
  IsBuffered, expected, buffer_read_hit, miss_bytes, fetched-IsBuffered,
}

pub data Call : Type 0 where
  opens : FileInfo → Call
  reads : ℕ → ℕ → FileInfo → Call
  releases : FileInfo → Call

-- A path is read only behind an open with no release between the two, by whichever handle.
unfoldable pub in_order : Bool → List Call → Bool
in_order has_buffer [] = true
in_order has_buffer (opens fi ∷ cs) = in_order true cs
in_order has_buffer (reads size offset fi ∷ cs) = has_buffer && in_order has_buffer cs
in_order has_buffer (releases fi ∷ cs) = in_order false cs

-- What the reads of a history give, by the file alone.
unfoldable pub answers : List ℕ → List Call → List Outcome
answers file [] = []
answers file (reads size offset fi ∷ cs) = expected file size offset ∷ answers file cs
answers file (c ∷ cs) = answers file cs

abbrev pub no_clock : {S : Type 0} → S → ℕ × S
no_clock s = (0, s)

new_buffer-IsBuffered : (file : List ℕ) → IsBuffered file new_buffer
new_buffer-IsBuffered file = record { room = omega arith; content = λ o e. cc }

module _ (file : List ℕ) {K : Type 0} (deck : Discrete K) (size_ : ℕ) {S : Type 0}
    (next : Fuse.Layer K S) (path : K) where
  -- What the reads of a history give.
  unfoldable pub run : List Call → State deck size_ next → List Outcome
  run [] st = []
  run (opens fi ∷ cs) st = run cs (open_file deck size_ next path fi st).1
  run (reads size offset fi ∷ cs) st =
      let (o, st') = ReadAhead.read deck size_ next path size offset fi st in o ∷ run cs st'
  run (releases fi ∷ cs) st = run cs (release deck size_ next path fi st).1

  abbrev pub IsCoherent : List (K × Buffer) → Type 0
  IsCoherent buffers = (b : Buffer) → find deck path buffers ≡ some b → IsBuffered file b

  -- The next layer serves the file, and the opens and releases of the path leave it served.
  pub record IsStable (Holds : S → Type 0) : Type 0 where
    pub served : IsServed file next no_clock path Holds
    pub open_holds :
        (fi : FileInfo) (s : S) → Holds s → Holds (next (Request.open_file path fi) s).1
    pub release_holds :
        (fi : FileInfo) (s : S) → Holds s → Holds (next (Request.release path fi) s).1

  module _ (Holds : S → Type 0) (stable : IsStable Holds) where
    abbrev IsRead : ℕ → ℕ → Outcome × State deck size_ next → Type 0
    IsRead size offset (o, (buffers, s)) =
        (o ≡ expected file size offset)
        × IsCoherent buffers
        × Holds s
        × (is_some (find deck path buffers) ≡ true)

    fetch-IsRead :
        (size offset : ℕ) (fi : FileInfo) (b : Buffer) (buffers : List (K × Buffer)) (s : S)
        → Holds s
        → IsRead size offset (fetch deck size_ next path size offset fi b (buffers, s))
    unfolding fetch fill
    fetch-IsRead size offset fi b buffers s h =
        let req = max size size_ in
        let served = stable.served in
        let new : List ℕ = slice file req offset in
        let zeros : List ℕ = drop (length new) (replicate req 0) in
        let b' : Buffer = update (length new) offset (new ++ zeros) b in
        let put = find-assign_self deck path b' buffers in
        rw (served.read_res req offset fi s h, served.read_buf req offset fi s h)
          (
            miss_bytes file size req offset zeros (omega arith),
            (λ c e.
                let same : b' ≡ c = cc in
                subst (IsBuffered file) same (fetched-IsBuffered file req offset zeros b)),
            served.read_holds req offset fi s h,
            ap is_some put,
          )

    read-IsRead :
        (size offset : ℕ) (fi : FileInfo) (buffers : List (K × Buffer)) (s : S)
        → is_some (find deck path buffers) ≡ true
        → IsCoherent buffers
        → Holds s
        → IsRead size offset (ReadAhead.read deck size_ next path size offset fi (buffers, s))
    unfolding ReadAhead.read find buffer_read
    read-IsRead size offset fi buffers s there co h = elim (Option-cases (find deck path buffers)) [
      | inl gone ↦ absurd (ground arith)
      | inr (b, hit) ↦ elim (Bool-cases (holds size offset b)) [
        | inl inside ↦
            rw (hit, ReadAhead.read, buffer_read_hit file size offset b (co b hit) inside)
              (refl, co, h, there)
        | inr outside ↦
            let miss : buffer_read size offset b ≡ none = rw (outside, buffer_read) refl in
            rw (hit, ReadAhead.read, miss) (fetch-IsRead size offset fi b buffers s h)
      ]
    ]

    -- While the next layer serves the file, and from a buffer of the path, if there is one, that holds
    -- its bytes, every read of a history gives exactly the file's bytes and their number, whatever the
    -- buffer holds from earlier reads, and none is undefined: provided that an open stands between each
    -- release and the reads behind it, as any release drops the buffer, whichever handle it is of.
    pub run-answers :
        (cs : List Call) (buffers : List (K × Buffer)) (s : S)
        → in_order (is_some (find deck path buffers)) cs ≡ true
        → IsCoherent buffers
        → Holds s
        → run cs (buffers, s) ≡ answers file cs
    unfolding run in_order answers open_file release
    run-answers [] buffers s ok co h = refl
    run-answers (opens fi ∷ cs) buffers s ok co h =
        let there = is_some-emplace_self deck path new_buffer buffers in
        run-answers cs (emplace deck path new_buffer buffers) (next (Request.open_file path fi) s).1
          (ap (λ b. in_order b cs) there ∙ ok)
          (λ b e. elim (find-emplace_inv deck path path new_buffer b buffers e) [
            | inl old ↦ co b old
            | inr (_, same) ↦ subst (IsBuffered file) same (new_buffer-IsBuffered file)
          ])
          (stable.open_holds fi s h)
    run-answers (reads size offset fi ∷ cs) buffers s ok co h =
        let there : is_some (find deck path buffers) ≡ true = ground arith in
        let rest : in_order (is_some (find deck path buffers)) cs ≡ true = ground arith in
        let (o, (buffers', s')) = ReadAhead.read deck size_ next path size offset fi (buffers, s) in
        let (same, co', h', there') = read-IsRead size offset fi buffers s there co h in
        ap₂ ◌∷◌ same
          (run-answers cs buffers' s' (ap (λ b. in_order b cs) (there' ∙ sym there) ∙ rest) co' h')
    run-answers (releases fi ∷ cs) buffers s ok co h =
        let gone : find deck path (erase deck path buffers) ≡ none =
          ground (arith, find-erase deck path path buffers) in
        run-answers cs (erase deck path buffers) (next (Request.release path fi) s).1
          (ap (λ o. in_order (is_some {A = Buffer} o) cs) gone ∙ ok) (λ b e. cc)
          (stable.release_holds fi s h)
