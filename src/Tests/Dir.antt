-- ===== src/Tests/Dir.antt =====
-- A directory of three entries, read in pages of two, none and two.
use rsafe_fs.Base.{
  ℕ, suc, ◌≡◌, refl, ap, List, [], ◌∷◌, Option, none, some, take, drop, ℤ, pos, negsuc,
}
use rsafe_fs.Local.Dir.{Dirent, DirStream, LocalDirp, local_opendir}
use rsafe_fs.Local.Dir.Pages.{Lists, listing}
use rsafe_fs.Local.Dir.Session.{read_pages, total_room, read_pages-listing}

abbrev entries : List Dirent
entries =
    record { d_name = 46 ∷ []; d_ino = 2; d_type = 4 }
    ∷ record { d_name = 97 ∷ []; d_ino = 5; d_type = 8 }
    ∷ record { d_name = 98 ∷ []; d_ino = 6; d_type = 8 }
    ∷ []

-- a position is a number, and its own offset
abbrev first_of : ℕ → List Dirent → Option Dirent × ℕ
first_of i [] = (none, i)
first_of i (e ∷ es) = (some e, suc i)

abbrev to_position : ℤ → ℕ
to_position (pos n) = n
to_position (negsuc n) = 0

abbrev dir : DirStream ℕ
dir = record {
  read_entry = λ i. first_of i (drop i entries);
  tell = pos;
  seek = λ x i. to_position x;
}

dir-Lists : Lists dir (λ i. i) pos entries
dir-Lists = record {
  reads_end = λ i e. ap (first_of i) e;
  reads = λ i e es p. ap (first_of i) p;
  tells = λ i. refl;
  seeks = λ i d. refl;
}

read_pages-listing_example :
    let d : LocalDirp ℕ = record { dp = 0; entry = none; offset = pos 0 } in
    (d' : LocalDirp ℕ) × (local_opendir (some 0) 0 ≡ (pos 0, some d))
    × (read_pages dir 4 (2 ∷ 0 ∷ 2 ∷ []) (pos 0) d
        ≡ some (d', listing dir (λ i. i) pos 0 (take (total_room (2 ∷ 0 ∷ 2 ∷ [])) entries)))
read_pages-listing_example = read_pages-listing dir (λ i. i) pos entries dir-Lists (2 ∷ 0 ∷ 2 ∷ [])
