-- ===== src/Files/Scan.antt =====
-- `findInDir` of pkg/yang/file.go in one directory: the file of the name, else the latest revision.
use mathlib.Core.List.{append_assoc, append-nil}
use goyang.Base.{
  ℕ, suc, ◌≡◌, ◌⊎◌, refl, ap, ◌∙◌, Bool, true, false, not, ◌&&◌, ◌||◌, List, [], ◌∷◌, ◌++◌, Option,
  some, Bytes, text_eq, arith, if◌then◌else◌, Bool-cases, List-cases, ⊎_elim, inl, inr,
}
use goyang.Base.Path.{join_path}
use goyang.Files.{
  FileInfo, is_member, is_revision, sort_texts, last_of, latest_in, scan, find_in_dir,
}
use goyang.Files.Revisions.{Below, last_latest}

-- Whether a directory lists a file of the name.
abbrev pub has_file : Bytes → List FileInfo → Bool
has_file name [] = false
has_file name (f ∷ fs) = (not f.is_dir && text_eq f.name name) || has_file name fs

-- The files whose names are the name with a revision date.
abbrev pub candidates : Bytes → List FileInfo → List Bytes
candidates name [] = []
candidates name (f ∷ fs) =
    if not f.is_dir && is_revision name f.name
    then f.name ∷ candidates name fs
    else candidates name fs

scan_flat :
    (visit : Bytes → Option Bytes) (dir name : Bytes) (fs : List FileInfo) (revisions : List Bytes)
    → scan visit dir name false fs revisions
      ≡ some (
          if has_file name fs
          then join_path dir name
          else latest_in dir (revisions ++ candidates name fs))
unfolding scan
scan_flat visit dir name [] revisions = rw (append-nil revisions) refl
scan_flat visit dir name (f ∷ fs) revisions = ground (
  arith,
  scan_flat visit dir name fs revisions,
  scan_flat visit dir name fs (revisions ++ f.name ∷ []),
  append_assoc revisions (f.name ∷ []) (candidates name fs),
)

-- The latest revision that a directory has of a name: no candidate has a greater file name.
abbrev pub IsLatest : Bytes → List FileInfo → Bytes → Type 0
IsLatest name fs r =
    (is_member r (candidates name fs) ≡ true)
    × ((c : Bytes) → is_member c (candidates name fs) ≡ true → Below c r)

-- Without its subdirectories, a directory gives the file of the name if it lists it, else the path of
-- the latest revision if it lists one, else the empty text for "not found".
pub find_in_dir_lem :
    (read_dir : Bytes → Option (List FileInfo)) (fuel : ℕ) (dir name : Bytes) (fs : List FileInfo)
    → read_dir dir ≡ some fs
    → ((has_file name fs ≡ true)
        × (find_in_dir read_dir (suc fuel) dir name false ≡ some (join_path dir name)))
      ⊎ ((has_file name fs ≡ false)
          × (((r : Bytes) × IsLatest name fs r
                × (find_in_dir read_dir (suc fuel) dir name false ≡ some (join_path dir r)))
              ⊎ ((candidates name fs ≡ [])
                  × (find_in_dir read_dir (suc fuel) dir name false ≡ some []))))
unfolding find_in_dir latest_in
find_in_dir_lem read_dir fuel dir name fs h =
    let result = scan_flat (λ d. find_in_dir read_dir fuel d name false) dir name fs [] in
    elim (Bool-cases (has_file name fs)) [
      | inl e ↦ inl (e, ground arith)
      | inr e ↦
          let flat : find_in_dir read_dir (suc fuel) dir name false
              ≡ some (latest_in dir (candidates name fs)) =
            ground arith in
          inr (
            e,
            ⊎_elim
                (λ none_found. inr (none_found, flat ∙ ap (λ z. some (latest_in dir z)) none_found))
                (λ (r, rs, c).
                  let (member, top) = last_latest r rs in
                  inl (
                    last_of [] (sort_texts (r ∷ rs)),
                    rw c (member, top),
                    flat ∙ ap (λ z. some (latest_in dir z)) c,
                  ))
                (List-cases (candidates name fs)),
          )
    ]
