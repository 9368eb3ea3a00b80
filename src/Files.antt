-- ===== src/Files.antt =====
-- pkg/yang/file.go: the search path and the search for the file of a module.
--
-- The file system is a pair of functions: what a file holds, and what a directory lists.
pub mod Revisions
pub mod Scan
pub mod Paths
use goyang.Base.{
  ℕ, zero, suc, Bool, true, false, not, ◌&&◌, ◌||◌, List, [], ◌∷◌, ◌++◌, Option, none, some, Bytes,
  codes, text_eq, text_lt, take, drop, leb, ◌==◌, if◌then◌else◌,
}
use goyang.Base.Options.{◌>>=◌}
use goyang.Base.Path.{join_path, dir_of, base_of}
use goyang.Base.Strings.{has_prefix, has_suffix, trim_prefix, trim_suffix, split, index}

-- The fields of `Modules` that hold the search path.
pub record Search : Type 0 where
  pub path : List Bytes
  pub path_map : List Bytes

unfoldable pub is_member : Bytes → List Bytes → Bool
unfolding text_eq
is_member p [] = false
is_member p (q ∷ qs) = text_eq p q || is_member p qs

unfoldable pub add_dirs : List Bytes → Search → Search
unfolding is_member
add_dirs [] s = s
add_dirs (p ∷ ps) s = add_dirs ps (
    if is_member p s.path_map
    then s
    else record { path = s.path ++ p ∷ []; path_map = p ∷ s.path_map })

-- `AddPath`: every argument is a list of directories with colons between
unfoldable pub add_path : List Bytes → Search → Search
unfolding add_dirs split
add_path [] s = s
add_path (p ∷ ps) s = add_path ps (add_dirs (split p (codes ":")) s)

pub record FileInfo : Type 0 where
  pub name : Bytes
  pub is_dir : Bool

-- a digit, `\d` of the expression
abbrev digit : ℕ → Bool
digit c = leb b'0' c && leb c b'9'

-- `^@\d{4}-\d{2}-\d{2}\.yang$`, in which `d` is a digit and any other byte is itself
unfoldable pub matches : Bytes → Bytes → Bool
matches [] [] = true
matches (p ∷ ps) (c ∷ s) = (if p == b'd' then digit c else c == p) && matches ps s
matches _ _ = false

unfoldable pub is_revision_suffix : Bytes → Bool
unfolding matches text_eq
is_revision_suffix s =
    matches (codes "@dddd-dd-dd.") (take 12 s) && text_eq (drop 12 s) (codes "yang")

-- `sort.Strings`
unfoldable pub insert_text : Bytes → List Bytes → List Bytes
unfolding text_lt
insert_text x [] = x ∷ []
insert_text x (y ∷ ys) = let rest = insert_text x ys in if text_lt y x then y ∷ rest else x ∷ y ∷ ys

unfoldable pub sort_texts : List Bytes → List Bytes
unfolding insert_text
sort_texts [] = []
sort_texts (x ∷ xs) = insert_text x (sort_texts xs)

-- the last element of a list, or the default
unfoldable pub last_of : Bytes → List Bytes → Bytes
last_of d [] = d
last_of d (x ∷ xs) = last_of x xs

-- the end of `findInDir`: the latest revision
unfoldable pub latest_in : Bytes → List Bytes → Bytes
unfolding sort_texts last_of join_path
latest_in dir [] = []
latest_in dir (r ∷ rs) = join_path dir (last_of [] (sort_texts (r ∷ rs)))

-- whether a file name is the module name with a revision date
unfoldable pub is_revision : Bytes → Bytes → Bool
unfolding is_revision_suffix trim_suffix trim_prefix has_prefix
is_revision name fn =
    let mname = trim_suffix name (codes ".yang") in
    has_prefix fn mname && is_revision_suffix (trim_prefix fn mname)

-- the loop of `findInDir`; `visit` is the recursive call on a directory
unfoldable pub scan :
    (Bytes → Option Bytes) → Bytes → Bytes → Bool → List FileInfo → List Bytes → Option Bytes
unfolding is_revision latest_in join_path text_eq
scan visit dir name recurse [] revisions = some (latest_in dir revisions)
scan visit dir name recurse (f ∷ fs) revisions =
    let rest = scan visit dir name recurse fs revisions in
    let more = scan visit dir name recurse fs (revisions ++ f.name ∷ []) in
    let file =
      if text_eq f.name name
      then some (join_path dir name)
      else if is_revision name f.name
      then more
      else rest in
    let inside =
      visit (join_path dir f.name) >>= λ n. elim n [ [] ↦ rest | c ∷ cs ↦ some (c ∷ cs) ] in
    if not f.is_dir then file else if recurse then inside else rest

-- the contents of a file that was found, none if there is none or it cannot be read
unfoldable pub read_found : (Bytes → Option Bytes) → Bytes → Option Bytes
read_found read_file [] = none
read_found read_file (c ∷ cs) = read_file (c ∷ cs)

module _ (read_dir : Bytes → Option (List FileInfo)) where
  -- `findInDir`, on fuel for the depth of the directories; the empty text is "not found"
  unfoldable pub find_in_dir : ℕ → Bytes → Bytes → Bool → Option Bytes
  unfolding scan
  find_in_dir zero dir name recurse = none
  find_in_dir (suc fuel) dir name recurse = elim (read_dir dir) [
    | none ↦ some []
    | some fis ↦ scan (λ d. find_in_dir fuel d name recurse) dir name recurse fis []
  ]

  -- the loop of `findFile` over the path: the name and the contents of the first file read
  unfoldable pub search_path :
      (Bytes → Option Bytes) → ℕ → Bytes → List Bytes → Option (Option (Bytes × Bytes))
  unfolding find_in_dir base_of dir_of text_eq read_found
  search_path read_file fuel name [] = some none
  search_path read_file fuel name (d ∷ ds) = do
    n ←
        (if text_eq (base_of d) (codes "...")
          then find_in_dir fuel (dir_of d) name true
          else find_in_dir fuel d name false)
    elim (read_found read_file n) [
      | none ↦ search_path read_file fuel name ds
      | some text ↦ some (some (n, text))
    ]

  -- the name that `findFile` reads first
  unfoldable pub first_name : ℕ → Bytes → Option Bytes
  unfolding find_in_dir index has_suffix
  first_name fuel name = elim (index name (codes "/")) [
    | some i ↦ some name
    | none ↦
        if has_suffix name (codes ".yang")
        then some name
        else find_in_dir fuel (codes ".") (name ++ codes ".yang") false >>= λ best. elim best [
          | [] ↦ some (name ++ codes ".yang")
          | c ∷ cs ↦ some (c ∷ cs)
        ]
  ]

  -- `findFile`: the name and contents of the file, none for an error, and the search path after it
  unfoldable pub find_file :
      (Bytes → Option Bytes) → ℕ → Bytes → Search → Option (Option (Bytes × Bytes) × Search)
  unfolding first_name search_path add_path index dir_of
  find_file read_file fuel name s = do
    n ← first_name fuel name
    elim (read_file n) [
      | some text ↦ some (some (n, text), add_path (dir_of n ∷ []) s)
      | none ↦ elim (index name (codes "/")) [
        | some i ↦ some (none, s)
        | none ↦ search_path read_file fuel n s.path >>= λ r. some (r, s)
      ]
    ]
