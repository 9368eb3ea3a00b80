-- ===== src/Base/Path.antt =====
-- The functions of Go's `path/filepath` package that the program uses, for paths with slashes.
use mathlib.Core.Bool.{Bool, ◌||◌}
use mathlib.Core.List.{List, [], ◌∷◌, ◌++◌, reverse}
use goyang.Base.Tests.{◌==◌, if◌then◌else◌}
use goyang.Base.Text.{Bytes, codes, text_eq}
use goyang.Base.Strings.{split, join, has_prefix}

abbrev separator : Bytes
separator = codes "/"

-- The elements of a cleaned path, the last one first: `.` and empty elements are dropped, `..` takes
-- an element off, and stays at the start of a path that is not rooted.
unfoldable pub clean_parts : Bool → List Bytes → List Bytes → List Bytes
unfolding text_eq
clean_parts rooted out [] = out
clean_parts rooted out (p ∷ ps) =
    let keep = clean_parts rooted (p ∷ out) ps in
    let skip = clean_parts rooted out ps in
    let up : List Bytes = elim out [
      | [] ↦ if rooted then skip else keep
      | o ∷ os ↦ if text_eq o (codes "..") then keep else clean_parts rooted os ps
    ] in
    if text_eq p [] || text_eq p (codes ".")
    then skip
    else if text_eq p (codes "..")
    then up
    else keep

-- `filepath.Clean`
unfoldable pub clean : Bytes → Bytes
unfolding clean_parts split join has_prefix
clean s =
    let rooted = has_prefix s separator in
    let body = join (reverse (clean_parts rooted [] (split s separator))) separator in
    if rooted then b'/' ∷ body else elim body [ [] ↦ codes "." | c ∷ cs ↦ c ∷ cs ]

-- `filepath.Join(dir, name)`
unfoldable pub join_path : Bytes → Bytes → Bytes
unfolding clean
join_path [] [] = []
join_path [] (c ∷ name) = clean (c ∷ name)
join_path (d ∷ dir) [] = clean (d ∷ dir)
join_path (d ∷ dir) (c ∷ name) = clean ((d ∷ dir) ++ (b'/' ∷ c ∷ name))

-- The bytes up to the last separator, reversed, of a reversed path.
unfoldable pub to_slash : Bytes → Bytes
to_slash [] = []
to_slash (c ∷ s) = if c == b'/' then c ∷ s else to_slash s

-- `filepath.Dir`
unfoldable pub dir_of : Bytes → Bytes
unfolding to_slash clean
dir_of s = clean (reverse (to_slash (reverse s)))

unfoldable pub skip_slashes : Bytes → Bytes
skip_slashes [] = []
skip_slashes (c ∷ s) = if c == b'/' then skip_slashes s else c ∷ s

unfoldable pub before_slash : Bytes → Bytes
before_slash [] = []
before_slash (c ∷ s) = let rest = before_slash s in if c == b'/' then [] else c ∷ rest

-- `filepath.Base`
unfoldable pub base_of : Bytes → Bytes
unfolding skip_slashes before_slash
base_of [] = codes "."
base_of (c ∷ s) = elim (before_slash (skip_slashes (reverse (c ∷ s)))) [
  | [] ↦ separator
  | x ∷ xs ↦ reverse (x ∷ xs)
]
