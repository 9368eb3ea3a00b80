-- ===== src/Tests/Paths.antt =====
-- Runs of the model of pkg/yang/file.go.
use goyang.Base.{◌≡◌, ◌⊎◌, refl, true, false, List, [], ◌∷◌, Option, some, Bytes, codes}
use goyang.Base.Path.{join_path}
use goyang.Files.{Search, FileInfo, add_path, find_in_dir}
use goyang.Files.Paths.{IsGuarded, add_path-IsGuarded}
use goyang.Files.Scan.{has_file, candidates, IsLatest, find_in_dir_lem}

abbrev no_path : Search
no_path = record { path = []; path_map = [] }

no_path-IsGuarded : IsGuarded no_path
no_path-IsGuarded = record { distinct = tt; same = λ p. refl }

abbrev dirs : List Bytes
dirs = codes "a:b:a" ∷ codes "b" ∷ []

add_path-dirs : (add_path dirs no_path).path ≡ codes "a" ∷ codes "b" ∷ []
unfolding add_path
add_path-dirs = refl

add_path-IsGuarded_example : IsGuarded (add_path dirs no_path)
add_path-IsGuarded_example = add_path-IsGuarded dirs no_path no_path-IsGuarded

abbrev file : Bytes → FileInfo
file name = record { name = name; is_dir = false }

abbrev listing : List FileInfo
listing =
    file (codes "foo@2019-01-01.yang")
    ∷ file (codes "foo@2020-06-01.yang")
    ∷ file (codes "foobar.yang")
    ∷ []

abbrev disk : Bytes → Option (List FileInfo)
disk d = some listing

latest_foo :
    find_in_dir disk 1 (codes "yang") (codes "foo.yang") false
    ≡ some (codes "yang/foo@2020-06-01.yang")
unfolding find_in_dir
latest_foo = refl

find_in_dir_lem_example :
    ((has_file (codes "foo.yang") listing ≡ true)
      × (find_in_dir disk 1 (codes "yang") (codes "foo.yang") false
          ≡ some (join_path (codes "yang") (codes "foo.yang"))))
    ⊎ ((has_file (codes "foo.yang") listing ≡ false)
        × (((r : Bytes) × IsLatest (codes "foo.yang") listing r
              × (find_in_dir disk 1 (codes "yang") (codes "foo.yang") false
                  ≡ some (join_path (codes "yang") r)))
            ⊎ ((candidates (codes "foo.yang") listing ≡ [])
                × (find_in_dir disk 1 (codes "yang") (codes "foo.yang") false ≡ some []))))
find_in_dir_lem_example = find_in_dir_lem disk 0 (codes "yang") (codes "foo.yang") listing refl
