-- ===== src/Files/Paths.antt =====
-- `AddPath` of pkg/yang/file.go: the search path and the map that guards it.
use goyang.Base.{
  ◌≡◌, false, ◌||◌, List, [], ◌∷◌, ◌++◌, Bytes, codes, text_eq, text_eq_iff, arith, if◌then◌else◌,
  if_cases,
}
use goyang.Base.Strings.{split}
use goyang.Files.{Search, is_member, add_dirs, add_path}

-- No text stands in the list twice.
abbrev pub AreDistinct : List Bytes → Type 0
AreDistinct [] = Unit
AreDistinct (p ∷ ps) = (is_member p ps ≡ false) × AreDistinct ps

is_member-concat :
    (p q : Bytes) (ps : List Bytes) → is_member p (ps ++ q ∷ []) ≡ (is_member p ps || text_eq p q)
unfolding is_member
is_member-concat p q [] = ground arith
is_member-concat p q (r ∷ ps) = ground (arith, is_member-concat p q ps)

AreDistinct-concat :
    (q : Bytes) (ps : List Bytes)
    → is_member q ps ≡ false
    → AreDistinct ps
    → AreDistinct (ps ++ q ∷ [])
unfolding is_member
AreDistinct-concat q [] h d = ground arith
AreDistinct-concat q (p ∷ ps) h d = (
  ground (arith, is_member-concat p q ps, text_eq_iff p q, text_eq_iff q p),
  AreDistinct-concat q ps (ground arith) d.1,
)

-- The path has no directory twice, and the map holds exactly the directories of the path.
pub record IsGuarded (s : Search) : Type 0 where
  pub distinct : AreDistinct s.path
  pub same : (p : Bytes) → is_member p s.path ≡ is_member p s.path_map

add_dir-IsGuarded :
    (p : Bytes) (s : Search)
    → IsGuarded s
    → IsGuarded (
        if is_member p s.path_map
        then s
        else record { path = s.path ++ p ∷ []; path_map = p ∷ s.path_map })
unfolding is_member
add_dir-IsGuarded p s h =
    if_cases (is_member p s.path_map) IsGuarded (λ e. h)
      (λ e. record {
        distinct = AreDistinct-concat p s.path (ground (arith, h.same p)) h.distinct;
        same = λ q. ground (arith, is_member-concat q p s.path, h.same q);
      })

add_dirs-IsGuarded : (ps : List Bytes) (s : Search) → IsGuarded s → IsGuarded (add_dirs ps s)
unfolding add_dirs
add_dirs-IsGuarded [] s h = h
add_dirs-IsGuarded (p ∷ ps) s h = add_dirs-IsGuarded ps _ (add_dir-IsGuarded p s h)

-- `AddPath` keeps the path without duplicates, and the map equal to it as a set.
pub add_path-IsGuarded : (ps : List Bytes) (s : Search) → IsGuarded s → IsGuarded (add_path ps s)
unfolding add_path
add_path-IsGuarded [] s h = h
add_path-IsGuarded (p ∷ ps) s h =
    add_path-IsGuarded ps _ (add_dirs-IsGuarded (split p (codes ":")) s h)
