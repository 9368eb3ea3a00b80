-- ===== src/CamelCase.antt =====
-- The conversions of names of pkg/yang/camelcase.go.
--
-- The loops over the bytes of a name recurse on the bytes from the index on. Where a round of a loop
-- takes several bytes, `skip` counts those still to be passed. An optional argument is a list.
pub mod Words
use goyang.Base.{
  ℕ, zero, suc, ◌+◌, ◌-◌, Bool, true, false, not, ◌&&◌, ◌||◌, List, [], ◌∷◌, ◌++◌, if◌then◌else◌,
  Bytes, codes, text_eq, length, leb, ◌==◌,
}
use goyang.Base.Strings.{has_prefix}

abbrev pub is_ascii_lower : ℕ → Bool
is_ascii_lower c = leb b'a' c && leb c b'z'

abbrev pub is_ascii_upper : ℕ → Bool
is_ascii_upper c = leb b'A' c && leb c b'Z'

abbrev pub is_ascii_digit : ℕ → Bool
is_ascii_digit c = leb b'0' c && leb c b'9'

abbrev pub fix : ℕ → ℕ
fix c = if c == b'-' || c == b'.' then b'_' else c

-- Whether the next byte is a lower-case letter.
abbrev pub lower_next : Bytes → Bool
lower_next [] = false
lower_next (c ∷ s) = is_ascii_lower c

abbrev pub upper_next : Bytes → Bool
upper_next [] = false
upper_next (c ∷ s) = is_ascii_upper c

unfoldable pub lower_run : Bytes → Bytes
lower_run [] = []
lower_run (c ∷ s) = let rest = lower_run s in if is_ascii_lower c then c ∷ rest else []

-- A word, or what `knownWords` has for it.
unfoldable pub known : Bytes → Bytes
known w = if text_eq w (codes "Ietf") then codes "IETF" else w

-- The first letter of a word. `c ^= ' '` takes 32 away from a lower-case letter.
unfoldable pub capital : Bool → ℕ → ℕ
capital convert c = if is_ascii_lower c && convert then c - 32 else c

-- The loop of `CamelCase`. `convert` is the test `i > 0 || pascalCase` of its first round.
unfoldable pub words : Bool → ℕ → Bytes → Bytes
unfolding lower_run known capital
words convert skip [] = []
words convert (suc skip) (b ∷ s) = words true skip s
words convert zero (b ∷ s) =
    let c = fix b in
    let rest = words true zero s in
    let after = words true (length (lower_run s)) s in
    if c == b'_' && lower_next s
    then rest
    else if is_ascii_digit c
    then c ∷ rest
    else known (capital convert c ∷ lower_run s) ++ after

unfoldable pub pascal : List Bool → Bool
pascal [] = true
pascal (b ∷ bs) = b

unfoldable pub camel_case : Bytes → List Bool → Bytes
unfolding words pascal
camel_case [] opt = []
camel_case (c ∷ s) opt =
    if fix c == b'_'
    then (if pascal opt then b'X' else b'x') ∷ words true zero s
    else words (pascal opt) zero (c ∷ s)

unfoldable pub hyphenate : List Bool → Bool
hyphenate [] = false
hyphenate (b ∷ bs) = b

unfoldable pub lower : ℕ → ℕ
lower c = if is_ascii_upper c then c + 32 else c

-- The loop of `CamelCaseToDash`. Behind a known word the test for another one is not made.
unfoldable pub dashed : Bool → Bool → ℕ → Bytes → Bytes
unfolding lower has_prefix
dashed digits tested skip [] = []
dashed digits tested (suc skip) (c ∷ s) = dashed digits tested skip s
dashed digits tested zero (c ∷ s) =
    let behind = dashed digits true 3 s in
    let rest = dashed digits false zero s in
    if not tested && has_prefix (c ∷ s) (codes "IETF")
    then codes "Ietf" ++ behind
    else if is_ascii_digit c && not digits
    then c ∷ rest
    else if c == b'_'
    then b'-' ∷ rest
    else lower c ∷ (if upper_next s then b'-' ∷ rest else rest)

unfoldable pub camel_case_to_dash : Bytes → List Bool → Bytes
unfolding dashed hyphenate
camel_case_to_dash s opt = dashed (hyphenate opt) false zero s
