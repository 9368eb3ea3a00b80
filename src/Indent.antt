-- ===== src/Indent.antt =====
-- The indentation of pkg/indent/indent.go.
--
-- A string and a slice of bytes are both a list of bytes, so `String` and `Bytes`, which are written
-- alike, differ only in their types. The writer underneath is a parameter: a function of its state
-- and the bytes, which returns the number of bytes written and an error or none.
pub mod Lines
pub mod Chunks
pub mod Sizes
use goyang.Base.{
  ℕ, zero, suc, ◌+◌, ◌-◌, Bool, false, not, List, [], ◌∷◌, ◌++◌, Option, none, some, if◌then◌else◌,
  Bytes, length, leb, ◌==◌,
}

-- `x` in front of the first piece.
abbrev pub onto_first : ℕ → List Bytes → List Bytes
onto_first x [] = (x ∷ []) ∷ []
onto_first x (l ∷ ls) = (x ∷ l) ∷ ls

-- `SplitAfter(s, "\n")`
unfoldable pub split_after : Bytes → List Bytes
split_after [] = [] ∷ []
split_after (c ∷ s) =
    let rest = split_after s in if c == b'\n' then (c ∷ []) ∷ rest else onto_first c rest

-- `Join(parts, sep)`
unfoldable pub join : List Bytes → Bytes → Bytes
join [] sep = []
join (l ∷ []) sep = l
join (l ∷ m ∷ ls) sep = l ++ sep ++ join (m ∷ ls) sep

-- The lines without an empty last one.
unfoldable pub without_empty_last : List Bytes → List Bytes
without_empty_last [] = []
without_empty_last ([] ∷ []) = []
without_empty_last ((c ∷ l) ∷ []) = (c ∷ l) ∷ []
without_empty_last (l ∷ m ∷ ls) = l ∷ without_empty_last (m ∷ ls)

unfoldable pub lines_of : Bytes → List Bytes
unfolding split_after without_empty_last
lines_of s = without_empty_last (split_after s)

unfoldable pub string : Bytes → Bytes → Bytes
unfolding lines_of join
string [] s = s
string (i ∷ indent) [] = []
string (i ∷ indent) (c ∷ s) = join ([] ∷ lines_of (c ∷ s)) (i ∷ indent)

unfoldable pub bytes : Bytes → Bytes → Bytes
unfolding lines_of join
bytes [] b = b
bytes (i ∷ indent) [] = []
bytes (i ∷ indent) (c ∷ b) = join ([] ∷ lines_of (c ∷ b)) (i ∷ indent)

unfoldable pub get_prefix : ℕ → Bytes
get_prefix zero = []
get_prefix (suc n) = get_prefix n ++ b' ' ∷ []

-- The loop of `actualWrittenSize`. A writer returns no negative number, and `remain` stays above
-- zero.
unfoldable pub written_from : ℕ → ℕ → ℕ → List Bytes → ℕ
written_from actual remain prefix [] = actual
written_from actual remain prefix ([] ∷ lines) = written_from actual remain prefix lines
written_from actual remain prefix ((c ∷ line) ∷ lines) =
    let size = length (c ∷ line) in
    let rest = written_from (actual + size) (remain - (prefix + size)) prefix lines in
    if leb remain prefix
    then actual
    else if leb (remain - prefix) size
    then actual + (remain - prefix)
    else rest

unfoldable pub actual_written_size : ℕ → ℕ → List Bytes → ℕ
unfolding written_from
actual_written_size underlay prefix lines = written_from 0 underlay prefix lines

pub record Iw (W : Type 0) : Type 0 where
  pub w : W
  pub prefix : Bytes
  pub partial : Bool

-- The lines that `Write` joins.
unfoldable pub pieces : Bool → Bytes → List Bytes
unfolding lines_of
pieces partial buf = if partial then lines_of buf else [] ∷ lines_of buf

-- Whether the last byte is no newline.
unfoldable pub ends_open : Bytes → Bool
ends_open [] = false
ends_open (c ∷ []) = not (c == b'\n')
ends_open (c ∷ d ∷ s) = ends_open (d ∷ s)

module _ {W E : Type 0} (write : W → Bytes → ℕ × Option E × W) where
  -- `Write` on a nonempty buffer
  unfoldable pub write_bytes : Iw W → Bytes → ℕ × Option E × Iw W
  unfolding pieces join ends_open actual_written_size
  write_bytes i buf =
      let joined = join (pieces i.partial buf) i.prefix in
      let (n, e, w) = write i.w joined in
      let i' : Iw W = record { w = w; prefix = i.prefix; partial = ends_open joined } in
      elim e [
        | some x ↦ (actual_written_size n (length i.prefix) (pieces i.partial buf), some x, i')
        | none ↦ (length buf, none, i')
      ]

  unfoldable pub iw_write : Iw W → Bytes → ℕ × Option E × Iw W
  unfolding write_bytes
  iw_write i [] = (0, none, i)
  iw_write i (c ∷ buf) = write_bytes i (c ∷ buf)
