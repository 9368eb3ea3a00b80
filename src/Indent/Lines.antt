-- ===== src/Indent/Lines.antt =====
-- What pkg/indent/indent.go writes, against a description byte by byte.
use mathlib.Core.List.{append_assoc, append-nil}
use goyang.Base.{
  ℕ, ◌≡◌, ◌∙◌, sym, refl, Bool, true, false, not, List, [], ◌∷◌, ◌++◌, if◌then◌else◌, Bytes, ◌==◌,
  Bool-cases, inl, inr,
}
use goyang.Indent.{split_after, onto_first, join, without_empty_last, lines_of, string, pieces}

-- The text with `indent` in front of every line that has a byte; `fresh` says that a line begins.
unfoldable pub indented : Bytes → Bool → Bytes → Bytes
indented indent fresh [] = []
indented indent fresh (c ∷ s) =
    let rest = c ∷ indented indent (c == b'\n') s in if fresh then indent ++ rest else rest

-- The lines, each with the indent in front, and all but the first one with it.
abbrev prefixed : Bytes → List Bytes → Bytes
prefixed i [] = []
prefixed i (l ∷ ls) = i ++ (l ++ prefixed i ls)

abbrev open_lines : Bytes → List Bytes → Bytes
open_lines i [] = []
open_lines i (l ∷ ls) = l ++ prefixed i ls

join-open : (i : Bytes) (ls : List Bytes) → join ls i ≡ open_lines i ls
unfolding join
join-open i [] = refl
join-open i (l ∷ []) = rw (append-nil l)
join-open i (l ∷ m ∷ ls) = rw (join-open i (m ∷ ls), append_assoc l i (m ++ prefixed i ls))

last_kept :
    (c : ℕ) (l : Bytes) (ls : List Bytes)
    → without_empty_last ((c ∷ l) ∷ ls) ≡ (c ∷ l) ∷ without_empty_last ls
unfolding without_empty_last
last_kept c l [] = refl
last_kept c l (m ∷ ls) = refl

last_onto :
    (c : ℕ) (ls : List Bytes)
    → without_empty_last (onto_first c ls) ≡ onto_first c (without_empty_last ls)
unfolding without_empty_last
last_onto c [] = refl
last_onto c ([] ∷ []) = refl
last_onto c ((d ∷ l) ∷ []) = refl
last_onto c (l ∷ m ∷ ls) = refl

pub lines_newline :
    (c : ℕ) (s : Bytes) → c == b'\n' ≡ true → lines_of (c ∷ s) ≡ (c ∷ []) ∷ lines_of s
unfolding lines_of split_after
lines_newline c s h = rw h (last_kept c [] (split_after s))

pub lines_other :
    (c : ℕ) (s : Bytes) → c == b'\n' ≡ false → lines_of (c ∷ s) ≡ onto_first c (lines_of s)
unfolding lines_of split_after
lines_other c s h = rw h (last_onto c (split_after s))

pub lines_of_nil : lines_of [] ≡ []
unfolding lines_of split_after without_empty_last
lines_of_nil = refl

-- The lines make the description, from the beginning of a line on and inside one.
record Describes (i s : Bytes) : Type 0 where
  from_start : prefixed i (lines_of s) ≡ indented i true s
  inside : open_lines i (lines_of s) ≡ indented i false s

onto_open :
    (i : Bytes) (c : ℕ) (ls : List Bytes) → open_lines i (onto_first c ls) ≡ c ∷ open_lines i ls
onto_open i c [] = refl
onto_open i c (l ∷ ls) = refl

onto_prefixed :
    (i : Bytes) (c : ℕ) (ls : List Bytes) → prefixed i (onto_first c ls) ≡ i ++ c ∷ open_lines i ls
onto_prefixed i c [] = refl
onto_prefixed i c (l ∷ ls) = refl

lines_of-Describes : (i s : Bytes) → Describes i s
unfolding indented
lines_of-Describes i [] = record { from_start = rw lines_of_nil; inside = rw lines_of_nil }
lines_of-Describes i (c ∷ s) =
    let h = lines_of-Describes i s in
    elim (Bool-cases (c == b'\n')) [
      | inl e ↦ record {
        from_start = rw (lines_newline c s e, e, h.from_start);
        inside = rw (lines_newline c s e, e, h.from_start);
      }
      | inr e ↦ record {
        from_start = rw (lines_other c s e, onto_prefixed i c (lines_of s), e, h.inside);
        inside = rw (lines_other c s e, onto_open i c (lines_of s), e, h.inside);
      }
    ]

no_indent : (fresh : Bool) (s : Bytes) → indented [] fresh s ≡ s
unfolding indented
no_indent fresh [] = refl
no_indent true (c ∷ s) = rw (no_indent (c == b'\n') s)
no_indent false (c ∷ s) = rw (no_indent (c == b'\n') s)

-- `String` puts the indent in front of every line of the text that has a byte.
pub string-indented : (indent s : Bytes) → string indent s ≡ indented indent true s
unfolding string indented
string-indented [] s = sym (no_indent true s)
string-indented (i ∷ indent) [] = refl
string-indented (i ∷ indent) (c ∷ s) =
    join-open (i ∷ indent) ([] ∷ lines_of (c ∷ s))
    ∙ (lines_of-Describes (i ∷ indent) (c ∷ s)).from_start

-- What one call of `Write` hands to the writer underneath.
abbrev pub sent : Bytes → Bool → Bytes → Bytes
sent prefix partial [] = []
sent prefix partial (c ∷ buf) = join (pieces partial (c ∷ buf)) prefix

pub sent-indented : (p : Bytes) (t : Bool) (s : Bytes) → sent p t s ≡ indented p (not t) s
unfolding pieces indented
sent-indented p t [] = refl
sent-indented p true (c ∷ s) =
    join-open p (lines_of (c ∷ s)) ∙ (lines_of-Describes p (c ∷ s)).inside
sent-indented p false (c ∷ s) =
    join-open p ([] ∷ lines_of (c ∷ s)) ∙ (lines_of-Describes p (c ∷ s)).from_start
