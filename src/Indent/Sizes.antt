-- ===== src/Indent/Sizes.antt =====
-- What `actualWrittenSize` of pkg/indent/indent.go counts.
use goyang.Base.{
  ℕ, zero, suc, ◌+◌, ◌-◌, ◌≡◌, ◌∙◌, refl, Bool, true, false, List, [], ◌∷◌, if◌then◌else◌, Bytes,
  length, leb, ◌==◌, arith, Bool-cases, inl, inr,
}
use goyang.Indent.{onto_first, lines_of, written_from, actual_written_size}
use goyang.Indent.Lines.{lines_of_nil, lines_newline, lines_other}

-- The bytes of the text among the first `n` bytes of the indented one; a prefix has `p` bytes, and
-- `fresh` says that a line begins.
abbrev pub taken : ℕ → ℕ → Bool → Bytes → ℕ
taken p n fresh [] = 0
taken p n true (c ∷ s) =
    let rest = taken p (n - p - 1) (c == b'\n') s in if leb n p then 0 else 1 + rest
taken p n false (c ∷ s) =
    let rest = taken p (n - 1) (c == b'\n') s in if n == 0 then 0 else 1 + rest

-- The count of the loop, from zero on.
abbrev count : ℕ → ℕ → List Bytes → ℕ
count p n [] = 0
count p n ([] ∷ ls) = count p n ls
count p n ((c ∷ l) ∷ ls) =
    let size = suc (length l) in
    let rest = count p (n - (p + size)) ls in
    if leb n p then 0 else if leb (n - p) size then n - p else size + rest

from_zero : (m : ℕ) → 0 + m ≡ m
from_zero m = omega arith

count_of : (a p n : ℕ) (ls : List Bytes) → written_from a n p ls ≡ a + count p n ls
unfolding written_from
count_of a p n [] = omega arith
count_of a p n ([] ∷ ls) = count_of a p n ls
count_of a p n ((c ∷ l) ∷ ls) =
    ground (arith, count_of (a + suc (length l)) p (n - (p + suc (length l))) ls)

-- The count inside the first line.
abbrev open_count : ℕ → ℕ → List Bytes → ℕ
open_count p n [] = 0
open_count p n (l ∷ ls) =
    let rest = count p (n - length l) ls in if leb n (length l) then n else length l + rest

open_onto :
    (p n c : ℕ) (ls : List Bytes)
    → open_count p n (onto_first c ls) ≡ (if n == 0 then 0 else 1 + open_count p (n - 1) ls)
open_onto p n c [] = ground arith
open_onto p n c (l ∷ ls) =
    let e : n - suc (length l) ≡ n - 1 - length l = omega arith in rw e (ground arith)

count_onto :
    (p n c : ℕ) (ls : List Bytes)
    → count p n (onto_first c ls) ≡ (if leb n p then 0 else open_count p (n - p) (onto_first c ls))
count_onto p n c [] = ground arith
count_onto p n c (l ∷ ls) =
    let e : n - (p + suc (length l)) ≡ n - p - suc (length l) = omega arith in rw e

count_none : (p : ℕ) (ls : List Bytes) → count p 0 ls ≡ 0
count_none p [] = refl
count_none p ([] ∷ ls) = count_none p ls
count_none p ((c ∷ l) ∷ ls) = ground arith

-- A line of one byte
one_byte :
    (k : ℕ → ℕ)
    → k 0 ≡ 0
    → (m : ℕ) → (if leb m 1 then m else 1 + k (m - 1)) ≡ (if m == 0 then 0 else 1 + k (m - 1))
one_byte k z zero = refl
one_byte k z (suc zero) = rw z
one_byte k z (suc (suc m)) = ground arith

open_newline :
    (p n c : ℕ) (ls : List Bytes)
    → open_count p n ((c ∷ []) ∷ ls) ≡ (if n == 0 then 0 else 1 + count p (n - 1) ls)
open_newline p n c ls = one_byte (λ m. count p m ls) (count_none p ls) n

count_newline :
    (p n c : ℕ) (ls : List Bytes)
    → count p n ((c ∷ []) ∷ ls) ≡ (if leb n p then 0 else 1 + count p (n - p - 1) ls)
count_newline p n c ls =
    let e : n - (p + 1) ≡ n - p - 1 = omega arith in
    rw (e, one_byte (λ m. count p m ls) (count_none p ls) (n - p)) (ground arith)

-- The lines of a text are counted as its bytes are.
record Counts (p : ℕ) (s : Bytes) : Type 0 where
  from_start : (n : ℕ) → count p n (lines_of s) ≡ taken p n true s
  inside : (n : ℕ) → open_count p n (lines_of s) ≡ taken p n false s

lines_of-Counts : (p : ℕ) (s : Bytes) → Counts p s
lines_of-Counts p [] = record { from_start = λ n. rw lines_of_nil; inside = λ n. rw lines_of_nil }
lines_of-Counts p (c ∷ s) =
    let h = lines_of-Counts p s in
    elim (Bool-cases (c == b'\n')) [
      | inl e ↦ record {
        from_start = λ n.
            rw (lines_newline c s e, count_newline p n c (lines_of s), h.from_start (n - p - 1), e)
              (ground arith);
        inside =
            λ n. rw (lines_newline c s e, open_newline p n c (lines_of s), h.from_start (n - 1), e);
      }
      | inr e ↦ record {
        from_start = λ n.
            rw
              (
                lines_other c s e,
                count_onto p n c (lines_of s),
                open_onto p (n - p) c (lines_of s),
                h.inside (n - p - 1),
                e,
              )
              (ground arith);
        inside = λ n. rw (lines_other c s e, open_onto p n c (lines_of s), h.inside (n - 1), e);
      }
    ]

-- When the writer underneath has taken `n` bytes of what a Write at the beginning of a line hands
-- it, the size that actualWrittenSize reports is the number of bytes of the text among them.
pub actual_written_size_lem :
    (n p : ℕ) (s : Bytes) → actual_written_size n p ([] ∷ lines_of s) ≡ taken p n true s
unfolding actual_written_size written_from
actual_written_size_lem n p s =
    count_of 0 p n (lines_of s)
    ∙ from_zero (count p n (lines_of s))
    ∙ (lines_of-Counts p s).from_start n
