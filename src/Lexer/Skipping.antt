-- ===== src/Lexer/Skipping.antt =====
-- Where `acceptRun` of pkg/yang/lex.go stops.
use goyang.Base.{
  ℕ, zero, suc, ◌+◌, ◌-◌, ◌≤◌, ◌≡◌, refl, false, [], ◌∷◌, Bytes, length, drop, length-drop, arith,
  Bool-cases, inl, inr,
}
use goyang.Lexer.{eof, Lexer, next, next_of, peek, accept_from, accept_run, contains_rune}
use goyang.Lexer.Cursor.{next-Moves, next_width, peek-Moves, peek_pos, next_advances, peek-eof}

drop_nil : (n : ℕ) → drop {A = ℕ} n [] ≡ []
drop_nil zero = refl
drop_nil (suc n) = refl

drop_cons : (w c : ℕ) (s : Bytes) → 1 ≤ w → drop w (c ∷ s) ≡ drop (w - 1) s
drop_cons zero c s h = ground arith
drop_cons (suc w) c s h = let same : suc w - 1 ≡ w = omega arith in rw same

drop_split : (k n m : ℕ) (s : Bytes) → k ≡ n + m → drop k s ≡ drop m (drop n s)
drop_split k zero m s e = let same : k ≡ m = omega arith in rw same
drop_split zero (suc n) m s e = ground arith
drop_split (suc k) (suc n) zero [] e = refl
drop_split (suc k) (suc n) (suc m) [] e = refl
drop_split (suc k) (suc n) m (c ∷ s) e = drop_split k n m s (omega arith)

next_of_rune : (s : Bytes) (l m : Lexer) → (next_of s l).0 ≡ (next_of s m).0
unfolding next_of
next_of_rune [] l m = refl
next_of_rune (c ∷ s) l m = refl

-- The rune that is read depends on the rest of the input alone.
pub next_rune : (l m : Lexer) → drop l.pos l.input ≡ drop m.pos m.input → (next l).0 ≡ (next m).0
unfolding next
next_rune l m e = rw e (next_of_rune (drop m.pos m.input) l m)

pub same_peek : (l m : Lexer) → drop l.pos l.input ≡ drop m.pos m.input → (peek l).0 ≡ (peek m).0
unfolding peek
same_peek l m e = next_rune l m e

pub peek_rest :
    (l : Lexer) → l.pos ≤ length l.input → drop (peek l).1.pos (peek l).1.input ≡ drop l.pos l.input
peek_rest l h = let on = peek-Moves l h in rw (peek_pos l, on.same_input)

next-eof : (l : Lexer) → length (drop l.pos l.input) ≡ 0 → (next l).0 ≡ eof
unfolding peek
next-eof l h = peek-eof l (omega (arith, length-drop l.pos l.input))

-- Behind the rune that `next` reads, of a rest that begins with `c`, its other bytes are dropped.
next_rest :
    (c : ℕ) (s : Bytes) (l : Lexer)
    → l.pos ≤ length l.input
    → drop l.pos l.input ≡ c ∷ s
    → drop (next l).1.pos (next l).1.input ≡ drop ((next l).1.width - 1) s
next_rest c s l h e =
    let on = next-Moves l h in
    let w = (next l).1.width in
    let more : 1 ≤ length (drop l.pos l.input) = rw e (omega arith) in
    rw (
      on.same_input,
      drop_split (next l).1.pos l.pos w l.input (next_width l),
      e,
      drop_cons w c s (
          omega (
            arith,
            next_width l,
            length-drop l.pos l.input,
            next_advances l (omega (arith, length-drop l.pos l.input)),
          )),
    )

accept_from-stops :
    (valid : Bytes) (skip : ℕ) (s : Bytes) (l : Lexer)
    → contains_rune valid eof ≡ false
    → l.pos ≤ length l.input
    → drop l.pos l.input ≡ drop skip s
    → contains_rune valid (next (accept_from valid skip s l)).0 ≡ false
unfolding accept_from peek
accept_from-stops valid skip [] l v h e =
    let none_left : length (drop l.pos l.input) ≡ 0 = rw (e, drop_nil skip) in
    rw (next_rune (peek l).1 l (peek_rest l h), next-eof l none_left) v
accept_from-stops valid (suc skip) (c ∷ s) l v h e = accept_from-stops valid skip s l v h e
accept_from-stops valid zero (c ∷ s) l v h e =
    let on = next-Moves l h in
    elim (Bool-cases (contains_rune valid (next l).0)) [
      | inl y ↦
          rw (y, accept_from)
            (accept_from-stops valid ((next l).1.width - 1) s (next l).1 v
              (rw on.same_input on.inside) (next_rest c s l h e))
      | inr n ↦ rw (n, accept_from, next_rune (peek l).1 l (peek_rest l h)) n
    ]

-- For a set without `eof`, the rune at which `acceptRun` stops is not in the set.
pub accept_run-stops :
    (valid : Bytes) (l : Lexer)
    → contains_rune valid eof ≡ false
    → l.pos ≤ length l.input
    → contains_rune valid (next (accept_run valid l)).0 ≡ false
unfolding accept_run
accept_run-stops valid l v h = accept_from-stops valid zero (drop l.pos l.input) l v h refl
