-- ===== src/Lexer/Cursor.antt =====
-- How the operations on the cursor of pkg/yang/lex.go move it.
use goyang.Base.{
  ℕ, zero, suc, ◌+◌, ◌-◌, ◌≤◌, ◌<◌, ◌≡◌, refl, sym, [], ◌∷◌, Option, none, some, Bytes, length,
  drop, length-drop, arith, Bool-cases, inl, inr,
}
use mathlib.Core.Option
use goyang.Base.Strings.{index, has_prefix}
use goyang.Base.Utf8.{decode_rune, decode_rune-width}
use goyang.Lexer.{
  eof, Lexer, next, next_of, advance, backup, peek, accept_from, accept_run, contains_rune, skip_to,
  skip_on, update_cursor,
}

-- From `l` to `l'` only the cursor has moved, forwards and inside the input.
pub record Moves (l l' : Lexer) : Type 0 where
  pub same_input : l'.input ≡ l.input
  pub same_items : l'.items ≡ l.items
  pub same_start : l'.start ≡ l.start
  pub same_state : l'.state ≡ l.state
  pub same_errout : l'.errout ≡ l.errout
  pub same_errcnt : l'.errcnt ≡ l.errcnt
  pub forward : l.pos ≤ l'.pos
  pub inside : l'.pos ≤ length l.input

pub Moves-refl : (l : Lexer) → l.pos ≤ length l.input → Moves l l
Moves-refl l h = record {
  same_input = refl;
  same_items = refl;
  same_start = refl;
  same_state = refl;
  same_errout = refl;
  same_errcnt = refl;
  forward = omega arith;
  inside = h;
}

pub Moves-trans : {l m n : Lexer} → Moves l m → Moves m n → Moves l n
Moves-trans p q = record {
  same_input = cc;
  same_items = cc;
  same_start = cc;
  same_state = cc;
  same_errout = cc;
  same_errcnt = cc;
  forward = omega (arith, p.forward, q.forward);
  inside = rw (sym p.same_input) q.inside;
}

advance-Moves : (c w : ℕ) (l : Lexer) → l.pos + w ≤ length l.input → Moves l (advance c w l)
unfolding advance
advance-Moves c w l h = record {
  same_input = ground arith;
  same_items = ground arith;
  same_start = ground arith;
  same_state = ground arith;
  same_errout = ground arith;
  same_errcnt = ground arith;
  forward = ground arith;
  inside = ground arith;
}

next_of-Moves :
    (s : Bytes) (l : Lexer) → l.pos + length s ≤ length l.input → Moves l (next_of s l).1
unfolding next_of
next_of-Moves [] l h = record {
  same_input = refl;
  same_items = refl;
  same_start = refl;
  same_state = refl;
  same_errout = refl;
  same_errcnt = refl;
  forward = omega arith;
  inside = omega arith;
}
next_of-Moves (c ∷ s) l h =
    advance-Moves (decode_rune (c ∷ s)).0 (decode_rune (c ∷ s)).1 l
      (omega (arith, (decode_rune-width c s).1))

pub next-Moves : (l : Lexer) → l.pos ≤ length l.input → Moves l (next l).1
unfolding next
next-Moves l h = next_of-Moves (drop l.pos l.input) l (omega (arith, length-drop l.pos l.input))

next_of_width : (s : Bytes) (l : Lexer) → (next_of s l).1.pos ≡ l.pos + (next_of s l).1.width
unfolding next_of advance
next_of_width [] l = omega arith
next_of_width (c ∷ s) l = ground arith

pub next_width : (l : Lexer) → (next l).1.pos ≡ l.pos + (next l).1.width
unfolding next
next_width l = next_of_width (drop l.pos l.input) l

-- `next` followed by `backup` is back at the same position.
back-Moves :
    (l m : Lexer)
    → l.pos ≤ length l.input
    → Moves l m
    → m.pos ≡ l.pos + m.width
    → Moves l (backup m)
unfolding backup
back-Moves l m h p e = record {
  same_input = ground (arith, p.same_input);
  same_items = ground (arith, p.same_items);
  same_start = ground (arith, p.same_start);
  same_state = ground (arith, p.same_state);
  same_errout = ground (arith, p.same_errout);
  same_errcnt = ground (arith, p.same_errcnt);
  forward = ground arith;
  inside = ground arith;
}

back_pos : (l m : Lexer) → m.pos ≡ l.pos + m.width → (backup m).pos ≡ l.pos
unfolding backup
back_pos l m e = ground arith

pub peek-Moves : (l : Lexer) → l.pos ≤ length l.input → Moves l (peek l).1
unfolding peek next
peek-Moves l h = back-Moves l (next l).1 h (next-Moves l h) (next_of_width (drop l.pos l.input) l)

pub peek_pos : (l : Lexer) → (peek l).1.pos ≡ l.pos
unfolding peek next
peek_pos l = back_pos l (next l).1 (next_of_width (drop l.pos l.input) l)

next_of_advances : (s : Bytes) (l : Lexer) → 1 ≤ length s → l.pos < (next_of s l).1.pos
unfolding next_of advance
next_of_advances [] l h = omega arith
next_of_advances (c ∷ s) l h = ground (arith, (decode_rune-width c s).0)

-- Inside the input `next` moves by at least one byte.
pub next_advances : (l : Lexer) → l.pos < length l.input → l.pos < (next l).1.pos
unfolding next
next_advances l h =
    next_of_advances (drop l.pos l.input) l (omega (arith, length-drop l.pos l.input))

next_of-eof : (s : Bytes) (l : Lexer) → length s ≡ 0 → (next_of s l).0 ≡ eof
unfolding next_of
next_of-eof [] l h = refl
next_of-eof (c ∷ s) l h = omega arith

-- At the end of the input `peek` returns `eof`.
pub peek-eof : (l : Lexer) → length l.input ≤ l.pos → (peek l).0 ≡ eof
unfolding peek next
peek-eof l h = next_of-eof (drop l.pos l.input) l (omega (arith, length-drop l.pos l.input))

accept_from-Moves :
    (valid : Bytes) (skip : ℕ) (s : Bytes) (l : Lexer)
    → l.pos ≤ length l.input
    → Moves l (accept_from valid skip s l)
unfolding accept_from next peek
accept_from-Moves valid skip [] l h = peek-Moves l h
accept_from-Moves valid (suc skip) (c ∷ s) l h = accept_from-Moves valid skip s l h
accept_from-Moves valid zero (c ∷ s) l h =
    let on = next-Moves l h in
    elim (Bool-cases (contains_rune valid (next l).0)) [
      | inl e ↦
          rw (e, accept_from)
            (Moves-trans on (
              accept_from-Moves valid ((next l).1.width - 1) s (next l).1
                (rw on.same_input on.inside)))
      | inr e ↦
          rw (e, accept_from) (back-Moves l (next l).1 h on (next_of_width (drop l.pos l.input) l))
    ]

pub accept_run-Moves :
    (valid : Bytes) (l : Lexer) → l.pos ≤ length l.input → Moves l (accept_run valid l)
unfolding accept_run
accept_run-Moves valid l h = accept_from-Moves valid zero (drop l.pos l.input) l h

bound_suc :
    (o : Option ℕ) (x n : ℕ)
    → ((y : ℕ) → o ≡ some y → y ≤ n)
    → Option.map suc o ≡ some x
    → x ≤ suc n
bound_suc none x n f h = ground arith
bound_suc (some y) x n f h = ground (arith, f y refl)

index_bound : (s t : Bytes) (x : ℕ) → index s t ≡ some x → x ≤ length s
unfolding index
index_bound [] t x h = ground arith
index_bound (c ∷ s) t x h = elim (Bool-cases (has_prefix (c ∷ s) t)) [
  | inl e ↦ ground arith
  | inr e ↦ bound_suc (index s t) x (length s) (λ y q. index_bound s t y q) (ground arith)
]

skip_on-Moves :
    (o : Option ℕ) (l : Lexer)
    → l.pos ≤ length l.input
    → ((y : ℕ) → o ≡ some y → y ≤ length (drop l.pos l.input))
    → Moves l (skip_on l o).1
unfolding skip_on update_cursor
skip_on-Moves none l h f = Moves-refl l h
skip_on-Moves (some x) l h f = record {
  same_input = refl;
  same_items = refl;
  same_start = refl;
  same_state = refl;
  same_errout = refl;
  same_errcnt = refl;
  forward = omega arith;
  inside = omega (arith, f x refl, length-drop l.pos l.input);
}

pub skip_to-Moves : (t : Bytes) (l : Lexer) → l.pos ≤ length l.input → Moves l (skip_to t l).1
unfolding skip_to
skip_to-Moves t l h =
    skip_on-Moves (index (drop l.pos l.input) t) l h (index_bound (drop l.pos l.input) t)
