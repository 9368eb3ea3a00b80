-- ===== src/Lexer/Ground.antt =====
-- What `lexGround` of pkg/yang/lex.go uses up.
pub mod Switch
use goyang.Base.{
  ℕ, ◌+◌, ◌*◌, ◌≤◌, ◌<◌, ◌≡◌, refl, true, false, ◌||◌, [], ◌∷◌, Bytes, codes, length, ◌==◌, ltb,
  arith, Bool-cases, inl, inr,
}
use goyang.Base.Int.{pos}
use goyang.Base.Tests.{either}
use goyang.Lexer.{
  eof, Lexer, at_ground, at_q_string, at_unquoted, stopped, t_string, t_unquoted, missing_quote,
  missing_newline, missing_comment_end, consume, emit, next, peek, skip_to, contains_rune,
}
use goyang.Lexer.States.{goto, ends_unquoted, single_quoted, slash, plus}
use goyang.Lexer.Cursor.{
  Moves, Moves-trans, next-Moves, next_advances, peek-Moves, peek_pos, peek-eof, skip_to-Moves,
}
use goyang.Lexer.Skipping.{same_peek}
use goyang.Lexer.Potential.{
  remains, potential, IsPlaced, IsReady, Spends, Moves-Spends, Spends-trans, Spends-more,
  emit-Spends, errorf_at-Spends, goto-Spends, is_settled, weight_at_top, settled_weight,
  settled_not_unquoted, q_string_not_unquoted,
}

-- The call has used up something, if the state was `at_ground`.
pub record Advances (l m : Lexer) : Type 0 where
  pub ready : IsReady m
  pub smaller : potential m ≤ length l.items + 4 * remains l

settled-Advances :
    {l m : Lexer} → is_settled m.state ≡ true → Spends 1 l m → remains m < remains l → Advances l m
settled-Advances {l} {m} t s h = record {
  ready = record { placed = s.placed; can_read = λ e. absurd (settled_not_unquoted m.state t e) };
  smaller = omega (arith, s.added, h, settled_weight m.state (m.start == m.pos) t);
}

-- A cursor that moves inside the input leaves less of it.
less_remains : {l m : Lexer} → Moves l m → l.pos < m.pos → remains m < remains l
less_remains {l} {m} o h = rw o.same_input (omega (arith, o.inside, h))

stopped-Advances : (l : Lexer) → IsPlaced l → Advances l (goto stopped l)
stopped-Advances l p = record {
  ready = record {
    placed = record { start_low = p.start_low; inside = p.inside };
    can_read = λ e. absurd (settled_not_unquoted stopped refl e);
  };
  smaller = omega arith;
}

unquoted-Advances :
    (l m : Lexer) → IsPlaced l → Moves l m → l.pos < m.pos → Advances l (goto at_unquoted m)
unquoted-Advances l m p o h =
    let on = Moves-Spends p o in
    record {
      ready = record {
        placed = record { start_low = on.placed.start_low; inside = on.placed.inside };
        can_read = λ e f. ground (arith, f, p.start_low, o.same_start);
      };
      smaller =
          omega
            (arith, on.added, h, less_remains o h, weight_at_top at_unquoted (m.start == m.pos));
    }

-- With its cursor at `c` a lexer can read `c` as the first rune of a token.
pub record Starts (c : ℕ) (l : Lexer) : Type 0 where
  pub placed : IsPlaced l
  pub at_start : l.start ≡ l.pos
  pub shown : (peek l).0 ≡ c
  pub not_space : contains_rune (codes " \t\r\n") c ≡ false

inside_of : {c : ℕ} {l : Lexer} → Starts c l → c == eof ≡ false → l.pos < length l.input
inside_of {c} {l} s h = elim (Bool-cases (ltb l.pos (length l.input))) [
  | inl e ↦ ground arith
  | inr e ↦ ground (arith, h, s.shown, peek-eof l (ground arith))
]

-- What the first call of `next` has done.
record Began (l m : Lexer) : Type 0 where
  spends : Spends 0 l m
  moves : Moves l m
  far : l.pos < m.pos
  shrunk : remains m < remains l

began : {c : ℕ} {l : Lexer} → Starts c l → c == eof ≡ false → Began l (next l).1
began {c} {l} s h =
    let o = next-Moves l s.placed.inside in
    let f = next_advances l (inside_of s h) in
    record { spends = Moves-Spends s.placed o; moves = o; far = f; shrunk = less_remains o f }

default-Advances :
    {c : ℕ} {l : Lexer} → Starts c l → ends_unquoted c ≡ false → Advances l (goto at_unquoted l)
default-Advances {c} {l} s h = record {
  ready = record {
    placed = record { start_low = s.placed.start_low; inside = s.placed.inside };
    can_read = λ e f. rw (same_peek (goto at_unquoted l) l refl, s.shown) h;
  };
  smaller = rw s.at_start (ground arith);
}

consume-Spends : (l : Lexer) → IsPlaced l → Spends 0 l (consume l)
unfolding consume
consume-Spends l p = record {
  placed = record { start_low = omega arith; inside = p.inside };
  less_input = omega arith;
  added = omega arith;
}

skip-Spends : (t : Bytes) (l : Lexer) → IsPlaced l → Spends 0 l (skip_to t l).1
skip-Spends t l p = Moves-Spends p (skip_to-Moves t l p.inside)

next-Spends : (l : Lexer) → IsPlaced l → Spends 0 l (next l).1
next-Spends l p = Moves-Spends p (next-Moves l p.inside)

-- Behind the first rune at most one token is added, and the token has ended.
after_first :
    {l m : Lexer}
    → Began l (next l).1
    → is_settled m.state ≡ true
    → Spends 1 (next l).1 m
    → Advances l m
after_first b t s =
    settled-Advances t (Spends-trans b.spends s) (omega (arith, s.less_input, b.shrunk))

single_quoted-Advances : {l : Lexer} → Began l (next l).1 → Advances l (single_quoted l)
unfolding single_quoted
single_quoted-Advances {l} b =
    let l1 = consume (next l).1 in
    let l2 = (skip_to (codes "'") l1).1 in
    let one = consume-Spends (next l).1 b.spends.placed in
    let two = Spends-trans one (skip-Spends (codes "'") l1 one.placed) in
    let token = emit-Spends t_string l2 two.placed in
    either (skip_to (codes "'") l1).0 (Advances l)
      (after_first b refl (
        goto-Spends at_ground
          (Spends-trans two (Spends-trans token (next-Spends (emit t_string l2) token.placed)))))
      (after_first b refl (
        goto-Spends stopped
          (Spends-trans two (errorf_at-Spends l2.line (pos l2.col) missing_quote l2 two.placed))))

-- Behind the first rune and a peek at the next one the text is unquoted.
unquoted_on :
    {l : Lexer}
    → IsPlaced l
    → Began l (next l).1
    → Advances l (goto at_unquoted (peek (next l).1).1)
unquoted_on {l} p b =
    let m = (next l).1 in
    unquoted-Advances l (peek m).1 p (Moves-trans b.moves (peek-Moves m b.spends.placed.inside))
      (omega (arith, b.far, peek_pos m))

slash-Advances : {l : Lexer} → IsPlaced l → Began l (next l).1 → Advances l (slash l)
unfolding slash
slash-Advances {l} p b =
    let m = (next l).1 in
    let l1 = (peek m).1 in
    let shown = Moves-Spends b.spends.placed (peek-Moves m b.spends.placed.inside) in
    let line = (skip_to (b'\n' ∷ []) l1).1 in
    let to_line = Spends-trans shown (skip-Spends (b'\n' ∷ []) l1 shown.placed) in
    let end = (skip_to (codes "*/") l1).1 in
    let to_end = Spends-trans shown (skip-Spends (codes "*/") l1 shown.placed) in
    let one = next-Spends end to_end.placed in
    let two = next-Spends (next end).1 one.placed in
    either ((peek m).0 == b'/') (Advances l)
      (either (skip_to (b'\n' ∷ []) l1).0 (Advances l)
        (after_first b refl (goto-Spends at_ground (Spends-more 1 to_line)))
        (after_first b refl (
          goto-Spends stopped (
            Spends-trans to_line
              (errorf_at-Spends line.line (pos line.col) missing_newline line to_line.placed)))))
      (either ((peek m).0 == b'*') (Advances l)
        (either (skip_to (codes "*/") l1).0 (Advances l)
          (after_first b refl
            (goto-Spends at_ground (Spends-more 1 (Spends-trans to_end (Spends-trans one two)))))
          (after_first b refl (
            goto-Spends stopped (
              Spends-trans to_end
                (errorf_at-Spends end.line (pos end.col) missing_comment_end end to_end.placed)))))
        (unquoted_on p b))

plus-Advances : {l : Lexer} → IsPlaced l → Began l (next l).1 → Advances l (plus l)
unfolding plus
plus-Advances {l} p b =
    let m = (next l).1 in
    let shown = Moves-Spends b.spends.placed (peek-Moves m b.spends.placed.inside) in
    either ((peek m).0 == b'"' || (peek m).0 == b'\'') (Advances l)
      (after_first b refl (
        goto-Spends at_ground
          (Spends-trans shown (emit-Spends t_unquoted (peek m).1 shown.placed))))
      (unquoted_on p b)

quote-Advances :
    {l : Lexer} → IsPlaced l → Began l (next l).1 → Advances l (goto at_q_string (next l).1)
quote-Advances {l} p b = record {
  ready = record {
    placed = record { start_low = b.spends.placed.start_low; inside = b.spends.placed.inside };
    can_read = λ e. absurd (q_string_not_unquoted e);
  };
  smaller = omega (arith, b.spends.added, b.shrunk);
}
