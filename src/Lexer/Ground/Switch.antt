-- ===== src/Lexer/Ground/Switch.antt =====
-- The switch of `lexGround` of pkg/yang/lex.go, and the state function as a whole.
use goyang.Base.{ℕ, ◌≡◌, refl, false, ◌||◌, codes, ◌==◌, arith}
use goyang.Base.Tests.{either, if_cases}
use goyang.Lexer.{eof, Lexer, at_ground, mark, consume, next, peek, accept_run, contains_rune}
use goyang.Lexer.States.{ends_unquoted, ground_on, lex_ground}
use goyang.Lexer.Cursor.{peek-Moves, peek_pos, accept_run-Moves}
use goyang.Lexer.Skipping.{next_rune, same_peek, peek_rest, accept_run-stops}
use goyang.Lexer.Potential.{IsPlaced, Spends, Moves-Spends, emit-Spends, goto-Spends}
use goyang.Lexer.Ground.{
  stopped-Advances, began, default-Advances, after_first, single_quoted-Advances, slash-Advances,
  plus-Advances, quote-Advances, Advances, Starts,
}

not_ending :
    (c : ℕ)
    → c == eof ≡ false
    → (c == b';' || c == b'{' || c == b'}') ≡ false
    → c == b'\'' ≡ false
    → c == b'"' ≡ false
    → contains_rune (codes " \t\r\n") c ≡ false
    → ends_unquoted c ≡ false
unfolding ends_unquoted
not_ending c a b d e f = ground arith

ground_on-Advances : (c : ℕ) (l : Lexer) → Starts c l → Advances l (ground_on c l)
unfolding ground_on
ground_on-Advances c l s =
    let P = Advances l in
    let p = s.placed in
    if_cases (c == eof) P (λ h. stopped-Advances l p)
      (λ n.
        let b = began s n in
        if_cases (c == b';' || c == b'{' || c == b'}') P
          (λ h.
            after_first b refl
              (goto-Spends at_ground (emit-Spends (mark c) (next l).1 b.spends.placed)))
          (λ n1.
            if_cases (c == b'\'') P (λ h. single_quoted-Advances b)
              (λ n2.
                if_cases (c == b'"') P (λ h. quote-Advances p b)
                  (λ n3. either (c == b'/') P (slash-Advances p b) (
                    either (c == b'+') P (plus-Advances p b)
                      (default-Advances s (not_ending c n n1 n2 n3 s.not_space)))))))

-- The lexer with the start of the next token noted.
abbrev noted : Lexer → Lexer
noted l =
    let l1 = consume (accept_run (codes " \t\r\n") l) in
    record l1 { sline = l1.line; scol = l1.col }

noted-Spends : (l : Lexer) → IsPlaced l → Spends 0 l (noted l)
unfolding consume
noted-Spends l p =
    let skipped = Moves-Spends p (accept_run-Moves (codes " \t\r\n") l p.inside) in
    record {
      placed = record { start_low = omega arith; inside = skipped.placed.inside };
      less_input = skipped.less_input;
      added = skipped.added;
    }

noted_start : (l : Lexer) → (noted l).start ≡ (noted l).pos
unfolding consume
noted_start l = refl

noted_not_space :
    (l : Lexer) → IsPlaced l → contains_rune (codes " \t\r\n") (peek (noted l)).0 ≡ false
unfolding consume peek
noted_not_space l p =
    rw (next_rune (noted l) (accept_run (codes " \t\r\n") l) refl)
      (accept_run-stops (codes " \t\r\n") l refl p.inside)

noted-Starts : (l : Lexer) → IsPlaced l → Starts (peek (noted l)).0 (peek (noted l)).1
noted-Starts l p =
    let s = noted-Spends l p in
    let o = peek-Moves (noted l) s.placed.inside in
    record {
      placed = (Moves-Spends s.placed o).placed;
      at_start = rw (o.same_start, peek_pos (noted l)) (noted_start l);
      shown = same_peek (peek (noted l)).1 (noted l) (peek_rest (noted l) s.placed.inside);
      not_space = noted_not_space l p;
    }

pub lex_ground-Advances : (l : Lexer) → IsPlaced l → Advances l (lex_ground l)
unfolding lex_ground
lex_ground-Advances l p =
    let s = noted-Spends l p in
    let o = Moves-Spends s.placed (peek-Moves (noted l) s.placed.inside) in
    let a = ground_on-Advances (peek (noted l)).0 (peek (noted l)).1 (noted-Starts l p) in
    record {
      ready = a.ready;
      smaller = omega (arith, a.smaller, o.less_input, o.added, s.less_input, s.added);
    }
