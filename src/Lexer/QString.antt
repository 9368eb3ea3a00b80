-- ===== src/Lexer/QString.antt =====
-- What `lexQString` of pkg/yang/lex.go uses up.
use goyang.Base.{
  ℕ, zero, suc, ◌+◌, ◌-◌, ◌≤◌, ◌<◌, ◌≡◌, refl, true, not, ◌&&◌, ◌||◌, [], ◌∷◌, Option, none, some,
  Bytes, length, drop, ◌==◌, ltb, leb, arith, Bool-cases, inl, inr,
}
use goyang.Base.Int.{sub_ℕ}
use goyang.Base.Tests.{either}
use goyang.Lexer.{
  eof, Lexer, at_ground, stopped, t_string, missing_double_quote, invalid_escape, next, peek,
}
use goyang.Lexer.States.{Quoted, q_round, q_from, lex_q_string, escaped, append_rune, missing_end}
use goyang.Lexer.Cursor.{next-Moves, next_advances, peek-eof}
use goyang.Lexer.Potential.{
  remains, IsPlaced, Spends, Moves-Spends, Spends-trans, Spends-refl, Spends-more, emit_text-Spends,
  errorf_at-Spends, goto-Spends, is_settled,
}

-- From `l` to `m` a token may have been added for each byte read, and `n` more.
pub record Pays (n : ℕ) (l m : Lexer) : Type 0 where
  pub placed : IsPlaced m
  pub less_input : remains m ≤ remains l
  pub paid : length m.items + remains m ≤ length l.items + remains l + n

Spends-Pays : {n : ℕ} {l m : Lexer} → Spends n l m → Pays n l m
Spends-Pays s = record {
  placed = s.placed;
  less_input = s.less_input;
  paid = omega (arith, s.less_input, s.added);
}

Pays-trans : {i j : ℕ} {l m n : Lexer} → Pays i l m → Pays j m n → Pays (i + j) l n
Pays-trans p q = record {
  placed = q.placed;
  less_input = omega (arith, p.less_input, q.less_input);
  paid = omega (arith, p.paid, q.paid);
}

missing_end-Spends : (q : Quoted) → IsPlaced q.lexer → Spends 1 q.lexer (missing_end q)
unfolding missing_end
missing_end-Spends q p =
    goto-Spends stopped (errorf_at-Spends q.line q.col missing_double_quote q.lexer p)

-- The next rune pays for the token of an invalid escape.
next-Pays :
    (l : Lexer)
    → IsPlaced l
    → l.pos < length l.input
    → (m : Lexer) → Spends 1 (next l).1 m
    → Pays 0 l m
next-Pays l p h m s =
    let on = next-Moves l p.inside in
    let same : remains (next l).1 ≡ length l.input - (next l).1.pos = rw on.same_input in
    let kept : length (next l).1.items ≡ length l.items = rw on.same_items in
    record {
      placed = s.placed;
      less_input = omega (arith, s.less_input, same, on.forward);
      paid = omega (arith, s.less_input, s.added, same, kept, next_advances l h);
    }

escaped-Spends : (c : ℕ) (q : Quoted) → IsPlaced q.lexer → Spends 1 q.lexer (escaped c q).lexer
unfolding escaped append_rune
escaped-Spends c q p =
    let kept = Spends-more 1 (Spends-refl p) in
    let l = q.lexer in
    let P : Quoted → Type 0 = λ z. Spends 1 q.lexer z.lexer in
    either (c == b'n') P kept (
      either (c == b't') P kept (
        either (c == b'"' || c == b'\\') P kept (
          either l.in_pattern (λ z. Spends 1 q.lexer z) kept
            (errorf_at-Spends l.line (sub_ℕ l.col 1) (invalid_escape c) l p))))

-- The string has ended and its token is there, or the loop goes on.
abbrev Passes : Lexer → Lexer × Option Quoted → Type 0
Passes l (m, none) = Spends 1 l m × (is_settled m.state ≡ true)
Passes l (m, some q) = Spends 1 l q.lexer

q_round-Passes : (c : ℕ) (q : Quoted) → IsPlaced q.lexer → Passes q.lexer (q_round c q)
unfolding q_round append_rune missing_end
q_round-Passes c q p =
    let l = q.lexer in
    let kept = Spends-more 1 (Spends-refl p) in
    let on = Moves-Spends p (next-Moves l p.inside) in
    let P = Passes l in
    either (c == eof) P (missing_end-Spends q p, refl)
      (either (c == b'"') P (goto-Spends at_ground (emit_text-Spends t_string q.text l p), refl)
        (either (c == b'\n') P kept (
          either (c == b' ' || c == b'\t') P
            (either (not q.over && leb l.tcol q.indent) (λ (z : Quoted). Spends 1 l z.lexer) kept
              kept)
            (either (c == b'\\') P
              (Spends-trans on
                (escaped-Spends (next l).0 (record q { lexer = (next l).1 }) on.placed))
              kept))))

-- The round on the rune that `next` returns.
abbrev round : Quoted → Lexer × Option Quoted
round q = q_round (next q.lexer).0 (record q { lexer = (next q.lexer).1 })

-- What the loop returns from `l` on.
pub record Ends (l m : Lexer) : Type 0 where
  pub pays : Pays 1 l m
  pub settled : is_settled m.state ≡ true

on_end :
    (q : Quoted)
    → IsPlaced q.lexer
    → length q.lexer.input ≤ q.lexer.pos
    → round q ≡ (missing_end (record q { lexer = (next q.lexer).1 }), none)
unfolding q_round peek
on_end q p h = rw (peek-eof q.lexer h)

missing_end-Ends :
    (q : Quoted)
    → IsPlaced q.lexer
    → Ends q.lexer (missing_end (record q { lexer = (next q.lexer).1 }))
unfolding missing_end
missing_end-Ends q p =
    let on = Moves-Spends p (next-Moves q.lexer p.inside) in
    record {
      pays =
          Spends-Pays (
            Spends-trans on (missing_end-Spends (record q { lexer = (next q.lexer).1 }) on.placed));
      settled = refl;
    }

-- The rest of the loop behind the round `r`.
abbrev behind : Bytes → ℕ → Lexer × Option Quoted → Lexer
behind s from r = elim r.1 [ none ↦ r.0 | some q' ↦ q_from (r.0.pos - from - 1) s q' ]

behind-Ends :
    (s : Bytes) (from : ℕ) (l : Lexer) (r : Lexer × Option Quoted)
    → IsPlaced l
    → l.pos < length l.input
    → Passes (next l).1 r
    → ((skip : ℕ) (q : Quoted) → IsPlaced q.lexer → Ends q.lexer (q_from skip s q))
    → Ends l (behind s from r)
behind-Ends s from l (m, none) p h (e, t) f = record {
  pays = Pays-trans (next-Pays l p h m e) (Spends-Pays (Spends-more 1 (Spends-refl e.placed)));
  settled = t;
}
behind-Ends s from l (m, some q) p h e f =
    let last = f (m.pos - from - 1) q e.placed in
    record { pays = Pays-trans (next-Pays l p h q.lexer e) last.pays; settled = last.settled }

behind_end :
    (s : Bytes) (from : ℕ) (l m : Lexer) (r : Lexer × Option Quoted)
    → r ≡ (m, none)
    → Ends l m
    → Ends l (behind s from r)
behind_end s from l m r e t = rw e t

q_from-Ends :
    (skip : ℕ) (s : Bytes) (q : Quoted) → IsPlaced q.lexer → Ends q.lexer (q_from skip s q)
unfolding q_from
q_from-Ends skip [] q p = missing_end-Ends q p
q_from-Ends (suc skip) (b ∷ s) q p = q_from-Ends skip s q p
q_from-Ends zero (b ∷ s) q p =
    let l = q.lexer in
    let on = Moves-Spends p (next-Moves l p.inside) in
    elim (Bool-cases (ltb l.pos (length l.input))) [
      | inl h ↦
          behind-Ends s l.pos l (round q) p (ground arith)
            (q_round-Passes (next l).0 (record q { lexer = (next l).1 }) on.placed)
            (λ skip q' p'. q_from-Ends skip s q' p')
      | inr h ↦ behind_end s l.pos l _ (round q) (on_end q p (ground arith)) (missing_end-Ends q p)
    ]

pub lex_q_string-Ends : (l : Lexer) → IsPlaced l → Ends l (lex_q_string l)
unfolding lex_q_string
lex_q_string-Ends l p = q_from-Ends zero (drop l.pos l.input) _ p
