-- ===== src/Lexer/Unquoted.antt =====
-- What `lexUnquoted` of pkg/yang/lex.go uses up.
use goyang.Base.{
  ℕ, zero, suc, ◌-◌, ◌≤◌, ◌<◌, ◌≡◌, ◌≢◌, refl, false, [], ◌∷◌, Bytes, length, drop, length-drop,
  ltb, arith, Bool-cases, inl, inr,
}
use goyang.Lexer.{eof, Lexer, at_ground, t_unquoted, emit, next, peek}
use goyang.Lexer.States.{ends_unquoted, unquoted_from, lex_unquoted, goto}
use goyang.Lexer.Cursor.{Moves, next-Moves, peek-Moves, peek_pos, next_advances, peek-eof}
use goyang.Lexer.Potential.{
  remains, IsPlaced, Spends, Moves-Spends, Spends-trans, emit-Spends, goto-Spends,
}

emitted : {l m : Lexer} → IsPlaced l → Moves l m → Spends 1 l (goto at_ground (emit t_unquoted m))
emitted p o =
    let on = Moves-Spends p o in
    goto-Spends at_ground (Spends-trans on (emit-Spends t_unquoted _ on.placed))

-- The lexer behind the peek and the call of `next` in a round of the loop.
abbrev passed : Lexer → Lexer
passed l = (next (peek l).1).1

below : {a b c : ℕ} → a ≤ b → b < c → a < c
below p q = omega (arith, p, q)

passed-Spends : (l : Lexer) → IsPlaced l → Spends 0 l (passed l)
passed-Spends l p =
    let one = Moves-Spends p (peek-Moves l p.inside) in
    Spends-trans one (Moves-Spends one.placed (next-Moves (peek l).1 one.placed.inside))

passed_shrinks : (l : Lexer) → l.pos < length l.input → remains (passed l) < remains l
passed_shrinks l h =
    let first = peek-Moves l (omega arith) in
    let in_first : (peek l).1.pos < length (peek l).1.input = rw (first.same_input, peek_pos l) h in
    let second = next-Moves (peek l).1 (omega (arith, in_first)) in
    let far : l.pos < (passed l).pos =
      omega (arith, next_advances (peek l).1 in_first, peek_pos l) in
    rw (second.same_input, first.same_input) (omega (arith, far))

not_eof : (c : ℕ) → ends_unquoted c ≡ false → c ≢ eof
unfolding ends_unquoted
not_eof c n = ground arith

-- A rune that does not end the text is inside the input.
pub reading : (l : Lexer) → ends_unquoted (peek l).0 ≡ false → l.pos < length l.input
reading l n = elim (Bool-cases (ltb l.pos (length l.input))) [
  | inl e ↦ ground arith
  | inr e ↦
      let at_end : (peek l).0 ≡ eof = peek-eof l (ground arith) in
      ground (arith, at_end, not_eof (peek l).0 n)
]

unquoted_from-Spends :
    (skip : ℕ) (s : Bytes) (l : Lexer) → IsPlaced l → Spends 1 l (unquoted_from skip s l)
unfolding unquoted_from
unquoted_from-Spends skip [] l p = emitted p (peek-Moves l p.inside)
unquoted_from-Spends (suc skip) (c ∷ s) l p = unquoted_from-Spends skip s l p
unquoted_from-Spends zero (c ∷ s) l p =
    let on = passed-Spends l p in
    elim (Bool-cases (ends_unquoted (peek l).0)) [
      | inl e ↦ rw (e, unquoted_from) (emitted p (peek-Moves l p.inside))
      | inr n ↦
          rw (n, unquoted_from)
            (Spends-trans on (unquoted_from-Spends ((passed l).width - 1) s (passed l) on.placed))
    ]

unquoted_from_state :
    (skip : ℕ) (s : Bytes) (l : Lexer) → (unquoted_from skip s l).state ≡ at_ground
unfolding unquoted_from
unquoted_from_state skip [] l = refl
unquoted_from_state (suc skip) (c ∷ s) l = unquoted_from_state skip s l
unquoted_from_state zero (c ∷ s) l = elim (Bool-cases (ends_unquoted (peek l).0)) [
  | inl e ↦ rw (e, unquoted_from)
  | inr n ↦ rw (n, unquoted_from) (unquoted_from_state ((passed l).width - 1) s (passed l))
]

unquoted_from_shrinks :
    (s : Bytes) (l : Lexer)
    → IsPlaced l
    → length s ≡ remains l
    → ends_unquoted (peek l).0 ≡ false
    → remains (unquoted_from zero s l) < remains l
unfolding unquoted_from
unquoted_from_shrinks [] l p e n = ground (arith, reading l n)
unquoted_from_shrinks (c ∷ s) l p e n =
    let on = passed-Spends l p in
    let rest = unquoted_from-Spends ((passed l).width - 1) s (passed l) on.placed in
    rw (n, unquoted_from) (below rest.less_input (passed_shrinks l (reading l n)))

pub lex_unquoted-Spends : (l : Lexer) → IsPlaced l → Spends 1 l (lex_unquoted l)
unfolding lex_unquoted
lex_unquoted-Spends l p = unquoted_from-Spends zero (drop l.pos l.input) l p

pub lex_unquoted_state : (l : Lexer) → (lex_unquoted l).state ≡ at_ground
unfolding lex_unquoted
lex_unquoted_state l = unquoted_from_state zero (drop l.pos l.input) l

-- Text that can be read is read.
pub lex_unquoted_shrinks :
    (l : Lexer)
    → IsPlaced l
    → ends_unquoted (peek l).0 ≡ false
    → remains (lex_unquoted l) < remains l
unfolding lex_unquoted
lex_unquoted_shrinks l p n =
    unquoted_from_shrinks (drop l.pos l.input) l p (length-drop l.pos l.input) n
