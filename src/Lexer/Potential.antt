-- ===== src/Lexer/Potential.antt =====
-- What the state functions of pkg/yang/lex.go use up: input and room in the channel.
use goyang.Base.{
  ℕ, ◌+◌, ◌-◌, ◌*◌, ◌≤◌, ◌≡◌, ◌≢◌, Bool, true, false, if◌then◌else◌, Bytes, length, length-append,
  ◌==◌, arith,
}
use goyang.Base.Int.{ℤ}
use goyang.Lexer.{
  Lexer, Code, State, at_ground, at_q_string, at_unquoted, stopped, Problem, LexError, consume,
  emit_text, emit, add_error, errorf_at, peek,
}
use goyang.Lexer.States.{ends_unquoted, goto}
use goyang.Lexer.Cursor.{Moves}

abbrev pub remains : Lexer → ℕ
remains l = length l.input - l.pos

abbrev pub weight_at : State → Bool → ℕ
weight_at stopped same = 0
weight_at at_ground same = 1
weight_at at_q_string same = 3
weight_at at_unquoted same = if same then 0 else 3

abbrev pub weight : Lexer → ℕ
weight l = weight_at l.state (l.start == l.pos)

pub weight_at_top : (s : State) (t : Bool) → weight_at s t ≤ 3
weight_at_top stopped t = omega arith
weight_at_top at_ground t = omega arith
weight_at_top at_q_string t = omega arith
weight_at_top at_unquoted true = omega arith
weight_at_top at_unquoted false = omega arith

abbrev pub is_settled : State → Bool
is_settled at_ground = true
is_settled stopped = true
is_settled _ = false

pub settled_weight : (s : State) (t : Bool) → is_settled s ≡ true → weight_at s t ≤ 1
settled_weight stopped t h = omega arith
settled_weight at_ground t h = omega arith
settled_weight at_q_string t h = ground (arith, h)
settled_weight at_unquoted t h = ground (arith, h)

pub settled_not_unquoted : (s : State) → is_settled s ≡ true → s ≢ at_unquoted
settled_not_unquoted stopped h = λ e. cc
settled_not_unquoted at_ground h = λ e. cc
settled_not_unquoted at_q_string h = λ e. cc
settled_not_unquoted at_unquoted h = ground (arith, h)

pub q_string_not_unquoted : at_q_string ≢ at_unquoted
q_string_not_unquoted = λ e. cc

-- Each call of a state function makes this smaller.
abbrev pub potential : Lexer → ℕ
potential l = length l.items + 4 * remains l + weight l

pub record IsPlaced (l : Lexer) : Type 0 where
  pub start_low : l.start ≤ l.pos
  pub inside : l.pos ≤ length l.input

-- In the state `unquoted` some of the text has been read, or can be.
pub record IsReady (l : Lexer) : Type 0 where
  pub placed : IsPlaced l
  pub can_read : l.state ≡ at_unquoted → l.start ≡ l.pos → ends_unquoted (peek l).0 ≡ false

-- From `l` to `l'` at most `n` tokens were added, and the rest of the input has not grown.
pub record Spends (n : ℕ) (l l' : Lexer) : Type 0 where
  pub placed : IsPlaced l'
  pub less_input : remains l' ≤ remains l
  pub added : length l'.items ≤ length l.items + n

pub Moves-Spends : {l l' : Lexer} → IsPlaced l → Moves l l' → Spends 0 l l'
Moves-Spends {l} {l'} p m = record {
  placed = record {
    start_low = rw m.same_start (omega (arith, p.start_low, m.forward));
    inside = rw m.same_input m.inside;
  };
  less_input = rw m.same_input (omega (arith, m.forward));
  added = rw m.same_items (omega arith);
}

pub Spends-trans : {i j : ℕ} {l m n : Lexer} → Spends i l m → Spends j m n → Spends (i + j) l n
Spends-trans p q = record {
  placed = q.placed;
  less_input = omega (arith, p.less_input, q.less_input);
  added = omega (arith, p.added, q.added);
}

pub Spends-refl : {l : Lexer} → IsPlaced l → Spends 0 l l
Spends-refl p = record { placed = p; less_input = omega arith; added = omega arith }

pub Spends-more : {n : ℕ} {l m : Lexer} (k : ℕ) → Spends n l m → Spends (n + k) l m
Spends-more k p = record {
  placed = p.placed;
  less_input = p.less_input;
  added = omega (arith, p.added);
}

pub emit_text-Spends :
    (c : Code) (t : Bytes) (l : Lexer) → IsPlaced l → Spends 1 l (emit_text c t l)
unfolding emit_text consume
emit_text-Spends c t l p = record {
  placed = record { start_low = ground arith; inside = ground (arith, p.inside) };
  less_input = ground arith;
  added = grind (arith, length-append);
}

pub add_error-Spends : (e : LexError) (l : Lexer) → IsPlaced l → Spends 0 l (add_error e l)
unfolding add_error
add_error-Spends e l p = record {
  placed = record { start_low = ground (arith, p.start_low); inside = ground (arith, p.inside) };
  less_input = ground arith;
  added = ground arith;
}

pub errorf_at-Spends :
    (line : ℕ) (col : ℤ) (e : Problem) (l : Lexer)
    → IsPlaced l
    → Spends 1 l (errorf_at line col e l)
unfolding errorf_at emit
errorf_at-Spends line col e l p =
    let first = emit_text-Spends _ _ l p in Spends-trans first (add_error-Spends _ _ first.placed)

pub emit-Spends : (c : Code) (l : Lexer) → IsPlaced l → Spends 1 l (emit c l)
unfolding emit
emit-Spends c l p = emit_text-Spends c _ l p

pub goto-Spends : {n : ℕ} {l m : Lexer} (s : State) → Spends n l m → Spends n l (goto s m)
goto-Spends s p = record {
  placed = record { start_low = p.placed.start_low; inside = p.placed.inside };
  less_input = p.less_input;
  added = p.added;
}
