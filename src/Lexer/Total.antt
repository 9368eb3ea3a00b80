-- ===== src/Lexer/Total.antt =====
-- `NextToken` of pkg/yang/lex.go returns.
use goyang.Base.{
  ℕ, zero, suc, ◌+◌, ◌≤◌, ◌<◌, ◌≡◌, ◌≢◌, ◌⊎◌, ◌∙◌, refl, true, List, [], ◌∷◌, Option, none, some,
  Bytes, length, ◌==◌, arith, Bool-cases, inl, inr,
}
use goyang.Lexer.{Lexer, State, at_ground, at_q_string, at_unquoted, stopped, Token, new_lexer}
use goyang.Lexer.States.{
  lex_step, lex_ground, lex_q_string, lex_unquoted, next_token, next_token_on,
}
use goyang.Lexer.Potential.{
  weight, potential, IsPlaced, IsReady, is_settled, settled_weight, settled_not_unquoted,
}
use goyang.Lexer.Skipping.{same_peek}
use goyang.Lexer.QString.{lex_q_string-Ends}
use goyang.Lexer.Unquoted.{lex_unquoted-Spends, lex_unquoted_state, lex_unquoted_shrinks}
use goyang.Lexer.Ground.Switch.{lex_ground-Advances}

-- A step keeps the invariant and makes the potential smaller.
pub record Descends (l m : Lexer) : Type 0 where
  pub ready : IsReady m
  pub smaller : potential m < potential l

settled-IsReady : (m : Lexer) → IsPlaced m → is_settled m.state ≡ true → IsReady m
settled-IsReady m p t = record {
  placed = p;
  can_read = λ e. absurd (settled_not_unquoted m.state t e);
}

from_ground : (l : Lexer) → l.state ≡ at_ground → IsReady l → Descends l (lex_ground l)
from_ground l e r =
    let a = lex_ground-Advances l r.placed in
    let w : weight l ≡ 1 = rw e in record { ready = a.ready; smaller = omega (arith, a.smaller, w) }

from_q_string : (l : Lexer) → l.state ≡ at_q_string → IsReady l → Descends l (lex_q_string l)
from_q_string l e r =
    let a = lex_q_string-Ends l r.placed in
    let m = lex_q_string l in
    let w : weight l ≡ 3 = rw e in
    record {
      ready = settled-IsReady m a.pays.placed a.settled;
      smaller = omega (
        arith,
        a.pays.paid,
        a.pays.less_input,
        w,
        settled_weight m.state (m.start == m.pos) a.settled,
      );
    }

from_unquoted : (l : Lexer) → l.state ≡ at_unquoted → IsReady l → Descends l (lex_unquoted l)
from_unquoted l e r =
    let a = lex_unquoted-Spends l r.placed in
    let m = lex_unquoted l in
    let t : is_settled m.state ≡ true = rw (lex_unquoted_state l) in
    let top = settled_weight m.state (m.start == m.pos) t in
    record {
      ready = settled-IsReady m a.placed t;
      smaller = elim (Bool-cases (l.start == l.pos)) [
        | inl same ↦
            let w : weight l ≡ 0 = rw (e, same) in
            let read = lex_unquoted_shrinks l r.placed (r.can_read e (ground (arith, same))) in
            omega (arith, a.added, read, top, w)
        | inr apart ↦
            let w : weight l ≡ 3 = rw (e, apart) in omega (arith, a.added, a.less_input, top, w)
      ];
    }

-- Every state function keeps the cursor inside the input and uses up input or room in the channel,
-- so that the potential becomes smaller with each call, if the state is not nil.
pub lex_step-Descends : (l : Lexer) → IsReady l → l.state ≢ stopped → Descends l (lex_step l)
unfolding lex_step
lex_step-Descends l r n =
    elim l.state
        as (λ s.
          l.state ≡ s
          → Descends l (elim s [
            | at_ground ↦ lex_ground l
            | at_q_string ↦ lex_q_string l
            | at_unquoted ↦ lex_unquoted l
            | stopped ↦ l
          ])) [
            | at_ground ↦ λ e. from_ground l e r
            | at_q_string ↦ λ e. from_q_string l e r
            | at_unquoted ↦ λ e. from_unquoted l e r
            | stopped ↦ λ e. absurd (n e)
          ]
      refl

abbrev pub tokens : Option Token → ℕ
tokens none = 0
tokens (some t) = 1

-- What `NextToken` returns, and the lexer behind it.
pub record Reads (fuel : ℕ) (l : Lexer) : Type 0 where
  pub token : Option Token
  pub rest : Lexer
  pub returns : next_token fuel l ≡ some (token, rest)
  pub ready : IsReady rest
  pub smaller : potential rest + tokens token ≤ potential l

pub new_lexer-IsReady : (input path : Bytes) → IsReady (new_lexer input path)
unfolding new_lexer
new_lexer-IsReady input path = record {
  placed = record { start_low = omega arith; inside = omega arith };
  can_read = λ e. absurd (settled_not_unquoted at_ground refl e);
}

taken :
    (fuel : ℕ) (l : Lexer) (t : Token) (ts : List Token)
    → l.items ≡ t ∷ ts
    → IsReady l
    → Reads (suc fuel) l
unfolding next_token next_token_on
taken fuel l t ts e r =
    let count : length l.items ≡ suc (length ts) = rw e in
    record {
      token = some t;
      rest = record l { items = ts };
      returns = rw e;
      ready = record {
        placed = record { start_low = r.placed.start_low; inside = r.placed.inside };
        can_read = λ f g. rw (same_peek (record l { items = ts }) l refl) (r.can_read f g);
      };
      smaller = omega (arith, count);
    }

ended : (fuel : ℕ) (l : Lexer) → l.items ≡ [] → l.state ≡ stopped → IsReady l → Reads (suc fuel) l
unfolding next_token next_token_on
ended fuel l e f r = record {
  token = none;
  rest = l;
  returns = rw (e, f);
  ready = r;
  smaller = omega arith;
}

going_on :
    (s : State) (later : Option (Option Token × Lexer)) (l : Lexer)
    → s ≢ stopped
    → next_token_on [] s later l ≡ later
unfolding next_token_on
going_on stopped later l n = absurd (n refl)
going_on at_ground later l n = refl
going_on at_q_string later l n = refl
going_on at_unquoted later l n = refl

no_items :
    (ts : List Token) (s : State) (later : Option (Option Token × Lexer)) (l : Lexer)
    → ts ≡ []
    → s ≢ stopped
    → next_token_on ts s later l ≡ later
no_items ts s later l e n = rw e (going_on s later l n)

stepped :
    (fuel : ℕ) (l : Lexer)
    → l.items ≡ []
    → l.state ≢ stopped
    → Descends l (lex_step l)
    → Reads fuel (lex_step l)
    → Reads (suc fuel) l
unfolding next_token
stepped fuel l e n d r = record {
  token = r.token;
  rest = r.rest;
  returns = no_items l.items l.state (next_token fuel (lex_step l)) l e n ∙ r.returns;
  ready = r.ready;
  smaller = omega (arith, r.smaller, d.smaller);
}

is_stopped : (s : State) → (s ≡ stopped) ⊎ (s ≢ stopped)
is_stopped stopped = inl refl
is_stopped at_ground = inr (λ e. cc)
is_stopped at_q_string = inr (λ e. cc)
is_stopped at_unquoted = inr (λ e. cc)

items_of : (ts : List Token) → (ts ≡ []) ⊎ ((t : Token) × (us : List Token) × (ts ≡ t ∷ us))
items_of [] = inl refl
items_of (t ∷ us) = inr (t, us, refl)

-- Fuel above the potential is enough for `NextToken` to return a token or, behind the last one,
-- nil; the lexer behind it keeps the invariant, and its potential is smaller by the token.
pub next_token-Reads : (fuel : ℕ) (l : Lexer) → IsReady l → potential l < fuel → Reads fuel l
next_token-Reads zero l r h = ground (arith, h)
next_token-Reads (suc fuel) l r h = elim (items_of l.items) [
  | inr some_left ↦ taken fuel l some_left.0 some_left.1 some_left.2 r
  | inl e ↦ elim (is_stopped l.state) [
    | inl f ↦ ended fuel l e f r
    | inr n ↦
        let d = lex_step-Descends l r n in
        stepped fuel l e n d
          (next_token-Reads fuel (lex_step l) d.ready (omega (arith, d.smaller, h)))
  ]
]
