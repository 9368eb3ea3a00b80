-- ===== src/Parser/Returns.antt =====
-- What the functions of pkg/yang/parse.go that read tokens use up: the calculus of their results.
use goyang.Base.{
  ℕ, ◌+◌, ◌≤◌, ◌≡◌, refl, Bool, true, false, Option, none, some, length, arith, ap, ◌∙◌,
}
use goyang.Base.Options.{◌>>=◌}
use goyang.Lexer.{Lexer, Token}
use goyang.Lexer.Potential.{potential, IsReady}
use goyang.Lexer.Total.{tokens}
use goyang.Parser.{Parser, seen}

-- What is left to read: input, room for tokens, and the tokens that were pushed.
abbrev pub rank : Parser → ℕ
rank p = potential p.lex + length p.tokens

-- The result `r` of a call on `p` is there, its lexer keeps the invariant, and what is left to read
-- is smaller by the cost of the value.
pub record Returns {A : Type 0} (cost : A → ℕ) (r : Option (A × Parser)) (p : Parser) : Type 0 where
  pub value : A
  pub rest : Parser
  pub returns : r ≡ some (value, rest)
  pub ready : IsReady rest.lex
  pub smaller : rank rest + cost value ≤ rank p

-- The same for a call on a lexer.
pub record Fetches (r : Option (Option Token × Lexer)) (l : Lexer) : Type 0 where
  pub token : Option Token
  pub rest : Lexer
  pub returns : r ≡ some (token, rest)
  pub ready : IsReady rest
  pub smaller : potential rest + tokens token ≤ potential l

pub give :
    {A : Type 0} (cost : A → ℕ) (v : A) (q p : Parser)
    → IsReady q.lex
    → rank q + cost v ≤ rank p
    → Returns cost (some (v, q)) p
give cost v q p r h = record { value = v; rest = q; returns = refl; ready = r; smaller = h }

pub bind-Returns :
    {A B : Type 0} {cost : A → ℕ} (cost' : B → ℕ) {r : Option (A × Parser)}
    (f : A × Parser → Option (B × Parser)) {p0 p : Parser}
    → Returns cost r p0
    → ((v : A) (q : Parser)
        → IsReady q.lex
        → rank q + cost v ≤ rank p0
        → Returns cost' (f (v, q)) p)
    → Returns cost' (r >>= f) p
bind-Returns cost' {r} f h k =
    let x = k h.value h.rest h.ready h.smaller in
    record {
      value = x.value;
      rest = x.rest;
      returns = ap (λ z. z >>= f) h.returns ∙ x.returns;
      ready = x.ready;
      smaller = x.smaller;
    }

pub bind-Fetches :
    {B : Type 0} (cost : B → ℕ) {r : Option (Option Token × Lexer)}
    (f : Option Token × Lexer → Option (B × Parser)) {l : Lexer} {p : Parser}
    → Fetches r l
    → ((v : Option Token) (m : Lexer)
        → IsReady m
        → potential m + tokens v ≤ potential l
        → Returns cost (f (v, m)) p)
    → Returns cost (r >>= f) p
bind-Fetches cost {r} f h k =
    let x = k h.token h.rest h.ready h.smaller in
    record {
      value = x.value;
      rest = x.rest;
      returns = ap (λ z. z >>= f) h.returns ∙ x.returns;
      ready = x.ready;
      smaller = x.smaller;
    }

-- A call on a lexer that goes on with one on the lexer behind it.
pub bind_lexer :
    {r : Option (Option Token × Lexer)} (f : Option Token × Lexer → Option (Option Token × Lexer))
    {l : Lexer}
    → Fetches r l
    → ((v : Option Token) (m : Lexer)
        → IsReady m
        → potential m + tokens v ≤ potential l
        → Fetches (f (v, m)) l)
    → Fetches (r >>= f) l
bind_lexer {r} f h k =
    let x = k h.token h.rest h.ready h.smaller in
    record {
      token = x.token;
      rest = x.rest;
      returns = ap (λ z. z >>= f) h.returns ∙ x.returns;
      ready = x.ready;
      smaller = x.smaller;
    }

-- A result that is smaller than `q` is smaller than `p`.
pub weaken :
    {A : Type 0} {cost : A → ℕ} {r : Option (A × Parser)} {q p : Parser}
    → rank q ≤ rank p
    → Returns cost r q
    → Returns cost r p
weaken h x = record {
  value = x.value;
  rest = x.rest;
  returns = x.returns;
  ready = x.ready;
  smaller = omega (arith, x.smaller, h);
}

pub branch :
    {A : Type 0} (t : Bool) (P : A → Type 0) {x y : A}
    → P x
    → P y
    → P (elim t [ true ↦ x | false ↦ y ])
branch true P a b = a
branch false P a b = b

pub branch_token :
    {A : Type 0} (o : Option Token) (P : A → Type 0) {x : A} {f : Token → A}
    → (o ≡ none → P x)
    → ((t : Token) → o ≡ some t → P (f t))
    → P (elim o [ none ↦ x | some t ↦ f t ])
branch_token none P a b = a refl
branch_token (some t) P a b = b t refl

pub seen_size : (o : Option Token) (t : Token) → seen o ≡ some t → tokens o ≡ 1
seen_size none t h = ground arith
seen_size (some u) t h = refl
