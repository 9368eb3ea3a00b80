-- ===== src/Parser/Tokens.antt =====
-- What the functions of pkg/yang/parse.go that fetch tokens use up.
use goyang.Base.{
  ℕ, zero, suc, ◌+◌, ◌≤◌, ◌<◌, ◌≡◌, refl, [], ◌∷◌, Option, none, some, length, ◌++◌, arith,
}
use goyang.Lexer.{Lexer, Token}
use goyang.Lexer.Potential.{potential, IsReady}
use goyang.Lexer.Total.{tokens, next_token-Reads}
use goyang.Parser.{
  Parser, seen, lex_next, joined, next, pop, push, with_lexer, is_plus, is_string, is_error,
}
use goyang.Parser.Returns.{
  rank, Returns, Fetches, give, bind-Fetches, bind_lexer, branch, branch_token, seen_size,
}

give_token :
    (v : Option Token) (m l : Lexer)
    → IsReady m
    → potential m + tokens v ≤ potential l
    → Fetches (some (v, m)) l
give_token v m l r h = record { token = v; rest = m; returns = refl; ready = r; smaller = h }

weaken_lexer :
    {r : Option (Option Token × Lexer)} {m l : Lexer}
    → potential m ≤ potential l
    → Fetches r m
    → Fetches r l
weaken_lexer h x = record {
  token = x.token;
  rest = x.rest;
  returns = x.returns;
  ready = x.ready;
  smaller = omega (arith, x.smaller, h);
}

lex_next-Fetches :
    (fuel : ℕ) (l : Lexer) → IsReady l → potential l < fuel → Fetches (lex_next fuel l) l
unfolding lex_next
lex_next-Fetches zero l r h = ground (arith, h)
lex_next-Fetches (suc fuel) l r h =
    let a = next_token-Reads (suc fuel) l r h in
    bind_lexer _
      (record {
        token = a.token;
        rest = a.rest;
        returns = a.returns;
        ready = a.ready;
        smaller = a.smaller;
      })
      (λ v m ready less.
        branch_token v (λ z. Fetches z l) (λ e. give_token none m l ready (omega (arith, less)))
          (λ t e.
            let one : tokens v ≡ 1 = rw e in
            branch (is_error t.code) (λ z. Fetches z l)
              (weaken_lexer (omega (arith, less))
                (lex_next-Fetches fuel m ready (omega (arith, less, one, h))))
              (give_token (some t) m l ready (omega (arith, less, one)))))

-- In the parser with the lexer `m` nothing else has changed.
keep :
    (t : Token) (m : Lexer) (p q : Parser)
    → IsReady m
    → potential m + length q.tokens + 1 ≤ rank p
    → Returns tokens (some (some t, with_lexer m q)) p
keep t m p q r h = give tokens (some t) (with_lexer m q) p r (omega (arith, h))

joined-Returns :
    (fuel : ℕ) (t : Token) (p : Parser)
    → IsReady p.lex
    → potential p.lex < fuel
    → (p0 : Parser) → rank p + 1 ≤ rank p0
    → Returns tokens (joined fuel t p) p0
unfolding joined
joined-Returns zero t p r h p0 below = ground (arith, h)
joined-Returns (suc fuel) t p r h p0 below =
    let P = λ (z : Option (Option Token × Parser)). Returns tokens z p0 in
    bind-Fetches tokens _ (lex_next-Fetches (suc fuel) p.lex r h) (λ v m ready less.
      branch_token (seen v) P (λ e. keep t m p0 p ready (omega (arith, less, below)))
        (λ nt e.
          let one = seen_size v nt e in
          branch (is_plus nt) P
            (bind-Fetches tokens _ (lex_next-Fetches (suc fuel) m ready (omega (arith, less, h)))
              (λ v2 m2 ready2 less2.
                branch_token (seen v2) P
                  (λ e2.
                    give tokens (some t) (push nt (with_lexer m2 p)) p0 ready2
                      (omega (arith, less, less2, one, below)))
                  (λ nnt e2.
                    let one2 = seen_size v2 nnt e2 in
                    branch (is_string nnt.code) P
                      (joined-Returns fuel (record t { text = t.text ++ nnt.text })
                        (with_lexer m2 p) ready2 (omega (arith, less, less2, one, one2, h)) p0
                        (omega (arith, less, less2, below)))
                      (give tokens (some t) (push nt (push nnt (with_lexer m2 p))) p0 ready2
                        (omega (arith, less, less2, one, one2, below))))))
            (give tokens (some t) (push nt (with_lexer m p)) p0 ready
              (omega (arith, less, one, below)))))

-- What `pop` returns, taken off the stack.
record Pops (p : Parser) (r : Option Token × Parser) : Type 0 where
  count : length r.1.tokens + tokens r.0 ≡ length p.tokens
  same_lexer : r.1.lex ≡ p.lex

pop-Pops : (p : Parser) → Pops p (pop p)
unfolding pop
pop-Pops p =
    elim p.tokens
        as (λ ts.
          p.tokens ≡ ts
          → Pops p (elim ts [ [] ↦ (none, p) | t ∷ us ↦ (some t, record p { tokens = us }) ])) [
            | [] ↦ λ e. record { count = omega arith; same_lexer = refl }
            | t ∷ us ↦ λ e. record { count = rw e (omega arith); same_lexer = refl }
          ]
      refl

pub next-Returns :
    (fuel : ℕ) (p : Parser) → IsReady p.lex → rank p < fuel → Returns tokens (next fuel p) p
unfolding next
next-Returns fuel p r h =
    let P = λ (z : Option (Option Token × Parser)). Returns tokens z p in
    branch_token (pop p).0 P
      (λ e.
        bind-Fetches tokens _ (lex_next-Fetches fuel p.lex r (omega (arith, h))) (λ v m ready less.
          branch_token (seen v) P
            (λ f. give tokens v (with_lexer m p) p ready (omega (arith, less)))
            (λ t f.
              let one = seen_size v t f in
              branch (is_string t.code) P
                (joined-Returns fuel t (with_lexer m p) ready (omega (arith, less, h)) p
                  (omega (arith, less, one)))
                (keep t m p p ready (omega (arith, less, one))))))
      (λ t e.
        let k = pop-Pops p in
        let one : tokens (pop p).0 ≡ 1 = rw e in
        let same : potential (pop p).1.lex ≡ potential p.lex = rw k.same_lexer in
        give tokens (some t) (pop p).1 p (rw k.same_lexer r) (omega (arith, same, one, k.count)))
