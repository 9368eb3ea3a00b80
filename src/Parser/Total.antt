-- ===== src/Parser/Total.antt =====
-- `Parse` of pkg/yang/parse.go returns.
use goyang.Base.{
  ℕ, zero, suc, ◌+◌, ◌*◌, ◌≤◌, ◌<◌, ◌≡◌, refl, Bool, true, false, List, [], ◌∷◌, Option, none, some,
  length, Bytes, ◌++◌, codes, text_eq, arith, ap,
}
use goyang.Base.Int.{pos, negsuc}
use goyang.Base.Result.{Result}
use goyang.Base.Tests.{either}
use goyang.Base.Options.{◌>>=◌}
use goyang.Lexer.{
  Token, Message, unexpected_eof, syntax_error, keyword_not_unquoted, unexpected_brace, new_lexer,
  terminated,
}
use goyang.Lexer.Skipping.{same_peek}
use goyang.Lexer.Potential.{IsReady}
use goyang.Lexer.Total.{new_lexer-IsReady}
use goyang.Parser.{
  Parser, Statement, Draft, seen, is_unquoted, is_mark, report, finished, ignore_me,
}
use goyang.Parser.Grammar.{
  Next, Head, done, opened, at_eof, at_brace, parsed, in_pattern, deeper, head_end, head_argument,
  is_argument, text_of, draft, at_hit, statement_head, with_child, sub_statements, next_statement,
  top_statements, new_parser, parse, outcome, check_statement_depth_is_zero,
}
use goyang.Parser.Tokens.{next-Returns}
use goyang.Parser.Returns.{
  rank, Returns, give, bind-Returns, weaken, branch, branch_token, seen_size,
}

abbrev pub next_cost : Next → ℕ
next_cost at_eof = 0
next_cost at_brace = 1
next_cost (parsed s) = 1

abbrev pub head_cost : Head → ℕ
head_cost (done n) = next_cost n
head_cost (opened d) = 1

give_head :
    (h : Head) (q p : Parser)
    → IsReady q.lex
    → rank q + 1 ≤ rank p
    → Returns head_cost (some (h, q)) p
give_head (done at_eof) q p r less = give head_cost _ q p r (omega (arith, less))
give_head (done at_brace) q p r less = give head_cost _ q p r less
give_head (done (parsed s)) q p r less = give head_cost _ q p r less
give_head (opened d) q p r less = give head_cost _ q p r less

in_pattern-IsReady : (b : Bool) (p : Parser) → IsReady p.lex → IsReady (in_pattern b p).lex
in_pattern-IsReady b p r = record {
  placed = record { start_low = r.placed.start_low; inside = r.placed.inside };
  can_read = λ e f. rw (same_peek (in_pattern b p).lex p.lex refl) (r.can_read e f);
}

report-IsReady : (m : Message) (p : Parser) → IsReady p.lex → IsReady (report m p).lex
report-IsReady m p r = record {
  placed = record { start_low = r.placed.start_low; inside = r.placed.inside };
  can_read = λ e f. rw (same_peek (report m p).lex p.lex refl) (r.can_read e f);
}

head_end-Returns :
    (d : Draft) (o : Option Token) (q p : Parser)
    → IsReady q.lex
    → rank q + 1 ≤ rank p
    → Returns head_cost (some (head_end d o q)) p
unfolding head_end
head_end-Returns d none q p r less =
    give_head _ (report (unexpected_eof d.file) q) p (report-IsReady _ q r) less
head_end-Returns d (some t) q p r less =
    let P = λ (z : Head × Parser). Returns head_cost (some z) p in
    either (is_mark b';' t.code) P (give_head _ q p r less) (
      either (is_mark b'{' t.code) P (give_head _ (deeper (pos 1) q) p r less)
        (give_head _ (report (syntax_error t) q) p (report-IsReady _ q r) less))

head_argument-Returns :
    (fuel : ℕ) (d : Draft) (q p : Parser)
    → IsReady q.lex
    → rank q < fuel
    → rank q + 1 ≤ rank p
    → Returns head_cost (head_argument fuel d q) p
unfolding head_argument
head_argument-Returns fuel d q p r h below =
    let P = λ (z : Option (Head × Parser)). Returns head_cost z p in
    let pattern = in_pattern (text_eq d.keyword (codes "pattern")) q in
    bind-Returns head_cost _ (next-Returns fuel pattern (in_pattern-IsReady _ q r) h)
      (λ v q1 ready less.
        branch (is_argument v) P
          (bind-Returns head_cost _
            (next-Returns fuel (in_pattern false q1) (in_pattern-IsReady false q1 ready)
              (omega (arith, less, h)))
            (λ v2 q2 ready2 less2.
              head_end-Returns (record d { has_argument = true; argument = text_of v }) (seen v2) q2
                p ready2 (omega (arith, less, less2, below))))
          (head_end-Returns d (seen v) (in_pattern false q1) p (in_pattern-IsReady false q1 ready)
            (omega (arith, less, below))))

statement_head-Returns :
    (fuel : ℕ) (p : Parser)
    → IsReady p.lex
    → rank p < fuel
    → Returns head_cost (statement_head fuel p) p
unfolding statement_head
statement_head-Returns fuel p r h =
    let P = λ (z : Option (Head × Parser)). Returns head_cost z p in
    bind-Returns head_cost _ (next-Returns fuel p r h) (λ v q ready less.
      branch_token (seen v) P (λ e. give head_cost (done at_eof) q p ready (omega (arith, less)))
        (λ t e.
          let one = seen_size v t e in
          either (is_mark b'}' t.code) P
            (give_head (done at_brace) (at_hit t (deeper (negsuc 0) q)) p ready
              (omega (arith, less, one)))
            (either (is_unquoted t.code) P
              (head_argument-Returns fuel (draft t) q p ready (omega (arith, less, h))
                (omega (arith, less, one)))
              (give_head (done (parsed ignore_me)) (report (keyword_not_unquoted t) q) p
                (report-IsReady _ q ready) (omega (arith, less, one))))))

-- What a reader of statements does on every parser with less than `bound` to read.
abbrev Reader : ℕ → (Parser → Option (Next × Parser)) → Type 0
Reader bound read = (p : Parser) → IsReady p.lex → rank p < bound → Returns next_cost (read p) p

after_child :
    (read : Parser → Option (Next × Parser)) (fuel : ℕ) (d : Draft) (q p : Parser)
    → rank q + 1 ≤ rank p
    → ((e : Draft) (q1 : Parser)
        → IsReady q1.lex
        → rank q1 + 1 ≤ rank q
        → Returns next_cost (sub_statements read fuel e q1) p)
    → (n : Next) (q1 : Parser) → IsReady q1.lex
    → rank q1 + next_cost n ≤ rank q
    → Returns next_cost
        (elim n [
          | at_eof ↦ some (at_eof, q1)
          | at_brace ↦ some (parsed (finished d), q1)
          | parsed s ↦ sub_statements read fuel (with_child s d) q1
        ])
        p
after_child read fuel d q p below again at_eof q1 ready less =
    give next_cost at_eof q1 p ready (omega (arith, less, below))
after_child read fuel d q p below again at_brace q1 ready less =
    give next_cost (parsed (finished d)) q1 p ready (omega (arith, less, below))
after_child read fuel d q p below again (parsed s) q1 ready less =
    again (with_child s d) q1 ready less

sub_statements-Returns :
    (read : Parser → Option (Next × Parser)) (bound fuel : ℕ) (d : Draft) (q p : Parser)
    → Reader bound read
    → IsReady q.lex
    → rank q < bound
    → rank q < fuel
    → rank q + 1 ≤ rank p
    → Returns next_cost (sub_statements read fuel d q) p
unfolding sub_statements
sub_statements-Returns read bound zero d q p f r b h below = ground (arith, h)
sub_statements-Returns read bound (suc fuel) d q p f r b h below =
    bind-Returns next_cost _ (f q r b) (
      after_child read fuel d q p below (λ e q1 ready less.
        sub_statements-Returns read bound fuel e q1 p f ready (omega (arith, less, b))
          (omega (arith, less, h)) (omega (arith, less, below))))

after_head :
    (fuel : ℕ) (p : Parser)
    → rank p < suc fuel
    → Reader fuel (next_statement fuel)
    → (v : Head) (q : Parser) → IsReady q.lex
    → rank q + head_cost v ≤ rank p
    → Returns next_cost
        (elim v [ done n ↦ some (n, q) | opened d ↦ sub_statements (next_statement fuel) fuel d q ])
        p
after_head fuel p h f (done n) q ready less = give next_cost n q p ready (omega (arith, less))
after_head fuel p h f (opened d) q ready less =
    sub_statements-Returns (next_statement fuel) fuel fuel d q p f ready (omega (arith, less, h))
      (omega (arith, less, h)) (omega (arith, less))

-- With fuel above what is left to read, `nextStatement` returns; behind a statement or a closing
-- brace less is left, and behind the end of the input not more.
pub next_statement-Returns :
    (fuel : ℕ) (p : Parser)
    → IsReady p.lex
    → rank p < fuel
    → Returns next_cost (next_statement fuel p) p
unfolding next_statement
next_statement-Returns zero p r h = ground (arith, h)
next_statement-Returns (suc fuel) p r h =
    bind-Returns next_cost _ (statement_head-Returns (suc fuel) p r h)
      (after_head fuel p h (λ q r1 h1. next_statement-Returns fuel q r1 h1))

zero_cost : List Statement → ℕ
zero_cost ss = 0

after_statement :
    (fuel : ℕ) (ss : List Statement) (p : Parser)
    → ((ts : List Statement) (q : Parser)
        → IsReady q.lex
        → rank q + 1 ≤ rank p
        → Returns zero_cost (top_statements fuel ts q) p)
    → (n : Next) (q : Parser) → IsReady q.lex
    → rank q + next_cost n ≤ rank p
    → Returns zero_cost
        (elim n [
          | at_eof ↦ some (ss, q)
          | at_brace ↦
              (let h = q.hit_brace in
                top_statements fuel ss (report (unexpected_brace h.file h.line h.col) q))
          | parsed s ↦ top_statements fuel (ss ++ s ∷ []) q
        ])
        p
unfolding zero_cost
after_statement fuel ss p again at_eof q ready less =
    give zero_cost ss q p ready (omega (arith, less))
after_statement fuel ss p again at_brace q ready less =
    let h = q.hit_brace in
    let m = unexpected_brace h.file h.line h.col in
    again ss (report m q) (report-IsReady m q ready) less
after_statement fuel ss p again (parsed s) q ready less = again (ss ++ s ∷ []) q ready less

top_statements-Returns :
    (fuel : ℕ) (ss : List Statement) (q p : Parser)
    → IsReady q.lex
    → rank q < fuel
    → rank q ≤ rank p
    → Returns zero_cost (top_statements fuel ss q) p
unfolding top_statements
top_statements-Returns zero ss q p r h below = ground (arith, h)
top_statements-Returns (suc fuel) ss q p r h below = weaken below (
    bind-Returns zero_cost _ (next_statement-Returns (suc fuel) q r h) (
      after_statement fuel ss q (λ ts q1 ready less.
        top_statements-Returns fuel ts q1 q ready (omega (arith, less, h)) (omega (arith, less)))))

length-terminated : (s : Bytes) → length (terminated s) ≤ suc (length s)
unfolding terminated
length-terminated [] = omega arith
length-terminated (c ∷ []) = ground arith
length-terminated (c ∷ d ∷ s) = omega (arith, length-terminated (d ∷ s))

new_parser-IsReady : (input path : Bytes) → IsReady (new_parser input path).lex
unfolding new_parser
new_parser-IsReady input path = new_lexer-IsReady input path

rank-new_parser : (input path : Bytes) → rank (new_parser input path) ≤ 4 * length input + 5
unfolding new_parser new_lexer
rank-new_parser input path = omega (arith, length-terminated input)

-- `Parse` returns for every input: fuel above four times the length of the input, plus five, is
-- enough for statements or a list of messages.
pub parse-returns :
    (fuel : ℕ) (input path : Bytes)
    → 4 * length input + 5 < fuel
    → (r : Result (List Message) (List Statement)) × (parse fuel input path ≡ some r)
unfolding parse
parse-returns fuel input path h =
    let p = new_parser input path in
    let x =
      top_statements-Returns fuel [] p p (new_parser-IsReady input path)
        (omega (arith, rank-new_parser input path, h)) (omega arith) in
    (
      outcome x.value (check_statement_depth_is_zero x.rest),
      ap (λ z. z >>= λ r. some (outcome r.0 (check_statement_depth_is_zero r.1))) x.returns,
    )
