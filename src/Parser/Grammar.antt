-- ===== src/Parser/Grammar.antt =====
-- `nextStatement` and `Parse` of pkg/yang/parse.go.
use goyang.Base.{
  ℕ, zero, suc, Bool, true, false, ◌||◌, List, [], ◌∷◌, ◌++◌, Option, none, some, if◌then◌else◌,
  Bytes, codes, text_eq,
}
use goyang.Base.Int.{ℤ, pos, negsuc, ◌+ℤ◌, beq_ℤ}
use goyang.Base.Options.{◌>>=◌}
use goyang.Base.Result.{Result, ok, err}
use goyang.Lexer.{
  Token, Message, unexpected_brace, keyword_not_unquoted, syntax_error, unexpected_eof,
  missing_braces, new_lexer,
}
use goyang.Parser.{
  Statement, Draft, finished, ignore_me, Parser, report, is_string, is_unquoted, is_mark, seen,
  next,
}

-- What `nextStatement` returns: nil, `hitBrace` or a statement.
pub data Next : Type 0 where
  at_eof at_brace : Next
  parsed : Statement → Next

-- What the tokens up to a semicolon or an opening brace make.
pub data Head : Type 0 where
  done : Next → Head
  opened : Draft → Head

abbrev pub in_pattern : Bool → Parser → Parser
in_pattern b p = record p { lex = record (p.lex) { in_pattern = b } }

abbrev pub deeper : ℤ → Parser → Parser
deeper d p = record p { statement_depth = p.statement_depth +ℤ d }

-- The last switch of `nextStatement`, on the token behind the keyword and the argument.
unfoldable pub head_end : Draft → Option Token → Parser → Head × Parser
head_end d none p = (done at_eof, report (unexpected_eof d.file) p)
head_end d (some t) p =
    if is_mark b';' t.code
    then (done (parsed (finished d)), p)
    else if is_mark b'{' t.code
    then (opened d, deeper (pos 1) p)
    else (done (parsed ignore_me), report (syntax_error t) p)

abbrev pub is_argument : Option Token → Bool
is_argument none = false
is_argument (some t) = is_string t.code || is_unquoted t.code

abbrev pub text_of : Option Token → Bytes
text_of none = []
text_of (some t) = t.text

-- The argument, if there is one, and the token behind it.
unfoldable pub head_argument : ℕ → Draft → Parser → Option (Head × Parser)
unfolding next head_end
head_argument fuel d p = next fuel (in_pattern (text_eq d.keyword (codes "pattern")) p) >>= λ r.
    let p1 = in_pattern false r.1 in
    elim (is_argument r.0) [
      | true ↦ next fuel p1 >>= λ r2.
          some
            (head_end (record d { has_argument = true; argument = text_of r.0 }) (seen r2.0) r2.1)
      | false ↦ some (head_end d (seen r.0) p1)
    ]

abbrev pub draft : Token → Draft
draft t = record {
  keyword = t.text;
  has_argument = false;
  argument = [];
  statements = [];
  file = t.file;
  line = t.line;
  col = t.col;
}

abbrev pub at_hit : Token → Parser → Parser
at_hit t p = record p { hit_brace = record { file = t.file; line = t.line; col = t.col } }

unfoldable pub statement_head : ℕ → Parser → Option (Head × Parser)
unfolding next head_argument
statement_head fuel p = next fuel p >>= λ r. elim (seen r.0) [
  | none ↦ some (done at_eof, r.1)
  | some t ↦
      if is_mark b'}' t.code
      then some (done at_brace, at_hit t (deeper (negsuc 0) r.1))
      else if is_unquoted t.code
      then head_argument fuel (draft t) r.1
      else some (done (parsed ignore_me), report (keyword_not_unquoted t) r.1)
]

abbrev pub with_child : Statement → Draft → Draft
with_child s d = record d { statements = d.statements ++ s ∷ [] }

-- The loop of `nextStatement` over the statements between braces, which `read` reads.
unfoldable pub sub_statements :
    (Parser → Option (Next × Parser)) → ℕ → Draft → Parser → Option (Next × Parser)
sub_statements read zero d p = none
sub_statements read (suc fuel) d p =
    let again = sub_statements read fuel in
    read p >>= λ r. elim r.0 [
      | at_eof ↦ some (at_eof, r.1)
      | at_brace ↦ some (parsed (finished d), r.1)
      | parsed s ↦ again (with_child s d) r.1
    ]

unfoldable pub next_statement : ℕ → Parser → Option (Next × Parser)
unfolding statement_head sub_statements
next_statement zero p = none
next_statement (suc fuel) p =
    let read = next_statement fuel in
    statement_head (suc fuel) p >>= λ r. elim r.0 [
      | done n ↦ some (n, r.1)
      | opened d ↦ sub_statements read fuel d r.1
    ]

unfoldable pub check_statement_depth_is_zero : Parser → Parser
check_statement_depth_is_zero p = elim p.lex.errout [
  | [] ↦
      (if beq_ℤ p.statement_depth (pos 0)
        then p
        else report (missing_braces p.lex.file p.lex.line p.lex.col p.statement_depth) p)
  | m ∷ ms ↦ p
]

unfoldable pub new_parser : Bytes → Bytes → Parser
unfolding new_lexer
new_parser input path = record {
  lex = new_lexer input path;
  tokens = [];
  statement_depth = pos 0;
  hit_brace = record { file = []; line = 0; col = 0 };
}

-- The loop of `Parse`.
unfoldable pub top_statements : ℕ → List Statement → Parser → Option (List Statement × Parser)
unfolding next_statement
top_statements zero ss p = none
top_statements (suc fuel) ss p =
    let again = top_statements fuel in
    next_statement (suc fuel) p >>= λ r. elim r.0 [
      | at_eof ↦ some (ss, r.1)
      | at_brace ↦
          (let h = r.1.hit_brace in again ss (report (unexpected_brace h.file h.line h.col) r.1))
      | parsed s ↦ again (ss ++ s ∷ []) r.1
    ]

-- The statements, or what was written to `errout`.
abbrev pub outcome : List Statement → Parser → Result (List Message) (List Statement)
outcome ss p = elim p.lex.errout [ [] ↦ ok ss | m ∷ ms ↦ err (m ∷ ms) ]

unfoldable pub parse : ℕ → Bytes → Bytes → Option (Result (List Message) (List Statement))
unfolding top_statements check_statement_depth_is_zero new_parser
parse fuel input path = top_statements fuel [] (new_parser input path) >>= λ r.
    some (outcome r.0 (check_statement_depth_is_zero r.1))
