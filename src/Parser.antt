-- ===== src/Parser.antt =====
-- `Statement` of pkg/yang/parse.go, the parser's state, and its functions on tokens.
--
-- A token of the lexer is an `Option Token`, with none for nil. The buffer `errout` is the lexer's,
-- as in `Parse`. A function that reads tokens has fuel, and none is returned when it runs out.
pub mod Grammar
pub mod Returns
pub mod Tokens
pub mod Total
use goyang.Base.{
  ℕ, zero, suc, ◌+◌, Bool, true, false, ◌&&◌, List, [], ◌∷◌, ◌++◌, Option, none, some,
  if◌then◌else◌, Bytes, codes, text_eq, ◌==◌,
}
use goyang.Base.Int.{ℤ}
use goyang.Base.Options.{◌>>=◌}
use goyang.Lexer.{Lexer, Token, Code, t_eof, t_error, t_string, t_unquoted, mark, Message}
use goyang.Base.Strconv.{format_uint}
use goyang.Lexer.States.{next_token}

mutual
  pub data Statement : Type 0 where
    statement : Bytes → Bool → Bytes → Statements → Bytes → ℕ → ℕ → Statement

  -- A slice of statements
  pub data Statements : Type 0 where
    nil : Statements
    cons : Statement → Statements → Statements

abbrev pub statements_of : List Statement → Statements
statements_of [] = nil
statements_of (s ∷ ss) = cons s (statements_of ss)

-- A statement that is being read.
pub record Draft : Type 0 where
  pub keyword : Bytes
  pub has_argument : Bool
  pub argument : Bytes
  pub statements : List Statement
  pub file : Bytes
  pub line : ℕ
  pub col : ℕ

abbrev pub finished : Draft → Statement
finished d =
    statement d.keyword d.has_argument d.argument (statements_of d.statements) d.file d.line d.col

abbrev pub ignore_me : Statement
ignore_me = statement [] false [] nil [] 0 0

-- The place of `hitBrace`
pub record Place : Type 0 where
  pub file : Bytes
  pub line : ℕ
  pub col : ℕ

-- The last token pushed is the first of `tokens`.
pub record Parser : Type 0 where
  pub lex : Lexer
  pub tokens : List Token
  pub statement_depth : ℤ
  pub hit_brace : Place

abbrev pub report : Message → Parser → Parser
report m p = record p { lex = record (p.lex) { errout = p.lex.errout ++ m ∷ [] } }

abbrev pub push : Token → Parser → Parser
push t p = record p { tokens = t ∷ p.tokens }

unfoldable pub pop : Parser → Option Token × Parser
pop p = elim p.tokens [ [] ↦ (none, p) | t ∷ ts ↦ (some t, record p { tokens = ts }) ]

abbrev pub is_string : Code → Bool
is_string t_string = true
is_string _ = false

abbrev pub is_unquoted : Code → Bool
is_unquoted t_unquoted = true
is_unquoted _ = false

abbrev pub is_error : Code → Bool
is_error t_error = true
is_error _ = false

abbrev pub is_mark : ℕ → Code → Bool
is_mark m (mark c) = c == m
is_mark m _ = false

-- A token whose code is `tEOF` counts as nil.
abbrev pub seen : Option Token → Option Token
seen none = none
seen (some t) = elim t.code [
  | t_eof ↦ none
  | t_error ↦ some t
  | t_string ↦ some t
  | t_unquoted ↦ some t
  | mark c ↦ some t
]

-- The inner `next`: the next token of the lexer that is no error.
unfoldable pub lex_next : ℕ → Lexer → Option (Option Token × Lexer)
lex_next zero l = none
lex_next (suc fuel) l =
    let again = lex_next fuel in
    next_token (suc fuel) l >>= λ r. elim r.0 [
      | none ↦ some (none, r.1)
      | some t ↦ elim (is_error t.code) [ true ↦ again r.1 | false ↦ some (some t, r.1) ]
    ]

abbrev pub with_lexer : Lexer → Parser → Parser
with_lexer l p = record p { lex = l }

abbrev pub is_plus : Token → Bool
is_plus t = is_unquoted t.code && text_eq t.text (codes "+")

-- The loop of `next` that joins `t` with the strings that plus signs add to it.
unfoldable pub joined : ℕ → Token → Parser → Option (Option Token × Parser)
joined zero t p = none
joined (suc fuel) t p =
    let again = joined fuel in
    lex_next (suc fuel) p.lex >>= λ r. elim (seen r.0) [
      | none ↦ some (some t, with_lexer r.1 p)
      | some nt ↦ elim (is_plus nt) [
        | false ↦ some (some t, push nt (with_lexer r.1 p))
        | true ↦ lex_next (suc fuel) r.1 >>= λ r2. elim (seen r2.0) [
          | none ↦ some (some t, push nt (with_lexer r2.1 p))
          | some nnt ↦ elim (is_string nnt.code) [
            | true ↦ again (record t { text = t.text ++ nnt.text }) (with_lexer r2.1 p)
            | false ↦ some (some t, push nt (push nnt (with_lexer r2.1 p)))
          ]
        ]
      ]
    ]

unfoldable pub next : ℕ → Parser → Option (Option Token × Parser)
unfolding pop lex_next joined
next fuel p = elim (pop p).0 [
  | some t ↦ some (some t, (pop p).1)
  | none ↦ lex_next fuel p.lex >>= λ r. elim (seen r.0) [
    | none ↦ some (r.0, with_lexer r.1 p)
    | some t ↦ elim (is_string t.code) [
      | true ↦ joined fuel t (with_lexer r.1 p)
      | false ↦ some (some t, with_lexer r.1 p)
    ]
  ]
]

-- `Arg`: the argument, and whether there is one.
unfoldable pub arg : Statement → Bytes × Bool
arg (statement keyword has_argument argument ss file line col) = (argument, has_argument)

-- `SubStatements`
unfoldable pub sub_statements_of : Statement → Statements
sub_statements_of (statement keyword has_argument argument ss file line col) = ss

-- `Location`
unfoldable pub location : Statement → Bytes
location (statement keyword has_argument argument ss [] line col) =
    if line == 0
    then codes "unknown"
    else codes "line " ++ format_uint line ++ codes ":" ++ format_uint col
location (statement keyword has_argument argument ss (f ∷ file) line col) =
    if line == 0
    then f ∷ file
    else (f ∷ file) ++ codes ":" ++ format_uint line ++ codes ":" ++ format_uint col
