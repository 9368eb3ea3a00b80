-- ===== src/Tests/Lexing.antt =====
-- Runs of the lexer and the parser, and instances of their theorems.
use goyang.Base.{
  ℕ, zero, suc, ◌+◌, ◌<◌, ◌≡◌, refl, false, true, Bytes, codes, List, [], ◌∷◌, Option, none, some,
  arith,
}
use goyang.Base.Int.{pos}
use goyang.Base.Result.{Result, ok, err}
use goyang.Lexer.{Lexer, new_lexer, Token, Message, missing_braces, next, accept_run, contains_rune}
use goyang.Lexer.States.{next_token, lex_step}
use goyang.Lexer.Total.{Descends, lex_step-Descends, new_lexer-IsReady, Reads, next_token-Reads}
use goyang.Parser.{location, statement, nil, cons, Statement}
use goyang.Parser.Grammar.{parse, next_statement, new_parser}
use goyang.Parser.Returns.{Returns}
use goyang.Parser.Total.{next_cost, next_statement-Returns, parse-returns}

abbrev texts : ℕ → Lexer → List Bytes
unfolding next_token
texts zero l = []
texts (suc n) l = elim (next_token 9 l) [
  | none ↦ []
  | some r ↦ elim r.0 [ none ↦ [] | some t ↦ t.text ∷ texts n r.1 ]
]

lex_quoted : texts 3 (new_lexer (codes "a'b';") []) ≡ codes "a" ∷ codes "b" ∷ codes ";" ∷ []
unfolding texts new_lexer lex_step goyang.Lexer.States.lex_ground goyang.Lexer.peek
    goyang.Lexer.consume goyang.Lexer.accept_run goyang.Base.Utf8.decode_rune
    goyang.Lexer.States.lex_unquoted goyang.Lexer.emit goyang.Lexer.skip_to
    goyang.Base.Strings.index goyang.Base.Utf8.rune_count
lex_quoted = refl

abbrev source : Bytes
source = codes "a;"

leaf_parsed : parse 14 source [] ≡ some (ok (statement (codes "a") false [] nil [] 1 1 ∷ []))
unfolding parse next_token lex_step goyang.Lexer.States.lex_ground goyang.Lexer.peek
    goyang.Lexer.consume accept_run goyang.Base.Utf8.decode_rune goyang.Lexer.States.lex_unquoted
    goyang.Lexer.emit
leaf_parsed = refl

nested_parsed :
    parse 22 (codes "a{b;}") []
    ≡ some (
        ok (
          statement
            (codes "a")
            false
            []
            (cons (statement (codes "b") false [] nil [] 1 3) nil)
            []
            1
            1
          ∷ []))
unfolding parse next_token lex_step goyang.Lexer.States.lex_ground goyang.Lexer.peek
    goyang.Lexer.consume accept_run goyang.Base.Utf8.decode_rune goyang.Lexer.States.lex_unquoted
    goyang.Lexer.emit
nested_parsed = refl

-- An unclosed brace is an error.
unclosed : parse 14 (codes "a{") [] ≡ some (err (missing_braces [] 2 0 (pos 1) ∷ []))
unfolding parse next_token lex_step goyang.Lexer.States.lex_ground goyang.Lexer.peek
    goyang.Lexer.consume accept_run goyang.Base.Utf8.decode_rune goyang.Lexer.States.lex_unquoted
    goyang.Lexer.emit
unclosed = refl

lex_step-Descends_example : Descends (new_lexer source []) (lex_step (new_lexer source []))
unfolding new_lexer
lex_step-Descends_example =
    lex_step-Descends (new_lexer source []) (new_lexer-IsReady source []) (λ e. cc)

next_token-Reads_example : Reads 14 (new_lexer source [])
unfolding new_lexer
next_token-Reads_example =
    next_token-Reads 14 (new_lexer source []) (new_lexer-IsReady source []) (omega arith)

next_statement-Returns_example :
    Returns next_cost (next_statement 14 (new_parser source [])) (new_parser source [])
unfolding new_parser new_lexer
next_statement-Returns_example =
    next_statement-Returns 14 (new_parser source []) (new_lexer-IsReady source []) (omega arith)

parse-returns_example : (r : Result (List Message) (List Statement)) × (parse 14 source [] ≡ some r)
parse-returns_example = parse-returns 14 source [] (omega arith)

-- The slash behind the star ends the comment that the two have begun.
short_comment : texts 1 (new_lexer (codes "/*/a;") []) ≡ codes "a" ∷ []
unfolding texts new_lexer lex_step goyang.Lexer.States.lex_ground goyang.Lexer.peek
    goyang.Lexer.consume accept_run goyang.Base.Utf8.decode_rune goyang.Lexer.skip_to
    goyang.Base.Strings.index goyang.Base.Utf8.rune_count goyang.Lexer.States.lex_unquoted
    goyang.Lexer.emit
short_comment = refl

place_shown :
    location (statement (codes "leaf") false [] nil (codes "a.yang") 3 12) ≡ codes "a.yang:3:12"
unfolding location goyang.Base.Strconv.format_uint
place_shown = refl
