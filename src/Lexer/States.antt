-- ===== src/Lexer/States.antt =====
-- The state functions of pkg/yang/lex.go, and `NextToken`, which runs them.
use goyang.Base.{
  ℕ, zero, suc, ◌-◌, Bool, true, false, not, ◌&&◌, ◌||◌, List, [], ◌∷◌, ◌++◌, Option, none, some,
  if◌then◌else◌, Bytes, codes, drop, leb, ◌==◌,
}
use goyang.Base.Int.{ℤ, pos, sub_ℕ}
use goyang.Base.Utf8.{encode_rune}
use goyang.Lexer.{
  eof, t_string, t_unquoted, mark, Token, State, at_ground, at_q_string, at_unquoted, stopped,
  missing_quote, missing_comment_end, missing_newline, missing_double_quote, invalid_escape, Lexer,
  consume, emit, emit_text, next, peek, accept_run, skip_to, errorf_at,
}

abbrev pub goto : State → Lexer → Lexer
goto s l = record l { state = s }

-- The text between single quotes, the first of which is the next byte.
unfoldable pub single_quoted : Lexer → Lexer
single_quoted l =
    let l1 = consume (next l).1 in
    let (found, l2) = skip_to (codes "'") l1 in
    if found
    then goto at_ground (next (emit t_string l2)).1
    else goto stopped (errorf_at l2.line (pos l2.col) missing_quote l2)

-- What a slash begins: a comment of either kind, or an unquoted string.
unfoldable pub slash : Lexer → Lexer
slash l =
    let (c, l1) = peek (next l).1 in
    if c == b'/'
    then (let (found, l2) = skip_to (b'\n' ∷ []) l1 in
        if found
        then goto at_ground l2
        else goto stopped (errorf_at l2.line (pos l2.col) missing_newline l2))
    else if c == b'*'
    then (let (found, l2) = skip_to (codes "*/") l1 in
        if found
        then goto at_ground (next (next l2).1).1
        else goto stopped (errorf_at l2.line (pos l2.col) missing_comment_end l2))
    else goto at_unquoted l1

-- A plus sign stands alone in front of a quote.
unfoldable pub plus : Lexer → Lexer
plus l =
    let (c, l1) = peek (next l).1 in
    if c == b'"' || c == b'\'' then goto at_ground (emit t_unquoted l1) else goto at_unquoted l1

-- The switch of `lexGround`, on the rune that `peek` has returned.
unfoldable pub ground_on : ℕ → Lexer → Lexer
unfolding single_quoted slash plus
ground_on c l =
    if c == eof
    then goto stopped l
    else if c == b';' || c == b'{' || c == b'}'
    then goto at_ground (emit (mark c) (next l).1)
    else if c == b'\''
    then single_quoted l
    else if c == b'"'
    then goto at_q_string (next l).1
    else if c == b'/'
    then slash l
    else if c == b'+'
    then plus l
    else goto at_unquoted l

unfoldable pub lex_ground : Lexer → Lexer
unfolding ground_on
lex_ground l =
    let l1 = consume (accept_run (codes " \t\r\n") l) in
    let (c, l2) = peek (record l1 { sline = l1.line; scol = l1.col }) in ground_on c l2

-- What ends an unquoted string.
unfoldable pub ends_unquoted : ℕ → Bool
ends_unquoted c =
    c == b' '
    || c == b'\r'
    || c == b'\n'
    || c == b'\t'
    || c == b';'
    || c == b'"'
    || c == b'\''
    || c == b'{'
    || c == b'}'
    || c == eof

-- The loop of `lexUnquoted`, bounded as `accept_from` is.
unfoldable pub unquoted_from : ℕ → Bytes → Lexer → Lexer
unfolding ends_unquoted
unquoted_from skip [] l = goto at_ground (emit t_unquoted (peek l).1)
unquoted_from (suc skip) (c ∷ s) l = unquoted_from skip s l
unquoted_from zero (c ∷ s) l =
    let (rune, l1) = peek l in
    elim (ends_unquoted rune) [
      | true ↦ goto at_ground (emit t_unquoted l1)
      | false ↦ (let l2 = (next l1).1 in unquoted_from (l2.width - 1) s l2)
    ]

unfoldable pub lex_unquoted : Lexer → Lexer
unfolding unquoted_from
lex_unquoted l = unquoted_from zero (drop l.pos l.input) l

-- The variables of `lexQString`, with the lexer.
pub record Quoted : Type 0 where
  pub lexer : Lexer
  pub text : Bytes
  pub over : Bool
  pub indent : ℕ
  pub line : ℕ
  pub col : ℤ

-- The text without the spaces and tabs at its end.
unfoldable pub trim_end : Bytes → Bytes
trim_end [] = []
trim_end (c ∷ s) =
    let rest = trim_end s in
    elim rest [ [] ↦ (if c == b' ' || c == b'\t' then [] else c ∷ []) | d ∷ r ↦ c ∷ d ∷ r ]

unfoldable pub append_rune : ℕ → Quoted → Quoted
append_rune c q = record q { over = true; text = q.text ++ encode_rune c }

-- The rune behind a backslash.
unfoldable pub escaped : ℕ → Quoted → Quoted
unfolding append_rune
escaped c q =
    if c == b'n'
    then append_rune b'\n' q
    else if c == b't'
    then append_rune b'\t' q
    else if c == b'"' || c == b'\\'
    then append_rune c q
    else let l = q.lexer in
      let l' = if l.in_pattern then l else errorf_at l.line (sub_ℕ l.col 1) (invalid_escape c) l in
      append_rune c (record q { lexer = l'; text = q.text ++ b'\\' ∷ [] })

unfoldable pub missing_end : Quoted → Lexer
missing_end q = goto stopped (errorf_at q.line q.col missing_double_quote q.lexer)

-- One round of the loop on the rune `c` that `next` has returned: the lexer if the string has
-- ended, or the variables for the next round.
unfoldable pub q_round : ℕ → Quoted → Lexer × Option Quoted
unfolding trim_end append_rune escaped missing_end
q_round c q =
    if c == eof
    then (missing_end q, none)
    else if c == b'"'
    then (goto at_ground (emit_text t_string q.text q.lexer), none)
    else if c == b'\n'
    then (q.lexer, some (record q { text = trim_end q.text ++ b'\n' ∷ []; over = false }))
    else if c == b' ' || c == b'\t'
    then (q.lexer, some (if not q.over && leb q.lexer.tcol q.indent then q else append_rune c q))
    else if c == b'\\'
    then (let (d, l) = next q.lexer in (l, some (escaped d (record q { lexer = l }))))
    else (q.lexer, some (append_rune c q))

-- The loop of `lexQString`. The list is the input from the cursor on; each round reads one rune, or
-- two behind a backslash, and `skip` counts their bytes. At its end `next` returns `eof`.
unfoldable pub q_from : ℕ → Bytes → Quoted → Lexer
unfolding q_round missing_end
q_from skip [] q = missing_end (record q { lexer = (next q.lexer).1 })
q_from (suc skip) (b ∷ s) q = q_from skip s q
q_from zero (b ∷ s) q =
    let (c, l) = next q.lexer in
    let (done, more) = q_round c (record q { lexer = l }) in
    elim more [ none ↦ done | some q' ↦ q_from (done.pos - q.lexer.pos - 1) s q' ]

unfoldable pub lex_q_string : Lexer → Lexer
unfolding q_from
lex_q_string l =
    q_from zero (drop l.pos l.input) (record {
      lexer = l;
      text = [];
      over = true;
      indent = l.tcol;
      line = l.line;
      col = pos l.col;
    })

-- The call `l.state(l)`.
unfoldable pub lex_step : Lexer → Lexer
lex_step l = elim l.state [
  | at_ground ↦ lex_ground l
  | at_q_string ↦ lex_q_string l
  | at_unquoted ↦ lex_unquoted l
  | stopped ↦ l
]

-- `NextToken`: the oldest token of the channel, or none when the state is nil. A fuel that runs out
-- gives `none` outside.
unfoldable pub next_token_on :
    List Token → State → Option (Option Token × Lexer) → Lexer → Option (Option Token × Lexer)
next_token_on (t ∷ ts) s later l = some (some t, record l { items = ts })
next_token_on [] stopped later l = some (none, l)
next_token_on [] _ later l = later

unfoldable pub next_token : ℕ → Lexer → Option (Option Token × Lexer)
unfolding next_token_on
next_token zero l = none
next_token (suc fuel) l =
    let later = next_token fuel (lex_step l) in next_token_on l.items l.state later l
