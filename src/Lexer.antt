-- ===== src/Lexer.antt =====
-- The lexer of pkg/yang/lex.go: its cursor, its tokens and errors, and its state functions.
--
-- The channel of tokens, of capacity eight, is a list. Errors are values that carry the position
-- that the message shows. `debug`, which only prints, is off. A state function returns the new
-- lexer, whose field `state` is the next state.
pub mod Cursor
pub mod Skipping
pub mod Potential
pub mod Unquoted
pub mod QString
pub mod Ground
pub mod Total
pub mod States
use goyang.Base.{
  ℕ, zero, suc, ◌+◌, ◌-◌, ◌*◌, ◌/◌, Bool, true, false, not, ◌&&◌, ◌||◌, List, [], ◌∷◌, ◌++◌, Option,
  none, some, if◌then◌else◌, Bytes, length, take, drop, ltb, ◌==◌,
}
use goyang.Base.Int.{ℤ, pos}
use goyang.Base.Strings.{index}
use goyang.Base.Utf8.{decode_rune, rune_count}

abbrev pub eof : ℕ
eof = 0x7fffffff

abbrev pub max_errors : ℕ
max_errors = 8

-- A token's code: a punctuation mark stands for itself.
pub data Code : Type 0 where
  t_eof t_error t_string t_unquoted : Code
  mark : ℕ → Code

pub record Token : Type 0 where
  pub code : Code
  pub text : Bytes
  pub file : Bytes
  pub line : ℕ
  pub col : ℕ

-- The state functions; `stopped` is nil.
pub data State : Type 0 where
  at_ground at_q_string at_unquoted stopped : State

pub data Problem : Type 0 where
  missing_quote missing_comment_end missing_newline missing_double_quote too_many : Problem
  invalid_escape : ℕ → Problem

-- A message with its line and column as printed.
pub record LexError : Type 0 where
  pub line : ℕ
  pub col : ℤ
  pub problem : Problem

-- What is written to `errout`: the lexer's errors, and those of the parser, which has the same
-- buffer. A token stands for its text and place.
pub data Message : Type 0 where
  lexical : LexError → Message
  unexpected_brace : Bytes → ℕ → ℕ → Message
  keyword_not_unquoted syntax_error : Token → Message
  unexpected_eof : Bytes → Message
  missing_braces : Bytes → ℕ → ℕ → ℤ → Message

pub record Lexer : Type 0 where
  pub errout : List Message
  pub errcnt : ℕ
  pub file : Bytes
  pub input : Bytes
  pub start : ℕ
  pub pos : ℕ
  pub line : ℕ
  pub col : ℕ
  pub in_pattern : Bool
  pub items : List Token
  pub tcol : ℕ
  pub scol : ℕ
  pub sline : ℕ
  pub state : State
  pub width : ℕ

-- The input with a newline at its end, if it is not empty.
unfoldable pub terminated : Bytes → Bytes
terminated [] = []
terminated (c ∷ []) = if c == b'\n' then c ∷ [] else c ∷ b'\n' ∷ []
terminated (c ∷ d ∷ s) = c ∷ terminated (d ∷ s)

unfoldable pub new_lexer : Bytes → Bytes → Lexer
unfolding terminated
new_lexer input path = record {
  errout = [];
  errcnt = 0;
  file = path;
  input = terminated input;
  start = 0;
  pos = 0;
  line = 1;
  col = 0;
  in_pattern = false;
  items = [];
  tcol = 0;
  scol = 0;
  sline = 0;
  state = at_ground;
  width = 0;
}

unfoldable pub consume : Lexer → Lexer
consume l = record l { start = l.pos }

-- A token that finds the channel full is dropped.
unfoldable pub emit_text : Code → Bytes → Lexer → Lexer
unfolding consume
emit_text c text l =
    let token : Token = record {
      code = c;
      text = text;
      file = l.file;
      line = l.sline;
      col = l.scol + 1;
    } in
    consume
      (if ltb (length l.items) max_errors then record l { items = l.items ++ token ∷ [] } else l)

unfoldable pub emit : Code → Lexer → Lexer
unfolding emit_text
emit c l = emit_text c (take (l.pos - l.start) (drop l.start l.input)) l

-- What `next` does to the position when it has read `rune`. `(tcol + 8) & ^7` is the next tab stop.
advance : ℕ → ℕ → Lexer → Lexer
advance rune width l =
    if rune == b'\n'
    then record l { pos = l.pos + width; width = width; line = l.line + 1; col = 0; tcol = 0 }
    else record l {
      pos = l.pos + width;
      width = width;
      tcol = if rune == b'\t' then (l.tcol + 8) / 8 * 8 else l.tcol + 1;
      col = l.col + 1;
    }

next_of : Bytes → Lexer → ℕ × Lexer
unfolding advance
next_of [] l = (eof, record l { width = 0 })
next_of (c ∷ s) l = let (rune, width) = decode_rune (c ∷ s) in (rune, advance rune width l)

unfoldable pub next : Lexer → ℕ × Lexer
unfolding next_of
next l = next_of (drop l.pos l.input) l

-- One rune back. Over a newline only the line is restored.
unfoldable pub backup : Lexer → Lexer
backup l =
    if l.width == 0
    then l
    else if l.col == 0
    then record l { pos = l.pos - l.width; line = l.line - 1; col = 0; tcol = 0 }
    else record l { pos = l.pos - l.width; col = l.col - 1; tcol = l.tcol - 1 }

unfoldable pub peek : Lexer → ℕ × Lexer
unfolding next backup
peek l = let (rune, l') = next l in (rune, backup l')

abbrev pub contains_rune : Bytes → ℕ → Bool
contains_rune [] r = false
contains_rune (c ∷ s) r = c == r || contains_rune s r

-- The loop of `acceptRun`, whose Boolean result is not used. The list is the input from the cursor
-- on and bounds the loop; `skip` bytes of it belong to the rune that was read last.
unfoldable pub accept_from : Bytes → ℕ → Bytes → Lexer → Lexer
unfolding next backup
accept_from valid skip [] l = backup (next l).1
accept_from valid (suc skip) (c ∷ s) l = accept_from valid skip s l
accept_from valid zero (c ∷ s) l =
    let (rune, l') = next l in
    elim (contains_rune valid rune) [
      | true ↦ accept_from valid (l'.width - 1) s l'
      | false ↦ backup l'
    ]

unfoldable pub accept_run : Bytes → Lexer → Lexer
unfolding accept_from
accept_run valid l = accept_from valid zero (drop l.pos l.input) l

abbrev count_newlines : Bytes → ℕ
count_newlines [] = 0
count_newlines (c ∷ s) = (if c == b'\n' then 1 else 0) + count_newlines s

-- What stands behind the last newline.
last_line : Bytes → Bytes
last_line [] = []
last_line (c ∷ s) =
    let rest = last_line s in if count_newlines s == 0 && not (c == b'\n') then c ∷ s else rest

unfoldable pub update_cursor : ℕ → Lexer → Lexer
unfolding last_line
update_cursor n l =
    let s = take n (drop l.pos l.input) in
    record l {
      pos = l.pos + n;
      width = n;
      line = l.line + count_newlines s;
      col = (if count_newlines s == 0 then l.col else 0) + rune_count (last_line s);
    }

-- What `skipTo` does with the index that it has found.
skip_on : Lexer → Option ℕ → Bool × Lexer
unfolding update_cursor
skip_on l (some x) = (true, update_cursor x l)
skip_on l none = (false, l)

-- The Boolean says whether `s` was found.
unfoldable pub skip_to : Bytes → Lexer → Bool × Lexer
unfolding skip_on
skip_to s l = skip_on l (index (drop l.pos l.input) s)

-- The ninth error clears the input, and those after it are not written.
unfoldable pub add_error : LexError → Lexer → Lexer
add_error e l =
    if l.errcnt == max_errors
    then record l {
      pos = 0;
      start = 0;
      input = [];
      errout = l.errout ++ lexical (record { line = e.line; col = e.col; problem = too_many }) ∷ [];
      errcnt = l.errcnt + 1;
    }
    else if l.errcnt == max_errors + 1
    then l
    else record l { errout = l.errout ++ lexical e ∷ []; errcnt = l.errcnt + 1 }

-- `ErrorfAt`: the column is the one printed, one more than the one passed.
unfoldable pub errorf_at : ℕ → ℤ → Problem → Lexer → Lexer
unfolding emit add_error
errorf_at line col problem l =
    add_error (record { line = line; col = col; problem = problem }) (emit t_error l)
