-- ===== src/Shell.antt =====
-- The lexical analysis of command lines: lexan of shell/lexan.c. A line is the list of its characters
-- before the NUL. The arrays are written from their starts on without gaps, so that each is the list
-- of what stands in it so far.
pub mod Bounds
pub mod Strings
pub mod Words
use ece592_final_project.Base.{
  ℕ, zero, suc, ◌+◌, Bool, true, false, ◌||◌, ◌==◌, leb, Option, none, some, List, [], ◌∷◌, ◌++◌,
  length, if◌then◌else◌,
}

abbrev pub shell_maxtok : ℕ
shell_maxtok = 32

-- SH_NEWLINE, SH_BLANK and SH_TAB, SH_AMPER, SH_LESS, SH_GREATER, SH_SQUOTE and SH_DQUOTE
abbrev pub is_end : ℕ → Bool
is_end ch = (ch == 10) || (ch == 0)

abbrev pub is_blank : ℕ → Bool
is_blank ch = (ch == 32) || (ch == 9)

abbrev pub is_quote : ℕ → Bool
is_quote ch = (ch == 39) || (ch == 34)

abbrev pub is_redirect : ℕ → Bool
is_redirect ch = (ch == 60) || (ch == 62)

pub data TokType : Type 0 where
  tok_amper tok_less tok_greater tok_other : TokType

-- The arrays `tokbuf`, `tok` and `toktyp`; `tbindex` and `ntok` are the lengths of the first and the
-- second.
pub record Lex : Type 0 where
  pub tokbuf : List ℕ
  pub tok : List ℕ
  pub toktyp : List TokType

-- What `lexan` returns, SYSERR or the number of tokens, with the arrays
pub data Lexed : Type 0 where
  syntax_error tokens : Lex → Lexed

unfoldable pub skip_blanks : List ℕ → List ℕ
skip_blanks [] = []
skip_blanks (ch ∷ line) = elim (is_blank ch) [ true ↦ skip_blanks line | false ↦ ch ∷ line ]

-- The loop of a quoted string: whether it met the quote, and what is left of the line
unfoldable pub copy_quoted : ℕ → List ℕ → List ℕ → Bool × List ℕ × List ℕ
copy_quoted quote [] buf = (false, [], buf)
copy_quoted quote (ch ∷ line) buf = elim (ch == quote) [
  | true ↦ (true, line, buf)
  | false ↦ elim (is_end ch) [
    | true ↦ (false, line, buf)
    | false ↦ copy_quoted quote line (buf ++ (ch ∷ []))
  ]
]

abbrev pub stops_word : ℕ → Bool
stops_word ch = is_end ch || is_redirect ch || is_blank ch || (ch == 38) || is_quote ch

-- The loop of another token
unfoldable pub copy_word : List ℕ → List ℕ → List ℕ × List ℕ
copy_word [] buf = ([], buf)
copy_word (ch ∷ line) buf = elim (stops_word ch) [
  | true ↦ (ch ∷ line, buf)
  | false ↦ copy_word line (buf ++ (ch ∷ []))
]

-- `ch` behind a token is a quote or a redirection.
unfoldable pub is_appended : List ℕ → Bool
is_appended [] = false
is_appended (ch ∷ line) = is_quote ch || is_redirect ch

-- A token that starts at the present end of `tokbuf`, and its text
abbrev pub add_token : TokType → (start : ℕ) → (buf : List ℕ) → Lex → Lex
add_token t start buf s = record {
  tokbuf = buf ++ (0 ∷ []);
  tok = s.tok ++ (start ∷ []);
  toktyp = s.toktyp ++ (t ∷ []);
}

-- One token, which starts with `ch`: whether the loop goes on, and the rest of the line.
unfoldable pub next_token : ℕ → List ℕ → Lex → Bool × List ℕ × Lex
next_token ch line s =
    let start = length s.tokbuf in
    let one = s.tokbuf ++ (ch ∷ []) in
    if ch == 38
    then (true, line, add_token TokType.tok_amper start one s)
    else if ch == 60
    then (true, line, add_token TokType.tok_less start one s)
    else if ch == 62
    then (true, line, add_token TokType.tok_greater start one s)
    else if is_quote ch
    then (let (closed, rest, buf) = copy_quoted ch line s.tokbuf in
        if closed
        then (true, rest, add_token TokType.tok_other start buf s)
        else (false, rest, record s { tokbuf = buf }))
    else (let (rest, buf) = copy_word line one in
        if is_appended rest
        then (false, rest, record s { tokbuf = buf })
        else (true, rest, add_token TokType.tok_other start buf s))

-- The loop of `lexan`, over at most as many tokens as fuel says: `none` where it runs out.
unfoldable pub lex_loop : ℕ → List ℕ → Lex → Option Lexed
lex_loop zero line s = none
lex_loop (suc fuel) [] s = some (Lexed.tokens s)
lex_loop (suc fuel) (first ∷ line) s = elim (is_end first) [
  | true ↦ some (Lexed.tokens s)
  | false ↦ elim (leb shell_maxtok (length s.tok)) [
    | true ↦ some (Lexed.syntax_error s)
    | false ↦ elim (skip_blanks (first ∷ line)) [
      | [] ↦ some (Lexed.tokens s)
      | ch ∷ rest ↦ elim (is_end ch) [
        | true ↦ some (Lexed.tokens s)
        | false ↦
            let (goes_on, left, s') = next_token ch rest s in
            elim goes_on [ true ↦ lex_loop fuel left s' | false ↦ some (Lexed.syntax_error s') ]
      ]
    ]
  ]
]

abbrev pub no_tokens : Lex
no_tokens = record { tokbuf = []; tok = []; toktyp = [] }

unfoldable pub lexan : List ℕ → Option Lexed
lexan line = lex_loop (shell_maxtok + 1) line no_tokens
