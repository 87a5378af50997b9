-- ===== src/Tests/Lines.antt =====
-- The laws of command lines at lines of a few characters.
use ece592_final_project.Base.{ℕ, ◌+◌, ◌≤◌, ◌≡◌, refl, arith, some, List, [], ◌∷◌, length}
use ece592_final_project.Shell.{shell_maxtok, Lex, Lexed, lexan}
use ece592_final_project.Shell.Bounds.{arrays, lexan_lem}
use ece592_final_project.Shell.Strings.{StringsIn, Holds, lexan_strings}
use ece592_final_project.Shell.Words.{line_of, AllOther, lexan-line_of}

-- `ls > "a b` and a newline
abbrev unclosed : List ℕ
unclosed = 108 ∷ 115 ∷ 32 ∷ 62 ∷ 32 ∷ 34 ∷ 97 ∷ 32 ∷ 98 ∷ 10 ∷ []

-- `cat` and `-n`
abbrev words : List (List ℕ)
words = (99 ∷ 97 ∷ 116 ∷ []) ∷ (45 ∷ 110 ∷ []) ∷ []

lexan_lem_example :
    (r : Lexed) × (lexan unclosed ≡ some r)
    × (length (arrays r).tok ≤ shell_maxtok)
    × (length (arrays r).toktyp ≡ length (arrays r).tok)
    × (length (arrays r).tokbuf ≤ length unclosed + length (arrays r).tok)
lexan_lem_example = lexan_lem unclosed

lexan_strings_example : StringsIn (lexan (line_of words))
lexan_strings_example = lexan_strings (line_of words)

lexan-line_of_example :
    (s : Lex) × (lexan (line_of words) ≡ some (Lexed.tokens s)) × Holds s words × AllOther s
lexan-line_of_example =
    lexan-line_of words ((refl, (refl, (refl, tt))), ((refl, (refl, tt)), tt)) (omega arith)
