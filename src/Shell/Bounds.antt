-- ===== src/Shell/Bounds.antt =====
-- `lexan` ends, and stays within its arrays.
use ece592_final_project.Base.{
  ℕ, zero, suc, ◌+◌, ◌≤◌, ◌<◌, ◌≡◌, refl, inl, inr, true, false, Bool, arith, ◌==◌, leb, Bool-cases,
  List-cases, Option, some, List, [], ◌∷◌, ◌++◌, length, length-append,
}
use ece592_final_project.Shell.{
  shell_maxtok, is_end, is_blank, TokType, Lex, Lexed, skip_blanks, copy_quoted, stops_word,
  copy_word, next_token, lex_loop, no_tokens, lexan,
}

-- The arrays when `lexan` returns
abbrev pub arrays : Lexed → Lex
arrays (Lexed.syntax_error s) = s
arrays (Lexed.tokens s) = s

length-skip_blanks : (line : List ℕ) → length (skip_blanks line) ≤ length line
unfolding skip_blanks
length-skip_blanks [] = omega arith
length-skip_blanks (ch ∷ line) = elim (Bool-cases (is_blank ch)) [
  | inl blank ↦ rw (skip_blanks, blank) (omega (arith, length-skip_blanks line))
  | inr other ↦ rw (skip_blanks, other) (omega arith)
]

length-copy_quoted :
    (quote : ℕ) (line buf : List ℕ)
    → let (closed, rest, buf') = copy_quoted quote line buf in
      (length rest + length buf' ≤ length line + length buf)
      × (closed ≡ true → length rest + length buf' + 1 ≤ length line + length buf)
unfolding copy_quoted
length-copy_quoted quote [] buf = (omega arith, λ h. absurd (ground arith))
length-copy_quoted quote (ch ∷ line) buf = elim (Bool-cases (ch == quote)) [
  | inl same ↦ rw (copy_quoted, same) (omega arith, λ h. omega arith)
  | inr diff ↦ elim (Bool-cases (is_end ch)) [
    | inl last ↦ rw (copy_quoted, diff, last) (omega arith, λ h. absurd (ground arith))
    | inr more ↦
        let ih = length-copy_quoted quote line (buf ++ (ch ∷ [])) in
        let longer = length-append buf (ch ∷ []) in
        rw (copy_quoted, diff, more)
          (omega (arith, ih.0, longer), λ h. omega (arith, ih.1 h, longer))
  ]
]

length-copy_word :
    (line buf : List ℕ)
    → let (rest, buf') = copy_word line buf in length rest + length buf' ≡ length line + length buf
unfolding copy_word
length-copy_word [] buf = refl
length-copy_word (ch ∷ line) buf = elim (Bool-cases (stops_word ch)) [
  | inl stop ↦ rw (copy_word, stop) refl
  | inr more ↦
      let ih = length-copy_word line (buf ++ (ch ∷ [])) in
      rw (copy_word, more) (omega (arith, ih, length-append buf (ch ∷ [])))
]

-- What `next_token` does to the lengths
abbrev Grows : (line : List ℕ) → Lex → Bool × List ℕ × Lex → Type 0
Grows line s out =
    let (goes_on, rest, s') = out in
    (goes_on ≡ true → length s'.tok ≡ length s.tok + 1)
    × (goes_on ≡ false → length s'.tok ≡ length s.tok)
    × (length s'.toktyp + length s.tok ≡ length s.toktyp + length s'.tok)
    × (length rest + length s'.tokbuf + length s.tok
        ≤ length line + length s.tokbuf + length s'.tok)

next_token-Grows : (ch : ℕ) (line : List ℕ) (s : Lex) → Grows (ch ∷ line) s (next_token ch line s)
unfolding next_token
next_token-Grows ch line s =
    let start = length s.tokbuf in
    let one = s.tokbuf ++ (ch ∷ []) in
    let longer = length-append s.tokbuf (ch ∷ []) in
    let ended = λ (buf : List ℕ). length-append buf (0 ∷ []) in
    let counted = λ (i : ℕ). length-append s.tok (i ∷ []) in
    let typed = λ (t : TokType). length-append s.toktyp (t ∷ []) in
    ground (
      arith,
      longer,
      ended one,
      counted start,
      typed TokType.tok_amper,
      typed TokType.tok_less,
      typed TokType.tok_greater,
      typed TokType.tok_other,
      length-copy_quoted ch line s.tokbuf,
      length-copy_word line one,
      ended (copy_quoted ch line s.tokbuf).2,
      ended (copy_word line one).1,
    )

-- The loop ends if its fuel is enough for the tokens that are still allowed.
abbrev Ends : (line : List ℕ) → Lex → Option Lexed → Type 0
Ends line s out =
    (r : Lexed) × (out ≡ some r)
    × (length (arrays r).tok ≤ shell_maxtok)
    × (length (arrays r).toktyp ≡ length (arrays r).tok)
    × (length (arrays r).tokbuf + length s.tok
        ≤ length line + length s.tokbuf + length (arrays r).tok)

lex_loop-Ends :
    (fuel : ℕ) (line : List ℕ) (s : Lex)
    → length s.tok ≤ shell_maxtok
    → shell_maxtok < fuel + length s.tok
    → length s.toktyp ≡ length s.tok
    → Ends line s (lex_loop fuel line s)
unfolding lex_loop
lex_loop-Ends zero line s few fuel same = absurd (omega arith)
lex_loop-Ends (suc fuel) [] s few enough same = (Lexed.tokens s, refl, few, same, omega arith)
lex_loop-Ends (suc fuel) (first ∷ line) s few enough same = elim (Bool-cases (is_end first)) [
  | inl last ↦ rw (lex_loop, last) (Lexed.tokens s, refl, few, same, omega arith)
  | inr more ↦ elim (Bool-cases (leb shell_maxtok (length s.tok))) [
    | inl full ↦ rw (lex_loop, more, full) (Lexed.syntax_error s, refl, few, same, omega arith)
    | inr room ↦ elim (List-cases (skip_blanks (first ∷ line))) [
      | inl empty ↦ rw (lex_loop, more, room, empty) (Lexed.tokens s, refl, few, same, omega arith)
      | inr (ch, rest, e) ↦ elim (Bool-cases (is_end ch)) [
        | inl final ↦
            rw (lex_loop, more, room, e, final) (Lexed.tokens s, refl, few, same, omega arith)
        | inr text ↦
            let s' = (next_token ch rest s).2 in
            let left = (next_token ch rest s).1 in
            let (onward, stuck, types, grown) = next_token-Grows ch rest s in
            let shorter : length (ch ∷ rest) ≤ length (first ∷ line) =
              rw e at (length-skip_blanks (first ∷ line)) in
            elim (Bool-cases (next_token ch rest s).0) [
              | inl goes ↦
                  let ih =
                    lex_loop-Ends fuel left s' (ground (arith, onward goes))
                      (omega (arith, onward goes)) (omega (arith, onward goes)) in
                  rw (lex_loop, more, room, e, text, goes)
                    (ih.0, ih.1, ih.2, ih.3, omega (arith, ih.4, grown, shorter))
              | inr fails ↦
                  rw (lex_loop, more, room, e, text, fails)
                    (
                      Lexed.syntax_error s',
                      refl,
                      omega (arith, stuck fails),
                      omega (arith, stuck fails),
                      omega (arith, stuck fails, grown, shorter),
                    )
            ]
      ]
    ]
  ]
]

-- `lexan` ends on every line, and also where it fails it has found at most SHELL_MAXTOK tokens, each
-- with a type, and has filled `tokbuf` with at most one character for each of the line and one for
-- each token, so that SHELL_ARGLEN are enough.
pub lexan_lem :
    (line : List ℕ)
    → (r : Lexed) × (lexan line ≡ some r)
      × (length (arrays r).tok ≤ shell_maxtok)
      × (length (arrays r).toktyp ≡ length (arrays r).tok)
      × (length (arrays r).tokbuf ≤ length line + length (arrays r).tok)
unfolding lexan
lexan_lem line =
    let ends = lex_loop-Ends (shell_maxtok + 1) line no_tokens (omega arith) (omega arith) refl in
    (ends.0, ends.1, ends.2, ends.3, omega (arith, ends.4))
