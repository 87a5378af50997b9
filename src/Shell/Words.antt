-- ===== src/Shell/Words.antt =====
-- `lexan` reads back the words of a line.
use mathlib.Core.List.{append-nil, append_assoc}
use ece592_final_project.Base.{
  ℕ, zero, suc, ◌+◌, ◌≤◌, ◌<◌, ◌≡◌, refl, ap, ◌∙◌, true, false, Bool, arith, ◌==◌, leb, some, List,
  [], ◌∷◌, ◌++◌, length, length-append, All,
}
use ece592_final_project.Shell.{
  is_quote, shell_maxtok, is_end, is_blank, TokType, Lex, Lexed, skip_blanks, stops_word, copy_word,
  is_appended, add_token, next_token, lex_loop, no_tokens, lexan,
}
use ece592_final_project.Shell.Strings.{All-join, Holds, add_token-Holds}

-- A word of characters that mean nothing to `lexan`
abbrev pub IsWord : List ℕ → Type 0
IsWord [] = ⊥
IsWord (ch ∷ t) = All (λ c. stops_word c ≡ false) (ch ∷ t)

-- The words with a blank before each, and the end of the line
abbrev after : List (List ℕ) → List ℕ
after [] = 10 ∷ []
after (t ∷ ts) = 32 ∷ (t ++ after ts)

-- A line of words, with a blank between each two and a newline at the end
abbrev pub line_of : List (List ℕ) → List ℕ
line_of [] = 10 ∷ []
line_of (t ∷ ts) = t ++ after ts

copy_word-after :
    (ts : List (List ℕ)) (buf : List ℕ)
    → (copy_word (after ts) buf ≡ (after ts, buf)) × (is_appended (after ts) ≡ false)
unfolding copy_word is_appended
copy_word-after [] buf = (refl, refl)
copy_word-after (t ∷ ts) buf = (refl, refl)

copy_word_lem :
    (t : List ℕ) (ts : List (List ℕ)) (buf : List ℕ)
    → All (λ c. stops_word c ≡ false) t
    → copy_word (t ++ after ts) buf ≡ (after ts, buf ++ t)
unfolding copy_word
copy_word_lem [] ts buf all = rw append-nil (copy_word-after ts buf).0
copy_word_lem (ch ∷ t) ts buf (plain, all) =
    let ih = copy_word_lem t ts (buf ++ (ch ∷ [])) all in
    rw (copy_word, plain) (ih ∙ ap (λ b. (after ts, b)) (append_assoc buf (ch ∷ []) t))

next_word :
    (ch : ℕ) (t : List ℕ) (ts : List (List ℕ)) (s : Lex)
    → stops_word ch ≡ false
    → All (λ c. stops_word c ≡ false) t
    → next_token ch (t ++ after ts) s
      ≡ (true, after ts, add_token TokType.tok_other (length s.tokbuf) (s.tokbuf ++ (ch ∷ t)) s)
unfolding next_token
next_word ch t ts s plain all =
    let copied = copy_word_lem t ts (s.tokbuf ++ (ch ∷ [])) all in
    let one = append_assoc s.tokbuf (ch ∷ []) t in
    let a : (ch == 38) ≡ false = ground arith in
    let b : (ch == 60) ≡ false = ground arith in
    let c : (ch == 62) ≡ false = ground arith in
    let d : is_quote ch ≡ false = ground arith in
    rw (next_token, a, b, c, d, copied, (copy_word-after ts []).1, one) refl

-- The words are added one after the other.
abbrev reads : List (List ℕ) → Lex → Lex
reads [] s = s
reads (t ∷ ts) s = reads ts (add_token TokType.tok_other (length s.tokbuf) (s.tokbuf ++ t) s)

one_round :
    (fuel first ch : ℕ) (line t : List ℕ) (ts : List (List ℕ)) (s : Lex)
    → is_end first ≡ false
    → skip_blanks (first ∷ line) ≡ ch ∷ (t ++ after ts)
    → length s.tok < shell_maxtok
    → stops_word ch ≡ false
    → All (λ c. stops_word c ≡ false) t
    → lex_loop (suc fuel) (first ∷ line) s
      ≡ lex_loop fuel
          (after ts)
          (add_token TokType.tok_other (length s.tokbuf) (s.tokbuf ++ (ch ∷ t)) s)
unfolding lex_loop
one_round fuel first ch line t ts s more skipped few plain all =
    let room : leb shell_maxtok (length s.tok) ≡ false = ground arith in
    let text : is_end ch ≡ false = ground arith in
    let word = next_word ch t ts s plain all in
    let goes : (next_token ch (t ++ after ts) s).0 ≡ true =
      ap {A = Bool × List ℕ × Lex} (λ r. r.0) word in
    rw (lex_loop, more, room, skipped, text, goes)
      (ap {A = Bool × List ℕ × Lex} (λ r. lex_loop fuel r.1 r.2) word)

skip_word :
    (ch : ℕ) (line : List ℕ) → stops_word ch ≡ false → skip_blanks (32 ∷ ch ∷ line) ≡ ch ∷ line
unfolding skip_blanks
skip_word ch line plain =
    let other : is_blank ch ≡ false = ground arith in rw (skip_blanks, other) refl

read_after :
    (fuel : ℕ) (ts : List (List ℕ)) (s : Lex)
    → All IsWord ts
    → length s.tok + length ts ≤ shell_maxtok
    → length ts < fuel
    → lex_loop fuel (after ts) s ≡ some (Lexed.tokens (reads ts s))
unfolding lex_loop
read_after zero ts s words few enough = absurd (omega arith)
read_after (suc fuel) [] s words few enough = refl
read_after (suc fuel) ([] ∷ ts) s words few enough = absurd words.0
read_after (suc fuel) ((ch ∷ t) ∷ ts) s (word, words) few enough =
    let longer = length-append s.tok (length s.tokbuf ∷ []) in
    one_round fuel 32 ch ((ch ∷ t) ++ after ts) t ts s refl (skip_word ch (t ++ after ts) word.0)
      (omega arith) word.0 word.1
    ∙ read_after fuel ts _ words (omega (arith, longer)) (omega arith)

skip_none : (ch : ℕ) (line : List ℕ) → stops_word ch ≡ false → skip_blanks (ch ∷ line) ≡ ch ∷ line
unfolding skip_blanks
skip_none ch line plain =
    let other : is_blank ch ≡ false = ground arith in rw (skip_blanks, other) refl

read_line :
    (fuel : ℕ) (ts : List (List ℕ)) (s : Lex)
    → All IsWord ts
    → length s.tok + length ts ≤ shell_maxtok
    → length ts < fuel
    → lex_loop fuel (line_of ts) s ≡ some (Lexed.tokens (reads ts s))
unfolding lex_loop
read_line zero ts s words few enough = absurd (omega arith)
read_line (suc fuel) [] s words few enough = refl
read_line (suc fuel) ([] ∷ ts) s words few enough = absurd words.0
read_line (suc fuel) ((ch ∷ t) ∷ ts) s (word, words) few enough =
    let longer = length-append s.tok (length s.tokbuf ∷ []) in
    let text : is_end ch ≡ false = ground arith in
    one_round fuel ch ch (t ++ after ts) t ts s text (skip_none ch (t ++ after ts) word.0)
      (omega arith) word.0 word.1
    ∙ read_after fuel ts _ words (omega (arith, longer)) (omega arith)

abbrev pub AllOther : Lex → Type 0
AllOther s = All (λ ty. ty ≡ TokType.tok_other) s.toktyp

reads-Holds :
    (ts us : List (List ℕ)) (s : Lex)
    → Holds s us
    → AllOther s
    → Holds (reads ts s) (us ++ ts) × AllOther (reads ts s)
reads-Holds [] us s holds others = (rw append-nil holds, others)
reads-Holds (t ∷ ts) us s holds others =
    let ih =
      reads-Holds ts (us ++ (t ∷ []))
        (add_token TokType.tok_other (length s.tokbuf) (s.tokbuf ++ t) s)
        (add_token-Holds TokType.tok_other s us t holds)
        (All-join (λ ty. ty ≡ TokType.tok_other) s.toktyp TokType.tok_other others refl) in
    rw (append_assoc us (t ∷ []) ts) at ih

-- `lexan` reads a line of at most SHELL_MAXTOK words, with a blank between each two and a newline at
-- the end, back into these words: `tokbuf` holds them, `tok` says where they start, and all have the
-- type SH_TOK_OTHER.
pub lexan-line_of :
    (ts : List (List ℕ))
    → All IsWord ts
    → length ts ≤ shell_maxtok
    → (s : Lex) × (lexan (line_of ts) ≡ some (Lexed.tokens s)) × Holds s ts × AllOther s
unfolding lexan
lexan-line_of ts words few =
    let read = read_line (shell_maxtok + 1) ts no_tokens words (omega arith) (omega arith) in
    let (holds, others) = reads-Holds ts [] no_tokens (refl, refl) tt in
    (reads ts no_tokens, read, holds, others)
