-- ===== src/Shell/Strings.antt =====
-- The tokens that `lexan` finds are strings behind one another in `tokbuf`.
use mathlib.Core.List.{append_assoc, append-nil}
use ece592_final_project.Base.{
  ℕ, zero, suc, ◌+◌, ◌≡◌, refl, sym, ◌∙◌, inl, inr, true, false, arith, ◌==◌, leb, Bool-cases,
  List-cases, Option, none, some, List, [], ◌∷◌, ◌++◌, length, length-append, All,
}
use ece592_final_project.Shell.{
  shell_maxtok, is_end, is_quote, TokType, Lex, Lexed, skip_blanks, copy_quoted, stops_word,
  copy_word, is_appended, add_token, next_token, lex_loop, no_tokens, lexan,
}

-- Strings with a NUL behind each, and where they start
abbrev pub flat : List (List ℕ) → List ℕ
flat [] = []
flat (t ∷ ts) = t ++ (0 ∷ flat ts)

abbrev pub starts : ℕ → List (List ℕ) → List ℕ
starts at [] = []
starts at (t ∷ ts) = at ∷ starts (at + length t + 1) ts

-- A string in a line
abbrev pub IsText : List ℕ → Type 0
IsText t = All (λ ch. is_end ch ≡ false) t

-- `tokbuf` and `tok` hold these strings.
abbrev pub Holds : Lex → List (List ℕ) → Type 0
Holds s ts = (s.tokbuf ≡ flat ts) × (s.tok ≡ starts 0 ts)

flat_join : (ts : List (List ℕ)) (t : List ℕ) → flat (ts ++ (t ∷ [])) ≡ flat ts ++ (t ++ (0 ∷ []))
flat_join [] t = refl
flat_join (u ∷ ts) t = rw (flat_join ts t, append_assoc u (0 ∷ flat ts) (t ++ (0 ∷ []))) refl

starts_join :
    (at : ℕ) (ts : List (List ℕ)) (t : List ℕ)
    → starts at (ts ++ (t ∷ [])) ≡ starts at ts ++ ((at + length (flat ts)) ∷ [])
starts_join at [] t = rw (the_same at) refl
  where
    the_same : (n : ℕ) → n + 0 ≡ n
    the_same n = omega arith
starts_join at (u ∷ ts) t =
    let ih = starts_join (at + length u + 1) ts t in
    let sum : at + length u + 1 + length (flat ts) ≡ at + length (u ++ (0 ∷ flat ts)) =
      omega (arith, length-append u (0 ∷ flat ts)) in
    rw (ih, sum) refl

pub add_token-Holds :
    (ty : TokType) (s : Lex) (ts : List (List ℕ)) (t : List ℕ)
    → Holds s ts
    → Holds (add_token ty (length s.tokbuf) (s.tokbuf ++ t) s) (ts ++ (t ∷ []))
add_token-Holds ty s ts t (buf, tok) =
    let from : 0 + length (flat ts) ≡ length (flat ts) = omega arith in
    (
      rw (buf, append_assoc (flat ts) t (0 ∷ []), flat_join ts t) refl,
      rw (buf, tok, starts_join 0 ts t, from) refl,
    )

copy_quoted-IsText :
    (quote : ℕ) (line buf : List ℕ)
    → (t : List ℕ) × ((copy_quoted quote line buf).2 ≡ buf ++ t) × IsText t
unfolding copy_quoted
copy_quoted-IsText quote [] buf = ([], sym (append-nil buf), tt)
copy_quoted-IsText quote (ch ∷ line) buf = elim (Bool-cases (ch == quote)) [
  | inl same ↦ rw (copy_quoted, same) ([], sym (append-nil buf), tt)
  | inr diff ↦ elim (Bool-cases (is_end ch)) [
    | inl last ↦ rw (copy_quoted, diff, last) ([], sym (append-nil buf), tt)
    | inr more ↦
        let (t, e, text) = copy_quoted-IsText quote line (buf ++ (ch ∷ [])) in
        rw (copy_quoted, diff, more) (ch ∷ t, e ∙ append_assoc buf (ch ∷ []) t, (more, text))
  ]
]

copy_word-IsText :
    (line buf : List ℕ) → (t : List ℕ) × ((copy_word line buf).1 ≡ buf ++ t) × IsText t
unfolding copy_word
copy_word-IsText [] buf = ([], sym (append-nil buf), tt)
copy_word-IsText (ch ∷ line) buf = elim (Bool-cases (stops_word ch)) [
  | inl stop ↦ rw (copy_word, stop) ([], sym (append-nil buf), tt)
  | inr more ↦
      let (t, e, text) = copy_word-IsText line (buf ++ (ch ∷ [])) in
      rw (copy_word, more) (ch ∷ t, e ∙ append_assoc buf (ch ∷ []) t, (ground arith, text))
]

-- A token that `next_token` accepts
next_token-IsText :
    (ch : ℕ) (line : List ℕ) (s : Lex)
    → is_end ch ≡ false
    → (next_token ch line s).0 ≡ true
    → (ty : TokType) × (t : List ℕ) × ((next_token ch line s).2
        ≡ add_token ty (length s.tokbuf) (s.tokbuf ++ t) s)
      × IsText t
unfolding next_token
next_token-IsText ch line s text goes = elim (Bool-cases (ch == 38)) [
  | inl amper ↦ rw (next_token, amper) (TokType.tok_amper, ch ∷ [], refl, (text, tt))
  | inr a ↦ elim (Bool-cases (ch == 60)) [
    | inl less ↦ rw (next_token, a, less) (TokType.tok_less, ch ∷ [], refl, (text, tt))
    | inr b ↦ elim (Bool-cases (ch == 62)) [
      | inl more ↦ rw (next_token, a, b, more) (TokType.tok_greater, ch ∷ [], refl, (text, tt))
      | inr c ↦ elim (Bool-cases (is_quote ch)) [
        | inl quote ↦
            let (t, e, inner) = copy_quoted-IsText ch line s.tokbuf in
            elim (Bool-cases (copy_quoted ch line s.tokbuf).0) [
              | inl closed ↦
                  rw (next_token, a, b, c, quote, closed, e) (TokType.tok_other, t, refl, inner)
              | inr unclosed ↦ absurd (ground arith)
            ]
        | inr d ↦
            let (t, e, inner) = copy_word-IsText line (s.tokbuf ++ (ch ∷ [])) in
            let one = e ∙ append_assoc s.tokbuf (ch ∷ []) t in
            elim (Bool-cases (is_appended (copy_word line (s.tokbuf ++ (ch ∷ []))).0)) [
              | inl appended ↦ absurd (ground arith)
              | inr fine ↦
                  rw (next_token, a, b, c, d, fine, one)
                    (TokType.tok_other, ch ∷ t, refl, (text, inner))
            ]
      ]
    ]
  ]
]

-- Where the result is tokens, the arrays hold strings.
abbrev pub StringsIn : Option Lexed → Type 0
StringsIn none = Unit
StringsIn (some (Lexed.syntax_error s)) = Unit
StringsIn (some (Lexed.tokens s)) = (ts : List (List ℕ)) × Holds s ts × All IsText ts

pub All-join {ℓ κ} :
    {A : Type ℓ} (P : A → Type κ) (ts : List A) (t : A) → All P ts → P t → All P (ts ++ (t ∷ []))
All-join P [] t all p = (p, tt)
All-join P (u ∷ ts) t all p = (all.0, All-join P ts t all.1 p)

lex_loop-StringsIn :
    (fuel : ℕ) (line : List ℕ) (s : Lex) (ts : List (List ℕ))
    → Holds s ts
    → All IsText ts
    → StringsIn (lex_loop fuel line s)
unfolding lex_loop
lex_loop-StringsIn zero line s ts holds texts = tt
lex_loop-StringsIn (suc fuel) [] s ts holds texts = (ts, holds, texts)
lex_loop-StringsIn (suc fuel) (first ∷ line) s ts holds texts = elim (Bool-cases (is_end first)) [
  | inl last ↦ rw (lex_loop, last) (ts, holds, texts)
  | inr more ↦ elim (Bool-cases (leb shell_maxtok (length s.tok))) [
    | inl full ↦ rw (lex_loop, more, full) tt
    | inr room ↦ elim (List-cases (skip_blanks (first ∷ line))) [
      | inl empty ↦ rw (lex_loop, more, room, empty) (ts, holds, texts)
      | inr (ch, rest, e) ↦ elim (Bool-cases (is_end ch)) [
        | inl final ↦ rw (lex_loop, more, room, e, final) (ts, holds, texts)
        | inr text ↦ elim (Bool-cases (next_token ch rest s).0) [
          | inr fails ↦ rw (lex_loop, more, room, e, text, fails) tt
          | inl goes ↦
              let (ty, t, same, inner) = next_token-IsText ch rest s text goes in
              let held = add_token-Holds ty s ts t holds in
              let ih =
                lex_loop-StringsIn fuel (next_token ch rest s).1
                  (add_token ty (length s.tokbuf) (s.tokbuf ++ t) s) (ts ++ (t ∷ [])) held
                  (All-join IsText ts t texts inner) in
              rw (lex_loop, more, room, e, text, goes, same) ih
        ]
      ]
    ]
  ]
]

-- Where `lexan` finds tokens, `tokbuf` holds one string after another, each with its NUL, and `tok`
-- says where each starts; no string has a NUL or a newline in it.
pub lexan_strings : (line : List ℕ) → StringsIn (lexan line)
unfolding lexan
lexan_strings line = lex_loop-StringsIn (shell_maxtok + 1) line no_tokens [] (refl, refl) tt
