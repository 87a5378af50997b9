-- ===== src/Tests/Text.antt =====
-- The laws of the string routines and of the dates at concrete bytes and instants.
use ece592_final_project.Base.{
  ℕ, ◌≤◌, ◌<◌, ◌≡◌, ◌⊎◌, refl, inr, true, some, [], ◌∷◌, arith, ◌==◌, if◌then◌else◌,
}
use ece592_final_project.Strings.{Bytes, strlen, strnlen, strcmp, strncmp, strcpy, memcpy_loop}
use ece592_final_project.Strings.Length.{IsString, strlen-strnlen_lem}
use ece592_final_project.Strings.Copy.{strcpy_lem}
use ece592_final_project.Strings.Compare.{agree, SameSign, strncmp-strcmp_lem}
use ece592_final_project.Strings.Search.{Nowhere, strstr, strstr_lem}
use ece592_final_project.Strings.Number.{atoi, atol, atoi-decimal_lem}

-- "abc" at 100, "bd" at 200, " 42" at 300 and "-7" at 400
abbrev text : Bytes
text x =
    if x == 100
    then 97
    else if x == 101
    then 98
    else if x == 102
    then 99
    else if x == 200
    then 98
    else if x == 201
    then 100
    else if x == 300
    then 32
    else if x == 301
    then 52
    else if x == 302
    then 50
    else if x == 400
    then 45
    else if x == 401
    then 55
    else 0

abc-IsString : IsString text 100 3
abc-IsString = ground arith

bd-IsString : IsString text 200 2
bd-IsString = ground arith

text-bytes : (x : ℕ) → text x < 256
text-bytes x = ground arith

strlen-strnlen_lem_example : (strlen 10 text 100 ≡ some 3) × (strnlen text 100 2 ≡ 2)
strlen-strnlen_lem_example =
    strlen-strnlen_lem 10 3 100 2 text abc-IsString (omega arith) (omega arith) (omega arith)

strcpy_lem_example : strcpy 10 500 100 text ≡ some (memcpy_loop 4 500 100 text)
strcpy_lem_example = strcpy_lem 10 3 500 100 text abc-IsString (omega arith) (inr (omega arith))

strncmp-strcmp_lem_example : SameSign (strcmp 10 text 100 200) (strncmp text 100 200 10)
strncmp-strcmp_lem_example =
    strncmp-strcmp_lem 10 3 100 200 text text-bytes abc-IsString (omega arith) refl

strstr_lem_example :
    ((a : ℕ) × (strstr 10 text 100 200 ≡ some a)
      × (100 ≤ a)
      × (a < 103)
      × (agree text a 200 2 ≡ true)
      × Nowhere text 200 2 100 a)
    ⊎ (strstr 10 text 100 200 ≡ some 0) × Nowhere text 200 2 100 103
strstr_lem_example = strstr_lem 10 3 1 100 200 text abc-IsString (bd-IsString) (omega arith)

atoi-decimal_lem_example : (atoi 10 text 300 ≡ some 42) × (atol 10 text 300 ≡ some 42)
atoi-decimal_lem_example =
    atoi-decimal_lem 10 1 300 4 (2 ∷ []) text (refl, tt)
      ((omega arith), refl, (omega arith, refl, refl)) (omega arith) (omega arith) (omega arith)
