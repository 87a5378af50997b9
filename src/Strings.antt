-- ===== src/Strings.antt =====
-- The string and memory routines of lib/: strlen.c, strnlen.c, strcmp.c, strncmp.c, strcpy.c,
-- strncpy.c, strncat.c, strchr.c, strrchr.c, strstr.c, memcmp.c, memcpy.c, memset.c, bzero.c, atoi.c,
-- atol.c, abs.c and labs.c. Memory is a function from addresses to bytes, so that the arguments of a
-- routine may overlap. A loop that looks for a byte runs on fuel, and `none` is a loop that goes on.
pub mod Length
pub mod Copy
pub mod Compare
pub mod Search
pub mod Number
use ece592_final_project.Base.{
  ℕ, zero, suc, ◌+◌, ◌%◌, Bool, ◌==◌, ltb, if◌then◌else◌, update, Option, none, some, is_neg, add32,
  sub32,
}

abbrev pub Bytes : Type 0
Bytes = ℕ → ℕ

-- `char` is signed: the int32 of a byte, and the order of two.
abbrev pub int_of_char : ℕ → ℕ
int_of_char c = if ltb c 128 then c else c + 0xffff_ff00

abbrev pub char_lt : ℕ → ℕ → Bool
char_lt a b = ltb ((a + 128) % 256) ((b + 128) % 256)

unfoldable pub strlen_loop : ℕ → Bytes → ℕ → ℕ → Option ℕ
strlen_loop zero mem str len = none
strlen_loop (suc fuel) mem str len =
    let rest = strlen_loop fuel mem (str + 1) (add32 len 1) in
    if mem str == 0 then some len else rest

unfoldable pub strlen : ℕ → Bytes → ℕ → Option ℕ
strlen fuel mem str = strlen_loop fuel mem str 0

-- `left` is `len - n`.
unfoldable pub strnlen_loop : (left : ℕ) → Bytes → ℕ → ℕ → ℕ
strnlen_loop zero mem s n = n
strnlen_loop (suc left) mem s n =
    let rest = strnlen_loop left mem (s + 1) (add32 n 1) in if mem s == 0 then n else rest

unfoldable pub strnlen : Bytes → ℕ → ℕ → ℕ
strnlen mem s len = strnlen_loop len mem s 0

unfoldable pub strcmp : ℕ → Bytes → ℕ → ℕ → Option ℕ
strcmp zero mem str1 str2 = none
strcmp (suc fuel) mem str1 str2 =
    let rest = strcmp fuel mem (str1 + 1) (str2 + 1) in
    if mem str1 == mem str2
    then (if mem str1 == 0 then some 0 else rest)
    else (if char_lt (mem str1) (mem str2) then some 0xffff_ffff else some 1)

-- The rounds that are left of a loop that counts up to an int32, or down from it.
abbrev pub rounds : ℕ → ℕ
rounds n = if is_neg n then 0 else n

unfoldable pub strncmp_loop : ℕ → Bytes → ℕ → ℕ → ℕ
strncmp_loop zero mem s1 s2 = 0
strncmp_loop (suc n) mem s1 s2 =
    let rest = strncmp_loop n mem (s1 + 1) (s2 + 1) in
    if mem s1 == mem s2
    then (if mem s1 == 0 then 0 else rest)
    else sub32 (int_of_char (mem s1)) (int_of_char (mem s2))

unfoldable pub strncmp : Bytes → ℕ → ℕ → ℕ → ℕ
strncmp mem s1 s2 n = strncmp_loop (rounds n) mem s1 s2

-- `*tar = *src`
abbrev pub store : Bytes → ℕ → ℕ → Bytes
store mem tar c = update mem tar c

unfoldable pub strcpy : ℕ → ℕ → ℕ → Bytes → Option Bytes
strcpy zero tar src mem = none
strcpy (suc fuel) tar src mem =
    let mem' = store mem tar (mem src) in
    let rest = strcpy fuel (tar + 1) (src + 1) mem' in if mem src == 0 then some mem' else rest

unfoldable pub memset_loop : ℕ → ℕ → ℕ → Bytes → Bytes
memset_loop zero cp c mem = mem
memset_loop (suc n) cp c mem = memset_loop n (cp + 1) c (store mem cp (c % 256))

unfoldable pub memset : ℕ → ℕ → ℕ → Bytes → Bytes
memset s c n mem = memset_loop (rounds n) s c mem

unfoldable pub bzero_loop : ℕ → ℕ → Bytes → Bytes
bzero_loop zero p mem = mem
bzero_loop (suc n) p mem = bzero_loop n (p + 1) (store mem p 0)

unfoldable pub bzero : ℕ → ℕ → Bytes → Bytes
bzero p len mem = bzero_loop (rounds len) p mem

unfoldable pub memcpy_loop : ℕ → ℕ → ℕ → Bytes → Bytes
memcpy_loop zero dst src mem = mem
memcpy_loop (suc n) dst src mem = memcpy_loop n (dst + 1) (src + 1) (store mem dst (mem src))

unfoldable pub memcpy : ℕ → ℕ → ℕ → Bytes → Bytes
memcpy s ct n mem = memcpy_loop (rounds n) s ct mem

unfoldable pub memcmp_loop : ℕ → Bytes → ℕ → ℕ → ℕ
memcmp_loop zero mem c1 c2 = 0
memcmp_loop (suc n) mem c1 c2 =
    let rest = memcmp_loop n mem (c1 + 1) (c2 + 1) in
    if mem c1 == mem c2 then rest else sub32 (mem c1) (mem c2)

unfoldable pub memcmp : Bytes → ℕ → ℕ → ℕ → ℕ
memcmp mem s1 s2 n = memcmp_loop (rounds n) mem s1 s2

-- Behind the end of `s2` the rest of the `n` bytes is filled with zeroes.
unfoldable pub strncpy_loop : ℕ → ℕ → ℕ → Bytes → Bytes
strncpy_loop zero s1 s2 mem = mem
strncpy_loop (suc n) s1 s2 mem =
    let mem' = store mem s1 (mem s2) in
    let rest = strncpy_loop n (s1 + 1) (s2 + 1) mem' in
    if mem s2 == 0 then bzero_loop n (s1 + 1) mem' else rest

unfoldable pub strncpy : ℕ → ℕ → ℕ → Bytes → Bytes
strncpy s1 s2 n mem = strncpy_loop (rounds n) s1 s2 mem

-- The copy of `strncat`; `n` counts down below 0.
unfoldable pub strncat_copy : ℕ → ℕ → ℕ → ℕ → Bytes → Option Bytes
strncat_copy zero s1 s2 n mem = none
strncat_copy (suc fuel) s1 s2 n mem =
    let mem' = store mem s1 (mem s2) in
    let n' = sub32 n 1 in
    let rest = strncat_copy fuel (s1 + 1) (s2 + 1) n' mem' in
    if mem s2 == 0 then some mem' else if is_neg n' then some (store mem' s1 0) else rest

-- `while (*s1++) ; --s1;`
unfoldable pub skip_string : ℕ → Bytes → ℕ → Option ℕ
skip_string zero mem s1 = none
skip_string (suc fuel) mem s1 =
    let rest = skip_string fuel mem (s1 + 1) in if mem s1 == 0 then some s1 else rest

unfoldable pub strncat : ℕ → ℕ → ℕ → ℕ → Bytes → Option Bytes
strncat fuel s1 s2 n mem = elim (skip_string fuel mem s1) [
  | none ↦ none
  | some e ↦ strncat_copy fuel e s2 n mem
]
