-- ===== src/Strings/Length.antt =====
-- `strlen` and `strnlen` on a string of known length.
use ece592_final_project.Base.{
  ℕ, zero, suc, ◌+◌, ◌<◌, ◌≡◌, ◌≢◌, arith, some, ltb, if◌then◌else◌, modulus,
}
use ece592_final_project.Strings.{Bytes, strlen_loop, strlen, strnlen_loop, strnlen}

-- At `s` stand `n` bytes that are not NUL, and then a NUL.
abbrev pub IsString : Bytes → ℕ → ℕ → Type 0
IsString mem s zero = mem s ≡ 0
IsString mem s (suc n) = (mem s ≢ 0) × IsString mem (s + 1) n

strlen_loop_lem :
    (fuel n s len : ℕ) (mem : Bytes)
    → IsString mem s n
    → n < fuel
    → len + n < modulus
    → strlen_loop fuel mem s len ≡ some (len + n)
unfolding strlen_loop
strlen_loop_lem zero n s len mem str f small = absurd (omega arith)
strlen_loop_lem (suc fuel) zero s len mem str f small = ground arith
strlen_loop_lem (suc fuel) (suc n) s len mem str f small =
    ground (arith, strlen_loop_lem fuel n (s + 1) (len + 1) mem)

strnlen_loop_lem :
    (left n s m : ℕ) (mem : Bytes)
    → IsString mem s n
    → m + left < modulus
    → strnlen_loop left mem s m ≡ m + (if ltb n left then n else left)
unfolding strnlen_loop
strnlen_loop_lem zero n s m mem str small = ground arith
strnlen_loop_lem (suc left) zero s m mem str small = ground arith
strnlen_loop_lem (suc left) (suc n) s m mem str small =
    ground (arith, strnlen_loop_lem left n (s + 1) (m + 1) mem)

-- On a string of `n` bytes, fewer than 2 ^ 32, `strlen` ends within `n + 1` rounds and returns `n`;
-- `strnlen` with the bound `len`, a word, returns the smaller of `n` and `len`.
pub strlen-strnlen_lem :
    (fuel n s len : ℕ) (mem : Bytes)
    → IsString mem s n
    → n < fuel
    → n < modulus
    → len < modulus
    → (strlen fuel mem s ≡ some n) × (strnlen mem s len ≡ (if ltb n len then n else len))
unfolding strlen strnlen
strlen-strnlen_lem fuel n s len mem str f small word =
    ground (arith, strlen_loop_lem fuel n s 0 mem, strnlen_loop_lem len n s 0 mem)
