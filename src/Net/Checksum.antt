-- ===== src/Net/Checksum.antt =====
-- The checksums against the ones' complement sum.
use native.Mathlib.Nat.{suc-mul}
use ece592_final_project.Base.{
  ℕ, zero, suc, ◌+◌, ◌*◌, ◌/◌, ◌%◌, ◌≤◌, ◌<◌, ◌≡◌, refl, ◌∙◌, ap, arith, ◌==◌, update,
  if◌then◌else◌, ltb, add32, modulus,
}
use ece592_final_project.Strings.{Bytes}
use ece592_final_project.Net.{half_at, htons, word_sum, fold_sum, ipcksum}

-- Every address holds a byte.
abbrev pub IsBytes : Bytes → Type 0
IsBytes mem = (a : ℕ) → mem a < 256

-- The sum of `n` words, most significant byte first
abbrev pub total : (n ptr : ℕ) → Bytes → ℕ
total zero ptr mem = 0
total (suc n) ptr mem = mem ptr * 256 + mem (ptr + 1) + total n (ptr + 2) mem

total_bound : (n ptr : ℕ) (mem : Bytes) → IsBytes mem → total n ptr mem ≤ n * 65535
total_bound zero ptr mem b = omega arith
total_bound (suc n) ptr mem b =
    omega (arith, total_bound n (ptr + 2) mem b, b ptr, b (ptr + 1), suc-mul n 65535)

htons_half : (mem : Bytes) (a : ℕ) → IsBytes mem → htons (half_at mem a) ≡ mem a * 256 + mem (a + 1)
htons_half mem a b = omega (arith, b a, b (a + 1))

word_sum_lem :
    (n ptr c : ℕ) (mem : Bytes)
    → IsBytes mem
    → c + n * 65535 < modulus
    → word_sum n ptr mem c ≡ c + total n ptr mem
unfolding word_sum
word_sum_lem zero ptr c mem b room = omega arith
word_sum_lem (suc n) ptr c mem b room =
    let more = suc-mul n 65535 in
    let word = htons_half mem ptr b in
    let sum : add32 c (htons (half_at mem ptr)) ≡ c + (mem ptr * 256 + mem (ptr + 1)) =
      omega (arith, b ptr, b (ptr + 1)) in
    rw sum (word_sum_lem n (ptr + 2) _ mem b (omega (arith, b ptr, b (ptr + 1))) ∙ omega arith)

-- What `ipcksum` makes of the sum
abbrev sealed : ℕ → ℕ
sealed s = if fold_sum s == 65535 then 0 else fold_sum s

ipcksum-total : (mem : Bytes) (h : ℕ) → IsBytes mem → ipcksum mem h ≡ sealed (total 10 h mem)
unfolding ipcksum
ipcksum-total mem h b =
    let zero_more : 0 + total 10 h mem ≡ total 10 h mem = omega arith in
    rw (word_sum_lem 10 h 0 mem b (omega arith) ∙ zero_more) refl

sealed_lem :
    (s : ℕ)
    → s ≤ 655350
    → (s + sealed s) % 65535 ≡ (if ltb (s % 65536 + s / 65536) 65536 then 0 else 1)
sealed_lem s le = ground arith

sealed_again : (s : ℕ) → s ≤ 589815 → sealed (s + sealed s) ≡ 0
sealed_again s le = ground arith

-- The checksum of a header of bytes is a 16-bit word, which completes the sum of the header's words to a
-- multiple of 65535 if the fold of the sum leaves no carry, and otherwise to one more.
pub ipcksum_lem :
    (mem : Bytes) (h : ℕ)
    → IsBytes mem
    → let s = total 10 h mem in
      (ipcksum mem h < 65536)
      × ((s + ipcksum mem h) % 65535 ≡ (if ltb (s % 65536 + s / 65536) 65536 then 0 else 1))
ipcksum_lem mem h b =
    let bound = total_bound 10 h mem b in
    rw (ipcksum-total mem h b) (ground arith, sealed_lem (total 10 h mem) (omega arith))

-- The header with `c` in its field for the checksum, in network byte order
abbrev pub set_cksum : (c h : ℕ) → Bytes → Bytes
set_cksum c h mem = update (update mem (h + 10) (c / 256)) (h + 11) (c % 256)

total-set_cksum :
    (mem : Bytes) (h c : ℕ)
    → mem (h + 10) ≡ 0
    → mem (h + 11) ≡ 0
    → c < 65536
    → total 10 h (set_cksum c h mem) ≡ total 10 h mem + c
total-set_cksum mem h c high low small = ground arith

IsBytes-set_cksum : (mem : Bytes) (h c : ℕ) → IsBytes mem → c < 65536 → IsBytes (set_cksum c h mem)
IsBytes-set_cksum mem h c b small a = ground (arith, b a)

-- A header of bytes whose field for the checksum is 0 has the checksum 0 after its checksum is stored in
-- that field.
pub ipcksum_sent :
    (mem : Bytes) (h : ℕ)
    → IsBytes mem
    → mem (h + 10) ≡ 0
    → mem (h + 11) ≡ 0
    → ipcksum (set_cksum (ipcksum mem h) h mem) h ≡ 0
ipcksum_sent mem h b high low =
    let c = ipcksum mem h in
    let s = total 10 h mem in
    let small = (ipcksum_lem mem h b).0 in
    let same : c ≡ sealed s = ipcksum-total mem h b in
    let first = total_bound 5 h mem b in
    let last = total_bound 4 (h + 12) mem b in
    let few : s ≤ 589815 = ground arith in
    ipcksum-total (set_cksum c h mem) h (IsBytes-set_cksum mem h c b small)
    ∙ ap sealed (total-set_cksum mem h c high low small ∙ ap (λ x. s + x) same)
    ∙ sealed_again s few
