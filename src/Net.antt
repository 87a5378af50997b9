-- ===== src/Net.antt =====
-- Checksums and addresses of the network: `ipcksum` of net/ip.c, `icmp_cksum` of net/icmp.c, net/dot2ip.c
-- and the macro `htons` of include/prototypes.h, on a memory of bytes.
pub mod Checksum
pub mod Dotted
use ece592_final_project.Base.{
  ltb, ◌||◌, none, true, false, leb, modulus, some, Option, ℕ, zero, suc, ◌+◌, ◌-◌, ◌*◌, ◌/◌, ◌%◌,
  ◌==◌, if◌then◌else◌, is_neg, add32,
}
use ece592_final_project.Strings.{Bytes}

-- The 16-bit word at an address
abbrev pub half_at : Bytes → ℕ → ℕ
half_at mem a = mem a + 256 * mem (a + 1)

abbrev pub htons : ℕ → ℕ
htons x = x / 256 % 256 + x % 256 * 256

-- `cksum += htons(word)` for the words from `ptr` on
unfoldable pub word_sum : (rounds ptr : ℕ) → Bytes → ℕ → ℕ
word_sum zero ptr mem cksum = cksum
word_sum (suc rounds) ptr mem cksum =
    word_sum rounds (ptr + 2) mem (add32 cksum (htons (half_at mem ptr)))

-- `cksum += (cksum >> 16); 0xffff & ~cksum`
abbrev pub fold_sum : ℕ → ℕ
fold_sum cksum = 65535 - add32 cksum (cksum / 65536) % 65536

-- `hptr` is the address of the header.
unfoldable pub ipcksum : Bytes → (hptr : ℕ) → ℕ
ipcksum mem hptr =
    let cksum = fold_sum (word_sum 10 hptr mem 0) in if cksum == 65535 then 0 else cksum

unfoldable pub icmp_cksum : Bytes → (buf buflen : ℕ) → ℕ
icmp_cksum mem buf buflen =
    let scount = if is_neg buflen then 0 else buflen / 2 in
    let cksum = word_sum scount buf mem 0 in
    fold_sum (if buflen % 2 == 0 then cksum else add32 cksum (mem (buf + 2 * scount) * 256 % 65536))

-- The loop over the characters of a segment: `none` for SYSERR, else the value, the character behind
-- the segment and the address behind that.
unfoldable pub read_segment : (rounds nch dotted val ch : ℕ) → Bytes → Option (ℕ × ℕ × ℕ)
read_segment zero nch dotted val ch mem = some (val, ch, dotted)
read_segment (suc rounds) nch dotted val ch mem =
    let c = mem dotted in
    elim ((c == 0) || (c == 46)) [
      | true ↦ if nch == 0 then none else some (val, c, dotted + 1)
      | false ↦ elim (leb 3 nch || ltb c 48 || ltb 57 c) [
        | true ↦ none
        | false ↦ read_segment rounds (nch + 1) (dotted + 1) (10 * val + (c - 48)) c mem
      ]
    ]

-- The loop over the segments that are left of four
unfoldable pub read_segments : (rounds dotted ipaddr : ℕ) → Bytes → Option ℕ
read_segments zero dotted ipaddr mem = none
read_segments (suc rounds) dotted ipaddr mem = elim (read_segment 4 0 dotted 0 0 mem) [
  | none ↦ none
  | some (val, ch, rest) ↦ elim (ltb 255 val) [
    | true ↦ none
    | false ↦ elim (ch == 0) [
      | true ↦ some (ipaddr * 256 % modulus + val)
      | false ↦ read_segments rounds rest (ipaddr * 256 % modulus + val) mem
    ]
  ]
]

-- `none` for SYSERR, else the address that is stored.
unfoldable pub dot2ip : (dotted : ℕ) → Bytes → Option ℕ
dot2ip dotted mem = read_segments 4 dotted 0 mem
