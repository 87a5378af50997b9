-- ===== src/Tests/Packets.antt =====
-- The laws of checksums and addresses at a header of ten equal words and at `10.2`.
use ece592_final_project.Base.{
  ◌==◌, ◌/◌, ◌+◌, ◌<◌, ◌≡◌, ◌%◌, refl, arith, some, [], ◌∷◌, update, if◌then◌else◌, ltb,
}
use ece592_final_project.Strings.{Bytes}
use ece592_final_project.Net.{word_sum, ipcksum, dot2ip}
use ece592_final_project.Net.Checksum.{IsBytes, total, set_cksum, ipcksum_lem, ipcksum_sent}
use ece592_final_project.Net.Dotted.{dot2ip_lem}

-- Words 0xffff, and 0 in the field for the checksum
abbrev header : Bytes
header = update (update (λ a. 255) 10 0) 11 0

header-IsBytes : IsBytes header
header-IsBytes a = ground arith

ipcksum_lem_example :
    (ipcksum header 0 < 65536)
    × ((total 10 0 header + ipcksum header 0) % 65535
        ≡ (if ltb (total 10 0 header % 65536 + total 10 0 header / 65536) 65536 then 0 else 1))
ipcksum_lem_example = ipcksum_lem header 0 header-IsBytes

ipcksum_sent_example : ipcksum (set_cksum (ipcksum header 0) 0 header) 0 ≡ 0
ipcksum_sent_example = ipcksum_sent header 0 header-IsBytes refl refl

-- `10.2`
abbrev text : Bytes
text a =
    if a == 0 then 49 else if a == 1 then 48 else if a == 2 then 46 else if a == 3 then 50 else 0

dot2ip_lem_example : dot2ip 0 text ≡ some 2562
dot2ip_lem_example =
    dot2ip_lem ((1 ∷ 0 ∷ []) ∷ (2 ∷ []) ∷ []) 0 text
      (
        (refl, omega arith, (refl, omega arith, refl)),
        omega arith,
        omega arith,
        omega arith,
        ((refl, omega arith, refl), omega arith, omega arith, omega arith),
      )
      (omega arith)

-- The words sum to 7 in ones' complement, and the checksum is not the complement 65528 of that.
abbrev carried : Bytes
carried = update (update header 18 0) 19 7

folded_once : ipcksum carried 0 ≡ 65529
unfolding ipcksum word_sum
folded_once = refl
