-- ===== src/Net/Dotted.antt =====
-- `dot2ip` reads back what dotted decimal says.
use ece592_final_project.Base.{
  ℕ, zero, suc, ◌+◌, ◌-◌, ◌*◌, ◌%◌, ◌≤◌, ◌<◌, ◌≡◌, refl, true, false, arith, ◌==◌, ◌||◌, leb, ltb,
  some, List, [], ◌∷◌, length, modulus,
}
use ece592_final_project.Strings.{Bytes}
use ece592_final_project.Strings.Number.{decimal}
use ece592_final_project.Net.{read_segment, read_segments, dot2ip}

-- At `p` stand the digits `ds` in ASCII, and behind them the character `stop`.
abbrev pub Segment : Bytes → ℕ → List ℕ → ℕ → Type 0
Segment mem p [] stop = mem p ≡ stop
Segment mem p (d ∷ ds) stop = (mem p ≡ 48 + d) × (d < 10) × Segment mem (p + 1) ds stop

read_segment_lem :
    (ds : List ℕ) (rounds nch p val ch stop : ℕ) (mem : Bytes)
    → Segment mem p ds stop
    → ((stop == 0) || (stop == 46)) ≡ true
    → nch + length ds ≤ 3
    → 0 < nch + length ds
    → length ds < rounds
    → read_segment rounds nch p val ch mem ≡ some (decimal val ds, stop, p + length ds + 1)
unfolding read_segment
read_segment_lem ds zero nch p val ch stop mem at ends few many enough = absurd (omega arith)
read_segment_lem [] (suc rounds) nch p val ch stop mem at ends few many enough =
    let nonzero : (nch == 0) ≡ false = ground arith in
    let here : p + 0 + 1 ≡ p + 1 = omega arith in
    rw (read_segment, at, ends, nonzero, here, at) refl
read_segment_lem (d ∷ ds) (suc rounds) nch p val ch stop mem (at, digit, rest) ends few many
      enough =
    let inner : ((48 + d == 0) || (48 + d == 46)) ≡ false = ground arith in
    let good : (leb 3 nch || ltb (48 + d) 48 || ltb 57 (48 + d)) ≡ false = ground arith in
    let ih =
      read_segment_lem ds rounds (nch + 1) (p + 1) (val * 10 + d) (48 + d) stop mem rest ends
        (omega arith) (omega arith) (omega arith) in
    let value : 10 * val + (48 + d - 48) ≡ val * 10 + d = omega arith in
    let behind : p + suc (length ds) + 1 ≡ p + 1 + length ds + 1 = omega arith in
    rw (read_segment, at, inner, at, good, at, value, behind) ih

-- At `p` stand these segments in dotted decimal, and a NUL: each has one to three digits and is at most
-- 255.
abbrev pub Dotted : Bytes → ℕ → List (List ℕ) → Type 0
Dotted mem p [] = ⊥
Dotted mem p (ds ∷ []) =
    Segment mem p ds 0 × (0 < length ds) × (length ds ≤ 3) × (decimal 0 ds ≤ 255)
Dotted mem p (ds ∷ es ∷ rest) =
    Segment mem p ds 46
    × (0 < length ds)
    × (length ds ≤ 3)
    × (decimal 0 ds ≤ 255)
    × Dotted mem (p + length ds + 1) (es ∷ rest)

-- The bytes that the segments denote, behind those of `ip`.
abbrev pub address : ℕ → List (List ℕ) → ℕ
address ip [] = ip
address ip (ds ∷ rest) = address (ip * 256 % modulus + decimal 0 ds) rest

read_segments_lem :
    (segments : List (List ℕ)) (rounds p ip : ℕ) (mem : Bytes)
    → Dotted mem p segments
    → length segments ≤ rounds
    → read_segments rounds p ip mem ≡ some (address ip segments)
unfolding read_segments
read_segments_lem [] rounds p ip mem at few = absurd at
read_segments_lem (ds ∷ rest) zero p ip mem at few = absurd (omega arith)
read_segments_lem (ds ∷ []) (suc rounds) p ip mem (at, some_digits, short, small) few =
    let read =
      read_segment_lem ds 4 0 p 0 0 0 mem at refl (omega arith) (omega arith) (omega arith) in
    let fits : ltb 255 (decimal 0 ds) ≡ false = ground arith in rw (read_segments, read, fits) refl
read_segments_lem (ds ∷ es ∷ rest) (suc rounds) p ip mem (at, some_digits, short, small, next) few =
    let read =
      read_segment_lem ds 4 0 p 0 0 46 mem at refl (omega arith) (omega arith) (omega arith) in
    let fits : ltb 255 (decimal 0 ds) ≡ false = ground arith in
    rw (read_segments, read, fits)
      (read_segments_lem (es ∷ rest) rounds (p + length ds + 1) (ip * 256 % modulus + decimal 0 ds)
        mem next (omega arith))

-- `dot2ip` reads a string of one to four segments, each of one to three digits and at most 255, with dots
-- between them, as the number that has the values of the segments as its bytes, the last one lowest.
pub dot2ip_lem :
    (segments : List (List ℕ)) (p : ℕ) (mem : Bytes)
    → Dotted mem p segments
    → length segments ≤ 4
    → dot2ip p mem ≡ some (address 0 segments)
unfolding dot2ip
dot2ip_lem segments p mem at few = read_segments_lem segments 4 p 0 mem at few
