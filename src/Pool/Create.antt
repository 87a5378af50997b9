-- ===== src/Pool/Create.antt =====
-- What `mkbufpool` asks for, and the pool that it adds.
use native.Mathlib.Nat.{suc-mul, mul-le-mul}
use ece592_final_project.Base.{
  Bool, ℕ, suc, ◌+◌, ◌*◌, ◌≤◌, ◌<◌, ◌≡◌, refl, subst, ◌⊎◌, inl, inr, true, false, List, arith, ◌==◌,
  ◌||◌, Bool-cases, update, has, modulus, add32, mul32, signed_lt, signed_le,
}
use ece592_final_project.Port.Nodes.{Chain, Chain-agree}
use ece592_final_project.Memory.{Block, Mem, getmem, freemem}
use ece592_final_project.Memory.Free.{covers, within}
use ece592_final_project.Memory.Alloc.{Taken}
use ece592_final_project.Pool.{Pools, link_buffers, round_buffer}
use ece592_final_project.Pool.Buffers.{IsPools}
use ece592_final_project.Pool.Make.{buffers, has-buffers, buffers-Distinct, link_buffers_lem}

-- The arguments that the first test of `mkbufpool` lets pass
abbrev pub IsRequest : (bufsiz numbufs nbpools : ℕ) → Type 0
IsRequest bufsiz numbufs nbpools =
    (8 ≤ bufsiz) × (bufsiz ≤ 8192) × (0 < numbufs) × (numbufs ≤ 2048) × (nbpools < 20)

abbrev pub refuses : (bufsiz numbufs nbpools : ℕ) → Bool
refuses bufsiz numbufs nbpools =
    signed_lt bufsiz 8
    || signed_lt 8192 bufsiz
    || signed_lt numbufs 1
    || signed_lt 2048 numbufs
    || signed_le 20 nbpools

pub refuses_lem :
    (bufsiz numbufs nbpools : ℕ)
    → bufsiz < modulus
    → numbufs < modulus
    → nbpools ≤ 20
    → refuses bufsiz numbufs nbpools ≡ false
    → IsRequest bufsiz numbufs nbpools
refuses_lem bufsiz numbufs nbpools lb ln lp h =
    (ground arith, ground arith, ground arith, ground arith, ground arith)

pub refuses-true :
    (bufsiz numbufs nbpools : ℕ)
    → refuses bufsiz numbufs nbpools ≡ true
    → ¬ IsRequest bufsiz numbufs nbpools
refuses-true bufsiz numbufs nbpools h ok = absurd (ground arith)

-- The buffers of all pools have left the heap's free list.
abbrev pub Outlying : Pools → (ℕ → List ℕ) → Mem → Type 0
Outlying p spare m =
    (i a : ℕ) → i < p.nbpools → has a (spare i) ≡ true → covers a m.memlist.blocks ≡ false

-- The bytes of `numbufs` buffers with their first words
pub total_lem :
    (bufsiz numbufs : ℕ)
    → bufsiz ≤ 8192
    → numbufs ≤ 2048
    → let step = add32 (round_buffer bufsiz) 4 in
      (bufsiz + 4 ≤ step)
      × (step < bufsiz + 8)
      × (numbufs * step ≤ 0x100_2000)
      × (mul32 numbufs step ≡ numbufs * step)
total_lem bufsiz numbufs lb ln =
    let small : add32 (round_buffer bufsiz) 4 ≤ 8196 = omega arith in
    let prod = mul-le-mul ln small in
    (omega arith, omega arith, omega (arith, prod), omega (arith, prod))

pub words-freemem : (blk n : ℕ) (m : Mem) → (freemem blk n m).1.words ≡ m.words
unfolding freemem
words-freemem blk n m = ground arith

pub words-getmem : (n : ℕ) (m : Mem) → (getmem n m).1.words ≡ m.words
unfolding getmem
words-getmem n m = refl

-- The pool that is added, on the bytes that the heap has given
module _ {p : Pools} (m : Mem) {spare : ℕ → List ℕ} {lo n buf : ℕ} {bs : List Block}
    (v : IsPools p m.words spare) (far : Outlying p spare m)
    (t : Taken lo n m.memlist.blocks buf bs) (sem size step rounds : ℕ) (pos : 0 < lo)
    (some_bytes : 0 < step) (fits : suc rounds * step ≤ n) (few : p.nbpools < 20) where
  abbrev added : Pools
  added = record {
    buftab = update p.buftab p.nbpools (record { bpnext = buf; bpsem = sem; bpsize = size });
    nbpools = p.nbpools + 1;
  }

  abbrev linked : ℕ → ℕ
  linked = link_buffers rounds step buf m.words

  abbrev grown : ℕ → List ℕ
  grown = update spare p.nbpools (buffers buf step (suc rounds))

  span : (rounds * step + step ≤ n) × (buf + n < modulus)
  span = (omega (arith, fits, suc-mul rounds step), t.below)

  new_inside : (a : ℕ) → has a (buffers buf step (suc rounds)) ≡ true → within a buf n ≡ true
  new_inside a h = ground (arith, has-buffers a buf step (suc rounds) h)

  new_covered :
      (a : ℕ) → has a (buffers buf step (suc rounds)) ≡ true → covers a m.memlist.blocks ≡ true
  new_covered a h = t.was_free a (new_inside a h)

  old_outside :
      (i a : ℕ) → i < p.nbpools → has a (spare i) ≡ true → (a < buf) ⊎ (buf + rounds * step < a)
  old_outside i a lt h = elim (Bool-cases (within a buf n)) [
    | inl inside ↦ absurd (ground (arith, t.was_free a inside, far i a lt h))
    | inr outside ↦ ground (arith, span)
  ]

  new_list : Chain linked buf (buffers buf step (suc rounds))
  new_list =
      (link_buffers_lem rounds step buf m.words (omega (arith, t.above)) some_bytes
        (omega (arith, span))).0

  old_words : (a : ℕ) → (a < buf) ⊎ (buf + rounds * step < a) → linked a ≡ m.words a
  old_words =
      (link_buffers_lem rounds step buf m.words (omega (arith, t.above)) some_bytes
        (omega (arith, span))).1

  has-grown :
      (i a : ℕ)
      → i < p.nbpools + 1
      → has a (grown i) ≡ true
      → (i < p.nbpools) × (has a (spare i) ≡ true)
        ⊎ (i ≡ p.nbpools) × (has a (buffers buf step (suc rounds)) ≡ true)
  has-grown i a lt h = elim (Bool-cases (p.nbpools == i)) [
    | inl same ↦ inr (ground arith, rw same at h)
    | inr diff ↦ inl (ground arith, rw diff at h)
  ]

  added-IsPools : IsPools added linked grown
  added-IsPools = record {
    few = omega arith;
    lists = λ i lt. elim (Bool-cases (p.nbpools == i)) [
      | inl same ↦ rw same new_list
      | inr diff ↦
          let old : i < p.nbpools = ground arith in
          rw diff (
            Chain-agree m.words linked (p.buftab i).bpnext (spare i)
              (λ a h. old_words a (old_outside i a old h)) (v.lists i old))
    ];
    distinct = λ i lt. elim (Bool-cases (p.nbpools == i)) [
      | inl same ↦ rw same (buffers-Distinct buf step (suc rounds) some_bytes)
      | inr diff ↦ rw diff (v.distinct i (ground arith))
    ];
    apart = λ i j a li lj ne h. elim (Bool-cases (has a (grown j))) [
      | inr out ↦ out
      | inl here ↦ elim (has-grown i a li h) [
        | inl (old, hi) ↦ elim (has-grown j a lj here) [
          | inl (old', hj) ↦ absurd (ground (arith, v.apart i j a old old' ne hi))
          | inr (at, hj) ↦ absurd (ground (arith, new_covered a hj, far i a old hi))
        ]
        | inr (at, hi) ↦ elim (has-grown j a lj here) [
          | inl (old', hj) ↦ absurd (ground (arith, new_covered a hi, far j a old' hj))
          | inr (at', hj) ↦ absurd (ground arith)
        ]
      ]
    ];
  }

  added-Outlying : (m' : Mem) → m'.memlist.blocks ≡ bs → Outlying added grown m'
  added-Outlying m' e i a lt h = elim (has-grown i a lt h) [
    | inl (old, hi) ↦ rw e (ground (arith, t.left a, far i a old hi))
    | inr (at, hi) ↦ rw e (ground (arith, t.left a, new_inside a hi))
  ]

  pub added_lem :
      (count : ℕ)
      → suc rounds ≡ count
      → IsPools added linked (update spare p.nbpools (buffers buf step count))
        × ((m' : Mem)
            → m'.memlist.blocks ≡ bs
            → Outlying added (update spare p.nbpools (buffers buf step count)) m')
  added_lem count e =
      subst
        (λ c.
          IsPools added linked (update spare p.nbpools (buffers buf step c))
          × ((m' : Mem)
              → m'.memlist.blocks ≡ bs
              → Outlying added (update spare p.nbpools (buffers buf step c)) m'))
        e (added-IsPools, added-Outlying)
