-- ===== src/Paging/Space.antt =====
-- The address spaces that paging.c builds: what the hardware makes of a directory.
use ece592_final_project.Base.{
  ltb, Bool-cases, ℕ, ◌+◌, ◌-◌, ◌*◌, ◌/◌, ◌%◌, ◌≤◌, ◌<◌, ◌≡◌, refl, ◌⊎◌, inl, inr, arith, ◌==◌,
  if◌then◌else◌, Option, none, some, modulus, List,
}
use ece592_final_project.Memory.{Mem, Block}
use ece592_final_project.Kernel.{Kernel}
use ece592_final_project.Paging.{base, pres, initialize_page_tables, allocate_pdpt}
use ece592_final_project.Paging.Words.{page_of}
use ece592_final_project.Paging.Build.{Filled, HasPages, OnlyPages, table_of, build_tables-Filled}

-- The address that an x86 gives the virtual address `v` while cr3 holds the directory's address: `none`
-- where an entry is not present.
abbrev pub translate : (ℕ → ℕ) → (cr3 v : ℕ) → Option ℕ
translate words cr3 v =
    let pde = words (cr3 / 4096 * 4096 + 4 * (v / 0x40_0000)) in
    let pte = words (base pde * 4096 + 4 * (v / 4096 % 1024)) in
    if pres pde == 0
    then none
    else if pres pte == 0
    then none
    else some (base pte * 4096 + v % 4096)

pub Filled-translate :
    {i pd rest : ℕ} {bs : List Block} {m0 m : Mem}
    → Filled i pd rest bs m0 m
    → pd % 4096 ≡ 0
    → i ≤ 1024
    → (v : ℕ)
    → (v < i * 0x40_0000 → translate m.words pd v ≡ some v)
      × (i * 0x40_0000 ≤ v → v < modulus → translate m.words pd v ≡ none)
Filled-translate {i} {pd} {rest} {bs} {m0} {m} f aligned few v =
    let at : pd / 4096 * 4096 ≡ pd = omega arith in
    (
      λ lt.
          let t = v / 0x40_0000 in
          let j = v / 4096 % 1024 in
          let (entry, maps) = f.tables t (omega arith) in
          let page = maps j (omega arith) in
          let table : table_of pd t / 4096 * 4096 ≡ table_of pd t = omega arith in
          let back : page_of t j * 4096 + v % 4096 ≡ v = omega arith in
          rw (at, entry.0, entry.1, table, page.0, page.1, back) refl,
      λ from lt.
          let away = f.absent (v / 0x40_0000) (omega arith) (omega arith) in rw (at, away) refl,
    )

-- `initialize_page_tables`, called while the list of page tables starts with an aligned block of more
-- than 58 pages at `a`, loads cr3 with a directory under which the 57 * 4 MB from address 0 are
-- translated to themselves and no other address is translated. It takes the 58 pages from the block,
-- writes no word outside them, and changes no other list.
pub initialize_page_tables_lem :
    (k : Kernel) (m : Mem) (a n : ℕ) (bs : List Block)
    → HasPages a n bs m
    → 4096 * 58 < n
    → a + n ≤ modulus
    → a % 4096 ≡ 0
    → let (k', m') = initialize_page_tables k m in
      (k' ≡ record k { cr3 = a })
      × ((v : ℕ) → v < 57 * 0x40_0000 → translate m'.words k'.cr3 v ≡ some v)
      × ((v : ℕ) → 57 * 0x40_0000 ≤ v → v < modulus → translate m'.words k'.cr3 v ≡ none)
      × ((x : ℕ) → (x < a) ⊎ (a + 4096 * 58 ≤ x) → m'.words x ≡ m.words x)
      × HasPages (a + 4096 * 58) (n - 4096 * 58) bs m'
      × OnlyPages m m'
unfolding initialize_page_tables
initialize_page_tables_lem k m a n bs free more room aligned =
    let (at, f) =
      build_tables-Filled (λ i j. j) 57 a n bs m (λ t j lt lj. lj) (omega arith) more room aligned
        free in
    rw at (
      refl,
      λ v. (Filled-translate f aligned (omega arith) v).0,
      λ v. (Filled-translate f aligned (omega arith) v).1,
      f.outside,
      f.free,
      f.only,
    )

-- `allocate_pdpt`, called while the list of page tables starts with an aligned block of more than 9
-- pages at `a`, returns a directory at `a` under which the 32 MB from address 0 are translated to
-- themselves and no other address is translated. It takes the 9 pages from the block, writes no word
-- outside them, and changes no other list.
pub allocate_pdpt_lem :
    (m : Mem) (a n : ℕ) (bs : List Block)
    → HasPages a n bs m
    → 4096 * 9 < n
    → a + n ≤ modulus
    → a % 4096 ≡ 0
    → let (pd, m') = allocate_pdpt m in
      (pd ≡ a)
      × ((v : ℕ) → v < 8 * 0x40_0000 → translate m'.words pd v ≡ some v)
      × ((v : ℕ) → 8 * 0x40_0000 ≤ v → v < modulus → translate m'.words pd v ≡ none)
      × ((x : ℕ) → (x < a) ⊎ (a + 4096 * 9 ≤ x) → m'.words x ≡ m.words x)
      × HasPages (a + 4096 * 9) (n - 4096 * 9) bs m'
      × OnlyPages m m'
unfolding allocate_pdpt
allocate_pdpt_lem m a n bs free more room aligned =
    let (at, f) =
      build_tables-Filled (λ i j. i) 8 a n bs m (λ t j lt lj. lt) (omega arith) more room aligned
        free in
    rw at (
      refl,
      λ v. (Filled-translate f aligned (omega arith) v).0,
      λ v. (Filled-translate f aligned (omega arith) v).1,
      f.outside,
      f.free,
      f.only,
    )

-- The directory at `cr3` and its tables lie below `top`.
abbrev pub LiesBelow : (top cr3 : ℕ) → (ℕ → ℕ) → Type 0
LiesBelow top cr3 words =
    (cr3 % 4096 ≡ 0)
    × (cr3 + 4096 ≤ top)
    × ((t : ℕ)
        → t < 1024
        → pres (words (cr3 + 4 * t)) ≡ 1
        → base (words (cr3 + 4 * t)) * 4096 + 4096 ≤ top)

-- A directory is not affected by stores from `top` on.
pub LiesBelow-stores :
    (top cr3 : ℕ) (w w' : ℕ → ℕ)
    → ((x : ℕ) → x < top → w' x ≡ w x)
    → LiesBelow top cr3 w
    → LiesBelow top cr3 w' × ((v : ℕ) → v < modulus → translate w' cr3 v ≡ translate w cr3 v)
LiesBelow-stores top cr3 w w' same (aligned, low, tables) = (
  (
    aligned,
    low,
    λ t lt here. let e = same (cr3 + 4 * t) (omega arith) in ground (arith, e, tables t lt),
  ),
  λ v lt.
      let t = v / 0x40_0000 in
      let at : cr3 / 4096 * 4096 ≡ cr3 = omega arith in
      let e = same (cr3 + 4 * t) (omega arith) in
      let less : t < 1024 = omega arith in
      rw (at, e)
        (elim (Bool-cases (pres (w (cr3 + 4 * t)) == 0)) [
          | inl missing ↦ rw missing refl
          | inr here ↦
              let below = tables t less (ground arith) in
              rw (here, same (base (w (cr3 + 4 * t)) * 4096 + 4 * (v / 4096 % 1024)) (omega arith))
                refl
        ]),
)

pub allocate_pdpt-LiesBelow :
    (m : Mem) (a n : ℕ) (bs : List Block)
    → HasPages a n bs m
    → 4096 * 9 < n
    → a + n ≤ modulus
    → a % 4096 ≡ 0
    → LiesBelow (a + 4096 * 9) a (allocate_pdpt m).1.words
unfolding allocate_pdpt
allocate_pdpt-LiesBelow m a n bs free more room aligned =
    let (at, f) =
      build_tables-Filled (λ i j. i) 8 a n bs m (λ t j lt lj. lt) (omega arith) more room aligned
        free in
    (
      aligned,
      omega arith,
      λ t lt here. elim (Bool-cases (ltb t 8)) [
        | inl inside ↦
            let less : t < 8 = ground arith in let e = (f.tables t less).0.1 in rw e (omega arith)
        | inr beyond ↦ absurd (ground (arith, f.absent t (ground arith) lt))
      ],
    )
