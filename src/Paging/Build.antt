-- ===== src/Paging/Build.antt =====
-- Page directories that `build_tables` fills: where the pages come from, and what they map.
use ece592_final_project.Base.{
  ℕ, zero, suc, ◌+◌, ◌-◌, ◌*◌, ◌/◌, ◌%◌, ◌≤◌, ◌<◌, ◌≡◌, refl, ◌∙◌, ◌⊎◌, inl, inr, true, false,
  arith, ◌==◌, Bool-cases, modulus, List, ◌∷◌, ltb, add32, ap,
}
use ece592_final_project.Memory.{Mem, Block, block, getptmem, take_block, first_fit}
use ece592_final_project.Paging.{
  entry_at, change, set_base, set_pres, base, pres, fill_table, map_tables, build_tables,
  clear_directory,
}
use ece592_final_project.Paging.Words.{
  MapsTo, page_of, fill_table_lem, clear_directory_lem, OnlyWords, entry_at_lem,
}

-- The list of page tables starts with a block of `n` bytes at `a`.
abbrev pub HasPages : (a n : ℕ) → List Block → Mem → Type 0
HasPages a n bs m = m.pdtlist.blocks ≡ block a n ∷ bs

-- Only the list of page tables and words change.
abbrev pub OnlyPages : Mem → Mem → Type 0
OnlyPages m m' =
    (m'.memlist ≡ m.memlist)
    × (m'.ffslist ≡ m.ffslist)
    × (m'.minheap ≡ m.minheap)
    × (m'.maxheap ≡ m.maxheap)

OnlyPages-trans : (m m1 m2 : Mem) → OnlyPages m m1 → OnlyPages m1 m2 → OnlyPages m m2
OnlyPages-trans m m1 m2 (a, b, c, d) (e, f, g, h) = (e ∙ a, f ∙ b, g ∙ c, h ∙ d)

OnlyWords-pages : (m m' : Mem) → OnlyWords m m' → OnlyPages m m' × (m'.pdtlist ≡ m.pdtlist)
OnlyWords-pages m m' e = (
  (ap (λ x. x.memlist) e, ap (λ x. x.ffslist) e, ap (λ x. x.minheap) e, ap (λ x. x.maxheap) e),
  ap (λ x. x.pdtlist) e,
)

pub getptmem_page :
    (m : Mem) (a n : ℕ) (bs : List Block)
    → HasPages a n bs m
    → 4096 < n
    → a + n ≤ modulus
    → let (p, m') = getptmem 4096 m in
      (p ≡ a) × HasPages (a + 4096) (n - 4096) bs m' × OnlyPages m m' × (m'.words ≡ m.words)
unfolding getptmem take_block first_fit
getptmem_page m a n bs e more room =
    let differ : (n == 4096) ≡ false = ground arith in
    let less : ltb 4096 n ≡ true = ground arith in
    let next : add32 a 4096 ≡ a + 4096 = omega arith in
    rw (e, differ, less, next) (refl, refl, (refl, refl, refl, refl), refl)

-- Table `t` of a directory follows it by `t` pages.
abbrev pub table_of : (pd t : ℕ) → ℕ
table_of pd t = pd + 4096 * (t + 1)

-- Entry `t` of the directory is present and leads to its table, whose entries map the 1024 pages from
-- `1024 * t` on to themselves.
abbrev pub IsTable : (pd t : ℕ) → Mem → Type 0
IsTable pd t m =
    MapsTo pd t (table_of pd t / 4096) m
    × ((j : ℕ) → j < 1024 → MapsTo (table_of pd t) j (page_of t j) m)

-- What a memory says of a directory of which the first `i` tables are filled
pub record Filled (i pd rest : ℕ) (bs : List Block) (m0 m : Mem) : Type 0 where
  pub free : HasPages (table_of pd i) rest bs m
  pub only : OnlyPages m0 m
  pub outside : (x : ℕ) → (x < pd) ⊎ (table_of pd i ≤ x) → m.words x ≡ m0.words x
  pub tables : (t : ℕ) → t < i → IsTable pd t m
  pub absent : (t : ℕ) → i ≤ t → t < 1024 → pres (m.words (pd + 4 * t)) ≡ 0

entry_fields :
    (w v : ℕ)
    → v < 0x10_0000
    → (pres (set_base v (set_pres 1 w)) ≡ 1) × (base (set_base v (set_pres 1 w)) ≡ v)
entry_fields w v lt = (omega arith, omega arith)

-- One round of `map_tables`
module _ {i pd rest : ℕ} {bs : List Block} {m0 m : Mem} (mark : ℕ → ℕ → ℕ)
    (marks : (t j : ℕ) → t < 1024 → j < 1024 → mark t j < 1024) (aligned : pd % 4096 ≡ 0)
    (li : i < 1024) (more : 4096 < rest) (room : table_of pd i + rest ≤ modulus)
    (f : Filled i pd rest bs m0 m) where
  abbrev pt : ℕ
  pt = table_of pd i

  abbrev m1 : Mem
  m1 = (getptmem 4096 m).1

  abbrev m2 : Mem
  m2 = change (λ w. set_base (pt / 4096) (set_pres 1 w)) (pd + 4 * i) m1

  abbrev m3 : Mem
  m3 = fill_table (mark i) 1024 0 i pt m2

  -- The words behind the round are those before it, but for entry `i` and its table.
  kept : (x : ℕ) → (x < pt) ⊎ (pt + 4096 ≤ x) → (x == (pd + 4 * i)) ≡ false → m3.words x ≡ m.words x
  kept x away ne =
      let page = getptmem_page m pt rest bs f.free more room in
      let fill =
        fill_table_lem (mark i) 1024 0 i pt m2 (λ j lj. marks i j li lj) (omega arith) li
          (omega arith) in
      fill.1 x away ∙ ground (arith, page.3)

  entry : MapsTo pd i (pt / 4096) m3
  entry =
      let fill =
        fill_table_lem (mark i) 1024 0 i pt m2 (λ j lj. marks i j li lj) (omega arith) li
          (omega arith) in
      let low : pd + 4 * i < pt = omega arith in
      let small : pt < modulus = omega arith in
      let same = fill.1 (pd + 4 * i) (inl low) in
      ground (arith, entry_fields (m1.words (pd + 4 * i)) (pt / 4096) (omega arith))

  next_Filled : Filled (i + 1) pd (rest - 4096) bs m0 m3
  next_Filled =
      let (at, free, only, words) = getptmem_page m pt rest bs f.free more room in
      let (ow, out, maps) =
        fill_table_lem (mark i) 1024 0 i pt m2 (λ j lj. marks i j li lj) (omega arith) li
          (omega arith) in
      let (op, same) = OnlyWords-pages m2 m3 ow in
      record {
        free = ap (λ l. l.blocks) same ∙ free ∙ ap (λ x. block x (rest - 4096) ∷ bs) (omega arith);
        only = OnlyPages-trans m0 m m3 f.only (OnlyPages-trans m m1 m3 only op);
        outside = λ x away. kept x (ground arith) (ground arith) ∙ f.outside x (ground arith);
        tables = λ t lt. elim (Bool-cases (t == i)) [
          | inl same ↦
              let at : t ≡ i = ground arith in
              rw at (entry, λ j lj. maps j lj (λ l. absurd (omega arith)))
          | inr diff ↦
              let before : t < i = ground arith in
              let (e, g) = f.tables t before in
              (
                rw (kept (pd + 4 * t) (inl (omega arith)) (ground arith)) e,
                λ j lj.
                    rw (kept (table_of pd t + 4 * j) (inl (omega arith)) (ground arith)) (g j lj),
              )
        ];
        absent = λ t from lt.
            rw (kept (pd + 4 * t) (inl (omega arith)) (ground arith)) (f.absent t (omega arith) lt);
      }

map_more :
    (mark : ℕ → ℕ → ℕ) (rounds i pd rest : ℕ) (bs : List Block) (m : Mem)
    → i < 1024
    → 4096 < rest
    → table_of pd i + rest ≤ modulus
    → HasPages (table_of pd i) rest bs m
    → map_tables mark (suc rounds) i pd m
      ≡ map_tables mark rounds (i + 1) pd (
          fill_table (mark i) 1024 0 i (table_of pd i) (
            change
              (λ w. set_base (table_of pd i / 4096) (set_pres 1 w))
              (pd + 4 * i)
              (getptmem 4096 m).1))
unfolding map_tables
map_more mark rounds i pd rest bs m li more room free =
    let page = getptmem_page m (table_of pd i) rest bs free more room in
    let at : entry_at pd i ≡ pd + 4 * i = entry_at_lem pd i li (omega arith) in rw (page.0, at) refl

map_tables-Filled :
    (mark : ℕ → ℕ → ℕ) (rounds i pd rest : ℕ) (bs : List Block) (m0 m : Mem)
    → ((t j : ℕ) → t < 1024 → j < 1024 → mark t j < 1024)
    → i + rounds ≤ 1024
    → 4096 * rounds < rest
    → table_of pd i + rest ≤ modulus
    → pd % 4096 ≡ 0
    → Filled i pd rest bs m0 m
    → Filled (i + rounds) pd (rest - 4096 * rounds) bs m0 (map_tables mark rounds i pd m)
unfolding map_tables
map_tables-Filled mark zero i pd rest bs m0 m marks few more room aligned f =
    let sum : i + 0 ≡ i = omega arith in
    let left : rest - 4096 * 0 ≡ rest = omega arith in rw (sum, left) f
map_tables-Filled mark (suc rounds) i pd rest bs m0 m marks few more room aligned f =
    let li : i < 1024 = omega arith in
    let page : 4096 < rest = omega arith in
    let f' = next_Filled mark marks aligned li page room f in
    let done =
      map_tables-Filled mark rounds (i + 1) pd (rest - 4096) bs m0 _ marks (omega arith)
        (omega arith) (omega arith) aligned f' in
    let sum : i + suc rounds ≡ i + 1 + rounds = omega arith in
    let left : rest - 4096 * suc rounds ≡ rest - 4096 - 4096 * rounds = omega arith in
    rw (map_more mark rounds i pd rest bs m li page room f.free, sum, left) done

-- With enough pages in one block, `build_tables` makes a directory at the start of that block.
pub build_tables-Filled :
    (mark : ℕ → ℕ → ℕ) (npdes a n : ℕ) (bs : List Block) (m : Mem)
    → ((t j : ℕ) → t < 1024 → j < 1024 → mark t j < 1024)
    → npdes ≤ 1024
    → 4096 * (npdes + 1) < n
    → a + n ≤ modulus
    → a % 4096 ≡ 0
    → HasPages a n bs m
    → let (pd, m') = build_tables mark npdes m in
      (pd ≡ a) × Filled npdes a (n - 4096 * (npdes + 1)) bs m m'
unfolding build_tables
build_tables-Filled mark npdes a n bs m marks few more room aligned free =
    let m1 = (getptmem 4096 m).1 in
    let (at, free1, only, words) = getptmem_page m a n bs free (omega arith) room in
    let m2 = clear_directory 1024 0 a m1 in
    let (ow, out, clear) = clear_directory_lem 1024 0 a m1 (omega arith) (omega arith) in
    let (op, same) = OnlyWords-pages m1 m2 ow in
    let f : Filled 0 a (n - 4096) bs m m2 = record {
      free = ap (λ l. l.blocks) same ∙ free1;
      only = OnlyPages-trans m m1 m2 only op;
      outside = λ x away. out x (ground arith) ∙ ap (λ g. g x) words;
      tables = λ t lt. absurd (omega arith);
      absent = λ t from lt. clear t (omega arith) (λ l. absurd (omega arith));
    } in
    let done =
      map_tables-Filled mark npdes 0 a (n - 4096) bs m m2 marks (omega arith) (omega arith)
        (omega arith) aligned f in
    let sum : 0 + npdes ≡ npdes = omega arith in
    let left : n - 4096 * (npdes + 1) ≡ n - 4096 - 4096 * npdes = omega arith in
    rw (at, left) (refl, rw sum at done)
