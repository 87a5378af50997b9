-- ===== src/Paging.antt =====
-- Page directories and page tables: include/paging.h, system/paging.c, vmalloc.c and free_virtual_mem of
-- system/freemem.c. An entry is a word of memory, and its bit fields are groups of the word's digits.
pub mod Words
pub mod Build
pub mod Space
pub mod Release
use ece592_final_project.Base.{
  ℕ, zero, suc, ◌+◌, ◌*◌, ◌/◌, ◌%◌, Bool, true, false, ◌&&◌, Option, none, some, ◌==◌, ltb,
  if◌then◌else◌, update, add32, mul32, roundmb, modulus, syserr,
}
use ece592_final_project.Process.{Proc}
use ece592_final_project.Kernel.{Kernel}
use ece592_final_project.Memory.{Mem, getptmem, freeptmem, freeffsmem}

-- The bit field of a word from the digit `lo` up to the digit `hi`, both powers of 2, and its store.
abbrev pub field : (lo hi : ℕ) → ℕ → ℕ
field lo hi w = w % hi / lo

abbrev pub set_field : (lo hi v : ℕ) → ℕ → ℕ
set_field lo hi v w = w / hi * hi + v * lo + w % lo

-- pd_pres and pt_pres, pd_write and pt_write, pt_acc, pt_valid, pd_base and pt_base
abbrev pub pres : ℕ → ℕ
pres w = field 1 2 w

abbrev pub set_pres : ℕ → ℕ → ℕ
set_pres v w = set_field 1 2 v w

abbrev pub set_write : ℕ → ℕ → ℕ
set_write v w = set_field 2 4 v w

abbrev pub set_acc : ℕ → ℕ → ℕ
set_acc v w = set_field 32 64 v w

abbrev pub valid : ℕ → ℕ
valid w = field 512 1024 w

abbrev pub set_valid : ℕ → ℕ → ℕ
set_valid v w = set_field 512 1024 v w

abbrev pub base : ℕ → ℕ
base w = field 4096 0x1_0000_0000 w

abbrev pub set_base : ℕ → ℕ → ℕ
set_base v w = set_field 4096 0x1_0000_0000 (v % 0x10_0000) w

-- Entry `i` of the directory or table at an address.
abbrev pub entry_at : (table i : ℕ) → ℕ
entry_at table i = add32 table (4 * i)

abbrev pub change : (ℕ → ℕ) → ℕ → Mem → Mem
change f a m = record m { words = update m.words a (f (m.words a)) }

-- `pd[i].pd_pres = 0; pd[i].pd_write = 1` for the entries from `i` on
unfoldable pub clear_directory : (rounds i pd : ℕ) → Mem → Mem
clear_directory zero i pd m = m
clear_directory (suc rounds) i pd m =
    clear_directory rounds (i + 1) pd (change (λ w. set_write 1 (set_pres 0 w)) (entry_at pd i) m)

-- The inner loop: entry `j` of table `i` maps page `i * 1024 + j` to itself. The valid bit is set in
-- the entry `mark j`.
unfoldable pub fill_table : (ℕ → ℕ) → (rounds j i pt : ℕ) → Mem → Mem
fill_table mark zero j i pt m = m
fill_table mark (suc rounds) j i pt m =
    let m1 = change (λ w. set_acc 0 (set_write 1 (set_pres 1 w))) (entry_at pt j) m in
    let m2 = change (set_valid 1) (entry_at pt (mark j)) m1 in
    let m3 = change (set_base (mul32 (i * 1024 + j) 4096 / 4096)) (entry_at pt j) m2 in
    fill_table mark rounds (j + 1) i pt m3

-- The outer loop, over the directory's entries from `i` on.
unfoldable pub map_tables : (ℕ → ℕ → ℕ) → (rounds i pd : ℕ) → Mem → Mem
map_tables mark zero i pd m = m
map_tables mark (suc rounds) i pd m =
    let (pt, m1) = getptmem 4096 m in
    let m2 = change (λ w. set_base (pt / 4096) (set_pres 1 w)) (entry_at pd i) m1 in
    map_tables mark rounds (i + 1) pd (fill_table (mark i) 1024 0 i pt m2)

-- What the two functions of paging.c share: a new directory with `npdes` tables.
unfoldable pub build_tables : (ℕ → ℕ → ℕ) → ℕ → Mem → ℕ × Mem
build_tables mark npdes m =
    let (pd, m1) = getptmem 4096 m in
    (pd, map_tables mark npdes 0 pd (clear_directory 1024 0 pd m1))

abbrev pub total_pages : ℕ
total_pages = 58386

abbrev pub xinu_pages : ℕ
xinu_pages = 8192

unfoldable pub initialize_page_tables : Kernel → Mem → Kernel × Mem
initialize_page_tables k m =
    let (pd, m') = build_tables (λ i j. j) (total_pages / 1024) m in (record k { cr3 = pd }, m')

-- It sets the valid bit of `pt[i]`, not of `pt[j]`.
unfoldable pub allocate_pdpt : Mem → ℕ × Mem
allocate_pdpt m = build_tables (λ i j. i) (xinu_pages / 1024) m

-- The loop of `vmalloc`
unfoldable pub open_tables : (rounds i pd : ℕ) → Mem → Mem
open_tables zero i pd m = m
open_tables (suc rounds) i pd m = open_tables rounds (i + 1) pd (
    if pres (m.words (entry_at pd i)) == 0
    then change (λ w. set_write 1 (set_pres 1 w)) (entry_at pd i) m
    else m)

-- `none` where it ends without a `return`.
unfoldable pub vmalloc : ℕ → Kernel → Mem → Option ℕ × Kernel × Mem
vmalloc nbytes k m =
    let p = k.proctab k.currpid in
    if nbytes == 0 then (some syserr, k, m) else (
      none,
      record k {
        proctab =
            update k.proctab k.currpid
              (record p { pages_alloc = add32 p.pages_alloc (roundmb nbytes / 4096) });
        cr3 = p.pdbr;
      },
      open_tables 1024 0 p.pdbr m,
    )

-- The inner loop of `free_virtual_mem`, which clears pt_pres before it tests it.
unfoldable pub release_table : (rounds j i pt : ℕ) → Mem → Mem
release_table zero j i pt m = m
release_table (suc rounds) j i pt m =
    let a = entry_at pt j in
    let m1 = change (set_pres 0) a m in
    let m2 =
      if ltb 8 i && (pres (m1.words a) == 1)
      then (freeffsmem (mul32 (base (m1.words a)) 4096) 4096 m1).1
      else m1 in
    release_table rounds (j + 1) i pt (change (set_valid 0) a m2)

unfoldable pub release_tables : (rounds i pd : ℕ) → Mem → Mem
release_tables zero i pd m = m
release_tables (suc rounds) i pd m =
    let w = m.words (entry_at pd i) in
    let pt = mul32 (base w) 4096 in
    release_tables rounds (i + 1) pd
      (if pres w == 1 then (freeptmem pt 4096 (release_table 1024 0 i pt m)).1 else m)

unfoldable pub free_virtual_mem : ℕ → Mem → Mem
free_virtual_mem pdbr m =
    let pd = mul32 pdbr 4096 in (freeptmem pd 4096 (release_tables 1024 0 pd m)).1
