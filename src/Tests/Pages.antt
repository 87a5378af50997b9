-- ===== src/Tests/Pages.antt =====
-- The laws of page tables and page faults at a concrete memory.
use ece592_final_project.Base.{
  roundmb, add32, ℕ, ◌+◌, ◌-◌, ◌*◌, ◌/◌, ◌≤◌, ◌<◌, ◌≡◌, ◌≢◌, refl, ◌⊎◌, true, arith, syserr,
  modulus, [], ◌∷◌, some, none, update,
}
use ece592_final_project.Process.{PrType, nproc, is_free}
use ece592_final_project.Kernel.{Kernel}
use ece592_final_project.Memory.{Mem, block, pt_start, freemem}
use ece592_final_project.Paging.{vmalloc, free_virtual_mem, pres, base, valid}
use ece592_final_project.Paging.Words.{SameOutside, OnlyWords}
use ece592_final_project.Paging.Build.{HasPages}
use ece592_final_project.Paging.Space.{translate, LiesBelow}
use ece592_final_project.Paging.Release.{vmalloc_lem, free_virtual_mem_frames}
use ece592_final_project.Lifetime.{vcreate, kill_notify}
use ece592_final_project.Lifetime.Space.{vcreate_lem}
use ece592_final_project.Boot.{sysinit}
use ece592_final_project.Boot.Space.{sysinit_space}
use ece592_final_project.Fault.{Handled, load, table_entry, pagefault_handler}
use ece592_final_project.Fault.Outcome.{pagefault_handler_lem}
use ece592_final_project.Tests.State.{kernel}
use ece592_final_project.Tests.Heap.{heap}

-- A memory in which 64 KB of the heap and the pages from PT_START on are free
abbrev paged : Mem
paged = record heap {
  memlist = record { head = 0; mlength = 0x1_0000; blocks = block 0x2_0000 0x1_0000 ∷ [] };
  pdtlist = record { head = 0; mlength = 0; blocks = block 0x200_0000 0x40_0000 ∷ [] };
}

vcreate_lem_example :
    let (pid, k', m') = vcreate 1024 20 kernel paged in
    (pid ≡ syserr)
      × (k'.proctab ≡ kernel.proctab)
      × HasPages 0x200_0000 0x40_0000 [] m'
      × (m'.words ≡ paged.words)
    ⊎ (pid < nproc)
      × (is_free (kernel.proctab pid).state ≡ true)
      × ((q : ℕ) → q ≢ pid → k'.proctab q ≡ kernel.proctab q)
      × ((k'.proctab pid).pdbr ≡ 0x200_0000)
      × ((v : ℕ) → v < 8 * 0x40_0000 → translate m'.words 0x200_0000 v ≡ some v)
      × ((v : ℕ) → 8 * 0x40_0000 ≤ v → v < modulus → translate m'.words 0x200_0000 v ≡ none)
      × LiesBelow (0x200_0000 + 4096 * 9) 0x200_0000 m'.words
      × HasPages (0x200_0000 + 4096 * 9) (0x40_0000 - 4096 * 9) [] m'
      × ((cr3 : ℕ)
          → LiesBelow 0x200_0000 cr3 paged.words
          → LiesBelow 0x200_0000 cr3 m'.words
            × ((v : ℕ) → v < modulus → translate m'.words cr3 v ≡ translate paged.words cr3 v))
vcreate_lem_example =
    vcreate_lem 1024 20 kernel paged 0x200_0000 0x40_0000 [] refl (omega arith) (omega arith) refl

sysinit_space_example :
    let (k, m') = sysinit 0x10_0000 paged in
    (k.cr3 ≡ pt_start)
    × ((v : ℕ) → v < 57 * 0x40_0000 → translate m'.words k.cr3 v ≡ some v)
    × ((v : ℕ) → 57 * 0x40_0000 ≤ v → v < modulus → translate m'.words k.cr3 v ≡ none)
    × HasPages (pt_start + 4096 * 58) (0x40_0000 - 4096 * 58) [] m'
    × ((blk n : ℕ) → blk < pt_start → freemem blk n m' ≡ (syserr, m'))
sysinit_space_example = sysinit_space 0x10_0000 paged

-- The running process has an empty directory behind the pages of the system.
abbrev user : Kernel
user = record kernel {
  proctab =
      update kernel.proctab 3
        (record (kernel.proctab 3) { ptype = PrType.user; pdbr = 0x204_0000 });
}

pagefault_handler_lem_example :
    let entry = load paged.words (table_entry 0x800_0000 user paged) in
    (valid entry ≡ 0)
      × (pagefault_handler 0x800_0000 user paged ≡ Handled.kills (kill_notify user.currpid user))
    ⊎ (valid entry ≡ 1)
      × ((k' : Kernel) × (m' : Mem) × (pagefault_handler 0x800_0000 user paged
            ≡ Handled.returns k' m')
          × (translate m'.words 0x204_0000 0x800_0000 ≡ none))
pagefault_handler_lem_example =
    pagefault_handler_lem 0x800_0000 user paged (omega arith) refl (omega arith) (omega arith) refl

free_virtual_mem_frames_example :
    let m' = free_virtual_mem 0x2040 paged in
    (m'.ffslist ≡ paged.ffslist) × (m'.memlist.blocks ≡ paged.memlist.blocks)
free_virtual_mem_frames_example = free_virtual_mem_frames 0x2040 paged

abbrev bytes : ℕ
bytes = 5000

vmalloc_lem_example :
    let p = user.proctab user.currpid in
    let (r, k', m') = vmalloc bytes user paged in
    (bytes ≡ 0) × (r ≡ some syserr) × (k' ≡ user) × (m' ≡ paged)
    ⊎ (bytes ≢ 0)
      × (r ≡ none)
      × ((k'.proctab user.currpid).pages_alloc ≡ add32 p.pages_alloc (roundmb bytes / 4096))
      × ((t : ℕ)
          → t < 1024
          → (pres (m'.words (p.pdbr + 4 * t)) ≡ 1)
            × (base (m'.words (p.pdbr + 4 * t)) ≡ base (paged.words (p.pdbr + 4 * t))))
      × SameOutside p.pdbr paged m'
      × OnlyWords paged m'
vmalloc_lem_example = vmalloc_lem bytes user paged (omega arith)
