-- ===== src/Boot/Space.antt =====
-- The memory as `sysinit` leaves it: its lists, and the first page directory.
use ece592_final_project.Base.{
  ap, ◌-◌, ℕ, ◌+◌, ◌*◌, ◌≤◌, ◌<◌, ◌≡◌, refl, arith, modulus, syserr, some, none, [],
}
use ece592_final_project.Memory.{ptmeminit, Mem, pt_start, freemem}
use ece592_final_project.Boot.{
  nsem, init_sems, nproc, init_procs, loaded, Kernel, meminit, ffsmeminit, ptmeminit, sysinit,
  init_null, clkinit,
}
use ece592_final_project.Paging.Build.{HasPages}
use ece592_final_project.Paging.Space.{translate, initialize_page_tables_lem}

freemem_refuses :
    (blk n : ℕ) (m : Mem) → m.minheap ≡ pt_start → blk < pt_start → freemem blk n m ≡ (syserr, m)
unfolding freemem
freemem_refuses blk n m low below = ground arith

-- `sysinit` ends with cr3 at PT_START, where `create` lets its processes have their directory. Under it
-- the 228 MB from address 0 are translated to themselves and no other address is translated. The
-- list of page tables holds the rest of its 4 MB in one block, and `freemem` rejects every block below
-- PT_START, so that no stack of the heap is ever given back.
pub sysinit_space :
    (end : ℕ) (m : Mem)
    → let (k, m') = sysinit end m in
      (k.cr3 ≡ pt_start)
      × ((v : ℕ) → v < 57 * 0x40_0000 → translate m'.words k.cr3 v ≡ some v)
      × ((v : ℕ) → 57 * 0x40_0000 ≤ v → v < modulus → translate m'.words k.cr3 v ≡ none)
      × HasPages (pt_start + 4096 * 58) (0x40_0000 - 4096 * 58) [] m'
      × ((blk n : ℕ) → blk < pt_start → freemem blk n m' ≡ (syserr, m'))
unfolding sysinit init_null clkinit ptmeminit
sysinit_space end m =
    let m1 = ffsmeminit (meminit end m) in
    let k1 : Kernel = record loaded {
      prcount = 1;
      ndefers = 0;
      proctab = init_procs nproc 0 loaded.proctab;
    } in
    let (k2, m2) = init_null k1 m1 in
    let k3 = (init_sems nsem 0 nproc k2).1 in
    let (at, inside, beyond, out, left, same) =
      initialize_page_tables_lem k3 (ptmeminit m2) pt_start 0x40_0000 [] refl (omega arith)
        (omega arith) refl in
    (ap (λ k. k.cr3) at, inside, beyond, left, λ blk n low. freemem_refuses blk n _ same.2 low)
