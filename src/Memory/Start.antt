-- ===== src/Memory/Start.antt =====
-- What the initialisations of system/meminit.c leave for `freemem`: its bounds are overwritten.
use ece592_final_project.Base.{ℕ, ◌<◌, ◌≡◌, refl, arith, syserr}
use ece592_final_project.Memory.{Mem, ptmeminit, ffsmeminit, pt_start, freemem}
use ece592_final_project.Memory.Free.{IsFree, covers, within}

-- After `ptmeminit`, and after `ffsmeminit`, `freemem` rejects every block that starts below the
-- page tables and changes nothing, so the blocks of the heap are not given back.
pub freemem-ptmeminit_lem :
    (blk n : ℕ) (m : Mem)
    → blk < pt_start
    → (freemem blk n (ptmeminit m) ≡ (syserr, ptmeminit m))
      × (freemem blk n (ffsmeminit (ptmeminit m)) ≡ (syserr, ffsmeminit (ptmeminit m)))
unfolding freemem ptmeminit ffsmeminit
freemem-ptmeminit_lem blk n m low = (ground arith, ground arith)

-- The lists that `ptmeminit` and `ffsmeminit` make are well formed; the one covers the addresses
-- from the page tables to the FFS space, the other those from there to the swap space.
ptmeminit-ffsmeminit_lem :
    (m : Mem)
    → IsFree 0 (ptmeminit m).pdtlist.blocks
      × IsFree 0 (ffsmeminit m).ffslist.blocks
      × ((x : ℕ) → covers x (ptmeminit m).pdtlist.blocks ≡ within x 0x200_0000 0x40_0000)
      × ((x : ℕ) → covers x (ffsmeminit m).ffslist.blocks ≡ within x 0x240_0000 0x400_0000)
unfolding ptmeminit ffsmeminit
ptmeminit-ffsmeminit_lem m = (
  (omega arith, omega arith, refl, refl, omega arith, tt),
  (omega arith, omega arith, refl, refl, omega arith, tt),
  λ x. ground arith,
  λ x. ground arith,
)
