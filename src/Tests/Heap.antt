-- ===== src/Tests/Heap.antt =====
-- The laws of the free lists at a heap of two blocks.
use ece592_final_project.Base.{
  ℕ, ◌+◌, ◌<◌, ◌⊎◌, All, ◌≡◌, refl, [], ◌∷◌, arith, syserr, ok, add32, roundmb,
}
use ece592_final_project.Memory.{
  MemList, Mem, block, getmem, getstk, freemem, freeptmem, freeffsmem, count_bytes,
}
use ece592_final_project.Memory.Free.{IsFree}
use ece592_final_project.Memory.Alloc.{Allocated, Taken, getmem_lem, getstk_lem}
use ece592_final_project.Memory.Settle.{IsRange}
use ece592_final_project.Memory.Release.{Returned, freemem_lem, freeptmem-freeffsmem_lem}

abbrev pub two_blocks : MemList
two_blocks = record { head = 16; mlength = 96; blocks = block 1024 32 ∷ block 2048 64 ∷ [] }

abbrev pub heap : Mem
heap = record {
  memlist = two_blocks;
  pdtlist = two_blocks;
  ffslist = two_blocks;
  minheap = 1024;
  maxheap = 4096;
  words = λ a. 0;
}

pub two_blocks-IsFree : IsFree 1024 two_blocks.blocks
two_blocks-IsFree = ground arith

gap-IsRange : IsRange 1024 1056 (roundmb 60)
gap-IsRange = record {
  from = omega arith;
  pos = omega arith;
  size = omega arith;
  addr_aligned = refl;
  size_aligned = refl;
  below = omega arith;
}

getmem_lem_example :
    Allocated 1024 40 two_blocks (getmem 40 heap).0 (getmem 40 heap).1.memlist
    × ((getmem 40 heap).1.pdtlist ≡ two_blocks)
    × ((getmem 40 heap).1.ffslist ≡ two_blocks)
getmem_lem_example = getmem_lem 1024 40 heap two_blocks-IsFree (omega arith, omega arith)

getstk_lem_example :
    ((a : ℕ) × Taken 1024 (roundmb 40) two_blocks.blocks a (getstk 40 heap).1.memlist.blocks
      × ((getstk 40 heap).0 + 4 ≡ a + roundmb 40))
    ⊎ ((getstk 40 heap).0 ≡ syserr)
      × ((getstk 40 heap).1 ≡ heap)
      × All (λ b. b.len < roundmb 40) two_blocks.blocks
getstk_lem_example = getstk_lem 1024 40 heap two_blocks-IsFree (omega arith, omega arith)

freemem_lem_example :
    Returned 1024 1056 60 two_blocks (freemem 1056 60 heap).0 (freemem 1056 60 heap).1.memlist
    × ((freemem 1056 60 heap).1.pdtlist ≡ two_blocks)
    × ((freemem 1056 60 heap).1.ffslist ≡ two_blocks)
freemem_lem_example =
    freemem_lem 1024 1056 60 heap two_blocks-IsFree gap-IsRange (omega arith) (omega arith)
      (omega arith)

freeptmem-freeffsmem_lem_example :
    let (p, mp) = freeptmem 1056 60 heap in
    let (e, me) = freeffsmem 1056 60 heap in
    Returned 1024 1056 60 two_blocks p mp.pdtlist
    × (p ≡ ok → (mp.memlist ≡ count_bytes (roundmb 60) two_blocks) × (mp.pdtlist.mlength ≡ 96))
    × Returned 1024 1056 60 two_blocks e me.ffslist
    × (e ≡ ok → me.ffslist.mlength ≡ add32 96 (roundmb 60))
freeptmem-freeffsmem_lem_example =
    freeptmem-freeffsmem_lem 1024 1056 60 heap two_blocks-IsFree two_blocks-IsFree gap-IsRange
      (omega arith)
