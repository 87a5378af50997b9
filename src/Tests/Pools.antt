-- ===== src/Tests/Pools.antt =====
-- The laws of buffer pools at a pool of two free buffers.
use ece592_final_project.Base.{ℕ, ◌≡◌, refl, false, arith, ◌==◌, update, ok, List, [], ◌∷◌}
use ece592_final_project.Memory.{Mem, block}
use ece592_final_project.Semaphore.{signal}
use ece592_final_project.Pool.{Pools, getbuf_end, freebuf}
use ece592_final_project.Pool.Buffers.{IsPools, getbuf_refines, freebuf_refines}
use ece592_final_project.Tests.State.{kernel}
use ece592_final_project.Tests.Heap.{heap}

abbrev pools : Pools
pools = record { buftab = λ i. record { bpnext = 1000; bpsem = 4; bpsize = 8 }; nbpools = 1 }

abbrev memory : Mem
memory = record heap {
  memlist = record { head = 0; mlength = 4096; blocks = block 8192 4096 ∷ [] };
  words = update (λ a. 0) 1000 1012;
}

abbrev free_buffers : ℕ → List ℕ
free_buffers = update (λ i. []) 0 (1000 ∷ 1012 ∷ [])

pools-IsPools : IsPools pools memory.words free_buffers
pools-IsPools = record {
  few = omega arith;
  lists = λ i lt. let at : i ≡ 0 = omega arith in rw at (refl, refl, (refl, refl, refl));
  distinct = λ i lt. let at : i ≡ 0 = omega arith in rw at (refl, (refl, tt));
  apart = λ i j a li lj ne h. absurd (ground arith);
}

getbuf_refines_example :
    let (addr, p', m') = getbuf_end 0 pools memory in
    (addr ≡ 1004)
    × (m'.words 1000 ≡ 0)
    × (p'.nbpools ≡ 1)
    × IsPools p' m'.words (update free_buffers 0 (1012 ∷ []))
    × ((a : ℕ) → (a == 1000) ≡ false → m'.words a ≡ memory.words a)
getbuf_refines_example = getbuf_refines memory pools-IsPools 0 (omega arith) 1000 (1012 ∷ []) refl

freebuf_refines_example :
    let (r, p', k', m') = freebuf 1028 pools kernel memory in
    (r ≡ ok)
    × (k' ≡ (signal 4 kernel).1)
    × (p'.nbpools ≡ 1)
    × IsPools p' m'.words (update free_buffers 0 (1024 ∷ 1000 ∷ 1012 ∷ []))
    × ((a : ℕ) → (a == 1024) ≡ false → m'.words a ≡ memory.words a)
freebuf_refines_example =
    freebuf_refines memory pools-IsPools 0 (omega arith) 1024 kernel refl refl (omega arith)
      (λ i lt. let at : i ≡ 0 = omega arith in rw at refl)
