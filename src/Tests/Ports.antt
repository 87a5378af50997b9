-- ===== src/Tests/Ports.antt =====
-- The laws of ports at a small table: port 0 is open and holds the message 77 in the node at 1024, the
-- node at 1032 is free.
use ece592_final_project.Base.{
  ℕ, ◌<◌, ◌≡◌, ◌⊎◌, refl, false, ◌==◌, none, some, List, [], ◌∷◌, arith, update, All, ok,
}
use ece592_final_project.Port.Nodes.{IsPorts}
use ece592_final_project.Port.Fifo.{Stores, ptsend_refines, ptrecv_refines}
use ece592_final_project.Kernel.{Kernel}
use ece592_final_project.Tests.State.{kernel}
use ece592_final_project.Port.{
  ptreset, is_alloc, nports, ptsend_end, PtEntry, Ports, ptinit, ptrecv_end, PtState,
}
use ece592_final_project.Tests.Heap.{two_blocks-IsFree, two_blocks, heap}
use ece592_final_project.Semaphore.{semreset, signal}
use ece592_final_project.Memory.{getmem}
use ece592_final_project.Port.Start.{ptinit_lem}
use ece592_final_project.Port.Clear.{ptreset_refines}

abbrev entry : PtState → PtEntry
entry s = record {
  ssem = 10;
  rsem = 11;
  ptstate = s;
  maxcnt = 2;
  seq = 1;
  pthead = 1024;
  pttail = 1024;
}

abbrev ports : Ports
ports = record {
  porttab = update (λ i. entry PtState.pt_free) 0 (entry PtState.pt_alloc);
  ptmsg = λ a. 77;
  ptnext = λ a. 0;
  ptfree = 1032;
  ptnextid = 1;
}

abbrev held : ℕ → List ℕ
held = update (λ i. []) 0 (1024 ∷ [])

abbrev queues : ℕ → List ℕ
queues = update (λ i. []) 0 (77 ∷ [])

ports-IsPorts : IsPorts ports (1032 ∷ []) held
ports-IsPorts = record {
  spare_list = (refl, refl, refl);
  lists = λ i lt o. ground arith;
  tails = λ i lt o. ground arith;
  spare_distinct = ground arith;
  distinct = λ i. ground arith;
  spare_apart = λ i a h. ground arith;
  apart = λ i j a ne h. ground arith;
}

ports-Stores : Stores ports 1 queues
ports-Stores = ((1032 ∷ []), held, ports-IsPorts, refl, λ i. ground arith)

ptsend_refines_example :
    (p' : Ports) × (ptsend_end 0 88 1 kernel ports ≡ some (ok, (signal 11 kernel).1, p'))
    × Stores p' 0 (update queues 0 (77 ∷ 88 ∷ []))
ptsend_refines_example = ptsend_refines ports kernel 0 queues 0 88 1 ports-Stores (omega arith) refl

ptrecv_refines_example :
    let (result, k', p') = ptrecv_end 0 1 kernel ports in
    (result ≡ 77) × (k' ≡ (signal 10 kernel).1) × Stores p' 2 (update queues 0 [])
ptrecv_refines_example =
    ptrecv_refines ports kernel 1 queues 0 77 1 [] ports-Stores (omega arith) refl refl

ptinit_lem_example :
    (ptinit 5 heap ports ≡ none) × All (λ b. b.len < 40) two_blocks.blocks
    ⊎ (p' : Ports) × (ptinit 5 heap ports ≡ some (p', (getmem 40 heap).1))
      × Stores p' 5 (λ i. [])
      × ((i : ℕ) → i < nports → is_alloc (p'.porttab i).ptstate ≡ false)
ptinit_lem_example =
    ptinit_lem 1024 5 heap ports two_blocks-IsFree (omega arith) (omega arith) (omega arith)

-- Disposing of a message signals the semaphore 4, which process 7 waits for, and nobody else uses the
-- ports.
abbrev signals : ℕ → Kernel → Ports → Kernel × Ports
signals m k p = ((signal 4 k).1, p)

abbrev nothing : Kernel → Ports → Kernel × Ports
nothing k p = (k, p)

ptreset_refines_example :
    let (result, k', p') = ptreset 0 signals nothing kernel ports in
    (result ≡ ok)
    × (k' ≡ (semreset 11 0 (semreset 10 2 (signal 4 kernel).1).1).1)
    × (p'.porttab 0 ≡ record (entry PtState.pt_alloc) { seq = 2; pthead = 0; pttail = 0 })
    × ((i : ℕ) → (0 == i) ≡ false → p'.porttab i ≡ ports.porttab i)
    × Stores p' 2 (update queues 0 [])
ptreset_refines_example =
    ptreset_refines ports kernel 1 queues 0 signals nothing ports-Stores refl (omega arith)
      (λ m k q shut. refl) (λ k q shut. refl)
