-- ===== src/Pool/Outcome.antt =====
-- `mkbufpool`: a pool or a failure.
use ece592_final_project.Base.{ℕ, ◌*◌, ◌<◌, ◌≡◌, ◌⊎◌, All, syserr, add32, roundmb}
use ece592_final_project.Kernel.{Kernel}
use ece592_final_project.Memory.{Mem}
use ece592_final_project.Semaphore.{semcreate}
use ece592_final_project.Pool.{Pools, round_buffer}
use ece592_final_project.Pool.Create.{IsRequest}

-- Why `mkbufpool` fails
abbrev pub MakeFails : (bufsiz numbufs : ℕ) → Pools → Kernel → Mem → Type 0
MakeFails bufsiz numbufs p k m =
    ¬ IsRequest bufsiz numbufs p.nbpools
    ⊎ All (λ b. b.len < roundmb (numbufs * add32 (round_buffer bufsiz) 4)) m.memlist.blocks
    ⊎ ((semcreate numbufs k).0 ≡ syserr)
