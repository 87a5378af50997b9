-- ===== src/Fault/Running.antt =====
-- The invariant of the kernel behind `vmalloc` and the handler of page faults.
use ece592_final_project.Base.{ℕ, refl, inl, inr, arith, ◌==◌, ◌&&◌, Bool-cases, update}
use ece592_final_project.Kernel.{Kernel}
use ece592_final_project.Memory.{Mem}
use ece592_final_project.Paging.{vmalloc, pres, valid}
use ece592_final_project.Lifetime.End.{stopped_at, kill_notify-IsRunning}
use ece592_final_project.Sched.Invariant.{IsRunning}
use ece592_final_project.Sched.Block.{set_fields-IsKernel}
use ece592_final_project.Sched.Deferral.{IsKernel-counters}
use ece592_final_project.Fault.{load, Handled, directory_entry, table_entry, pagefault_handler}

-- The counts of pages in the entry of the current process, and cr3, play no part in the invariant.
pages-IsRunning :
    (n alloc used page : ℕ) (k : Kernel)
    → IsRunning n k
    → IsRunning n (record k {
      proctab =
          update k.proctab k.currpid
            (record (k.proctab k.currpid) { pages_alloc = alloc; pages_used = used });
      cr3 = page;
    })
pages-IsRunning n alloc used page k (view, v, same, on, unused) =
    let v1 =
      set_fields-IsKernel v k.currpid
        (record (k.proctab k.currpid) { pages_alloc = alloc; pages_used = used }) refl refl
        (v.sched.prios k.currpid) in
    (view, IsKernel-counters v1 _ refl, same, ground arith, unused)

-- `vmalloc` keeps the invariant of the kernel.
pub vmalloc-IsRunning :
    (n nbytes : ℕ) (k : Kernel) (m : Mem) → IsRunning n k → IsRunning n (vmalloc nbytes k m).1
unfolding vmalloc
vmalloc-IsRunning n nbytes k m run = elim (Bool-cases (nbytes == 0)) [
  | inl nothing ↦ rw nothing run
  | inr something ↦ rw something (pages-IsRunning n _ _ _ k run)
]

-- The kernel behind the handler, up to the notice of `kill`
abbrev pub handled_at : Handled → Kernel
handled_at (Handled.kills r) = stopped_at r
handled_at (Handled.returns k m) = k

-- The handler of page faults keeps the invariant of the kernel, also where it kills the process that
-- made the access.
pub pagefault_handler-IsRunning :
    (n cr2 : ℕ) (k : Kernel) (m : Mem)
    → IsRunning n k
    → IsRunning n (handled_at (pagefault_handler cr2 k m))
unfolding pagefault_handler
pagefault_handler-IsRunning n cr2 k m run =
    let entry = load m.words (table_entry cr2 k m) in
    elim (Bool-cases ((valid entry == 1) && (pres (directory_entry cr2 k m) == 0))) [
      | inl both ↦ rw both (pages-IsRunning n _ _ _ k run)
      | inr other ↦ elim (Bool-cases (valid entry == 0)) [
        | inl invalid ↦ rw (other, invalid) (kill_notify-IsRunning n k.currpid k run)
        | inr some_bit ↦ rw (other, some_bit) run
      ]
    ]
