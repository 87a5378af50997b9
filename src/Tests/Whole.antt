-- ===== src/Tests/Whole.antt =====
-- The laws of the start of the system, of processes and of the whole kernel at concrete states.
use ece592_final_project.Base.{
  ◌≤◌, ◌∷◌, modulus, ◌+◌, ◌<◌, ◌≡◌, ◌⊎◌, refl, true, arith, add32, update, syserr, [],
}
use ece592_final_project.System.{Reach-count_bound, Reach-one_current, Reach-IsRunning, Step, Reach}
use ece592_final_project.Tests.State.{kernel}
use ece592_final_project.Tests.Heap.{heap}
use ece592_final_project.Sched.{switch_to_first, resched, make_ready, ready, resume, is_curr}
use ece592_final_project.Boot.{clkinit, init_sems, init_procs, init_null, sysinit}
use ece592_final_project.Sched.Invariant.{IsRunning}
use ece592_final_project.Lifetime.{
  spawn, stack_size, new_entry, newpid_scan, newpid, create, Outside,
}
use ece592_final_project.Kernel.{Kernel}
use ece592_final_project.Semaphore.{block_on, newsem_scan, wait, newsem, semcreate}
use ece592_final_project.Queue.{newqueue, getitem, getfirst, dequeue, insert_scan, insert}
use ece592_final_project.Memory.{pt_start, block, Mem, last_fit, getstk}
use ece592_final_project.Process.{PrType, is_free, nproc}
use ece592_final_project.Lifetime.Spawn.{SpawnFails, create_lem}
use ece592_final_project.Paging.{initialize_page_tables}

-- The console's close function does nothing.
abbrev outside : Outside
outside = record { close = λ d k. k }

abbrev big_heap : Mem
big_heap = record heap {
  memlist = record { head = 0; mlength = 0x1_0000; blocks = block 0x2_0000 0x1_0000 ∷ [] };
}

-- The null process creates process 1, and resumes it.
abbrev created : Kernel
created = (create 1024 20 (sysinit 0x10_0000 big_heap).0 big_heap).1

abbrev resumed : Kernel
resumed = (resume 1 created).1

resumed-Reach : Reach outside (sysinit 0x10_0000 big_heap).0 resumed
resumed-Reach =
    Reach.next
      (Reach.next Reach.here (Step.creates 1024 20 big_heap (sysinit 0x10_0000 big_heap).0))
      (Step.resumes 1 created)

Reach-IsRunning_example : IsRunning 0 resumed
Reach-IsRunning_example = Reach-IsRunning outside 0x10_0000 big_heap (λ d k run. run) resumed-Reach

Reach-one_current_example :
    (is_curr (resumed.proctab 1).state ≡ true → 1 ≡ resumed.currpid)
    × (1 ≡ resumed.currpid → is_curr (resumed.proctab 1).state ≡ true)
Reach-one_current_example =
    Reach-one_current outside 0x10_0000 big_heap (λ d k run. run) resumed-Reach 1 (omega arith)

-- Process 1 waits for a semaphore of its own.
abbrev with_sem : Kernel
with_sem = (semcreate 0 resumed).1

abbrev waiting_one : Kernel
waiting_one = (wait 0 with_sem).1

currpid-with_sem : with_sem.currpid ≡ 1
unfolding semcreate newsem newsem_scan resume ready make_ready insert insert_scan resched
    switch_to_first dequeue getfirst getitem create spawn newpid newpid_scan new_entry getstk
    last_fit sysinit initialize_page_tables init_null init_procs init_sems newqueue clkinit
currpid-with_sem = refl

Reach-count_bound_example :
    (modulus ≤ (waiting_one.semtab 0).scount + nproc) × ((waiting_one.semtab 0).scount < modulus)
unfolding wait block_on semcreate newsem newsem_scan resume ready make_ready insert insert_scan
    resched switch_to_first dequeue getfirst getitem create spawn newpid newpid_scan new_entry
    getstk last_fit sysinit initialize_page_tables init_null init_procs init_sems newqueue clkinit
Reach-count_bound_example =
    Reach-count_bound outside 0x10_0000 big_heap (λ d k run. run)
      (Reach.next (Reach.next resumed-Reach (Step.semcreates 0 resumed))
        (Step.waits 0 with_sem (rw currpid-with_sem (omega arith))))
      0 (omega arith) refl

create_lem_example :
    let (pid, k', m') = create 1024 20 kernel big_heap in
    let (saddr, taken) = getstk (stack_size 1024) big_heap in
    (pid ≡ syserr)
      × (k' ≡ record kernel { nextpid = k'.nextpid })
      × SpawnFails 1024 20 kernel big_heap m'
    ⊎ (pid < nproc)
      × (is_free (kernel.proctab pid).state ≡ true)
      × (k'.proctab
          ≡ update kernel.proctab pid (
              new_entry
                (kernel.proctab pid)
                20
                saddr
                (stack_size 1024)
                kernel.currpid
                PrType.system
                pt_start))
      × (k' ≡ record kernel {
        nextpid = k'.nextpid;
        prcount = add32 kernel.prcount 1;
        proctab = k'.proctab;
      })
      × (m' ≡ taken)
create_lem_example = create_lem 1024 20 kernel big_heap
