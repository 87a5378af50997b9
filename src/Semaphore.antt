-- ===== src/Semaphore.antt =====
-- Counting semaphores: system/wait.c, signal.c, signaln.c, semcreate.c, semdelete.c, semreset.c and
-- semcount.c.
pub mod Steps
pub mod Balance
pub mod Running
pub mod Create
pub mod Deferred
pub mod Reset
use ece592_final_project.Base.{
  ℕ, zero, suc, ◌+◌, ◌-◌, Bool, true, false, not, ◌||◌, ◌==◌, leb, if◌then◌else◌, update, is_neg,
  add32, sub32, syserr, empty, ok,
}
use ece592_final_project.Process.{Proc, PrState}
use ece592_final_project.Queue.{QTab, nqent, enqueue, dequeue, getfirst}
use ece592_final_project.Kernel.{
  Kernel, Sem, SState, is_sfree, nsem, isbadsem, set_state, set_count,
}
use ece592_final_project.Sched.{Defer, resched, resched_cntl, ready}

-- `prstate = PR_WAIT; prsem = sem; enqueue(currpid, squeue)`
unfoldable pub block_on : ℕ → Kernel → Kernel
block_on sem k =
    let k' = record k {
      proctab =
          update k.proctab k.currpid
            (record (k.proctab k.currpid) { state = PrState.wait; sem = sem });
    } in
    record k' { queuetab = (enqueue k'.proctab k'.currpid (k'.semtab sem).squeue k'.queuetab).1 }

unfoldable pub wait : ℕ → Kernel → ℕ × Kernel
wait sem k =
    if isbadsem sem
    then (syserr, k)
    else if is_sfree (k.semtab sem).sstate
    then (syserr, k)
    else let k' = set_count sem (sub32 (k.semtab sem).scount 1) k in
      (ok, if is_neg (k'.semtab sem).scount then resched (block_on sem k') else k')

-- `ready(dequeue(semptr->squeue))`
unfoldable pub release_first : ℕ → Kernel → Kernel
release_first sem k =
    let (pid, t) = dequeue (k.semtab sem).squeue k.queuetab in
    (ready pid (record k { queuetab = t })).1

-- `if ((semptr->scount++) < 0) ready(dequeue(semptr->squeue))`
unfoldable pub signal_once : ℕ → Kernel → Kernel
signal_once sem k =
    let k' = set_count sem (add32 (k.semtab sem).scount 1) k in
    if is_neg (k.semtab sem).scount then release_first sem k' else k'

unfoldable pub signal : ℕ → Kernel → ℕ × Kernel
signal sem k =
    if isbadsem sem
    then (syserr, k)
    else if is_sfree (k.semtab sem).sstate
    then (syserr, k)
    else (ok, signal_once sem k)

-- `for (; count > 0; count--)`
unfoldable pub signal_times : ℕ → ℕ → Kernel → Kernel
signal_times zero sem k = k
signal_times (suc count) sem k = signal_times count sem (signal_once sem k)

unfoldable pub signaln : ℕ → ℕ → Kernel → ℕ × Kernel
signaln sem count k =
    if isbadsem sem || is_neg count
    then (syserr, k)
    else if is_sfree (k.semtab sem).sstate
    then (syserr, k)
    else (ok, (resched_cntl Defer.stop (signal_times count sem (resched_cntl Defer.start k).1)).1)

-- The loop of `newsem` over at most NSEM entries.
unfoldable pub newsem_scan : ℕ → Kernel → ℕ × Kernel
newsem_scan zero k = (syserr, k)
newsem_scan (suc rounds) k =
    let sem = k.nextsem in
    let k' = record k { nextsem = if leb nsem (sem + 1) then 0 else sem + 1 } in
    elim (is_sfree (k'.semtab sem).sstate) [
      | true ↦ (
        sem,
        record k' {
          semtab = update k'.semtab sem (record (k'.semtab sem) { sstate = SState.s_used });
        },
      )
      | false ↦ newsem_scan rounds k'
    ]

unfoldable pub newsem : Kernel → ℕ × Kernel
newsem k = newsem_scan nsem k

unfoldable pub semcreate : ℕ → Kernel → ℕ × Kernel
semcreate count k =
    if is_neg count
    then (syserr, k)
    else let (sem, k') = newsem k in
      if sem == syserr then (syserr, k') else (sem, set_count sem count k')

-- `while (semptr->scount++ < 0) ready(getfirst(semptr->squeue))`; a negative count comes up to 0 in
-- as many rounds as it is below 0.
unfoldable pub semdelete_loop : ℕ → ℕ → Kernel → Kernel
semdelete_loop zero sem k = k
semdelete_loop (suc rounds) sem k =
    let c = (k.semtab sem).scount in
    let k' = set_count sem (add32 c 1) k in
    elim (is_neg c) [
      | true ↦
          (let (pid, t) = getfirst (k'.semtab sem).squeue k'.queuetab in
            semdelete_loop rounds sem (ready pid (record k' { queuetab = t })).1)
      | false ↦ k'
    ]

unfoldable pub semdelete : ℕ → Kernel → ℕ × Kernel
semdelete sem k =
    if isbadsem sem
    then (syserr, k)
    else if is_sfree (k.semtab sem).sstate
    then (syserr, k)
    else let k1 = record k {
      semtab = update k.semtab sem (record (k.semtab sem) { sstate = SState.s_free });
    } in
      let k2 = (resched_cntl Defer.start k1).1 in
      let k3 = semdelete_loop (suc (0x1_0000_0000 - (k2.semtab sem).scount)) sem k2 in
      (ok, (resched_cntl Defer.stop k3).1)

-- `while ((pid=getfirst(semqueue)) != EMPTY) ready(pid)`; a queue has at most NQENT nodes.
unfoldable pub semreset_loop : ℕ → ℕ → Kernel → Kernel
semreset_loop zero q k = k
semreset_loop (suc rounds) q k =
    let (pid, t) = getfirst q k.queuetab in
    elim (pid == empty) [
      | true ↦ record k { queuetab = t }
      | false ↦ semreset_loop rounds q (ready pid (record k { queuetab = t })).1
    ]

unfoldable pub semreset : ℕ → ℕ → Kernel → ℕ × Kernel
semreset sem count k =
    if is_neg count || isbadsem sem || is_sfree (k.semtab sem).sstate
    then (syserr, k)
    else let k1 = (resched_cntl Defer.start k).1 in
      let k2 = semreset_loop nqent (k.semtab sem).squeue k1 in
      (ok, (resched_cntl Defer.stop (set_count sem count k2)).1)

unfoldable pub semcount : ℕ → Kernel → ℕ
semcount sem k =
    if isbadsem sem || is_sfree (k.semtab sem).sstate then syserr else (k.semtab sem).scount
