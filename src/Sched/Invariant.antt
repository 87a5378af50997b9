-- ===== src/Sched/Invariant.antt =====
-- What holds of the kernel's tables between two operations: each process is in the queue that its
-- state names and in no other, one process is current, and the ready list is in order.
use ece592_final_project.Base.{
  ℕ, ◌+◌, ◌<◌, ◌≡◌, ◌⊎◌, ◌≢◌, Bool, true, false, ◌||◌, List, has, length, signed_lt, is_neg,
  modulus,
}
use ece592_final_project.Process.{Proc, PrState, nproc, nullproc}
use ece592_final_project.Queue.{minkey}
use ece592_final_project.Queue.Table.{IsQid, IsTable}
use ece592_final_project.Queue.Order.{Descending}
use ece592_final_project.Kernel.{is_sfree, Kernel, nsem}
use ece592_final_project.Sched.{is_curr, is_ready}

-- The queue `q` is where a process of this state, waiting for this semaphore, belongs.
abbrev pub HomeOf : Kernel → ℕ → ℕ → PrState → Type 0
HomeOf k q sem PrState.ready = q ≡ k.readylist
HomeOf k q sem PrState.sleep = q ≡ k.sleepq
HomeOf k q sem PrState.rectim = q ≡ k.sleepq
HomeOf k q sem PrState.wait = (sem < nsem) × (q ≡ (k.semtab sem).squeue)
HomeOf k q sem _ = ⊥

abbrev pub Home : Kernel → ℕ → Proc → Type 0
Home k q p = HomeOf k q p.sem p.state

pub record IsSched (k : Kernel) (view : ℕ → List ℕ) : Type 0 where
  pub table : IsTable k.queuetab view
  pub sem_next : k.nextsem < nsem
  pub ready_qid : IsQid k.readylist
  pub sleep_qid : IsQid k.sleepq
  pub sem_qid : (s : ℕ) → s < nsem → IsQid (k.semtab s).squeue
  pub ready_ne_sleep : k.readylist ≢ k.sleepq
  pub ready_ne_sem : (s : ℕ) → s < nsem → (k.semtab s).squeue ≢ k.readylist
  pub sleep_ne_sem : (s : ℕ) → s < nsem → (k.semtab s).squeue ≢ k.sleepq
  pub sem_inj : (s r : ℕ) → s < nsem → r < nsem → (k.semtab s).squeue ≡ (k.semtab r).squeue → s ≡ r
  pub housed : (q p : ℕ) → IsQid q → has p (view q) ≡ true → Home k q (k.proctab p)
  pub queued :
      (p : ℕ) → p < nproc → is_ready (k.proctab p).state ≡ true → has p (view k.readylist) ≡ true
  pub prios : (p : ℕ) → signed_lt minkey (k.proctab p).prio ≡ true
  pub running : k.currpid < nproc
  pub one : (p : ℕ) → p < nproc → is_curr (k.proctab p).state ≡ true → p ≡ k.currpid
  pub null : (is_ready (k.proctab nullproc).state || is_curr (k.proctab nullproc).state) ≡ true
  pub ordered : Descending k.queuetab.key (view k.readylist)

-- A semaphore's count is the number of processes that wait on it, below zero.
abbrev pub Balanced : ℕ → ℕ → Type 0
Balanced c n = (c < modulus) × (is_neg c ≡ true → c + n ≡ modulus) × (is_neg c ≡ false → n ≡ 0)

-- A process of this state is in the queue that its state names.
abbrev pub PlacedAs : Kernel → (ℕ → List ℕ) → (p sem : ℕ) → PrState → Type 0
PlacedAs k view p sem PrState.ready = has p (view k.readylist) ≡ true
PlacedAs k view p sem PrState.sleep = has p (view k.sleepq) ≡ true
PlacedAs k view p sem PrState.rectim = has p (view k.sleepq) ≡ true
PlacedAs k view p sem PrState.wait = (sem < nsem) × (has p (view (k.semtab sem).squeue) ≡ true)
PlacedAs k view p sem _ = Unit

abbrev pub Placed : Kernel → (ℕ → List ℕ) → ℕ → Type 0
Placed k view p = PlacedAs k view p (k.proctab p).sem (k.proctab p).state

pub record IsKernel (k : Kernel) (view : ℕ → List ℕ) : Type 0 where
  pub sched : IsSched k view
  pub placed : (p : ℕ) → p < nproc → Placed k view p
  pub counts : (s : ℕ) → s < nsem → Balanced (k.semtab s).scount (length (view (k.semtab s).squeue))

abbrev pub is_on : Kernel → Bool
is_on k = is_curr (k.proctab k.currpid).state

-- A semaphore that is not in use has no negative count.
abbrev pub Unused : Kernel → Type 0
Unused k =
    (s : ℕ) → s < nsem → is_sfree (k.semtab s).sstate ≡ true → is_neg (k.semtab s).scount ≡ false

-- A process can call the kernel: the invariant holds, `n` deferrals are outstanding, and the current
-- process is in the state PR_CURR.
abbrev pub IsRunning : ℕ → Kernel → Type 0
IsRunning n k =
    (view : ℕ → List ℕ) × IsKernel k view × (k.ndefers ≡ n) × (is_on k ≡ true) × Unused k

-- The invariant behind an operation, with as many deferrals and a process running: always, or where
-- none is deferred.
abbrev pub KeepsOn : Kernel → Kernel → Type 0
KeepsOn k k' = (view : ℕ → List ℕ) × IsKernel k' view × (is_on k' ≡ true) × (k'.ndefers ≡ k.ndefers)

abbrev pub Keeps : Kernel → Kernel → Type 0
Keeps k k' =
    (view : ℕ → List ℕ) × IsKernel k' view
    × (k.ndefers ≡ 0 → is_on k' ≡ true)
    × (k'.ndefers ≡ k.ndefers)

-- The current process is in the state PR_CURR afterwards, if it was so or none is deferred.
abbrev pub Runs : Kernel → Kernel → Type 0
Runs k k' = (k.ndefers ≡ 0) ⊎ (is_on k ≡ true) → is_on k' ≡ true

-- Every queue but the ready list is as before.
abbrev pub Kept : Kernel → (view view' : ℕ → List ℕ) → Type 0
Kept k view view' = (q : ℕ) → IsQid q → q ≢ k.readylist → view' q ≡ view q

-- `ready` or current
abbrev pub is_active : PrState → Bool
is_active s = is_ready s || is_curr s
