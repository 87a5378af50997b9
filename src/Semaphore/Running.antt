-- ===== src/Semaphore/Running.antt =====
-- `wait` and `signal` by a running process.
use ece592_final_project.Base.{◌∙◌, ℕ, ◌≢◌, arith, sub32, add32}
use ece592_final_project.Process.{nullproc}
use ece592_final_project.Queue.{dequeue}
use ece592_final_project.Kernel.{Kernel, set_count}
use ece592_final_project.Sched.Invariant.{Unused, IsRunning}
use ece592_final_project.Sched.Ready.{semtab-ready, semtab-resched}
use ece592_final_project.Semaphore.{block_on, wait, release_first, signal_once, signal}
use ece592_final_project.Semaphore.Balance.{semtab-block_on, wait-IsKernel, signal-IsKernel}

wait-Unused : (sem : ℕ) (k : Kernel) → Unused k → Unused (wait sem k).1
unfolding wait
wait-Unused sem k u s lt =
    let k1 = set_count sem (sub32 (k.semtab sem).scount 1) k in
    ground (arith, u s lt, semtab-resched (block_on sem k1), (semtab-block_on sem k1))

signal-Unused : (sem : ℕ) (k : Kernel) → Unused k → Unused (signal sem k).1
unfolding signal signal_once release_first
signal-Unused sem k u s lt =
    let k1 = set_count sem (add32 (k.semtab sem).scount 1) k in
    let (x, t) = dequeue (k1.semtab sem).squeue k1.queuetab in
    ground (arith, u s lt, semtab-ready x (record k1 { queuetab = t }))

-- `wait` by a running process other than the null process, with no rescheduling deferred, keeps the
-- invariant of the kernel, whatever the semaphore: each negative count is the number of processes
-- waiting in the queue, every process is in the queue that its state names and in no other, the ready
-- list is in order, and a process is running afterwards.
pub wait-IsRunning :
    (sem : ℕ) (k : Kernel) → IsRunning 0 k → k.currpid ≢ nullproc → IsRunning 0 (wait sem k).1
wait-IsRunning sem k (view, v, zero, on, unused) user =
    let r = wait-IsKernel v sem on user in
    (r.0, r.1, r.3 ∙ zero, r.2 zero, wait-Unused sem k unused)

-- `signal` by a running process keeps the invariant of the kernel, whatever the semaphore and however many
-- deferrals are outstanding, if the count is not the largest int32, beyond which it would wrap; a
-- process is running afterwards.
pub signal-IsRunning :
    (n sem : ℕ) (k : Kernel)
    → IsRunning n k
    → (k.semtab sem).scount ≢ 0x7fff_ffff
    → IsRunning n (signal sem k).1
signal-IsRunning n sem k (view, v, same, on, unused) below =
    let r = signal-IsKernel v sem on below in
    (r.0, r.1, r.3 ∙ same, r.2, signal-Unused sem k unused)
