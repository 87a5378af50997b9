-- ===== src/System.antt =====
-- The kernel as a whole: the system calls of the running process, the clock interrupt and page faults as steps from
-- one state of the tables to the next. A call that waits ends at its `resched`, and its rest, as
-- `receive_take`, `recvtime_take` and `kill_end`, is a step of its own, which may come at any time.
use ece592_final_project.Base.{
  signed_lt, ℕ, ◌<◌, ◌≡◌, ◌≢◌, true, false, modulus, is_neg, ◌+◌, ◌≤◌, arith,
}
use ece592_final_project.Lifetime.{Killing, Outside, create, vcreate, kill_notify, kill_end}
use ece592_final_project.Kernel.{nsem, Kernel}
use ece592_final_project.Memory.{Mem}
use ece592_final_project.Paging.{vmalloc}
use ece592_final_project.Fault.{pagefault_handler}
use ece592_final_project.Fault.Running.{handled_at, vmalloc-IsRunning, pagefault_handler-IsRunning}
use ece592_final_project.Clock.{sleepms, sleep, clkhandler}
use ece592_final_project.Sched.Invariant.{IsRunning}
use ece592_final_project.Sched.{chprio, is_curr, suspend, resume, yield}
use ece592_final_project.Clock.Wake.{clkhandler-IsRunning}
use ece592_final_project.Boot.{sysinit}
use ece592_final_project.Sched.Block.{chprio-IsRunning, resume-IsRunning, yield-IsRunning}
use ece592_final_project.Process.{nullproc, nproc}
use ece592_final_project.Sched.Suspend.{suspend-IsRunning}
use ece592_final_project.Queue.{minkey}
use ece592_final_project.Lifetime.Spawn.{create-IsRunning, vcreate-IsRunning}
use ece592_final_project.Lifetime.End.{kill_end-IsRunning, kill_notify-IsRunning}
use ece592_final_project.Semaphore.{wait, signaln, signal, semreset, semdelete, semcreate}
use ece592_final_project.Semaphore.Reset.{semreset-IsRunning, semcreate-IsRunning}
use ece592_final_project.Semaphore.Deferred.{signaln-IsRunning, semdelete-IsRunning}
use ece592_final_project.Semaphore.Running.{signal-IsRunning, wait-IsRunning}
use ece592_final_project.Message.{recvtime_take, recvtime, recvclr, receive_take, receive, send}
use ece592_final_project.Message.Invariant.{
  recvtime_take-IsRunning, recvclr-IsRunning, receive_take-IsRunning, send-IsRunning,
}
use ece592_final_project.Message.Wait.{recvtime-IsRunning, after, receive-IsRunning}
use ece592_final_project.Clock.Sleep.{sleepms-IsRunning, sleep-IsRunning}
use ece592_final_project.Queue.Refine.{length-view}
use ece592_final_project.Boot.Fresh.{sysinit-IsRunning}

pub data Step (o : Outside) : Kernel → Kernel → Type 0 where
  tick : (k : Kernel) → Step o k (clkhandler k)
  yields : (k : Kernel) → Step o k (yield k).1
  resumes : (pid : ℕ) (k : Kernel) → Step o k (resume pid k).1
  suspends : (pid : ℕ) (k : Kernel) → Step o k (suspend pid k).1
  chprios : (pid new : ℕ) (k : Kernel) → signed_lt minkey new ≡ true → Step o k (chprio pid new k).1
  creates : (ssize priority : ℕ) (m : Mem) (k : Kernel) → Step o k (create ssize priority k m).1
  vcreates : (ssize priority : ℕ) (m : Mem) (k : Kernel) → Step o k (vcreate ssize priority k m).1
  kill_refuses : (pid : ℕ) (k k' : Kernel) → kill_notify pid k ≡ Killing.refused k' → Step o k k'
  kill_notifies : (pid : ℕ) (k k' : Kernel) → kill_notify pid k ≡ Killing.notified k' → Step o k k'
  kill_ends :
      (pid : ℕ) (m : Mem) (k : Kernel)
      → pid ≢ nullproc
      → pid < nproc
      → Step o k (kill_end o pid k m).0
  vmallocs : (nbytes : ℕ) (m : Mem) (k : Kernel) → Step o k (vmalloc nbytes k m).1
  faults : (cr2 : ℕ) (m : Mem) (k : Kernel) → Step o k (handled_at (pagefault_handler cr2 k m))
  semcreates : (count : ℕ) (k : Kernel) → Step o k (semcreate count k).1
  semdeletes :
      (sem : ℕ) (k : Kernel) → (k.semtab sem).scount ≢ 0x7fff_ffff → Step o k (semdelete sem k).1
  semresets : (sem count : ℕ) (k : Kernel) → Step o k (semreset sem count k).1
  waits : (sem : ℕ) (k : Kernel) → k.currpid ≢ nullproc → Step o k (wait sem k).1
  signals : (sem : ℕ) (k : Kernel) → (k.semtab sem).scount ≢ 0x7fff_ffff → Step o k (signal sem k).1
  signalns :
      (sem count : ℕ) (k : Kernel)
      → (is_neg (k.semtab sem).scount ≡ false → (k.semtab sem).scount + count < 0x8000_0000)
      → Step o k (signaln sem count k).1
  sends : (pid msg : ℕ) (k : Kernel) → Step o k (send pid msg k).1
  receives : (k : Kernel) → k.currpid ≢ nullproc → Step o k (after (receive k))
  receive_takes : (k : Kernel) → Step o k (receive_take k.currpid k).1
  recvclrs : (k : Kernel) → Step o k (recvclr k).1
  recvtimes :
      (maxwait : ℕ) (k : Kernel) → k.currpid ≢ nullproc → Step o k (after (recvtime maxwait k))
  recvtime_takes : (k : Kernel) → Step o k (recvtime_take k.currpid k).1
  sleeps : (delay : ℕ) (k : Kernel) → k.currpid ≢ nullproc → Step o k (sleep delay k).1
  sleepmss : (delay : ℕ) (k : Kernel) → k.currpid ≢ nullproc → Step o k (sleepms delay k).1

pub data Reach (o : Outside) (start : Kernel) : Kernel → Type 0 where
  here : Reach o start start
  next : {k k' : Kernel} → Reach o start k → Step o k k' → Reach o start k'

Step-IsRunning :
    (o : Outside) {k k' : Kernel}
    → ((d : ℕ) (k : Kernel) → IsRunning 0 k → IsRunning 0 (o.close d k))
    → Step o k k'
    → IsRunning 0 k
    → IsRunning 0 k'
Step-IsRunning o keeps (tick k) run = clkhandler-IsRunning 0 k (omega arith) run
Step-IsRunning o keeps (yields k) run = yield-IsRunning 0 k run
Step-IsRunning o keeps (resumes pid k) run = resume-IsRunning 0 pid k run
Step-IsRunning o keeps (suspends pid k) run = suspend-IsRunning pid k run
Step-IsRunning o keeps (chprios pid new k high) run = chprio-IsRunning 0 pid new k high run
Step-IsRunning o keeps (creates ssize priority m k) run = create-IsRunning 0 ssize priority k m run
Step-IsRunning o keeps (vcreates ssize priority m k) run =
    vcreate-IsRunning 0 ssize priority k m run
Step-IsRunning o keeps (kill_refuses pid k k' e) run = rw e at (kill_notify-IsRunning 0 pid k run)
Step-IsRunning o keeps (kill_notifies pid k k' e) run = rw e at (kill_notify-IsRunning 0 pid k run)
Step-IsRunning o keeps (kill_ends pid m k user lt) run =
    kill_end-IsRunning o pid k m keeps user lt run
Step-IsRunning o keeps (vmallocs nbytes m k) run = vmalloc-IsRunning 0 nbytes k m run
Step-IsRunning o keeps (faults cr2 m k) run = pagefault_handler-IsRunning 0 cr2 k m run
Step-IsRunning o keeps (semcreates count k) run = semcreate-IsRunning 0 count k run
Step-IsRunning o keeps (semdeletes sem k below) run =
    semdelete-IsRunning 0 sem k (omega arith) below run
Step-IsRunning o keeps (semresets sem count k) run =
    semreset-IsRunning 0 sem count k (omega arith) run
Step-IsRunning o keeps (waits sem k user) run = wait-IsRunning sem k run user
Step-IsRunning o keeps (signals sem k below) run = signal-IsRunning 0 sem k run below
Step-IsRunning o keeps (signalns sem count k room) run =
    signaln-IsRunning 0 sem count k (omega arith) room run
Step-IsRunning o keeps (sends pid msg k) run = send-IsRunning 0 pid msg k run
Step-IsRunning o keeps (receives k user) run = receive-IsRunning k run user
Step-IsRunning o keeps (receive_takes k) run = receive_take-IsRunning 0 k.currpid k run
Step-IsRunning o keeps (recvclrs k) run = recvclr-IsRunning 0 k run
Step-IsRunning o keeps (recvtimes maxwait k user) run = recvtime-IsRunning maxwait k run user
Step-IsRunning o keeps (recvtime_takes k) run = recvtime_take-IsRunning 0 k.currpid k run
Step-IsRunning o keeps (sleeps delay k user) run = sleep-IsRunning delay k run user
Step-IsRunning o keeps (sleepmss delay k user) run = sleepms-IsRunning delay k run user

-- Every state that the kernel reaches from the initialised tables by system calls, clock interrupts
-- and page faults has the invariant, no deferral outstanding, and a process that runs. The calls that may block are
-- not those of the null process, the counts of the semaphores that are signalled or deleted stay
-- within int32, priorities are above the least int32, and closing a device keeps the invariant.
pub Reach-IsRunning :
    (o : Outside) (end : ℕ) (m : Mem) {k : Kernel}
    → ((d : ℕ) (k : Kernel) → IsRunning 0 k → IsRunning 0 (o.close d k))
    → Reach o (sysinit end m).0 k
    → IsRunning 0 k
Reach-IsRunning o end m keeps here = sysinit-IsRunning end m
Reach-IsRunning o end m keeps (next r s) =
    Step-IsRunning o keeps s (Reach-IsRunning o end m keeps r)

-- In every state that the kernel reaches from the initialised tables by system calls, clock interrupts
-- and page faults exactly one process is in the state PR_CURR, the one that `currpid` names. The null process
-- makes no call that may block, no semaphore with the count 0x7fffffff is signalled or deleted and no
-- `signaln` brings a count beyond int32, priorities are above the least int32, and closing a device
-- keeps the invariant of the kernel.
pub Reach-one_current :
    (o : Outside) (end : ℕ) (m : Mem) {k : Kernel}
    → ((d : ℕ) (k : Kernel) → IsRunning 0 k → IsRunning 0 (o.close d k))
    → Reach o (sysinit end m).0 k
    → (p : ℕ) → p < nproc
    → (is_curr (k.proctab p).state ≡ true → p ≡ k.currpid)
      × (p ≡ k.currpid → is_curr (k.proctab p).state ≡ true)
Reach-one_current o end m keeps r p lt =
    let (view, v, zero, on, unused) = Reach-IsRunning o end m keeps r in
    (v.sched.one p lt, λ e. rw e on)

-- In every state that the kernel reaches from the initialised tables by system calls, clock interrupts
-- and page faults a count of a semaphore that is negative is at least -NPROC, provided that no call brings
-- a count beyond int32: no semaphore with the count 0x7fffffff is signalled or deleted, and no `signaln`
-- of a count that is not negative adds up to 0x80000000 or more. Moreover the null process makes no
-- call that may block, priorities are above the least int32, and closing a device keeps the invariant
-- of the kernel.
pub Reach-count_bound :
    (o : Outside) (end : ℕ) (m : Mem) {k : Kernel}
    → ((d : ℕ) (k : Kernel) → IsRunning 0 k → IsRunning 0 (o.close d k))
    → Reach o (sysinit end m).0 k
    → (sem : ℕ) → sem < nsem
    → is_neg (k.semtab sem).scount ≡ true
    → (modulus ≤ (k.semtab sem).scount + nproc) × ((k.semtab sem).scount < modulus)
Reach-count_bound o end m {k} keeps r sem lt neg =
    let (view, v, zero, on, unused) = Reach-IsRunning o end m keeps r in
    ground (
      arith,
      v.counts sem lt,
      length-view v.sched.table (k.semtab sem).squeue (v.sched.sem_qid sem lt),
    )
