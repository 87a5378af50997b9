-- ===== src/Lifetime.antt =====
-- The start and the end of a process: system/create.c, vcreate.c and kill.c. What they do to the heap is passed on
-- beside the kernel's tables. The contents of the new stack belong to `ctxsw`.
pub mod Spawn
pub mod Space
pub mod End
use ece592_final_project.Base.{
  ℕ, zero, suc, ◌+◌, ◌%◌, Bool, true, false, ◌||◌, ◌==◌, ltb, if◌then◌else◌, update, signed_lt,
  signed_le, add32, sub32, roundmb, syserr, ok,
}
use ece592_final_project.Process.{Proc, PrState, PrType, nproc, nullproc, isbadpid, is_free}
use ece592_final_project.Queue.{getitem}
use ece592_final_project.Kernel.{Kernel, set_state, set_count}
use ece592_final_project.Sched.{resched}
use ece592_final_project.Clock.{unsleep}
use ece592_final_project.Message.{send}
use ece592_final_project.Paging.{allocate_pdpt, free_virtual_mem}
use ece592_final_project.Memory.{Mem, getstk, freemem, pt_start}

abbrev pub minstk : ℕ
minstk = 400

abbrev console : ℕ
console = 0

-- The loop of `newpid` over at most NPROC entries.
unfoldable pub newpid_scan : ℕ → Kernel → ℕ × Kernel
newpid_scan zero k = (syserr, k)
newpid_scan (suc rounds) k =
    let pid = k.nextpid % nproc in
    let k' = record k { nextpid = pid + 1 } in
    elim (is_free (k.proctab pid).state) [ true ↦ (pid, k') | false ↦ newpid_scan rounds k' ]

unfoldable pub newpid : Kernel → ℕ × Kernel
newpid k = newpid_scan nproc k

-- The entry of a new process. The semaphore is -1.
unfoldable pub new_entry : Proc → (priority saddr ssize parent : ℕ) → PrType → (pdbr : ℕ) → Proc
new_entry p priority saddr ssize parent ptype pdbr = record p {
  state = PrState.susp;
  prio = priority;
  stkbase = saddr;
  stklen = ssize;
  sem = 0xffff_ffff;
  parent = parent;
  hasmsg = false;
  desc = update (update (update p.desc 0 console) 1 console) 2 console;
  ptype = ptype;
  pdbr = pdbr;
}

abbrev pub stack_size : ℕ → ℕ
stack_size ssize = roundmb (if ltb ssize minstk then minstk else ssize)

-- What `create` and `vcreate` share: they differ in the kind of the process and in where its page
-- directory comes from.
unfoldable pub spawn :
    PrType → (Mem → ℕ × Mem) → (ssize priority : ℕ) → Kernel → Mem → ℕ × Kernel × Mem
spawn ptype directory ssize priority k m =
    if signed_lt priority 1
    then (syserr, k, m)
    else let (pid, k1) = newpid k in
      if pid == syserr
      then (syserr, k1, m)
      else let (saddr, m1) = getstk (stack_size ssize) m in
        if saddr == syserr
        then (syserr, k1, m1)
        else let (pdbr, m2) = directory m1 in
          (
            pid,
            record k1 {
              prcount = add32 k1.prcount 1;
              proctab = update k1.proctab pid (
                  new_entry (k1.proctab pid) priority saddr (stack_size ssize) k1.currpid ptype
                    pdbr);
            },
            m2,
          )

unfoldable pub create : (ssize priority : ℕ) → Kernel → Mem → ℕ × Kernel × Mem
create ssize priority k m = spawn PrType.system (λ m1. (pt_start, m1)) ssize priority k m

unfoldable pub vcreate : (ssize priority : ℕ) → Kernel → Mem → ℕ × Kernel × Mem
vcreate ssize priority k m = spawn PrType.user allocate_pdpt ssize priority k m

-- `kill` up to its `send` to the parent, at which another process may go on: it has refused, the
-- processor was halted behind the last process, or the rest is done when the caller is current again.
pub data Killing : Type 0 where
  refused halted notified : Kernel → Killing

unfoldable pub kill_notify : ℕ → Kernel → Killing
kill_notify pid k0 =
    let k = record k0 { cr3 = pt_start } in
    if isbadpid k.proctab pid || (pid == nullproc) || is_free (k.proctab pid).state
    then refused k
    else let k1 = record k { prcount = sub32 k.prcount 1 } in
      if signed_le k1.prcount 1 then halted k1 else notified (send (k1.proctab pid).parent pid k1).1

-- The switch over the state of the process. Behind the `resched` of a process that ends itself
-- nothing is left to do.
unfoldable pub retire : PrState → ℕ → Kernel → Kernel
retire PrState.curr pid k = resched (set_state pid PrState.free k)
retire PrState.sleep pid k = set_state pid PrState.free (unsleep pid k).1
retire PrState.rectim pid k = set_state pid PrState.free (unsleep pid k).1
retire PrState.wait pid k =
    let sem = (k.proctab pid).sem in
    let k' = set_count sem (add32 (k.semtab sem).scount 1) k in
    set_state pid PrState.free (record k' { queuetab = (getitem pid k'.queuetab).1 })
retire PrState.ready pid k =
    set_state pid PrState.free (record k { queuetab = (getitem pid k.queuetab).1 })
retire PrState.free pid k = set_state pid PrState.free k
retire PrState.recv pid k = set_state pid PrState.free k
retire PrState.susp pid k = set_state pid PrState.free k

-- `freestk`
unfoldable pub freestk : (base len : ℕ) → Mem → ℕ × Mem
freestk base len m = freemem (add32 (sub32 base (roundmb len)) 4) (roundmb len) m

-- What `kill` calls of the drivers, by way of the device switch.
pub record Outside : Type 0 where
  pub close : ℕ → Kernel → Kernel

-- `for (i=0; i<3; i++) close(prptr->prdesc[i])`
unfoldable pub close_all : Outside → ℕ → Kernel → Kernel
close_all o pid k =
    let k1 = o.close ((k.proctab pid).desc 0) k in
    let k2 = o.close ((k1.proctab pid).desc 1) k1 in o.close ((k2.proctab pid).desc 2) k2

abbrev is_user : PrType → Bool
is_user PrType.system = false
is_user PrType.user = true

-- The rest of `kill`.
unfoldable pub kill_end : Outside → ℕ → Kernel → Mem → Kernel × Mem
kill_end o pid k m =
    let k1 = close_all o pid k in
    let p = k1.proctab pid in
    let m1 = (freestk p.stkbase p.stklen m).1 in
    (retire p.state pid k1, if is_user p.ptype then free_virtual_mem p.pdbr m1 else m1)
