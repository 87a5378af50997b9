-- ===== src/Boot.antt =====
-- The start of the system: sysinit of system/initialize.c, as far as it is about the memory and the
-- tables of the kernel, and system/clkinit.c. Interrupt vectors, buffer pools and the devices, which
-- are initialised on top, are left out.
pub mod Tables
pub mod Fresh
pub mod Space
use ece592_final_project.Base.{ℕ, zero, suc, ◌+◌, false, update}
use ece592_final_project.Process.{Proc, PrState, PrType, nproc, nullproc}
use ece592_final_project.Queue.{QTab, newqueue}
use ece592_final_project.Kernel.{Kernel, Sem, SState, nsem, quantum}
use ece592_final_project.Paging.{initialize_page_tables}
use ece592_final_project.Memory.{meminit, ffsmeminit, ptmeminit, Mem, nullstk, getstk}

-- The globals as the program is loaded: zero, but for the static variables of `newsem`, `newpid` and
-- `clkhandler`.
abbrev pub no_proc : Proc
no_proc = record {
  state = PrState.free;
  prio = 0;
  stkbase = 0;
  stklen = 0;
  sem = 0;
  parent = 0;
  msg = 0;
  hasmsg = false;
  desc = λ n. 0;
  ptype = PrType.system;
  pdbr = 0;
  pages_alloc = 0;
  pages_used = 0;
}

abbrev pub loaded : Kernel
loaded = record {
  proctab = λ p. no_proc;
  semtab = λ s. record { sstate = SState.s_free; scount = 0; squeue = 0 };
  queuetab = record { key = λ a. 0; next = λ a. 0; prev = λ a. 0 };
  currpid = 0;
  readylist = 0;
  sleepq = 0;
  ndefers = 0;
  attempt = false;
  preempt = 0;
  prcount = 0;
  clktime = 0;
  count1000 = 1000;
  nextsem = 0;
  nextpid = 1;
  cr3 = 0;
}

-- `for (i = 0; i < NPROC; i++)`, counted by the rounds that are left
unfoldable pub init_procs : (rounds i : ℕ) → (ℕ → Proc) → ℕ → Proc
init_procs zero i proctab = proctab
init_procs (suc rounds) i proctab =
    init_procs rounds (i + 1)
      (update proctab i (record (proctab i) { state = PrState.free; stkbase = 0; prio = 0 }))

-- The null process runs from here on.
unfoldable pub init_null : Kernel → Mem → Kernel × Mem
init_null k m =
    let (base, m') = getstk nullstk m in
    (
      record k {
        proctab = update k.proctab nullproc (record (k.proctab nullproc) {
          state = PrState.curr;
          prio = 0;
          stkbase = base;
          stklen = nullstk;
        });
        currpid = nullproc;
      },
      m',
    )

-- `for (i = 0; i < NSEM; i++)`; `nextqid` is the static variable of `newqueue`.
unfoldable pub init_sems : (rounds i nextqid : ℕ) → Kernel → ℕ × Kernel
init_sems zero i nextqid k = (nextqid, k)
init_sems (suc rounds) i nextqid k =
    let (q, nextqid', t) = newqueue nextqid k.queuetab in
    init_sems rounds (i + 1) nextqid' (record k {
      queuetab = t;
      semtab = update k.semtab i (record { sstate = SState.s_free; scount = 0; squeue = q });
    })

unfoldable pub clkinit : ℕ → Kernel → ℕ × Kernel
clkinit nextqid k =
    let (q, nextqid', t) = newqueue nextqid k.queuetab in
    (nextqid', record k { queuetab = t; sleepq = q; preempt = quantum; clktime = 0 })

-- `end` is the address that the linker gives the end of the program, and the memory says in `maxheap`
-- where it ends itself.
unfoldable pub sysinit : (end : ℕ) → Mem → Kernel × Mem
sysinit end m =
    let m1 = ffsmeminit (meminit end m) in
    let k1 = record loaded {
      prcount = 1;
      ndefers = 0;
      proctab = init_procs nproc 0 loaded.proctab;
    } in
    let (k2, m2) = init_null k1 m1 in
    let (nextqid, k3) = init_sems nsem 0 nproc k2 in
    let (k4, m3) = initialize_page_tables k3 (ptmeminit m2) in
    let (q, nextqid', t) = newqueue nextqid k4.queuetab in
    let (nextqid'', k5) = clkinit nextqid' (record k4 { queuetab = t; readylist = q }) in (k5, m3)
