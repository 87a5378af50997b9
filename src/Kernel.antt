-- ===== src/Kernel.antt =====
-- The kernel's global variables in one record: proctab, semtab, queuetab, currpid, the ready list
-- and the sleep queue, Defer of resched.c, and the counters of clock.h. Interrupts are disabled in
-- each operation (`disable`/`restore`), so an operation is one step on this record.
use ece592_final_project.Base.{false, true, ℕ, Bool, leb, is_neg, ◌||◌, update}
use ece592_final_project.Process.{Proc, PrState}
use ece592_final_project.Queue.{QTab}

abbrev pub nsem : ℕ
nsem = 100

-- `sstate`: S_FREE or S_USED
pub data SState : Type 0 where
  s_free s_used : SState

abbrev pub is_sfree : SState → Bool
is_sfree SState.s_free = true
is_sfree SState.s_used = false

-- `struct sentry`
pub record Sem : Type 0 where
  pub sstate : SState
  pub scount : ℕ
  pub squeue : ℕ

abbrev pub isbadsem : ℕ → Bool
isbadsem s = is_neg s || leb nsem s

pub record Kernel : Type 0 where
  pub proctab : ℕ → Proc
  pub semtab : ℕ → Sem
  pub queuetab : QTab
  pub currpid : ℕ
  pub readylist : ℕ
  pub sleepq : ℕ
  pub ndefers : ℕ
  pub attempt : Bool
  pub preempt : ℕ
  pub prcount : ℕ
  pub clktime : ℕ
  pub count1000 : ℕ
  pub nextsem : ℕ
  pub nextpid : ℕ
  pub cr3 : ℕ

abbrev pub quantum : ℕ
quantum = 2

-- `proctab[pid].prstate = s`
abbrev pub set_state : ℕ → PrState → Kernel → Kernel
set_state pid s k = record k {
  proctab = update k.proctab pid (record (k.proctab pid) { state = s });
}

-- `semtab[sem].scount = c`
abbrev pub set_count : ℕ → ℕ → Kernel → Kernel
set_count sem c k = record k { semtab = update k.semtab sem (record (k.semtab sem) { scount = c }) }
