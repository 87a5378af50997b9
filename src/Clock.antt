-- ===== src/Clock.antt =====
-- Delays: system/sleep.c, unsleep.c, wakeup.c and clkhandler.c.
pub mod Unsleep
pub mod Leave
pub mod Sleep
pub mod Wake
pub mod Tick
pub mod First
pub mod Due
use ece592_final_project.Base.{
  ℕ, zero, suc, Bool, true, false, not, ◌&&◌, ◌||◌, ◌==◌, if◌then◌else◌, update, is_neg, signed_lt,
  signed_le, add32, sub32, mul32, syserr, ok,
}
use ece592_final_project.Process.{PrState, nproc, isbadpid}
use ece592_final_project.Queue.{
  nqent, isempty, nonempty, firstid, firstkey, insertd, dequeue, getitem,
}
use ece592_final_project.Kernel.{Kernel, quantum, set_state}
use ece592_final_project.Sched.{Defer, resched, resched_cntl, ready, yield}

abbrev pub is_asleep : PrState → Bool
is_asleep PrState.sleep = true
is_asleep PrState.rectim = true
is_asleep _ = false

abbrev pub maxseconds : ℕ
maxseconds = 2147483

unfoldable pub sleepms : ℕ → Kernel → ℕ × Kernel
sleepms delay k =
    if is_neg delay
    then (syserr, k)
    else if delay == 0
    then (ok, (yield k).1)
    else let (result, t) = insertd k.proctab k.currpid k.sleepq delay k.queuetab in
      if result == syserr
      then (syserr, record k { queuetab = t })
      else (ok, resched (set_state k.currpid PrState.sleep (record k { queuetab = t })))

unfoldable pub sleep : ℕ → Kernel → ℕ × Kernel
sleep delay k =
    if is_neg delay || signed_lt maxseconds delay
    then (syserr, k)
    else (ok, (sleepms (mul32 1000 delay) k).1)

unfoldable pub unsleep : ℕ → Kernel → ℕ × Kernel
unsleep pid k =
    if isbadpid k.proctab pid
    then (syserr, k)
    else if not (is_asleep (k.proctab pid).state)
    then (syserr, k)
    else let t = k.queuetab in
      let pidnext = t.next pid in
      let t' =
        if signed_lt pidnext nproc
        then record t { key = update t.key pidnext (add32 (t.key pidnext) (t.key pid)) }
        else t in
      (ok, record k { queuetab = (getitem pid t').1 })

unfoldable pub wakeup_loop : ℕ → Kernel → Kernel
wakeup_loop zero k = k
wakeup_loop (suc rounds) k =
    elim (nonempty k.queuetab k.sleepq && signed_le (firstkey k.queuetab k.sleepq) 0) [
      | true ↦
          (let (pid, t) = dequeue k.sleepq k.queuetab in
            wakeup_loop rounds (ready pid (record k { queuetab = t })).1)
      | false ↦ k
    ]

unfoldable pub wakeup : Kernel → Kernel
wakeup k = (resched_cntl Defer.stop (wakeup_loop nqent (resched_cntl Defer.start k).1)).1

-- The three parts of `clkhandler`. `count1000` and `preempt` are unsigned, so `<= 0` is `== 0`.
unfoldable pub tick_second : Kernel → Kernel
tick_second k =
    let c = sub32 k.count1000 1 in
    if c == 0
    then record k { clktime = add32 k.clktime 1; count1000 = 1000 }
    else record k { count1000 = c }

unfoldable pub tick_sleep : Kernel → Kernel
tick_sleep k =
    if isempty k.queuetab k.sleepq
    then k
    else let t = k.queuetab in
      let first = firstid t k.sleepq in
      let k' = record k {
        queuetab = record t { key = update t.key first (sub32 (t.key first) 1) };
      } in
      if signed_le (k'.queuetab.key first) 0 then wakeup k' else k'

unfoldable pub tick_preempt : Kernel → Kernel
tick_preempt k =
    let p = sub32 k.preempt 1 in
    if p == 0 then resched (record k { preempt = quantum }) else record k { preempt = p }

unfoldable pub clkhandler : Kernel → Kernel
clkhandler k = tick_preempt (tick_sleep (tick_second k))
