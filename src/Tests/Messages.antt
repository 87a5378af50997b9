-- ===== src/Tests/Messages.antt =====
-- The laws of messages and delays at the small state.
use ece592_final_project.Base.{
  ℕ, ◌+◌, ◌-◌, ◌<◌, ◌≡◌, ◌⊎◌, refl, true, false, List, [], ◌∷◌, ◌||◌, update, arith, syserr, ok,
}
use ece592_final_project.Process.{isbadpid}
use ece592_final_project.Queue.Table.{IsTable, IsTable-insert, IsTable-key}
use ece592_final_project.Queue.Delta.{delay}
use ece592_final_project.Clock.{tick_sleep}
use ece592_final_project.Message.{send, receive_take, recvtime_take}
use ece592_final_project.Message.Deliver.{send-receive_take}
use ece592_final_project.Queue.{QTab}
use ece592_final_project.Kernel.{Kernel}
use ece592_final_project.Tests.State.{
  kernel-IsKernel, lists, queues, kernel, queues-IsTable, IsLoose-11,
}
use ece592_final_project.Sched.Invariant.{is_active}
use ece592_final_project.Clock.First.{IsFirst}
use ece592_final_project.Clock.Due.{interrupts, interrupts_wake}
use ece592_final_project.Clock.Tick.{tick_sleep_lem}

-- Process 11 behind process 9 on the sleep queue, with a delay of 50 ticks.
abbrev two_lists : ℕ → List ℕ
two_lists = update lists 302 (9 ∷ 11 ∷ [])

abbrev two_queues : QTab
two_queues = record {
  key = update queues.key 11 30;
  next = update (update queues.next 11 303) 9 11;
  prev = update (update queues.prev 11 9) 303 11;
}

abbrev two_asleep : Kernel
two_asleep = record kernel { queuetab = two_queues }

two_queues-IsTable : IsTable two_queues two_lists
two_queues-IsTable =
    IsTable-insert (IsTable-key queues-IsTable (update queues.key 11 30) (λ a h. ground arith)) 302
      (9 ∷ []) [] 11 9 303 (refl, omega arith, omega arith) refl refl refl (omega arith) IsLoose-11

-- Process 9 waits in the sleep queue for a message.
-- Process 9 sleeps for 20 ticks.
kernel-IsFirst : IsFirst 9 20 kernel
kernel-IsFirst = record {
  view = lists;
  kernel = kernel-IsKernel;
  none_deferred = refl;
  on = refl;
  unused = λ s lt h. ground arith;
  rest = [];
  first = refl;
  due = refl;
}

interrupts_wake_example :
    ((n : ℕ) → n < 20 → IsFirst 9 (20 - n) (interrupts n kernel))
    × (is_active ((interrupts 20 kernel).proctab 9).state ≡ true)
interrupts_wake_example = interrupts_wake 9 20 kernel (omega arith) (omega arith) kernel-IsFirst

send-receive_take_example :
    ((isbadpid kernel.proctab 9 || (kernel.proctab 9).hasmsg) ≡ true)
      × (send 9 77 kernel ≡ (syserr, kernel))
    ⊎ ((isbadpid kernel.proctab 9 || (kernel.proctab 9).hasmsg) ≡ false)
      × ((send 9 77 kernel).0 ≡ ok)
      × ((receive_take 9 (send 9 77 kernel).1).0 ≡ 77)
      × ((recvtime_take 9 (send 9 77 kernel).1).0 ≡ 77)
      × (((receive_take 9 (send 9 77 kernel).1).1.proctab 9).hasmsg ≡ false)
      × (((recvtime_take 9 (send 9 77 kernel).1).1.proctab 9).hasmsg ≡ false)
send-receive_take_example = send-receive_take 9 77 kernel

-- Process 9 has 20 ticks to wait.
tick_sleep_lem_example :
    let k' = tick_sleep kernel in
    (k' ≡ record kernel { queuetab = record kernel.queuetab { key = k'.queuetab.key } })
    × IsTable k'.queuetab lists
    × ((a : ℕ) → delay k'.queuetab.key a (lists 302) + 1 ≡ delay kernel.queuetab.key a (lists 302))
tick_sleep_lem_example =
    tick_sleep_lem kernel queues-IsTable (refl, omega arith, omega arith) 9 [] refl (omega arith)
      (omega arith)
