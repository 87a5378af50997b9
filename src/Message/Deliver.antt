-- ===== src/Message/Deliver.antt =====
-- The message that `send` stores is the one that its recipient takes.
use ece592_final_project.Base.{ℕ, ◌≡◌, refl, ◌⊎◌, true, false, ◌||◌, arith, syserr, ok}
use ece592_final_project.Process.{PrState, isbadpid}
use ece592_final_project.Kernel.{Kernel}
use ece592_final_project.Sched.{make_ready, switch_to_first, resched, ready}
use ece592_final_project.Clock.{unsleep}
use ece592_final_project.Message.{set_proc, wake_receiver, send, receive_take, recvtime_take}

-- Process `p` has in `k'` the message that it has in `k`.
abbrev SameMail : ℕ → Kernel → Kernel → Type 0
SameMail p k k' =
    ((k'.proctab p).msg ≡ (k.proctab p).msg) × ((k'.proctab p).hasmsg ≡ (k.proctab p).hasmsg)

mail-make_ready : (p pid : ℕ) (k : Kernel) → SameMail p k (make_ready pid k)
unfolding make_ready
mail-make_ready p pid k = ground arith

mail-switch : (p : ℕ) (k : Kernel) → SameMail p k (switch_to_first k)
unfolding switch_to_first
mail-switch p k = ground arith

mail-resched : (p : ℕ) (k : Kernel) → SameMail p k (resched k)
unfolding resched
mail-resched p k =
    ground (
      arith,
      mail-switch p k,
      mail-switch p (make_ready k.currpid k),
      mail-make_ready p k.currpid k,
    )

mail-ready : (p pid : ℕ) (k : Kernel) → SameMail p k (ready pid k).1
unfolding ready
mail-ready p pid k = ground (arith, mail-resched p (make_ready pid k), mail-make_ready p pid k)

mail-unsleep : (p pid : ℕ) (k : Kernel) → SameMail p k (unsleep pid k).1
unfolding unsleep
mail-unsleep p pid k = ground arith

mail-wake_receiver : (s : PrState) (p pid : ℕ) (k : Kernel) → SameMail p k (wake_receiver s pid k)
unfolding wake_receiver
mail-wake_receiver PrState.free p pid k = (refl, refl)
mail-wake_receiver PrState.curr p pid k = (refl, refl)
mail-wake_receiver PrState.ready p pid k = (refl, refl)
mail-wake_receiver PrState.recv p pid k = mail-ready p pid k
mail-wake_receiver PrState.sleep p pid k = (refl, refl)
mail-wake_receiver PrState.susp p pid k = (refl, refl)
mail-wake_receiver PrState.wait p pid k = (refl, refl)
mail-wake_receiver PrState.rectim p pid k =
    ground (arith, mail-ready p pid (unsleep pid k).1, mail-unsleep p pid k)

-- `send` to a bad process, or to one that has a message already, returns SYSERR and changes nothing.
-- Otherwise it returns OK, and what `receive` and `recvtime` then take for the recipient is the
-- message that was sent; behind them the recipient has no message any more.
pub send-receive_take :
    (pid msg : ℕ) (k : Kernel)
    → ((isbadpid k.proctab pid || (k.proctab pid).hasmsg) ≡ true) × (send pid msg k ≡ (syserr, k))
      ⊎ ((isbadpid k.proctab pid || (k.proctab pid).hasmsg) ≡ false)
        × ((send pid msg k).0 ≡ ok)
        × ((receive_take pid (send pid msg k).1).0 ≡ msg)
        × ((recvtime_take pid (send pid msg k).1).0 ≡ msg)
        × (((receive_take pid (send pid msg k).1).1.proctab pid).hasmsg ≡ false)
        × (((recvtime_take pid (send pid msg k).1).1.proctab pid).hasmsg ≡ false)
unfolding send receive_take recvtime_take
send-receive_take pid msg k = ground (
  arith,
  mail-wake_receiver (k.proctab pid).state pid pid
      (set_proc pid (record (k.proctab pid) { msg = msg; hasmsg = true }) k),
)
