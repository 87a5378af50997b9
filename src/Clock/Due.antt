-- ===== src/Clock/Due.antt =====
-- The first process of the sleep queue is woken by as many clock interrupts as its delay has ticks.
use ece592_final_project.Base.{
  ℕ, zero, suc, ◌+◌, ◌-◌, ◌<◌, ◌≡◌, refl, sym, ap, ◌∙◌, inl, inr, true, false, List, ◌∷◌, arith,
  ◌==◌, ◌&&◌, Bool-cases, List-cases, has, update, sub32, signed_le,
}
use ece592_final_project.Process.{nproc}
use ece592_final_project.Queue.{nqent, firstid, firstkey, nonempty, dequeue}
use ece592_final_project.Queue.Refine.{isempty-cons, isempty-nil, first-view}
use ece592_final_project.Queue.Links.{head_or}
use ece592_final_project.Kernel.{Kernel}
use ece592_final_project.Sched.{Defer, resched, resched_cntl, ready}
use ece592_final_project.Sched.Invariant.{IsKernel, IsRunning, Placed, Unused, is_on, is_active}
use ece592_final_project.Sched.Frame.{Frame}
use ece592_final_project.Sched.Switch.{resched-IsSched}
use ece592_final_project.Sched.Deferral.{IsKernel-counters, start-IsKernel, start-IsRunning}
use ece592_final_project.Sched.Ready.{first_ready}
use ece592_final_project.Clock.{
  is_asleep, wakeup_loop, wakeup, tick_second, tick_sleep, tick_preempt, clkhandler, quantum,
}
use ece592_final_project.Clock.Wake.{wake_first, wakeup_loop-IsRunning, tick_sleep-IsRunning}
use ece592_final_project.Clock.First.{
  IsFirst, first_small, key-IsFirst, second-IsFirst, sleep-IsFirst, preempt-IsFirst,
}

abbrev IsActive : ℕ → Kernel → Type 0
IsActive p k = is_active (k.proctab p).state ≡ true

IsActive-Frame : {k k' : Kernel} (p : ℕ) → Frame k k' → IsActive p k → IsActive p k'
IsActive-Frame p f a = ground (arith, f.others p)

-- What `ready` of the first sleeper leaves active
first_kept :
    (n p : ℕ) (k : Kernel)
    → IsRunning n k
    → nonempty k.queuetab k.sleepq ≡ true
    → IsActive p k
    → let (pid, t) = dequeue k.sleepq k.queuetab in
      IsActive p (ready pid (record k { queuetab = t })).1
first_kept n p k (view, v, same, on, unused) some_wait a = elim (List-cases (view k.sleepq)) [
  | inl none_wait ↦
      absurd (ground (arith, isempty-nil v.sched.table k.sleepq v.sched.sleep_qid none_wait))
  | inr (x, xs, e) ↦
      let (first, r) =
        first_ready v.sched v.placed k.sleepq x v.sched.sleep_qid
          (λ h. v.sched.ready_ne_sleep (sym h)) xs e in
      rw first (IsActive-Frame p r.5 a)
]

loop_kept :
    (rounds n p : ℕ) (k : Kernel) → IsRunning n k → IsActive p k → IsActive p (wakeup_loop rounds k)
unfolding wakeup_loop
loop_kept zero n p k run a = a
loop_kept (suc rounds) n p k run a =
    elim (Bool-cases (nonempty k.queuetab k.sleepq && signed_le (firstkey k.queuetab k.sleepq) 0)) [
      | inr later ↦ rw (wakeup_loop, later) a
      | inl due ↦
          let some_wait : nonempty k.queuetab k.sleepq ≡ true = ground arith in
          rw (wakeup_loop, due)
            (loop_kept rounds n p _ (wake_first n k run some_wait)
              (first_kept n p k run some_wait a))
    ]

resched_kept : (n p : ℕ) (k : Kernel) → IsRunning n k → IsActive p k → IsActive p (resched k)
resched_kept n p k (view, v, same, on, unused) a = IsActive-Frame p (resched-IsSched v.sched).4 a

stop_kept :
    (n p : ℕ) (k : Kernel)
    → n < 0x7fff_ffff
    → IsRunning (suc n) k
    → IsActive p k
    → IsActive p (resched_cntl Defer.stop k).1
unfolding resched_cntl
stop_kept n p k small (view, v, same, on, unused) a =
    let some_deferred : signed_le k.ndefers 0 ≡ false = ground arith in
    elim (Bool-cases ((sub32 k.ndefers 1 == 0) && k.attempt)) [
      | inr late ↦ rw (some_deferred, late) a
      | inl now ↦
          let k1 : Kernel = record k { ndefers = sub32 k.ndefers 1 } in
          let v1 : IsKernel k1 view = IsKernel-counters v k1 refl in
          rw (some_deferred, now) (IsActive-Frame p (resched-IsSched v1.sched).4 a)
    ]

asleep_in :
    (k : Kernel) (view : ℕ → List ℕ) (p : ℕ)
    → Placed k view p
    → is_asleep (k.proctab p).state ≡ true
    → has p (view k.sleepq) ≡ true
asleep_in k view p placed asleep = ground arith

-- The first sleeper is active when `ready` has been called for it.
first_woken :
    (n x : ℕ) (xs : List ℕ) (k : Kernel) (view : ℕ → List ℕ)
    → IsKernel k view
    → view k.sleepq ≡ x ∷ xs
    → x < nproc
    → let (pid, t) = dequeue k.sleepq k.queuetab in
      IsActive x (ready pid (record k { queuetab = t })).1
first_woken n x xs k view v e small =
    let (first, (view', sched', placed', kept, runs, frame)) =
      first_ready v.sched v.placed k.sleepq x v.sched.sleep_qid
        (λ h. v.sched.ready_ne_sleep (sym h)) xs e in
    let here : has x (view k.sleepq) ≡ true = ground (arith, e) in
    let asleep : is_asleep (k.proctab x).state ≡ true = ground (
      arith,
      v.sched.housed k.sleepq x v.sched.sleep_qid here,
      v.sched.sleep_ne_sem (k.proctab x).sem,
      v.sched.ready_ne_sleep,
    ) in
    let gone : has x xs ≡ false =
      ground (arith, v.sched.table.distinct k.sleepq v.sched.sleep_qid, e) in
    let left : view' k.sleepq ≡ xs =
      kept k.sleepq v.sched.sleep_qid (λ h. v.sched.ready_ne_sleep (sym h)) ∙ ground arith in
    rw first (elim (frame.others x) [
      | inr active ↦ active
      | inl same ↦
          let there =
            asleep_in (ready x (record k { queuetab = (dequeue k.sleepq k.queuetab).1 })).1 view' x
              (placed' x small) (rw same asleep) in
          absurd (ground (arith, there, frame.sleepq_same, left, gone))
    ])

preempt_kept : (x : ℕ) (k : Kernel) → IsRunning 0 k → IsActive x k → IsActive x (tick_preempt k)
unfolding tick_preempt
preempt_kept x k (view, v, same, on, unused) a = elim (Bool-cases (sub32 k.preempt 1 == 0)) [
  | inr part ↦ rw part a
  | inl full ↦
      let k1 : Kernel = record k { preempt = quantum } in
      let v1 : IsKernel k1 view = IsKernel-counters v k1 refl in
      rw full (IsActive-Frame x (resched-IsSched v1.sched).4 a)
]

loop_first :
    (rounds n x : ℕ) (xs : List ℕ) (k : Kernel) (view : ℕ → List ℕ)
    → IsKernel k view
    → k.ndefers ≡ n
    → is_on k ≡ true
    → Unused k
    → view k.sleepq ≡ x ∷ xs
    → x < nproc
    → k.queuetab.key x ≡ 0
    → IsActive x (wakeup_loop (suc rounds) k)
unfolding wakeup_loop
loop_first rounds n x xs k view v same on unused e small due =
    let some_wait : nonempty k.queuetab k.sleepq ≡ true =
      ground (arith, isempty-cons v.sched.table k.sleepq v.sched.sleep_qid x xs e) in
    let first : firstid k.queuetab k.sleepq ≡ x =
      first-view v.sched.table k.sleepq v.sched.sleep_qid ∙ ap (head_or (k.sleepq + 1)) e in
    let now : signed_le (firstkey k.queuetab k.sleepq) 0 ≡ true = ground (arith, first, due) in
    rw (wakeup_loop, some_wait, now)
      (loop_kept rounds n x _ (wake_first n k (view, v, same, on, unused) some_wait)
        (first_woken n x xs k view v e small))

started :
    (x : ℕ) (k : Kernel)
    → IsFirst x 0 k
    → IsActive x (wakeup_loop nqent (resched_cntl Defer.start k).1)
unfolding resched_cntl
started x k f =
    let k1 = (resched_cntl Defer.start k).1 in
    loop_first 303 k1.ndefers x f.rest k1 f.view (start-IsKernel k f.kernel) refl f.on f.unused
      f.first (first_small f) f.due

-- `wakeup` where the first process has waited long enough
wakeup_first : (x : ℕ) (k : Kernel) → IsFirst x 0 k → IsActive x (wakeup k)
unfolding wakeup
wakeup_first x k f =
    let k1 = (resched_cntl Defer.start k).1 in
    let run : IsRunning 1 k1 =
      start-IsRunning 0 k (omega arith) (f.view, f.kernel, f.none_deferred, f.on, f.unused) in
    stop_kept 0 x _ (omega arith) (wakeup_loop-IsRunning nqent 1 k1 run) (started x k f)

sleep_due : (x : ℕ) (k : Kernel) → IsFirst x 1 k → IsActive x (tick_sleep k)
unfolding tick_sleep
sleep_due x k f =
    let v = f.kernel.sched in
    let first : firstid k.queuetab k.sleepq ≡ x =
      first-view v.table k.sleepq v.sleep_qid ∙ ap (head_or (k.sleepq + 1)) f.first in
    let down : sub32 (k.queuetab.key x) 1 ≡ 0 = omega (arith, f.due) in
    let at : update k.queuetab.key x 0 x ≡ 0 = ground arith in
    rw (isempty-cons v.table k.sleepq v.sleep_qid x f.rest f.first, first, down, at)
      (wakeup_first x _ (key-IsFirst f 0))

-- Where the first process of the sleep queue has one tick left, the clock interrupt makes it ready, or
-- lets it run at once.
clkhandler_due : (x : ℕ) (k : Kernel) → IsFirst x 1 k → IsActive x (clkhandler k)
unfolding clkhandler
clkhandler_due x k f0 =
    let f = second-IsFirst f0 in
    preempt_kept x (tick_sleep (tick_second k))
      (tick_sleep-IsRunning 0 (tick_second k) (omega arith)
        (f.view, f.kernel, f.none_deferred, f.on, f.unused))
      (sleep_due x (tick_second k) f)

clkhandler-IsFirst :
    (x d : ℕ) (k : Kernel)
    → 1 < d
    → d < 0x8000_0000
    → IsFirst x d k
    → IsFirst x (d - 1) (clkhandler k)
unfolding clkhandler
clkhandler-IsFirst x d k low high f = preempt-IsFirst (sleep-IsFirst (second-IsFirst f) low high)

-- Clock interrupts, one after the other
abbrev pub interrupts : ℕ → Kernel → Kernel
interrupts zero k = k
interrupts (suc n) k = interrupts n (clkhandler k)

stays :
    (n x d : ℕ) (k : Kernel)
    → n < d
    → d < 0x8000_0000
    → IsFirst x d k
    → IsFirst x (d - n) (interrupts n k)
stays zero x d k lt high f = let all : d - 0 ≡ d = omega arith in rw all f
stays (suc n) x d k lt high f =
    let left : d - suc n ≡ d - 1 - n = omega arith in
    rw left (
      stays n x (d - 1) (clkhandler k) (omega arith) (omega arith)
        (clkhandler-IsFirst x d k (omega arith) high f))

woken :
    (x d : ℕ) (k : Kernel) → 0 < d → d < 0x8000_0000 → IsFirst x d k → IsActive x (interrupts d k)
woken x zero k pos high f = absurd (omega arith)
woken x (suc zero) k pos high f = clkhandler_due x k f
woken x (suc (suc d)) k pos high f =
    let down : suc (suc d) - 1 ≡ suc d = omega arith in
    woken x (suc d) (clkhandler k) (omega arith) (omega arith)
      (rw down at (clkhandler-IsFirst x (suc (suc d)) k (omega arith) high f))

-- The first process of the sleep queue, with `d` ticks to wait, stays the first for fewer clock
-- interrupts, with one tick less after each, and is ready or runs after `d` of them.
pub interrupts_wake :
    (x d : ℕ) (k : Kernel)
    → 0 < d
    → d < 0x8000_0000
    → IsFirst x d k
    → ((n : ℕ) → n < d → IsFirst x (d - n) (interrupts n k))
      × (is_active ((interrupts d k).proctab x).state ≡ true)
interrupts_wake x d k pos high f = (λ n lt. stays n x d k lt high f, woken x d k pos high f)
