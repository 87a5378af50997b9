-- ===== src/Clock/First.antt =====
-- The first process of the sleep queue, from one clock interrupt to the next.
use ece592_final_project.Base.{
  ℕ, ◌+◌, ◌-◌, ◌<◌, ◌≡◌, refl, sym, ap, ◌∙◌, inl, inr, true, false, List, ◌∷◌, arith, ◌==◌,
  Bool-cases, has, update, sub32, signed_le,
}
use ece592_final_project.Process.{nproc}
use ece592_final_project.Queue.{insert}
use ece592_final_project.Queue.Refine.{isempty-cons, first-view}
use ece592_final_project.Queue.Links.{head_or}
use ece592_final_project.Queue.Table.{lt_of_has}
use ece592_final_project.Kernel.{Kernel}
use ece592_final_project.Sched.{is_curr, resched, make_ready, switch_to_first}
use ece592_final_project.Sched.Invariant.{IsKernel, Unused, is_on}
use ece592_final_project.Sched.Switch.{resched-cases, resched-IsSched, key-dequeue}
use ece592_final_project.Sched.Keep.{IsKernel-Rescheduled}
use ece592_final_project.Sched.Ready.{semtab-resched}
use ece592_final_project.Sched.Deferral.{IsKernel-counters}
use ece592_final_project.Clock.{tick_second, tick_sleep, tick_preempt, firstid, quantum}
use ece592_final_project.Clock.Wake.{set_key-IsKernel}

-- Process `x` is the first of the sleep queue and has `d` ticks to wait, in a kernel with its invariant
-- in which no rescheduling is deferred and a process runs.
pub record IsFirst (x d : ℕ) (k : Kernel) : Type 0 where
  pub view : ℕ → List ℕ
  pub kernel : IsKernel k view
  pub none_deferred : k.ndefers ≡ 0
  pub on : is_on k ≡ true
  pub unused : Unused k
  pub rest : List ℕ
  pub first : view k.sleepq ≡ x ∷ rest
  pub due : k.queuetab.key x ≡ d

key-switch : (k : Kernel) (a : ℕ) → (switch_to_first k).queuetab.key a ≡ k.queuetab.key a
unfolding switch_to_first
key-switch k a = ap (λ g. g a) (key-dequeue k.readylist k.queuetab)

key-make_ready :
    (k : Kernel) (a : ℕ)
    → (a == k.currpid) ≡ false
    → (make_ready k.currpid k).queuetab.key a ≡ k.queuetab.key a
unfolding make_ready insert
key-make_ready k a ne = ground arith

-- Rescheduling changes no key but that of the current process.
key-resched :
    (k : Kernel) (a : ℕ) → (a == k.currpid) ≡ false → (resched k).queuetab.key a ≡ k.queuetab.key a
key-resched k a ne = elim (resched-cases k) [
  | inl (deferred, e) ↦ rw e refl
  | inr (inl (on, e)) ↦ rw e refl
  | inr (inr (inl (on, e))) ↦ rw e (key-switch (make_ready k.currpid k) a ∙ key-make_ready k a ne)
  | inr (inr (inr (off, e))) ↦ rw e (key-switch k a)
]

module _ {x d : ℕ} {k : Kernel} (f : IsFirst x d k) where
  pub first_small : x < nproc
  first_small =
      let here : has x (f.view k.sleepq) ≡ true = ground (arith, f.first) in
      lt_of_has x (f.view k.sleepq) (f.kernel.sched.table.members k.sleepq f.kernel.sched.sleep_qid)
        here

  -- It does not run.
  first_ne : (x == k.currpid) ≡ false
  first_ne =
      let here : has x (f.view k.sleepq) ≡ true = ground (arith, f.first) in
      let off : is_curr (k.proctab x).state ≡ false =
        ground (arith, f.kernel.sched.housed k.sleepq x f.kernel.sched.sleep_qid here) in
      ground (arith, f.on)

  pub second-IsFirst : IsFirst x d (tick_second k)
  unfolding tick_second
  second-IsFirst = elim (Bool-cases (sub32 k.count1000 1 == 0)) [
    | inl full ↦ rw full (of_kernel _ _ (IsKernel-counters f.kernel _ refl))
    | inr part ↦ rw part (of_kernel _ _ (IsKernel-counters f.kernel _ refl))
  ]
    where
      of_kernel :
          (clktime count1000 : ℕ)
          → IsKernel (record k { clktime = clktime; count1000 = count1000 }) f.view
          → IsFirst x d (record k { clktime = clktime; count1000 = count1000 })
      of_kernel clktime count1000 v = record {
        view = f.view;
        kernel = v;
        none_deferred = f.none_deferred;
        on = f.on;
        unused = f.unused;
        rest = f.rest;
        first = f.first;
        due = f.due;
      }

  -- Its key may change.
  pub key-IsFirst :
      (c : ℕ)
      → IsFirst x c (record k { queuetab = record k.queuetab { key = update k.queuetab.key x c } })
  key-IsFirst c = record {
    view = f.view;
    kernel = set_key-IsKernel f.kernel x c (ground (arith, f.first));
    none_deferred = f.none_deferred;
    on = f.on;
    unused = f.unused;
    rest = f.rest;
    first = f.first;
    due = ground arith;
  }

  pub sleep-IsFirst : 1 < d → d < 0x8000_0000 → IsFirst x (d - 1) (tick_sleep k)
  unfolding tick_sleep
  sleep-IsFirst low high =
      let v = f.kernel.sched in
      let first : firstid k.queuetab k.sleepq ≡ x =
        first-view v.table k.sleepq v.sleep_qid ∙ ap (head_or (k.sleepq + 1)) f.first in
      let down : sub32 (k.queuetab.key x) 1 ≡ d - 1 = omega (arith, f.due) in
      let at : update k.queuetab.key x (d - 1) x ≡ d - 1 = ground arith in
      let later : signed_le (d - 1) 0 ≡ false = ground arith in
      rw (isempty-cons v.table k.sleepq v.sleep_qid x f.rest f.first, first, down, at, later)
        (key-IsFirst (d - 1))

  pub preempt-IsFirst : IsFirst x d (tick_preempt k)
  unfolding tick_preempt
  preempt-IsFirst = elim (Bool-cases (sub32 k.preempt 1 == 0)) [
    | inr part ↦ rw part (record {
      view = f.view;
      kernel = IsKernel-counters f.kernel _ refl;
      none_deferred = f.none_deferred;
      on = f.on;
      unused = f.unused;
      rest = f.rest;
      first = f.first;
      due = f.due;
    })
    | inl full ↦
        let k1 : Kernel = record k { preempt = quantum } in
        let v1 : IsKernel k1 f.view = IsKernel-counters f.kernel k1 refl in
        let (view, sched, kept, runs, frame) = resched-IsSched v1.sched in
        rw full (record {
          view = view;
          kernel =
              IsKernel-Rescheduled v1.sched v1.counts (view, sched, kept, runs, frame)
                (λ p lt. inl (v1.placed p lt));
          none_deferred = frame.ndefers_same ∙ f.none_deferred;
          on = runs (inr f.on);
          unused = λ t lt. rw (semtab-resched k1) (f.unused t lt);
          rest = f.rest;
          first =
              ap view frame.sleepq_same
              ∙ kept k.sleepq v1.sched.sleep_qid (λ e. v1.sched.ready_ne_sleep (sym e))
              ∙ f.first;
          due = key-resched k1 x first_ne ∙ f.due;
        })
  ]
