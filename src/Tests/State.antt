-- ===== src/Tests/State.antt =====
-- A small state of the kernel: process 3 runs, processes 5 and 0 are ready, process 7 waits for the
-- semaphore 4, process 9 waits 20 ticks for a message, and process 11 is suspended.
use ece592_final_project.Base.{
  ℕ, ◌+◌, ◌-◌, ◌*◌, ◌%◌, ◌<◌, ◌≡◌, refl, ◌⊎◌, inl, inr, true, false, List, [], ◌∷◌, arith, ◌==◌,
  ltb, if◌then◌else◌, update, has, All, Distinct,
}
use ece592_final_project.Process.{Proc, PrState, PrType, nproc}
use ece592_final_project.Queue.{QTab, maxkey, minkey}
use ece592_final_project.Queue.Links.{Links}
use ece592_final_project.Queue.Table.{IsQid, IsTable, IsLoose}
use ece592_final_project.Kernel.{Kernel, SState}
use ece592_final_project.Sched.Priority.{Keyed}
use ece592_final_project.Sched.Invariant.{IsRunning, Placed, Home, IsSched, IsKernel}

abbrev pub lists : ℕ → List ℕ
lists = update (update (update (λ q. []) 300 (5 ∷ 0 ∷ [])) 302 (9 ∷ [])) 108 (7 ∷ [])

abbrev proc : PrState → ℕ → Proc
proc s prio = record {
  state = s;
  prio = prio;
  stkbase = 0;
  stklen = 0;
  sem = 4;
  parent = 0;
  msg = 0;
  hasmsg = false;
  desc = λ n. 0;
  ptype = PrType.system;
  pdbr = 0;
  pages_alloc = 0;
  pages_used = 0;
}

abbrev procs : ℕ → Proc
procs =
    update
      (update
        (update
          (update
            (update (update (λ p. proc PrState.free 0) 0 (proc PrState.ready 0)) 3
              (proc PrState.curr 20))
            5 (proc PrState.ready 15))
          7 (proc PrState.wait 30))
        9 (proc PrState.rectim 25))
      11 (proc PrState.susp 40)

-- The links of empty queues, and then the four nodes in their places.
abbrev pub queues : QTab
queues = record {
  key = λ a.
      if ltb a nproc
      then (if a == 5 then 15 else if a == 9 then 20 else 0)
      else if a % 2 == 0
      then maxkey
      else minkey;
  next =
      update
        (update
          (update (update (update (update (update (λ a. a + 1) 300 5) 5 0) 0 301) 302 9) 9 303) 108
          7)
        7 109;
  prev =
      update
        (update
          (update (update (update (update (update (λ a. a - 1) 5 300) 0 5) 301 0) 9 302) 303 9) 7
          108)
        109 7;
}

abbrev pub kernel : Kernel
kernel = record {
  proctab = procs;
  semtab = λ s. record {
    sstate = SState.s_used;
    scount = if s == 4 then 0xffff_ffff else 0;
    squeue = 100 + 2 * s;
  };
  queuetab = queues;
  currpid = 3;
  readylist = 300;
  sleepq = 302;
  ndefers = 0;
  attempt = false;
  preempt = 2;
  prcount = 6;
  clktime = 0;
  count1000 = 1000;
  nextsem = 5;
  nextpid = 12;
  cr3 = 0;
}

lists-cases :
    (q : ℕ)
    → (q ≡ 108)
      ⊎ (q ≡ 302)
      ⊎ (q ≡ 300)
      ⊎ ((108 == q) ≡ false) × ((302 == q) ≡ false) × ((300 == q) ≡ false)
lists-cases q = ground arith

-- What holds of the three queues that hold a process, and of every empty one, holds of each queue.
at_lists {ℓ} :
    (P : ℕ → List ℕ → Type ℓ)
    → P 108 (7 ∷ [])
    → P 302 (9 ∷ [])
    → P 300 (5 ∷ 0 ∷ [])
    → ((q : ℕ) → ((108 == q) ≡ false) × ((302 == q) ≡ false) × ((300 == q) ≡ false) → P q [])
    → (q : ℕ) → P q (lists q)
at_lists P a b c d q = elim (lists-cases q) [
  | inl e ↦ rw e a
  | inr (inl e) ↦ rw e b
  | inr (inr (inl e)) ↦ rw e c
  | inr (inr (inr (e, f, g))) ↦ rw (e, f, g) (d q (e, f, g))
]

pub queues-IsTable : IsTable queues lists
queues-IsTable = record {
  links =
      at_lists (λ q xs. IsQid q → Links queues.next queues.prev q xs (q + 1)) (λ iq. ground arith)
        (λ iq. ground arith) (λ iq. ground arith) (λ q out iq. ground arith);
  distinct =
      at_lists (λ q xs. IsQid q → Distinct xs) (λ iq. ground arith) (λ iq. ground arith)
        (λ iq. ground arith) (λ q out iq. tt);
  members =
      at_lists (λ q xs. IsQid q → All (λ x. x < nproc) xs) (λ iq. ground arith) (λ iq. ground arith)
        (λ iq. ground arith) (λ q out iq. tt);
  apart = λ q r a iq ir ne h. ground arith;
  keys = λ q iq. ground arith;
}

at_one {ℓ κ} :
    (n : ℕ) (P : ℕ → Type ℓ) {Q : Type κ} → P n → (p : ℕ) → Q → has p (n ∷ []) ≡ true → P p
at_one n P h p iq m = let e : p ≡ n = ground arith in rw e h

pub kernel-IsSched : IsSched kernel lists
kernel-IsSched = record {
  table = queues-IsTable;
  sem_next = omega arith;
  ready_qid = ground arith;
  sleep_qid = ground arith;
  sem_qid = λ s lt. ground arith;
  ready_ne_sleep = ground arith;
  ready_ne_sem = λ s lt. ground arith;
  sleep_ne_sem = λ s lt. ground arith;
  sem_inj = λ s r ls lr e. ground arith;
  housed =
      at_lists (λ q xs. (p : ℕ) → IsQid q → has p xs ≡ true → Home kernel q (procs p))
        (at_one 7 (λ p. Home kernel 108 (procs p)) (ground arith))
        (at_one 9 (λ p. Home kernel 302 (procs p)) refl)
        (λ p iq h.
          let two : (p ≡ 5) ⊎ (p ≡ 0) = ground arith in
          elim two [ inl e ↦ rw e refl | inr e ↦ rw e refl ])
        (λ q out p iq h. absurd (ground arith));
  queued = λ p lt h. ground arith;
  prios = λ p. ground arith;
  running = ground arith;
  one = λ p lt h. ground arith;
  null = refl;
  ordered = ((refl, tt), (tt, tt));
}

alive-cases :
    (p : ℕ)
    → (p ≡ 0) ⊎ (p ≡ 3) ⊎ (p ≡ 5) ⊎ (p ≡ 7) ⊎ (p ≡ 9) ⊎ (p ≡ 11) ⊎ (procs p ≡ proc PrState.free 0)
alive-cases p = ground arith

kernel-Placed : (p : ℕ) → Placed kernel lists p
kernel-Placed p = elim (alive-cases p) [
  | inl e ↦ rw e refl
  | inr (inl e) ↦ rw e tt
  | inr (inr (inl e)) ↦ rw e refl
  | inr (inr (inr (inl e))) ↦ rw e (omega arith, refl)
  | inr (inr (inr (inr (inl e)))) ↦ rw e refl
  | inr (inr (inr (inr (inr (inl e))))) ↦ rw e tt
  | inr (inr (inr (inr (inr (inr e))))) ↦ rw e tt
]

pub kernel-IsKernel : IsKernel kernel lists
kernel-IsKernel = record {
  sched = kernel-IsSched;
  placed = λ p lt. kernel-Placed p;
  counts = λ s lt. ground arith;
}

pub kernel-IsRunning : IsRunning 0 kernel
kernel-IsRunning = (lists, kernel-IsKernel, refl, refl, λ s lt h. ground arith)

pub IsLoose-3 : IsLoose 3 lists
IsLoose-3 = λ q iq. ground arith

pub IsLoose-11 : IsLoose 11 lists
IsLoose-11 = λ q iq. ground arith

pub kernel-Keyed : Keyed kernel lists
kernel-Keyed = λ p h.
    let two : (p ≡ 5) ⊎ (p ≡ 0) = ground arith in elim two [ inl e ↦ rw e refl | inr e ↦ rw e refl ]
