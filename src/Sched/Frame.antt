-- ===== src/Sched/Frame.antt =====
-- What rescheduling leaves of the kernel, and that a process stays in its place.
use ece592_final_project.Base.{
  ℕ, ◌<◌, ◌≡◌, refl, sym, ◌∙◌, ◌⊎◌, inl, inr, true, false, List, arith, Bool-cases,
}
use ece592_final_project.Process.{PrState, nproc}
use ece592_final_project.Kernel.{Kernel}
use ece592_final_project.Sched.Invariant.{IsSched, PlacedAs, Placed, Kept, is_active}

-- What rescheduling leaves: the queues' names, the semaphores, the count of deferrals, and each process
-- but those that become ready or current.
pub record Frame (k k' : Kernel) : Type 0 where
  pub readylist_same : k'.readylist ≡ k.readylist
  pub sleepq_same : k'.sleepq ≡ k.sleepq
  pub semtab_same : k'.semtab ≡ k.semtab
  pub ndefers_same : k'.ndefers ≡ k.ndefers
  pub others : (p : ℕ) → (k'.proctab p ≡ k.proctab p) ⊎ (is_active (k'.proctab p).state ≡ true)

pub Frame-refl : (k : Kernel) → Frame k k
Frame-refl k = record {
  readylist_same = refl;
  sleepq_same = refl;
  semtab_same = refl;
  ndefers_same = refl;
  others = λ p. inl refl;
}

pub Frame-trans : {k k' k'' : Kernel} → Frame k k' → Frame k' k'' → Frame k k''
Frame-trans {k} {k'} {k''} f g = record {
  readylist_same = g.readylist_same ∙ f.readylist_same;
  sleepq_same = g.sleepq_same ∙ f.sleepq_same;
  semtab_same = g.semtab_same ∙ f.semtab_same;
  ndefers_same = g.ndefers_same ∙ f.ndefers_same;
  others = λ p. ground (arith, f.others p, g.others p);
}

active-Placed :
    {k : Kernel} {view : ℕ → List ℕ}
    → IsSched k view
    → (p : ℕ) → p < nproc
    → is_active (k.proctab p).state ≡ true
    → Placed k view p
active-Placed {k} {view} v p lt h = go (k.proctab p).state refl
  where
    go : (s : PrState) → (k.proctab p).state ≡ s → PlacedAs k view p (k.proctab p).sem s
    go PrState.ready e = v.queued p lt (ground arith)
    go PrState.sleep e = absurd (ground arith)
    go PrState.rectim e = absurd (ground arith)
    go PrState.wait e = absurd (ground arith)
    go PrState.free e = tt
    go PrState.curr e = tt
    go PrState.recv e = tt
    go PrState.susp e = tt

-- What is kept of the queues and of a process keeps it in its place.
pub Placed-Frame :
    {k k' : Kernel} {view view' : ℕ → List ℕ}
    → IsSched k view
    → IsSched k' view'
    → Kept k view view'
    → Frame k k'
    → (p : ℕ) → p < nproc
    → Placed k view p ⊎ (is_active (k'.proctab p).state ≡ true)
    → Placed k' view' p
Placed-Frame {k} {k'} {view} {view'} v v' kept f p lt h =
    elim (Bool-cases (is_active (k'.proctab p).state)) [
      | inl on ↦ active-Placed v' p lt on
      | inr off ↦
          let same : k'.proctab p ≡ k.proctab p = ground (arith, f.others p) in
          let before : Placed k view p = elim h [ inl b ↦ b | inr on ↦ absurd (ground arith) ] in
          rw same (go (k.proctab p).state (k.proctab p).sem (rw same at off) before)
    ]
  where
    go :
        (s : PrState) (sem : ℕ)
        → is_active s ≡ false
        → PlacedAs k view p sem s
        → PlacedAs k' view' p sem s
    go PrState.ready sem off b = absurd (ground arith)
    go PrState.sleep sem off b =
        rw (f.sleepq_same, kept k.sleepq v.sleep_qid (λ e. v.ready_ne_sleep (sym e))) b
    go PrState.rectim sem off b =
        rw (f.sleepq_same, kept k.sleepq v.sleep_qid (λ e. v.ready_ne_sleep (sym e))) b
    go PrState.wait sem off (small, b) =
        rw
          (
            f.semtab_same,
            kept (k.semtab sem).squeue (v.sem_qid sem small) (v.ready_ne_sem sem small),
          )
          (small, b)
    go PrState.free sem off b = tt
    go PrState.curr sem off b = tt
    go PrState.recv sem off b = tt
    go PrState.susp sem off b = tt
