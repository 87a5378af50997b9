-- ===== src/Sched/Suspend.antt =====
-- `suspend` keeps the invariant.
use ece592_final_project.Base.{
  ℕ, ◌<◌, ◌≡◌, refl, ◌≢◌, inl, inr, true, false, List, [], ◌∷◌, ◌++◌, arith, ◌==◌, ◌||◌, Bool-cases,
  update, has, split_of_has, has-append, All,
}
use ece592_final_project.Queue.Order.{Descending}
use ece592_final_project.Sched.{
  is_curr, PrState, is_ready, set_state, nullproc, isbadpid, Kernel, suspend,
}
use ece592_final_project.Queue.{getitem}
use ece592_final_project.Sched.Invariant.{IsRunning, IsKernel}
use ece592_final_project.Process.{nproc}
use ece592_final_project.Queue.Table.{IsTable-remove}
use ece592_final_project.Sched.Ready.{PlacedAs-out}
use ece592_final_project.Queue.Refine.{isbadpid-lt}
use ece592_final_project.Sched.Block.{PlacedAs-apart, is_apart, leave-IsRunning}

All-middle {ℓ} :
    (P : ℕ → Type ℓ) (x : ℕ) (xs ys : List ℕ) → All P (xs ++ (x ∷ ys)) → All P (xs ++ ys)
All-middle P x [] ys h = h.1
All-middle P x (z ∷ xs) ys h = (h.0, All-middle P x xs ys h.1)

Descending-middle :
    (key : ℕ → ℕ) (x : ℕ) (xs ys : List ℕ)
    → Descending key (xs ++ (x ∷ ys))
    → Descending key (xs ++ ys)
Descending-middle key x [] ys d = d.1
Descending-middle key x (z ∷ xs) ys d =
    (All-middle _ x xs ys d.0, Descending-middle key x xs ys d.1)

-- A process of the ready list goes to a state that has no queue.
pub unready-IsKernel :
    {k : Kernel} {view : ℕ → List ℕ}
    → IsKernel k view
    → (pid : ℕ) (s : PrState) (xs ys : List ℕ) → is_apart s ≡ 1
    → pid ≢ nullproc
    → view k.readylist ≡ xs ++ (pid ∷ ys)
    → IsKernel
        (set_state pid s (record k { queuetab = (getitem pid k.queuetab).1 }))
        (update view k.readylist (xs ++ ys))
unfolding getitem
unready-IsKernel {k} {view} v pid s xs ys apart user e =
    let out = IsTable-remove v.sched.table k.readylist xs ys pid v.sched.ready_qid e in
    record {
      sched = record {
        table = out.0;
        sem_next = v.sched.sem_next;
        ready_qid = v.sched.ready_qid;
        sleep_qid = v.sched.sleep_qid;
        sem_qid = v.sched.sem_qid;
        ready_ne_sleep = v.sched.ready_ne_sleep;
        ready_ne_sem = v.sched.ready_ne_sem;
        sleep_ne_sem = v.sched.sleep_ne_sem;
        sem_inj = v.sched.sem_inj;
        housed = λ q p iq h. elim (Bool-cases (pid == p)) [
          | inl same ↦ absurd (ground (arith, out.1 q iq))
          | inr diff ↦ rw diff (v.sched.housed q p iq (member q p h))
        ];
        queued = λ p lt h.
            ground (arith, v.sched.queued p lt, has-append p xs ys, has-append p xs (pid ∷ ys), e);
        prios = λ p. ground (arith, v.sched.prios p, v.sched.prios pid);
        running = v.sched.running;
        one = λ p lt h. ground (arith, v.sched.one p lt);
        null = ground (arith, v.sched.null);
        ordered =
            let same : (k.readylist == k.readylist) ≡ true = ground arith in
            rw same (Descending-middle k.queuetab.key pid xs ys (rw e at v.sched.ordered));
      };
      placed = λ p lt. elim (Bool-cases (pid == p)) [
        | inl same ↦
            rw same
              (PlacedAs-apart k (update view k.readylist (xs ++ ys)) p (k.proctab pid).sem s apart)
        | inr diff ↦ rw diff (
            PlacedAs-out k view k.readylist pid xs ys p e (ground arith) (k.proctab p).sem
              (k.proctab p).state (v.placed p lt))
      ];
      counts = λ s lt. ground (arith, v.counts s lt, v.sched.ready_ne_sem s lt);
    }
  where
    member : (q p : ℕ) → has p (update view k.readylist (xs ++ ys) q) ≡ true → has p (view q) ≡ true
    member q p h = ground (arith, has-append p xs ys, has-append p xs (pid ∷ ys), e)

-- `suspend` by a running process, with no rescheduling deferred, keeps the invariant of the kernel, also where it
-- takes a process out of the ready list and where the caller suspends itself.
pub suspend-IsRunning : (pid : ℕ) (k : Kernel) → IsRunning 0 k → IsRunning 0 (suspend pid k).1
unfolding suspend
suspend-IsRunning pid k (view, v, same, on, unused) =
    elim (Bool-cases (isbadpid k.proctab pid || (pid == nullproc))) [
      | inl bad ↦ rw bad (view, v, same, on, unused)
      | inr good ↦ elim (Bool-cases (is_ready (k.proctab pid).state)) [
        | inl waits ↦
            let small : pid < nproc = isbadpid-lt k.proctab pid (ground arith) in
            let r = split_of_has pid (view k.readylist) (v.sched.queued pid small waits) in
            let off : is_curr (k.proctab pid).state ≡ false = ground arith in
            rw (good, waits, off)
              (
                update view k.readylist (r.0 ++ r.1),
                unready-IsKernel v pid PrState.susp r.0 r.1 refl (ground arith) r.2,
                same,
                ground (arith, v.sched.one pid small),
                unused,
              )
        | inr other ↦ elim (Bool-cases (is_curr (k.proctab pid).state)) [
          | inl curr ↦
              let at : pid ≡ k.currpid =
                v.sched.one pid (isbadpid-lt k.proctab pid (ground arith)) curr in
              rw (good, other, curr, at)
                (leave-IsRunning k PrState.susp refl (ground arith) (view, v, same, on, unused))
          | inr idle ↦ rw (good, other, idle) (view, v, same, on, unused)
        ]
      ]
    ]
