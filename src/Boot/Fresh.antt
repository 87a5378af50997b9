-- ===== src/Boot/Fresh.antt =====
-- The invariant at the start of the system, and that `sysinit` reaches it.
use ece592_final_project.Base.{
  ◌/◌, ◌-◌, ltb, ◌⊎◌, ◌≢◌, ℕ, zero, suc, ◌+◌, ◌<◌, ◌≡◌, refl, inl, inr, false, [], arith, ◌==◌,
  Bool-cases,
}
use ece592_final_project.Boot.{
  meminit, ffsmeminit, initialize_page_tables, loaded, Mem, init_null, no_proc, PrState, nullproc,
  Proc, SState, nsem, Kernel, newqueue, nproc, QTab, init_procs, init_sems, clkinit, sysinit,
}
use ece592_final_project.Queue.{newqueue}
use ece592_final_project.Queue.Table.{IsTable, IsQid}
use ece592_final_project.Sched.{is_ready}
use ece592_final_project.Sched.Invariant.{Placed, IsSched, IsRunning}
use ece592_final_project.Boot.Tables.{newqueue_lem, queue_of, IsEmpty, init_sems_lem}
use ece592_final_project.Paging.{initialize_page_tables}

-- A kernel with empty queues in which only the null process lives, and runs.
record IsFresh (k : Kernel) : Type 0 where
  empty_queues : (q : ℕ) → IsQid q → IsEmpty k.queuetab q
  sems :
      (s : ℕ)
      → s < nsem
      → k.semtab s ≡ record { sstate = SState.s_free; scount = 0; squeue = queue_of s }
  ready_at : k.readylist ≡ 300
  sleep_at : k.sleepq ≡ 302
  current : k.currpid ≡ nullproc
  null_runs : (k.proctab nullproc).state ≡ PrState.curr
  no_others : (p : ℕ) → p ≢ nullproc → (k.proctab p).state ≡ PrState.free
  prios : (p : ℕ) → (k.proctab p).prio ≡ 0
  next : k.nextsem ≡ 0
  deferrals : k.ndefers ≡ 0

module _ {k : Kernel} (f : IsFresh k) where
  fresh_states :
      (p : ℕ)
      → (is_ready (k.proctab p).state ≡ false)
        × ((p == nullproc) ≡ false → (k.proctab p).state ≡ PrState.free)
  fresh_states p = elim (Bool-cases (p == nullproc)) [
    | inl same ↦
        let at : p ≡ nullproc = ground arith in
        rw at (ground (arith, f.null_runs), λ h. absurd (ground arith))
    | inr diff ↦ (ground (arith, f.no_others p), λ h. f.no_others p (ground arith))
  ]

  fresh-IsTable : IsTable k.queuetab (λ q. [])
  fresh-IsTable = record {
    links = λ q iq. ((f.empty_queues q iq).0, (f.empty_queues q iq).1);
    distinct = λ q iq. tt;
    members = λ q iq. tt;
    apart = λ q r a iq ir ne h. absurd (ground arith);
    keys = λ q iq. ((f.empty_queues q iq).2, (f.empty_queues q iq).3);
  }

  fresh-IsSched : IsSched k (λ q. [])
  fresh-IsSched = record {
    table = fresh-IsTable;
    sem_next = omega (arith, f.next);
    ready_qid = rw (f.ready_at) (omega arith, omega arith, omega arith);
    sleep_qid = rw (f.sleep_at) (omega arith, omega arith, omega arith);
    sem_qid = λ s lt. rw (f.sems s lt) (omega arith, omega arith, omega arith);
    ready_ne_sleep = rw (f.ready_at, f.sleep_at) (omega arith);
    ready_ne_sem = λ s lt. rw (f.sems s lt, f.ready_at) (omega arith);
    sleep_ne_sem = λ s lt. rw (f.sems s lt, f.sleep_at) (omega arith);
    sem_inj = λ s r ls lr e. ground (arith, f.sems s ls, f.sems r lr);
    housed = λ q p iq h. absurd (ground arith);
    queued = λ p lt h. absurd (ground (arith, fresh_states p));
    prios = λ p. rw (f.prios p) refl;
    running = omega (arith, f.current);
    one = λ p lt h. rw (f.current) (ground (arith, fresh_states p));
    null = rw (f.null_runs) refl;
    ordered = tt;
  }

  fresh-Placed : (p : ℕ) → Placed k (λ q. []) p
  fresh-Placed p = elim (Bool-cases (p == nullproc)) [
    | inl same ↦ let at : p ≡ nullproc = ground arith in rw (at, f.null_runs) tt
    | inr diff ↦ rw (f.no_others p (ground arith)) tt
  ]

  fresh-IsRunning : IsRunning 0 k
  fresh-IsRunning = (
    (λ q. []),
    record {
      sched = fresh-IsSched;
      placed = λ p lt. fresh-Placed p;
      counts = λ s lt. rw (f.sems s lt) (omega arith, λ h. absurd (ground arith), λ h. refl);
    },
    f.deferrals,
    rw (f.current, f.null_runs) refl,
    λ s lt h. rw (f.sems s lt) refl,
  )

init_procs_lem :
    (rounds i : ℕ) (proctab : ℕ → Proc)
    → ((p : ℕ) → proctab p ≡ no_proc)
    → (p : ℕ) → init_procs rounds i proctab p ≡ no_proc
unfolding init_procs
init_procs_lem zero i proctab h p = h p
init_procs_lem (suc rounds) i proctab h p =
    init_procs_lem rounds (i + 1) _ (λ q. ground (arith, h q, h i)) p

-- The ready list and the sleep queue are the last two.
two_queues :
    (t : QTab)
    → ((s : ℕ) → s < nsem → IsEmpty t (queue_of s))
    → let (q, next, t1) = newqueue 300 t in
      let (r, next', t2) = newqueue 302 t1 in
      (q ≡ 300) × (next ≡ 302) × (r ≡ 302) × ((p : ℕ) → IsQid p → IsEmpty t2 p)
two_queues t sems =
    let (first, next, new_empty, others) =
      newqueue_lem t 300 (omega arith, omega arith, omega arith) in
    let t1 = (newqueue 300 t).2 in
    let (second, next', new_empty', others') =
      newqueue_lem t1 302 (omega arith, omega arith, omega arith) in
    (
      first,
      next,
      second,
      λ p ip. elim (place p ip) [
        | inl last ↦ rw last new_empty'
        | inr (inl e) ↦ others' p ip (rw e new_empty)
        | inr (inr (s, lt, e)) ↦ others' p ip (others p ip (rw e (sems s lt)))
      ],
    )
  where
    place : (p : ℕ) → IsQid p → (p ≡ 302) ⊎ (p ≡ 300) ⊎ (s : ℕ) × (s < nsem) × (p ≡ queue_of s)
    place p ip = elim (Bool-cases (ltb p 300)) [
      | inl low ↦ inr (inr ((p - nproc) / 2, ground arith, ground arith))
      | inr high ↦ elim (Bool-cases (p == 300)) [
        | inl e ↦ inr (inl (ground arith))
        | inr ne ↦ inl (ground arith)
      ]
    ]

sysinit-IsFresh : (end : ℕ) (m : Mem) → IsFresh (sysinit end m).0
unfolding sysinit init_null clkinit initialize_page_tables
sysinit-IsFresh end m =
    let m1 = ffsmeminit (meminit end m) in
    let k1 : Kernel = record loaded {
      prcount = 1;
      ndefers = 0;
      proctab = init_procs nproc 0 loaded.proctab;
    } in
    let k2 : Kernel = (init_null k1 m1).0 in
    let entry = init_procs_lem nproc 0 loaded.proctab (λ p. refl) in
    let (nextqid, same, before, sems, others, queues) = init_sems_lem nsem 0 k2 (omega arith) in
    let t = (init_sems nsem 0 nproc k2).1.queuetab in
    let (q, next, r, all_empty) = two_queues t (λ s lt. queues s (omega arith) (omega arith)) in
    rw (nextqid, q, next, r, same)
      (record {
        empty_queues = all_empty;
        sems = λ s lt. sems s (omega arith) (omega arith);
        ready_at = refl;
        sleep_at = refl;
        current = refl;
        null_runs = refl;
        no_others = λ p ne. ground (arith, entry p);
        prios = λ p. ground (arith, entry p);
        next = refl;
        deferrals = refl;
      })

-- After the initialisation of the tables, whatever the memory is, the invariant of the kernel holds with
-- all its queues empty, and the null process runs.
pub sysinit-IsRunning : (end : ℕ) (m : Mem) → IsRunning 0 (sysinit end m).0
sysinit-IsRunning end m = fresh-IsRunning (sysinit-IsFresh end m)
