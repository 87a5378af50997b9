-- ===== src/Lifetime/End.antt =====
-- `kill` keeps the invariant of the kernel.
use ece592_final_project.Base.{
  sub32, signed_le, Bool, ℕ, ◌<◌, ◌≡◌, refl, ◌≢◌, inl, inr, true, false, List, ◌∷◌, ◌++◌, arith,
  ◌==◌, ◌||◌, Bool-cases, update, has, split_of_has, add32, length-append,
}
use ece592_final_project.Lifetime.{
  is_free, isbadpid, Mem, Outside, pt_start, Killing, set_count, getitem, PrState, set_state, nproc,
  nullproc, Kernel, retire, kill_notify, kill_end, close_all,
}
use ece592_final_project.Sched.Invariant.{PlacedAs, IsKernel, HomeOf, IsRunning}
use ece592_final_project.Sched.MakeReady.{IsLoose-of_state}
use ece592_final_project.Sched.Block.{
  leave-IsRunning, set_state-IsKernel, set_apart-IsKernel, is_apart,
}
use ece592_final_project.Clock.{unsleep, is_asleep}
use ece592_final_project.Sched.{is_ready}
use ece592_final_project.Clock.Leave.{unsleep_same, unsleep-IsSched}
use ece592_final_project.Sched.Suspend.{unready-IsKernel}
use ece592_final_project.Queue.Table.{IsTable-remove, IsLoose}
use ece592_final_project.Sched.Ready.{out-IsSched, PlacedAs-out}
use ece592_final_project.Kernel.{nsem}
use ece592_final_project.Semaphore.Balance.{counted-Placed, counted, counted-IsSched}
use ece592_final_project.Sched.Deferral.{IsKernel-counters}
use ece592_final_project.Clock.Unsleep.{key-getitem}
use ece592_final_project.Queue.Refine.{length-view}
use ece592_final_project.Message.Invariant.{send-IsRunning}

abbrev is_wait : PrState → Bool
is_wait PrState.wait = true
is_wait _ = false

module _ {n : ℕ} {k : Kernel} (pid : ℕ) (user : pid ≢ nullproc) (small : pid < nproc) where
  -- A process that is in no queue
  retire_apart :
      IsRunning n k
      → is_apart (k.proctab pid).state ≡ 1
      → IsRunning n (set_state pid PrState.free k)
  retire_apart (view, v, same, on, unused) apart =
      (view, set_state-IsKernel v pid PrState.free refl user (loose v), same, ground arith, unused)
    where
      nowhere : (q sem : ℕ) (s : PrState) → is_apart s ≡ 1 → HomeOf k q sem s → ⊥
      nowhere q sem PrState.free h home = home
      nowhere q sem PrState.recv h home = home
      nowhere q sem PrState.susp h home = home
      nowhere q sem PrState.curr h home = home
      nowhere q sem PrState.ready h home = absurd (omega arith)
      nowhere q sem PrState.sleep h home = absurd (omega arith)
      nowhere q sem PrState.rectim h home = absurd (omega arith)
      nowhere q sem PrState.wait h home = absurd (omega arith)

      loose : {view : ℕ → List ℕ} → IsKernel k view → IsLoose pid view
      loose v =
          IsLoose-of_state v.sched pid
            (λ q home. nowhere q (k.proctab pid).sem (k.proctab pid).state apart home)

  -- of the ready list
  retire_ready :
      IsRunning n k
      → is_ready (k.proctab pid).state ≡ true
      → IsRunning n
          (set_state pid PrState.free (record k { queuetab = (getitem pid k.queuetab).1 }))
  retire_ready (view, v, same, on, unused) waits =
      let (xs, ys, e) = split_of_has pid (view k.readylist) (v.sched.queued pid small waits) in
      (
        update view k.readylist (xs ++ ys),
        unready-IsKernel v pid PrState.free xs ys refl user e,
        same,
        ground arith,
        unused,
      )

  -- of the sleep queue
  retire_asleep :
      IsRunning n k
      → is_asleep (k.proctab pid).state ≡ true
      → IsRunning n (set_state pid PrState.free (unsleep pid k).1)
  retire_asleep (view, v, same, on, unused) asleep =
      let (xs, ys, e) = split_of_has pid (view k.sleepq) here in
      let u = unsleep-IsSched k v.sched pid xs ys (ground arith) asleep e in
      let k1 : Kernel = record k { queuetab = (unsleep pid k).1.queuetab } in
      let still = unsleep_same k pid in
      rw still (
        update view k.sleepq (xs ++ ys),
        set_apart-IsKernel (rw still at u.0)
            (λ s lt. ground (arith, v.counts s lt, v.sched.sleep_ne_sem s lt)) pid
            (record (k.proctab pid) { state = PrState.free })
            (λ p lt ne.
              PlacedAs-out k view k.sleepq pid xs ys p e ne (k.proctab p).sem (k.proctab p).state
                (v.placed p lt))
            refl (v.sched.prios pid) user u.1,
        same,
        ground arith,
        unused,
      )
    where
      here : has pid (view k.sleepq) ≡ true
      here = ground (arith, v.placed pid small)

  -- of the queue of a semaphore, whose count goes up
  retire_wait :
      IsRunning n k
      → is_wait (k.proctab pid).state ≡ true
      → let sem = (k.proctab pid).sem in
        let k1 = set_count sem (add32 (k.semtab sem).scount 1) k in
        IsRunning n
          (set_state pid PrState.free (record k1 { queuetab = (getitem pid k1.queuetab).1 }))
  retire_wait (view, v, same, on, unused) waits =
      let sem = (k.proctab pid).sem in
      let q = (k.semtab sem).squeue in
      let (lt, here) = waiting view (k.proctab pid).state (v.placed pid small) waits in
      let (xs, ys, e) = split_of_has pid (view q) here in
      let iq = v.sched.sem_qid sem lt in
      let ne = v.sched.ready_ne_sem sem lt in
      let out = IsTable-remove v.sched.table q xs ys pid iq e in
      let v1 =
        out-IsSched (counted-IsSched v sem lt) q pid xs ys ne e (getitem pid k.queuetab).1 out.0
          (key-getitem pid k.queuetab) in
      (
        update view q (xs ++ ys),
        set_apart-IsKernel v1
            (λ s ls. ground (
              arith,
              v.counts s ls,
              v.counts sem lt,
              length-view v.sched.table q iq,
              length-append xs ys,
              length-append xs (pid ∷ ys),
              e,
              v.sched.sem_inj s sem ls lt,
            ))
            pid (record (k.proctab pid) { state = PrState.free })
            (λ p l diff.
              PlacedAs-out (counted v sem lt) view q pid xs ys p e diff (k.proctab p).sem
                (k.proctab p).state (counted-Placed v sem lt p l))
            refl (v.sched.prios pid) user out.1,
        same,
        ground arith,
        λ s ls. ground (arith, unused s ls, v.counts sem lt, e, length-append xs (pid ∷ ys)),
      )
    where
      waiting :
          (view : ℕ → List ℕ) (s : PrState)
          → PlacedAs k view pid (k.proctab pid).sem s
          → is_wait s ≡ true
          → ((k.proctab pid).sem < nsem)
            × (has pid (view (k.semtab (k.proctab pid).sem).squeue) ≡ true)
      waiting view s h w = ground arith

retire-IsRunning :
    (k : Kernel) (pid : ℕ) (s : PrState)
    → (k.proctab pid).state ≡ s
    → pid ≢ nullproc
    → pid < nproc
    → IsRunning 0 k
    → IsRunning 0 (retire s pid k)
unfolding retire
retire-IsRunning k pid PrState.free e user small run =
    retire_apart pid user small run (ground arith)
retire-IsRunning k pid PrState.recv e user small run =
    retire_apart pid user small run (ground arith)
retire-IsRunning k pid PrState.susp e user small run =
    retire_apart pid user small run (ground arith)
retire-IsRunning k pid PrState.ready e user small run =
    retire_ready pid user small run (ground arith)
retire-IsRunning k pid PrState.sleep e user small run =
    retire_asleep pid user small run (ground arith)
retire-IsRunning k pid PrState.rectim e user small run =
    retire_asleep pid user small run (ground arith)
retire-IsRunning k pid PrState.wait e user small run = retire_wait pid user small run (ground arith)
retire-IsRunning k pid PrState.curr e user small (view, v, same, on, unused) =
    let at : pid ≡ k.currpid = v.sched.one pid small (ground arith) in
    rw at (leave-IsRunning k PrState.free refl (ground arith) (view, v, same, on, unused))

-- The rest of `kill`, of any process but the null process and in whatever state it is by then, keeps
-- the invariant of the kernel, if closing a device does, and a process runs afterwards.
pub kill_end-IsRunning :
    (o : Outside) (pid : ℕ) (k : Kernel) (m : Mem)
    → ((d : ℕ) (k' : Kernel) → IsRunning 0 k' → IsRunning 0 (o.close d k'))
    → pid ≢ nullproc
    → pid < nproc
    → IsRunning 0 k
    → IsRunning 0 (kill_end o pid k m).0
unfolding kill_end close_all
kill_end-IsRunning o pid k m keeps user small run =
    retire-IsRunning (close_all o pid k) pid _ refl user small
      (keeps _ _ (keeps _ _ (keeps _ _ run)))

-- The kernel at the end of the first part of `kill`.
abbrev pub stopped_at : Killing → Kernel
stopped_at (Killing.refused k) = k
stopped_at (Killing.halted k) = k
stopped_at (Killing.notified k) = k

-- The first part of `kill` keeps the invariant on every branch, also where the parent receives the
-- message and runs before the rest.
pub kill_notify-IsRunning :
    (n pid : ℕ) (k : Kernel) → IsRunning n k → IsRunning n (stopped_at (kill_notify pid k))
unfolding kill_notify
kill_notify-IsRunning n pid k (view, v, same, on, unused) =
    let k0 : Kernel = record k { cr3 = pt_start } in
    let run0 : IsRunning n k0 = (view, IsKernel-counters v k0 refl, same, on, unused) in
    elim (Bool-cases
      (isbadpid k.proctab pid || (pid == nullproc) || is_free (k.proctab pid).state)) [
        | inl bad ↦ rw bad run0
        | inr good ↦ elim (Bool-cases (signed_le (sub32 k.prcount 1) 1)) [
          | inl last ↦ rw (good, last) (view, IsKernel-counters v _ refl, same, on, unused)
          | inr others ↦
              let k1 : Kernel = record k0 { prcount = sub32 k.prcount 1 } in
              let run1 : IsRunning n k1 = (view, IsKernel-counters v k1 refl, same, on, unused) in
              rw (good, others) (send-IsRunning n (k.proctab pid).parent pid k1 run1)
        ]
      ]
