-- ===== src/Sched/Priority.antt =====
-- The scheduling policy: the current process has the highest priority of all that are eligible.
use ece592_final_project.Base.{
  ℕ, ◌<◌, ◌≡◌, refl, subst, inl, inr, true, false, ◌||◌, List, ◌∷◌, arith, ◌==◌, has, All-get,
  Bool-cases, List-cases, signed_lt, signed_le,
}
use ece592_final_project.Process.{nproc}
use ece592_final_project.Queue.{firstkey}
use ece592_final_project.Queue.Table.{IsLoose}
use ece592_final_project.Queue.Refine.{first-view}
use ece592_final_project.Queue.Order.{Descending}
use ece592_final_project.Kernel.{Kernel}
use ece592_final_project.Sched.{is_curr, is_ready, make_ready, switch_to_first, resched}
use ece592_final_project.Sched.Invariant.{IsSched}
use ece592_final_project.Sched.MakeReady.{
  IsLoose-of_curr, with_ready, make_ready_insert, has-with_ready, make_ready-IsSched,
}
use ece592_final_project.Sched.Switch.{switch-IsSched, nonempty_of_off, make_ready-off}

-- The ready list is ordered by the priorities: no `chprio` has changed one that waits in it.
abbrev pub Keyed : Kernel → (ℕ → List ℕ) → Type 0
Keyed k view = (p : ℕ) → has p (view k.readylist) ≡ true → k.queuetab.key p ≡ (k.proctab p).prio

-- No ready process has a higher priority than the current one.
abbrev pub IsHighest : Kernel → Type 0
IsHighest k =
    (p : ℕ)
    → p < nproc
    → is_ready (k.proctab p).state ≡ true
    → signed_le (k.proctab p).prio (k.proctab k.currpid).prio ≡ true

prio-switch : (k : Kernel) (p : ℕ) → ((switch_to_first k).proctab p).prio ≡ (k.proctab p).prio
unfolding switch_to_first
prio-switch k p = ground arith

prio-make_ready :
    (pid : ℕ) (k : Kernel) (p : ℕ) → ((make_ready pid k).proctab p).prio ≡ (k.proctab p).prio
unfolding make_ready
prio-make_ready pid k p = ground arith

readylist-switch : (k : Kernel) → (switch_to_first k).readylist ≡ k.readylist
unfolding switch_to_first
readylist-switch k = refl

readylist-make_ready : (pid : ℕ) (k : Kernel) → (make_ready pid k).readylist ≡ k.readylist
unfolding make_ready
readylist-make_ready pid k = refl

module _ {k : Kernel} {view : ℕ → List ℕ} (v : IsSched k view) (keyed : Keyed k view) where
  switch-IsHighest : is_curr (k.proctab k.currpid).state ≡ false → IsHighest (switch_to_first k)
  switch-IsHighest off p lt h =
      let (x, xs, e) = nonempty_of_off v off in
      let r = switch-IsSched v x xs e off in
      let member : has p xs ≡ true = ground (arith, r.0.queued p lt h, readylist-switch k) in
      let below : signed_le (k.queuetab.key p) (k.queuetab.key x) ≡ true =
        All-get (λ y. signed_le (k.queuetab.key y) (k.queuetab.key x) ≡ true) xs p
          (subst (Descending k.queuetab.key) e v.ordered).0 member in
      ground (arith, r.1, prio-switch k p, prio-switch k x, keyed p, keyed x, e)

  make_ready-Keyed :
      (pid : ℕ) → pid < nproc → IsLoose pid view → Keyed (make_ready pid k) (with_ready v pid)
  make_ready-Keyed pid small loose p h =
      let h' = subst (λ q. has p (with_ready v pid q) ≡ true) (readylist-make_ready pid k) h in
      ground (
        arith,
        h',
        prio-make_ready pid k p,
        (make_ready_insert v pid small loose).1,
        keyed p,
        has-with_ready v p pid k.readylist,
        readylist-make_ready pid k,
      )

module _ {k : Kernel} {view : ℕ → List ℕ} (v : IsSched k view) (keyed : Keyed k view) where
  insert_then-IsHighest :
      is_curr (k.proctab k.currpid).state ≡ true
      → IsHighest (switch_to_first (make_ready k.currpid k))
  insert_then-IsHighest on =
      let loose = IsLoose-of_curr v k.currpid on in
      switch-IsHighest (make_ready-IsSched v k.currpid v.running loose)
        (make_ready-Keyed v keyed k.currpid v.running loose) (make_ready-off k)

  -- Where the current process stays, its priority is above the first key of the ready list.
  stay-IsHighest :
      signed_lt (firstkey k.queuetab k.readylist) (k.proctab k.currpid).prio ≡ true → IsHighest k
  stay-IsHighest above p lt h = elim (List-cases (view k.readylist)) [
    | inl nil ↦ absurd (ground (arith, v.queued p lt h))
    | inr (x, xs, e) ↦
        let first : k.queuetab.next k.readylist ≡ x =
          ground (arith, first-view v.table k.readylist v.ready_qid, e) in
        let below : ((p == x) || signed_le (k.queuetab.key p) (k.queuetab.key x)) ≡ true =
          below_first x xs e p (v.queued p lt h) in
        ground (arith, keyed p (v.queued p lt h))
  ]
    where
      below_first :
          (x : ℕ) (xs : List ℕ)
          → view k.readylist ≡ x ∷ xs
          → (p : ℕ) → has p (view k.readylist) ≡ true
          → ((p == x) || signed_le (k.queuetab.key p) (k.queuetab.key x)) ≡ true
      below_first x xs e p h = elim (Bool-cases (has p xs)) [
        | inl tail ↦ ground (
          arith,
          All-get (λ y. signed_le (k.queuetab.key y) (k.queuetab.key x) ≡ true) xs p
              (subst (Descending k.queuetab.key) e v.ordered).0 tail,
        )
        | inr head ↦ ground arith
      ]

  -- After a `resched` that is not deferred, no ready process has a higher priority than the process
  -- that runs, if the ready list is ordered by the priorities.
  pub resched-IsHighest : k.ndefers ≡ 0 → IsHighest (resched k)
  unfolding resched
  resched-IsHighest none_deferred =
      let now : signed_lt 0 k.ndefers ≡ false = ground arith in
      rw now (elim (Bool-cases (is_curr (k.proctab k.currpid).state)) [
        | inl on ↦
            rw on
              (elim (Bool-cases
                (signed_lt (firstkey k.queuetab k.readylist) (k.proctab k.currpid).prio)) [
                  | inl stay ↦ rw stay (stay-IsHighest stay)
                  | inr go ↦ rw go (insert_then-IsHighest on)
                ])
        | inr off ↦ rw off (switch-IsHighest v keyed off)
      ])
