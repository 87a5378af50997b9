-- ===== src/Clock/Leave.antt =====
-- `unsleep` keeps the invariant of the tables.
use ece592_final_project.Base.{
  ℕ, ◌≡◌, refl, sym, subst, true, false, List, [], ◌∷◌, ◌++◌, arith, ◌==◌, update, has, has-append,
  All-imp, signed_le,
}
use ece592_final_project.Process.{isbadpid}
use ece592_final_project.Queue.Table.{IsTable, IsLoose}
use ece592_final_project.Queue.Order.{Descending}
use ece592_final_project.Kernel.{Kernel}
use ece592_final_project.Sched.Invariant.{IsSched}
use ece592_final_project.Clock.{is_asleep, unsleep}
use ece592_final_project.Clock.Unsleep.{given, unsleep_lem}

pub Descending-agree :
    (k k' : ℕ → ℕ) (xs : List ℕ)
    → ((a : ℕ) → has a xs ≡ true → k' a ≡ k a)
    → Descending k xs
    → Descending k' xs
Descending-agree k k' [] f d = tt
Descending-agree k k' (x ∷ xs) f d = (
  All-imp (λ y. signed_le (k y) (k x) ≡ true) _ xs (λ a m h. ground (arith, f a, f x)) d.0,
  Descending-agree k k' xs (λ a h. f a (ground arith)) d.1,
)

given-agree : (k : ℕ → ℕ) (pid a : ℕ) (ys : List ℕ) → has a ys ≡ false → given k pid ys a ≡ k a
given-agree k pid a [] h = refl
given-agree k pid a (y ∷ ys) h = ground arith

-- `unsleep` changes the queue table only.
pub unsleep_same :
    (k : Kernel) (pid : ℕ) → (unsleep pid k).1 ≡ record k { queuetab = (unsleep pid k).1.queuetab }
unfolding unsleep
unsleep_same k pid = ground arith

-- `unsleep` of a sleeping process of the sleep queue keeps the invariant of the tables, and leaves the
-- process in no queue and the others in theirs.
pub unsleep-IsSched :
    (k : Kernel) {view : ℕ → List ℕ}
    → IsSched k view
    → (pid : ℕ) (xs ys : List ℕ) → isbadpid k.proctab pid ≡ false
    → is_asleep (k.proctab pid).state ≡ true
    → view k.sleepq ≡ xs ++ (pid ∷ ys)
    → IsSched (unsleep pid k).1 (update view k.sleepq (xs ++ ys))
      × IsLoose pid (update view k.sleepq (xs ++ ys))
unsleep-IsSched k {view} v pid xs ys good asleep e = (
  subst (λ k'. IsSched k' (update view k.sleepq (xs ++ ys))) (sym (unsleep_same k pid))
      (record {
        table = u.1;
        sem_next = v.sem_next;
        ready_qid = v.ready_qid;
        sleep_qid = v.sleep_qid;
        sem_qid = v.sem_qid;
        ready_ne_sleep = v.ready_ne_sleep;
        ready_ne_sem = v.ready_ne_sem;
        sleep_ne_sem = v.sleep_ne_sem;
        sem_inj = v.sem_inj;
        housed = λ q p iq h. v.housed q p iq (member q p h);
        queued = λ p lt h. rw other (v.queued p lt h);
        prios = v.prios;
        running = v.running;
        one = v.one;
        null = v.null;
        ordered =
            rw (other, u.3)
              (Descending-agree k.queuetab.key (given k.queuetab.key pid ys) (view k.readylist)
                (λ a h. given-agree k.queuetab.key pid a ys (not_behind a h)) v.ordered);
      }),
  u.2,
)
  where
    u :
        ((unsleep pid k).0 ≡ 1)
        × IsTable (unsleep pid k).1.queuetab (update view k.sleepq (xs ++ ys))
        × IsLoose pid (update view k.sleepq (xs ++ ys))
        × ((unsleep pid k).1.queuetab.key ≡ given k.queuetab.key pid ys)
    u = unsleep_lem k v.table pid k.sleepq xs ys v.sleep_qid good asleep e

    other : (k.sleepq == k.readylist) ≡ false
    other = ground (arith, v.ready_ne_sleep)

    member : (q p : ℕ) → has p (update view k.sleepq (xs ++ ys) q) ≡ true → has p (view q) ≡ true
    member q p h = ground (arith, has-append p xs ys, has-append p xs (pid ∷ ys), e)

    not_behind : (a : ℕ) → has a (view k.readylist) ≡ true → has a ys ≡ false
    not_behind a h = ground (
      arith,
      v.table.apart k.readylist k.sleepq a v.ready_qid v.sleep_qid v.ready_ne_sleep h,
      has-append a xs (pid ∷ ys),
      e,
    )
