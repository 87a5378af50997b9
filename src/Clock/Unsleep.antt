-- ===== src/Clock/Unsleep.antt =====
-- `unsleep`: a process leaves the delta list, and the others wake when they would have.
use ece592_final_project.Base.{
  ℕ, ◌+◌, ◌≤◌, ◌<◌, ◌≡◌, refl, subst, true, false, List, [], ◌∷◌, ◌++◌, arith, update,
  if◌then◌else◌, has, has-append, All, Distinct, signed_lt, add32, ok,
}
use ece592_final_project.Process.{nproc, isbadpid}
use ece592_final_project.Queue.{QTab, getitem}
use ece592_final_project.Queue.Links.{Links, head_or, next_of_Links, Links-tail}
use ece592_final_project.Queue.Table.{IsQid, IsTable, IsLoose, IsTable-remove, IsTable-key}
use ece592_final_project.Queue.Delta.{delay, Small, delay-agree}
use ece592_final_project.Kernel.{Kernel}
use ece592_final_project.Clock.{is_asleep, unsleep}

-- The keys that `unsleep` leaves: the rest of the delay goes to the process behind, if there is one.
abbrev pub given : (ℕ → ℕ) → ℕ → List ℕ → ℕ → ℕ
given k pid [] = k
given k pid (y ∷ ys) = update k y (add32 (k y) (k pid))

given_spare :
    (k : ℕ → ℕ) (pid : ℕ) (ys : List ℕ)
    → All (λ x. x < nproc) ys
    → (a : ℕ) → nproc ≤ a
    → given k pid ys a ≡ k a
given_spare k pid [] h a le = refl
given_spare k pid (y ∷ ys) h a le = ground arith

All-behind :
    (xs : List ℕ) (y : ℕ) (ys : List ℕ)
    → All (λ x. x < nproc) (xs ++ (y ∷ ys))
    → (y < nproc) × All (λ x. x < nproc) ys
All-behind [] y ys h = h
All-behind (x ∷ xs) y ys h = All-behind xs y ys h.1

-- The test and the store at the start of `unsleep`.
unsleep_keys :
    (t : QTab) (pid n : ℕ) (ys : List ℕ)
    → nproc ≤ n
    → n < 1000
    → All (λ x. x < nproc) ys
    → (if signed_lt (head_or n ys) nproc
        then record t {
          key = update t.key (head_or n ys) (add32 (t.key (head_or n ys)) (t.key pid));
        }
        else t)
      ≡ record t { key = given t.key pid ys }
unsleep_keys t pid n [] le small h =
    let out : signed_lt n nproc ≡ false = ground arith in rw out refl
unsleep_keys t pid n (y ∷ ys) le small h =
    let here : signed_lt y nproc ≡ true = ground arith in rw here refl

pub key-getitem : (pid : ℕ) (t : QTab) → (getitem pid t).1.key ≡ t.key
unfolding getitem
key-getitem pid t = refl

-- `unsleep` of a sleeping process takes it out of the queue that holds it, adds its key to that of the
-- process behind it, leaves the other queues as they are, and returns OK.
pub unsleep_lem :
    (k : Kernel) {view : ℕ → List ℕ}
    → IsTable k.queuetab view
    → (pid q : ℕ) (xs ys : List ℕ) → IsQid q
    → isbadpid k.proctab pid ≡ false
    → is_asleep (k.proctab pid).state ≡ true
    → view q ≡ xs ++ (pid ∷ ys)
    → ((unsleep pid k).0 ≡ ok)
      × IsTable (unsleep pid k).1.queuetab (update view q (xs ++ ys))
      × IsLoose pid (update view q (xs ++ ys))
      × ((unsleep pid k).1.queuetab.key ≡ given k.queuetab.key pid ys)
unfolding unsleep
unsleep_lem k {view} w pid q xs ys iq good asleep e =
    rw
      (
        good,
        asleep,
        next,
        unsleep_keys k.queuetab pid (q + 1) ys (omega arith) (omega arith) behind.1,
        key-getitem,
      )
      (refl, out.0, out.1, refl)
  where
    next : k.queuetab.next pid ≡ head_or (q + 1) ys
    next = next_of_Links k.queuetab.next k.queuetab.prev pid ys (q + 1) (
        Links-tail k.queuetab.next k.queuetab.prev q xs pid ys (q + 1)
          (subst (λ zs. Links k.queuetab.next k.queuetab.prev q zs (q + 1)) e (w.links q iq)))

    behind : (pid < nproc) × All (λ x. x < nproc) ys
    behind = All-behind xs pid ys (subst (All (λ x. x < nproc)) e (w.members q iq))

    spare : IsTable (record k.queuetab { key = given k.queuetab.key pid ys }) view
    spare = IsTable-key w (given k.queuetab.key pid ys) (given_spare k.queuetab.key pid ys behind.1)

    out :
        (IsTable
          (getitem pid (record k.queuetab { key = given k.queuetab.key pid ys })).1
          (update view q (xs ++ ys)))
        × IsLoose pid (update view q (xs ++ ys))
    out = IsTable-remove spare q xs ys pid iq e

delay-given :
    (k : ℕ → ℕ) (pid a : ℕ) (xs ys : List ℕ)
    → Distinct (xs ++ (pid ∷ ys))
    → Small k (xs ++ (pid ∷ ys))
    → has a (xs ++ ys) ≡ true
    → delay (given k pid ys) a (xs ++ ys) ≡ delay k a (xs ++ (pid ∷ ys))
delay-given k pid a [] [] d s h = ground arith
delay-given k pid a [] (y ∷ ys) d s h =
    ground (arith, delay-agree k (given k pid (y ∷ ys)) a ys (λ b m. ground arith))
delay-given k pid a (x ∷ xs) [] d s h =
    ground (arith, delay-given k pid a xs [], has-append pid xs [], has-append x xs (pid ∷ []))
delay-given k pid a (x ∷ xs) (y ∷ ys) d s h = ground (
  arith,
  delay-given k pid a xs (y ∷ ys),
  has-append x xs (pid ∷ y ∷ ys),
  has-append pid xs (y ∷ ys),
)

-- After `unsleep` of a process of the delta list every other process of the list waits as long as
-- before, if no key of the list is negative.
unsleep_delays :
    (k : Kernel) {view : ℕ → List ℕ}
    → IsTable k.queuetab view
    → (pid a q : ℕ) (xs ys : List ℕ) → IsQid q
    → isbadpid k.proctab pid ≡ false
    → is_asleep (k.proctab pid).state ≡ true
    → view q ≡ xs ++ (pid ∷ ys)
    → Small k.queuetab.key (view q)
    → has a (xs ++ ys) ≡ true
    → delay (unsleep pid k).1.queuetab.key a (xs ++ ys) ≡ delay k.queuetab.key a (view q)
unsleep_delays k {view} w pid a q xs ys iq good asleep e s h =
    rw ((unsleep_lem k w pid q xs ys iq good asleep e).3, e)
      (delay-given k.queuetab.key pid a xs ys (subst Distinct e (w.distinct q iq))
        (subst (Small k.queuetab.key) e s) h)
