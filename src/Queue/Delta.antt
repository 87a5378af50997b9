-- ===== src/Queue/Delta.antt =====
-- `insertd` on the delta list: where it links the process, and that every delay is kept.

use ece592_final_project.Base.{
  ℕ, zero, suc, ◌+◌, ◌≤◌, ◌<◌, ◌≡◌, refl, inl, inr, true, false, List, [], ◌∷◌, ◌++◌, arith, ◌==◌,
  update, if◌then◌else◌, has, All, Distinct, Bool-cases, length, signed_le, sub32, ok,
}
use ece592_final_project.Process.{Proc, nproc, isbadpid}
use ece592_final_project.Queue.{QTab, Place, nqent, splice, insertd_scan, insertd}
use ece592_final_project.Queue.Links.{Links, head_or, last_or, next_of_Links}
use ece592_final_project.Queue.Table.{
  IsQid, IsTable, IsLoose, IsTable-insert, IsTable-key, not-has_of_le,
}
use ece592_final_project.Queue.Refine.{isbadqid-IsQid, isbadpid-lt, length-view, first-view}

-- Where the loop of `insertd` stops, and what is left of the key there.
abbrev pub dfront : (ℕ → ℕ) → ℕ → List ℕ → List ℕ
dfront k key [] = []
dfront k key (x ∷ xs) = if signed_le (k x) key then x ∷ dfront k (sub32 key (k x)) xs else []

abbrev pub dback : (ℕ → ℕ) → ℕ → List ℕ → List ℕ
dback k key [] = []
dback k key (x ∷ xs) = if signed_le (k x) key then dback k (sub32 key (k x)) xs else x ∷ xs

abbrev pub drest : (ℕ → ℕ) → ℕ → List ℕ → ℕ
drest k key [] = key
drest k key (x ∷ xs) = if signed_le (k x) key then drest k (sub32 key (k x)) xs else key

-- The queue and the keys that `insertd` leaves.
abbrev pub dplace : (ℕ → ℕ) → ℕ → ℕ → List ℕ → List ℕ
dplace k pid key xs = dfront k key xs ++ (pid ∷ dback k key xs)

abbrev pub dkeys : (ℕ → ℕ) → ℕ → ℕ → List ℕ → ℕ → ℕ
dkeys k pid rest [] = update k pid rest
dkeys k pid rest (b ∷ bs) = update (update k pid rest) b (sub32 (update k pid rest b) rest)

pub dfront-append-dback :
    (k : ℕ → ℕ) (key : ℕ) (xs : List ℕ) → xs ≡ dfront k key xs ++ dback k key xs
dfront-append-dback k key [] = refl
dfront-append-dback k key (x ∷ xs) = ground (arith, dfront-append-dback k (sub32 key (k x)) xs)

abbrev place : ℕ → ℕ → ℕ → Place
place k p n = record { key = k; prev = p; next = n }

insertd_scan-dback :
    (t : QTab) (q : ℕ) (xs : List ℕ) (key p fuel : ℕ)
    → Links t.next t.prev p xs (q + 1)
    → has (q + 1) xs ≡ false
    → length xs < fuel
    → insertd_scan fuel t q (place key p (head_or (q + 1) xs))
      ≡ place
          (drest t.key key xs)
          (last_or p (dfront t.key key xs))
          (head_or (q + 1) (dback t.key key xs))
unfolding insertd_scan
insertd_scan-dback t q xs key p zero l out f = absurd (omega arith)
insertd_scan-dback t q [] key p (suc fuel) l out f =
    let done : ((q + 1) == (q + 1)) ≡ true = ground arith in rw (done, insertd_scan)
insertd_scan-dback t q (x ∷ xs) key p (suc fuel) l out f =
    let far : (x == (q + 1)) ≡ false = ground arith in
    elim (Bool-cases (signed_le (t.key x) key)) [
      | inl go ↦
          rw (far, go, insertd_scan, next_of_Links t.next t.prev x xs (q + 1) l.2)
            (insertd_scan-dback t q xs (sub32 key (t.key x)) x fuel l.2 (ground arith)
              (omega arith))
      | inr stop ↦ rw (far, stop, insertd_scan)
    ]

-- The stores that end `insertd`, in both cases of its last test.
insertd_stores :
    (t : QTab) (pid u n r : ℕ) (bs : List ℕ)
    → has n bs ≡ false
    → (let t' = splice pid u (head_or n bs) (record t { key = update t.key pid r }) in
        if head_or n bs == n
        then t'
        else record t' { key = update t'.key (head_or n bs) (sub32 (t'.key (head_or n bs)) r) })
      ≡ splice pid u (head_or n bs) (record t { key = dkeys t.key pid r bs })
insertd_stores t pid u n r [] out = let same : (n == n) ≡ true = ground arith in rw same
insertd_stores t pid u n r (b ∷ bs) out = let diff : (b == n) ≡ false = ground arith in rw diff

dkeys_spare :
    (k : ℕ → ℕ) (pid r : ℕ) (bs : List ℕ)
    → pid < nproc
    → All (λ x. x < nproc) bs
    → (a : ℕ) → nproc ≤ a
    → dkeys k pid r bs a ≡ k a
dkeys_spare k pid r [] small h a le = ground arith
dkeys_spare k pid r (b ∷ bs) small h a le = ground arith

pub has-dback :
    (k : ℕ → ℕ) (a key : ℕ) (xs : List ℕ) → has a xs ≡ false → has a (dback k key xs) ≡ false
has-dback k a key [] h = refl
has-dback k a key (x ∷ xs) h = ground (arith, has-dback k a (sub32 key (k x)) xs)

All-dback {ℓ} :
    (P : ℕ → Type ℓ) (k : ℕ → ℕ) (key : ℕ) (xs : List ℕ) → All P xs → All P (dback k key xs)
All-dback P k key [] h = h
All-dback P k key (x ∷ xs) h = elim (Bool-cases (signed_le (k x) key)) [
  | inl go ↦ rw go (All-dback P k (sub32 key (k x)) xs h.1)
  | inr stop ↦ rw stop h
]

-- `insertd` of a live process that is in no queue links it at the place that its delay asks for,
-- stores the rest of the delay as its key, takes that rest from the key of the process behind it,
-- and leaves the other queues as they are.
pub insertd_refines :
    {t : QTab} {view : ℕ → List ℕ}
    → IsTable t view
    → (proctab : ℕ → Proc) (pid q key : ℕ) → IsQid q
    → isbadpid proctab pid ≡ false
    → IsLoose pid view
    → ((insertd proctab pid q key t).0 ≡ ok)
      × IsTable (insertd proctab pid q key t).1 (update view q (dplace t.key pid key (view q)))
      × ((insertd proctab pid q key t).1.key
          ≡ dkeys t.key pid (drest t.key key (view q)) (dback t.key key (view q)))
unfolding insertd
insertd_refines {t} {view} w proctab pid q key iq good loose =
    rw
      (
        isbadqid-IsQid iq,
        good,
        first-view w q iq,
        found,
        insertd_stores t pid (last_or q (dfront t.key key (view q))) (q + 1)
            (drest t.key key (view q)) (dback t.key key (view q))
            (has-dback t.key (q + 1) key (view q) out),
      )
      (
        refl,
        IsTable-insert (IsTable-key w keys spare) q (dfront t.key key (view q))
            (dback t.key key (view q)) pid (last_or q (dfront t.key key (view q)))
            (head_or (q + 1) (dback t.key key (view q))) iq split refl refl small loose,
        refl,
      )
  where
    out : has (q + 1) (view q) ≡ false
    out = not-has_of_le (q + 1) (view q) (w.members q iq) (omega arith)

    small : pid < nproc
    small = isbadpid-lt proctab pid good

    found :
        insertd_scan nqent t q (place key q (head_or (q + 1) (view q)))
        ≡ place
            (drest t.key key (view q))
            (last_or q (dfront t.key key (view q)))
            (head_or (q + 1) (dback t.key key (view q)))
    found =
        insertd_scan-dback t q (view q) key q nqent (w.links q iq) out
          (omega (arith, length-view w q iq))

    split : view q ≡ dfront t.key key (view q) ++ dback t.key key (view q)
    split = dfront-append-dback t.key key (view q)

    keys : ℕ → ℕ
    keys = dkeys t.key pid (drest t.key key (view q)) (dback t.key key (view q))

    spare : (a : ℕ) → nproc ≤ a → keys a ≡ t.key a
    spare =
        dkeys_spare t.key pid (drest t.key key (view q)) (dback t.key key (view q)) small
          (All-dback (λ x. x < nproc) t.key key (view q) (w.members q iq))

-- Ticks until process `a` of a delta list wakes: the sum of the keys up to its own.
abbrev pub delay : (ℕ → ℕ) → ℕ → List ℕ → ℕ
delay k a [] = 0
delay k a (x ∷ xs) = k x + (if a == x then 0 else delay k a xs)

-- Every key is a non-negative int32.
abbrev pub Small : (ℕ → ℕ) → List ℕ → Type 0
Small k = All (λ x. k x < 0x8000_0000)

pub delay-agree :
    (k k' : ℕ → ℕ) (a : ℕ) (xs : List ℕ)
    → ((b : ℕ) → has b xs ≡ true → k' b ≡ k b)
    → delay k' a xs ≡ delay k a xs
delay-agree k k' a [] f = refl
delay-agree k k' a (x ∷ xs) f =
    ground (arith, f x, delay-agree k k' a xs (λ b h. f b (ground arith)))

module _ (k : ℕ → ℕ) (pid : ℕ) where
  dkeys_same :
      (a key : ℕ) (xs : List ℕ)
      → (a == pid) ≡ false
      → has a (dback k key xs) ≡ false
      → dkeys k pid (drest k key xs) (dback k key xs) a ≡ k a
  dkeys_same a key [] ne out = ground arith
  dkeys_same a key (x ∷ xs) ne out = elim (Bool-cases (signed_le (k x) key)) [
    | inl go ↦ rw go (dkeys_same a (sub32 key (k x)) xs ne (rw go at out))
    | inr stop ↦ rw stop (ground arith)
  ]

  -- The new process waits `key` ticks.
  delay-dplace_self :
      (key : ℕ) (xs : List ℕ)
      → has pid xs ≡ false
      → Distinct xs
      → Small k xs
      → key < 0x8000_0000
      → delay (dkeys k pid (drest k key xs) (dback k key xs)) pid (dplace k pid key xs) ≡ key
  delay-dplace_self key [] out d s small = ground arith
  delay-dplace_self key (x ∷ xs) out d s small = elim (Bool-cases (signed_le (k x) key)) [
    | inl go ↦ rw go (
        ground (
          arith,
          delay-dplace_self (sub32 key (k x)) xs,
          dkeys_same x (sub32 key (k x)) xs,
          has-dback k x (sub32 key (k x)) xs,
        ))
    | inr stop ↦ rw stop (ground arith)
  ]

  -- The others wait as long as before.
  delay-dplace_ne :
      (a key : ℕ) (xs : List ℕ)
      → has pid xs ≡ false
      → Distinct xs
      → Small k xs
      → key < 0x8000_0000
      → has a xs ≡ true
      → delay (dkeys k pid (drest k key xs) (dback k key xs)) a (dplace k pid key xs) ≡ delay k a xs
  delay-dplace_ne a key [] out d s small h = ground arith
  delay-dplace_ne a key (x ∷ xs) out d s small h = elim (Bool-cases (signed_le (k x) key)) [
    | inl go ↦ rw go (
        ground (
          arith,
          delay-dplace_ne a (sub32 key (k x)) xs,
          dkeys_same x (sub32 key (k x)) xs,
          has-dback k x (sub32 key (k x)) xs,
        ))
    | inr stop ↦
        rw stop
          (ground (arith, delay-agree k (dkeys k pid key (x ∷ xs)) a xs (λ b m. ground arith)))
  ]

-- `insertd` of a live process that is in no queue, with a delay of `key` ticks, links it into the delta
-- list and leaves the other queues as they are; along the list that is linked then the process waits
-- `key` ticks, and every other process of the list waits as long as before. The delay and the keys of
-- the list are not negative.
pub insertd_delays :
    {t : QTab} {view : ℕ → List ℕ}
    → IsTable t view
    → (proctab : ℕ → Proc) (pid q key : ℕ) → IsQid q
    → isbadpid proctab pid ≡ false
    → IsLoose pid view
    → Small t.key (view q)
    → key < 0x8000_0000
    → let (r, t') = insertd proctab pid q key t in
      (r ≡ ok)
      × IsTable t' (update view q (dplace t.key pid key (view q)))
      × (delay t'.key pid (dplace t.key pid key (view q)) ≡ key)
      × ((a : ℕ)
          → has a (view q) ≡ true
          → delay t'.key a (dplace t.key pid key (view q)) ≡ delay t.key a (view q))
insertd_delays {t} {view} w proctab pid q key iq good loose s small =
    let (done, linked, keys) = insertd_refines w proctab pid q key iq good loose in
    rw keys (
      done,
      linked,
      delay-dplace_self t.key pid key (view q) (loose q iq) (w.distinct q iq) s small,
      λ a h. delay-dplace_ne t.key pid a key (view q) (loose q iq) (w.distinct q iq) s small h,
    )
