-- ===== src/Lifetime/Spawn.antt =====
-- `create` and `vcreate` find a free entry, and keep the invariant of the kernel.
use ece592_final_project.Base.{
  add32, update, signed_lt, ◌≢◌, ℕ, zero, suc, ◌+◌, ◌-◌, ◌%◌, ◌<◌, ◌≡◌, refl, ◌⊎◌, inl, inr, true,
  false, arith, ◌==◌, Bool-cases, syserr,
}
use ece592_final_project.Lifetime.{
  allocate_pdpt, pt_start, vcreate, spawn, PrType, Proc, new_entry, stack_size, getstk, Mem,
  is_free, nproc, Kernel, newpid_scan, newpid, create,
}
use ece592_final_project.Sched.Invariant.{IsKernel, IsRunning}
use ece592_final_project.Sched.MakeReady.{IsLoose-of_state}
use ece592_final_project.Sched.Deferral.{IsKernel-counters}
use ece592_final_project.Sched.Block.{set_apart-IsKernel, is_apart}
use ece592_final_project.Queue.{minkey}

-- What `newpid` finds from `first` on in `n` rounds.
abbrev InUse : Kernel → ℕ → ℕ → Type 0
InUse k first n =
    (p : ℕ)
    → p < nproc
    → (p + nproc - first % nproc) % nproc < n
    → is_free (k.proctab p).state ≡ false

newpid_scan_lem :
    (rounds : ℕ) (k : Kernel)
    → let (pid, k') = newpid_scan rounds k in
      (k' ≡ record k { nextpid = k'.nextpid })
      × ((pid < nproc) × (is_free (k.proctab pid).state ≡ true)
          ⊎ (pid ≡ syserr) × (rounds < nproc + 1 → InUse k k.nextpid rounds))
unfolding newpid_scan
newpid_scan_lem zero k = (refl, inr (refl, λ few p lt near. absurd (omega arith)))
newpid_scan_lem (suc rounds) k = elim (Bool-cases (is_free (k.proctab (k.nextpid % nproc)).state)) [
  | inl vacant ↦ rw (newpid_scan, vacant) (refl, inl (omega arith, vacant))
  | inr used ↦
      let ih = newpid_scan_lem rounds (record k { nextpid = k.nextpid % nproc + 1 }) in
      rw (newpid_scan, used)
        (
          ih.0,
          elim ih.1 [
            | inl found ↦ inl found
            | inr (failed, rest) ↦ inr (
              failed,
              λ few p lt near. elim (Bool-cases (p == (k.nextpid % nproc))) [
                | inl here ↦ let at : p ≡ k.nextpid % nproc = ground arith in rw at used
                | inr there ↦
                    rest (omega arith) p lt
                      (further k.nextpid p rounds (omega arith) lt (ground arith) near)
              ],
            )
          ],
        )
]
  where
    further :
        (first p rounds : ℕ)
        → rounds < nproc
        → p < nproc
        → p ≢ first % nproc
        → (p + nproc - first % nproc) % nproc < suc rounds
        → (p + nproc - (first % nproc + 1) % nproc) % nproc < rounds
    further first p rounds few lt ne near = omega arith

-- The failures of a call, and what it does to the heap then
abbrev pub SpawnFails : (ssize priority : ℕ) → Kernel → Mem → Mem → Type 0
SpawnFails ssize priority k m m' =
    let (saddr, taken) = getstk (stack_size ssize) m in
    (signed_lt priority 1 ≡ true) × (m' ≡ m)
    ⊎ ((p : ℕ) → p < nproc → is_free (k.proctab p).state ≡ false) × (m' ≡ m)
    ⊎ (saddr ≡ syserr) × (m' ≡ taken)

pub spawn_lem :
    (ptype : PrType) (directory : Mem → ℕ × Mem) (ssize priority : ℕ) (k : Kernel) (m : Mem)
    → let (pid, k', m') = spawn ptype directory ssize priority k m in
      let (saddr, taken) = getstk (stack_size ssize) m in
      (pid ≡ syserr) × (k' ≡ record k { nextpid = k'.nextpid }) × SpawnFails ssize priority k m m'
      ⊎ (pid < nproc)
        × (is_free (k.proctab pid).state ≡ true)
        × (k'.proctab
            ≡ update k.proctab pid (
                new_entry
                  (k.proctab pid)
                  priority
                  saddr
                  (stack_size ssize)
                  k.currpid
                  ptype
                  (directory taken).0))
        × (k'
            ≡ record k { nextpid = k'.nextpid; prcount = add32 k.prcount 1; proctab = k'.proctab })
        × (m' ≡ (directory taken).1)
unfolding spawn newpid
spawn_lem ptype directory ssize priority k m = elim (Bool-cases (signed_lt priority 1)) [
  | inl low ↦ rw low (inl (refl, refl, inl (refl, refl)))
  | inr high ↦
      let (same, found) = newpid_scan_lem nproc k in
      let pid = (newpid_scan nproc k).0 in
      elim found [
        | inr (failed, rest) ↦
            let bad : (pid == syserr) ≡ true = ground arith in
            rw (high, bad)
              (inl (refl, same, inr (inl (λ p lt. rest (omega arith) p lt (omega arith), refl))))
        | inl (small, vacant) ↦
            let good : (pid == syserr) ≡ false = ground arith in
            elim (Bool-cases ((getstk (stack_size ssize) m).0 == syserr)) [
              | inl full ↦ rw (high, good, full) (inl (refl, same, inr (inr (ground arith, refl))))
              | inr room ↦ rw (high, good, room, same) (inr (small, vacant, refl, refl, refl))
            ]
      ]
]

-- `create` fails, and changes no entry, only for a priority below 1, where every entry of the process
-- table is in use, or where the heap has no room for the stack. Otherwise it returns a process whose
-- entry was free, fills in that entry and no other, counts the process, and takes its stack from the
-- heap.
pub create_lem :
    (ssize priority : ℕ) (k : Kernel) (m : Mem)
    → let (pid, k', m') = create ssize priority k m in
      let (saddr, taken) = getstk (stack_size ssize) m in
      (pid ≡ syserr) × (k' ≡ record k { nextpid = k'.nextpid }) × SpawnFails ssize priority k m m'
      ⊎ (pid < nproc)
        × (is_free (k.proctab pid).state ≡ true)
        × (k'.proctab
            ≡ update k.proctab pid (
                new_entry
                  (k.proctab pid)
                  priority
                  saddr
                  (stack_size ssize)
                  k.currpid
                  PrType.system
                  pt_start))
        × (k'
            ≡ record k { nextpid = k'.nextpid; prcount = add32 k.prcount 1; proctab = k'.proctab })
        × (m' ≡ taken)
unfolding create
create_lem ssize priority k m = spawn_lem PrType.system _ ssize priority k m

positive :
    (ptype : PrType) (directory : Mem → ℕ × Mem) (ssize priority : ℕ) (k : Kernel) (m : Mem)
    → (spawn ptype directory ssize priority k m).0 < nproc
    → signed_lt priority 1 ≡ false
unfolding spawn
positive ptype directory ssize priority k m small = elim (Bool-cases (signed_lt priority 1)) [
  | inl low ↦ absurd (omega (arith, rw low at small))
  | inr high ↦ high
]

apart-new_entry :
    (p : Proc) (priority saddr ssize parent : ℕ) (ptype : PrType) (pdbr : ℕ)
    → is_apart (new_entry p priority saddr ssize parent ptype pdbr).state ≡ 1
unfolding new_entry
apart-new_entry p priority saddr ssize parent ptype pdbr = refl

high-new_entry :
    (p : Proc) (priority saddr ssize parent : ℕ) (ptype : PrType) (pdbr : ℕ)
    → signed_lt priority 1 ≡ false
    → signed_lt minkey (new_entry p priority saddr ssize parent ptype pdbr).prio ≡ true
unfolding new_entry
high-new_entry p priority saddr ssize parent ptype pdbr high = ground arith

spawn-IsRunning :
    (ptype : PrType) (directory : Mem → ℕ × Mem) (n ssize priority : ℕ) (k : Kernel) (m : Mem)
    → IsRunning n k
    → IsRunning n (spawn ptype directory ssize priority k m).1
spawn-IsRunning ptype directory n ssize priority k m (view, v, same, on, unused) =
    let k' = (spawn ptype directory ssize priority k m).1 in
    let pid = (spawn ptype directory ssize priority k m).0 in
    elim (spawn_lem ptype directory ssize priority k m) [
      | inl (failed, counted, why) ↦ rw counted (view, IsKernel-counters v _ refl, same, on, unused)
      | inr (small, vacant, entry, rest, heap) ↦
          let (saddr, taken) = getstk (stack_size ssize) m in
          let p =
            new_entry (k.proctab pid) priority saddr (stack_size ssize) k.currpid ptype
              (directory taken).0 in
          let v1 : IsKernel (record k { proctab = update k.proctab pid p }) view =
            set_apart-IsKernel v.sched v.counts pid p (λ q lt ne. v.placed q lt)
              (apart-new_entry (k.proctab pid) priority _ _ _ _ _)
              (high-new_entry (k.proctab pid) priority _ _ _ _ _
                (positive ptype directory ssize priority k m small))
              (ground (arith, v.sched.null))
              (IsLoose-of_state v.sched pid (λ q home. ground arith)) in
          rw rest (rw entry (view, IsKernel-counters v1 _ refl, same, ground arith, unused))
    ]

-- `create` by a running process keeps the invariant of the kernel.
pub create-IsRunning :
    (n ssize priority : ℕ) (k : Kernel) (m : Mem)
    → IsRunning n k
    → IsRunning n (create ssize priority k m).1
unfolding create
create-IsRunning n ssize priority k m run = spawn-IsRunning PrType.system _ n ssize priority k m run

-- `vcreate` by a running process keeps the invariant of the kernel.
pub vcreate-IsRunning :
    (n ssize priority : ℕ) (k : Kernel) (m : Mem)
    → IsRunning n k
    → IsRunning n (vcreate ssize priority k m).1
unfolding vcreate
vcreate-IsRunning n ssize priority k m run =
    spawn-IsRunning PrType.user allocate_pdpt n ssize priority k m run
