-- ===== src/Lifetime/Space.antt =====
-- The address space of a process that `vcreate` makes.
use ece592_final_project.Base.{
  true, ℕ, ◌+◌, ◌-◌, ◌*◌, ◌%◌, ◌≤◌, ◌<◌, ◌≡◌, ◌≢◌, refl, ◌⊎◌, inl, inr, arith, ◌∙◌, update, modulus,
  syserr, some, none, List, ap,
}
use ece592_final_project.Process.{PrType, nproc, is_free}
use ece592_final_project.Kernel.{Kernel}
use ece592_final_project.Memory.{Mem, Block, getstk}
use ece592_final_project.Paging.{allocate_pdpt}
use ece592_final_project.Paging.Build.{HasPages}
use ece592_final_project.Paging.Space.{
  translate, LiesBelow, LiesBelow-stores, allocate_pdpt_lem, allocate_pdpt-LiesBelow,
}
use ece592_final_project.Lifetime.{spawn, Proc, vcreate, new_entry, stack_size}
use ece592_final_project.Lifetime.Spawn.{spawn_lem, SpawnFails}

getstk_pages :
    (n : ℕ) (m : Mem) → let m' = (getstk n m).1 in (m'.pdtlist ≡ m.pdtlist) × (m'.words ≡ m.words)
unfolding getstk
getstk_pages n m = ground arith

untaken :
    (ssize priority : ℕ) (k : Kernel) (m m' : Mem)
    → SpawnFails ssize priority k m m'
    → (m'.pdtlist ≡ m.pdtlist) × (m'.words ≡ m.words)
untaken ssize priority k m m' (inl (low, e)) = rw e (refl, refl)
untaken ssize priority k m m' (inr (inl (full, e))) = rw e (refl, refl)
untaken ssize priority k m m' (inr (inr (small, e))) = rw e (getstk_pages (stack_size ssize) m)

pdbr-new_entry :
    (p : Proc) (priority saddr ssize parent : ℕ) (ptype : PrType) (pdbr : ℕ)
    → (new_entry p priority saddr ssize parent ptype pdbr).pdbr ≡ pdbr
unfolding new_entry
pdbr-new_entry p priority saddr ssize parent ptype pdbr = refl

entry_here : (f : ℕ → Proc) (i : ℕ) (p : Proc) → update f i p i ≡ p
entry_here f i p = ground arith

-- `vcreate`, called while the list of page tables starts with an aligned block of more than 9 pages at
-- `a`, fails with SYSERR and takes no page, or returns a process with a directory of its own at `a`:
-- the first 32 MB are translated to themselves and nothing else is, and all of it lies in the 9 pages
-- that are taken from the block. Every directory that lies below `a` translates every address as
-- before, and no entry but that of the new process changes.
pub vcreate_lem :
    (ssize priority : ℕ) (k : Kernel) (m : Mem) (a n : ℕ) (bs : List Block)
    → HasPages a n bs m
    → 4096 * 9 < n
    → a + n ≤ modulus
    → a % 4096 ≡ 0
    → let (pid, k', m') = vcreate ssize priority k m in
      (pid ≡ syserr) × (k'.proctab ≡ k.proctab) × HasPages a n bs m' × (m'.words ≡ m.words)
      ⊎ (pid < nproc)
        × (is_free (k.proctab pid).state ≡ true)
        × ((q : ℕ) → q ≢ pid → k'.proctab q ≡ k.proctab q)
        × ((k'.proctab pid).pdbr ≡ a)
        × ((v : ℕ) → v < 8 * 0x40_0000 → translate m'.words a v ≡ some v)
        × ((v : ℕ) → 8 * 0x40_0000 ≤ v → v < modulus → translate m'.words a v ≡ none)
        × LiesBelow (a + 4096 * 9) a m'.words
        × HasPages (a + 4096 * 9) (n - 4096 * 9) bs m'
        × ((cr3 : ℕ)
            → LiesBelow a cr3 m.words
            → LiesBelow a cr3 m'.words
              × ((v : ℕ) → v < modulus → translate m'.words cr3 v ≡ translate m.words cr3 v))
unfolding vcreate
vcreate_lem ssize priority k m a n bs free more room aligned =
    let taken = (getstk (stack_size ssize) m).1 in
    let pid = (spawn PrType.user allocate_pdpt ssize priority k m).0 in
    let (pages, words) = getstk_pages (stack_size ssize) m in
    elim (spawn_lem PrType.user allocate_pdpt ssize priority k m) [
      | inl (failed, counted, why) ↦
          let (same, still) = untaken ssize priority k m _ why in
          inl (failed, ap (λ x. x.proctab) counted, ap (λ l. l.blocks) same ∙ free, still)
      | inr (small, vacant, entry, rest, heap) ↦
          let p =
            new_entry (k.proctab pid) priority (getstk (stack_size ssize) m).0 (stack_size ssize)
              k.currpid PrType.user (allocate_pdpt taken).0 in
          let free1 : HasPages a n bs taken = ap (λ l. l.blocks) pages ∙ free in
          let (at, inside, beyond, out, left, only) =
            allocate_pdpt_lem taken a n bs free1 more room aligned in
          let low = allocate_pdpt-LiesBelow taken a n bs free1 more room aligned in
          rw heap (
            inr (
              small,
              vacant,
              λ q ne. ap (λ g. g q) entry ∙ ground arith,
              ap (λ g. (g pid).pdbr) entry
                  ∙ ap (λ q. q.pdbr) (entry_here k.proctab pid p)
                  ∙ pdbr-new_entry (k.proctab pid) priority _ _ _ _ _
                  ∙ at,
              λ v lt. rw at at (inside v lt),
              λ v ge lt. rw at at (beyond v ge lt),
              low,
              left,
              λ cr3 lies.
                  LiesBelow-stores a cr3 m.words _ (λ x lt. out x (inl lt) ∙ ap (λ w. w x) words)
                    lies,
            ))
    ]
