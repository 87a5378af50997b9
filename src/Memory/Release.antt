-- ===== src/Memory/Release.antt =====
-- `freemem`, `freeptmem` and `freeffsmem` give a range back, and refuse one that is already free.
use ece592_final_project.Base.{
  ℕ, ◌+◌, ◌≤◌, ◌<◌, ◌≡◌, refl, ◌⊎◌, inl, inr, true, false, ◌||◌, Option, none, some, List, [], ◌∷◌,
  arith, ltb, ◌==◌, Bool-cases, roundmb, syserr, ok, add32,
}
use ece592_final_project.Memory.{
  Block, MemList, Mem, block, join_next, runs_into, release_after, settle_first, release, freemem,
  freeptmem, freeffsmem, count_bytes,
}
use ece592_final_project.Memory.Free.{IsFree, not-covers_of_lt}
use ece592_final_project.Memory.Settle.{
  IsRange, Freed, Overlaps, Released, join_next-Joined, room, release_after-Released, next-before,
}

module _ (blk n : ℕ) where
  settle_first-Released :
      (lo : ℕ) (l : MemList)
      → IsRange lo blk n
      → IsFree lo l.blocks
      → IsFree blk l.blocks
      → (settle_first blk n l ≡ none) × Overlaps blk n l.blocks
        ⊎ (settle_first blk n l ≡ some (record l { blocks = join_next (block blk n) l.blocks }))
          × Freed lo blk n l.blocks (join_next (block blk n) l.blocks)
  unfolding settle_first
  settle_first-Released lo l r f after = elim (Bool-cases (runs_into blk n l.blocks)) [
    | inl over ↦ inl (rw over, strike l.blocks after over)
    | inr clear ↦
        let f' = room blk n l.blocks after r.below clear in
        let nonzero : (0 == blk) ≡ false = ground (arith, r.pos) in
        let j =
          join_next-Joined lo (block blk n) l.blocks r.from r.size r.addr_aligned r.size_aligned
            r.below f' in
        inr (
          rw (clear, nonzero),
          record {
            valid = j.valid;
            bytes_back = omega (arith, j.sum);
            covered = λ x. ground (arith, j.covered x);
            was_used = λ x w. ground (arith, not-covers_of_lt (blk + n) x l.blocks f');
          },
        )
  ]
    where
      strike : (bs : List Block) → IsFree blk bs → runs_into blk n bs ≡ true → Overlaps blk n bs
      strike [] g e = absurd (ground arith)
      strike (b ∷ bs) g e = (b.addr, ground (arith, r.below), ground arith)

  abbrev pub ReleasedList : ℕ → MemList → Option MemList → Type 0
  ReleasedList lo l none = Overlaps blk n l.blocks
  ReleasedList lo l (some l') = Freed lo blk n l.blocks l'.blocks × (l'.mlength ≡ l.mlength)

  first :
      (lo : ℕ) (l : MemList)
      → IsRange lo blk n
      → IsFree lo l.blocks
      → IsFree blk l.blocks
      → ReleasedList lo l (settle_first blk n l)
  first lo l r f after = elim (settle_first-Released lo l r f after) [
    | inl (e, over) ↦ rw e over
    | inr (e, freed) ↦ rw e (freed, refl)
  ]

  release-Released :
      (lo head total : ℕ) (bs : List Block)
      → IsRange lo blk n
      → IsFree lo bs
      → ReleasedList lo
          (record { head = head; mlength = total; blocks = bs })
          (release blk n (record { head = head; mlength = total; blocks = bs }))
  unfolding release
  release-Released lo head total [] r f =
      first lo (record { head = head; mlength = total; blocks = [] }) r f tt
  release-Released lo head total (b ∷ bs) r f = elim (Bool-cases (ltb b.addr blk)) [
    | inl go ↦
        rw (go, release)
          (along (release_after blk n b bs)
            (release_after-Released blk n lo b bs r f (ground arith)))
    | inr stop ↦
        rw (stop, release)
          (first lo (record { head = head; mlength = total; blocks = b ∷ bs }) r f
            (next-before blk n lo blk b bs f (ground arith)))
  ]
    where
      along :
          (o : Option (List Block))
          → Released lo blk n (b ∷ bs) o
          → ReleasedList lo
              (record { head = head; mlength = total; blocks = b ∷ bs })
              (elim o [
                | none ↦ none
                | some cs ↦ some (record { head = head; mlength = total; blocks = cs })
              ])
      along none h = h
      along (some cs) h = (h, refl)

-- What giving `nbytes` bytes at `blk` back to the list `l` does: it returns OK, the list is well-formed
-- and covers exactly these bytes as well; or SYSERR where part of them is free already.
abbrev pub Returned : ℕ → ℕ → ℕ → MemList → ℕ → MemList → Type 0
Returned lo blk nbytes l result l' =
    (result ≡ ok) × Freed lo blk (roundmb nbytes) l.blocks l'.blocks
    ⊎ (result ≡ syserr) × (l' ≡ l) × Overlaps blk (roundmb nbytes) l.blocks

-- `freemem` of an aligned range within the bounds of a well-formed heap returns OK and adds exactly its bytes to the
-- free list, coalesced with its neighbours, or, where part of the range is free already, returns
-- SYSERR and changes nothing. The other lists stay as they are.
pub freemem_lem :
    (lo blk nbytes : ℕ) (m : Mem)
    → IsFree lo m.memlist.blocks
    → IsRange lo blk (roundmb nbytes)
    → 0 < nbytes
    → m.minheap ≤ blk
    → blk ≤ m.maxheap
    → Returned lo blk nbytes m.memlist (freemem blk nbytes m).0 (freemem blk nbytes m).1.memlist
      × ((freemem blk nbytes m).1.pdtlist ≡ m.pdtlist)
      × ((freemem blk nbytes m).1.ffslist ≡ m.ffslist)
unfolding freemem
freemem_lem lo blk nbytes m f r pos low high = rw inside (
    go (release blk (roundmb nbytes) (count_bytes (roundmb nbytes) m.memlist)) (
      release-Released blk (roundmb nbytes) lo m.memlist.head
        (add32 m.memlist.mlength (roundmb nbytes)) m.memlist.blocks r f))
  where
    go :
        (o : Option MemList)
        → ReleasedList blk (roundmb nbytes) lo (count_bytes (roundmb nbytes) m.memlist) o
        → let out = elim o as (λ _. ℕ × Mem) [
          | none ↦ (syserr, m)
          | some l ↦ (ok, record m { memlist = l })
        ] in
          Returned lo blk nbytes m.memlist out.0 out.1.memlist
          × (out.1.pdtlist ≡ m.pdtlist)
          × (out.1.ffslist ≡ m.ffslist)
    go none h = (inr (refl, refl, h), refl, refl)
    go (some l) h = (inl (refl, h.0), refl, refl)

    inside : ((nbytes == 0) || ltb blk m.minheap || ltb m.maxheap blk) ≡ false
    inside = ground arith

-- `freeptmem` and `freeffsmem` of an aligned range below 2 ^ 32 return OK and add exactly its bytes to
-- `pdtlist` and `ffslist`, coalesced with their neighbours, or, where part of the range is free
-- already, return SYSERR and leave that list as it is. On success `freeffsmem` counts the bytes in
-- `ffslist`, but `freeptmem` counts them in `memlist` and leaves the count of `pdtlist` as it is.
pub freeptmem-freeffsmem_lem :
    (lo blk nbytes : ℕ) (m : Mem)
    → IsFree lo m.pdtlist.blocks
    → IsFree lo m.ffslist.blocks
    → IsRange lo blk (roundmb nbytes)
    → 0 < nbytes
    → let (p, mp) = freeptmem blk nbytes m in
      let (e, me) = freeffsmem blk nbytes m in
      Returned lo blk nbytes m.pdtlist p mp.pdtlist
      × (p ≡ ok
          → (mp.memlist ≡ count_bytes (roundmb nbytes) m.memlist)
            × (mp.pdtlist.mlength ≡ m.pdtlist.mlength))
      × Returned lo blk nbytes m.ffslist e me.ffslist
      × (e ≡ ok → me.ffslist.mlength ≡ add32 m.ffslist.mlength (roundmb nbytes))
unfolding freeptmem freeffsmem
freeptmem-freeffsmem_lem lo blk nbytes m fp ff r pos =
    let some_bytes : (nbytes == 0) ≡ false = ground arith in
    rw some_bytes (
      let a = page (release blk (roundmb nbytes) m.pdtlist) (
        release-Released blk (roundmb nbytes) lo m.pdtlist.head m.pdtlist.mlength m.pdtlist.blocks r
          fp) in
      let b = frame (release blk (roundmb nbytes) (count_bytes (roundmb nbytes) m.ffslist)) (
        release-Released blk (roundmb nbytes) lo m.ffslist.head
          (add32 m.ffslist.mlength (roundmb nbytes)) m.ffslist.blocks r ff) in
      (a.0, a.1, b.0, b.1))
  where
    page :
        (o : Option MemList)
        → ReleasedList blk (roundmb nbytes) lo m.pdtlist o
        → let out = elim o as (λ _. ℕ × Mem) [
          | none ↦ (syserr, m)
          | some l ↦
              (ok, record m { memlist = count_bytes (roundmb nbytes) m.memlist; pdtlist = l })
        ] in
          Returned lo blk nbytes m.pdtlist out.0 out.1.pdtlist
          × (out.0 ≡ ok
              → (out.1.memlist ≡ count_bytes (roundmb nbytes) m.memlist)
                × (out.1.pdtlist.mlength ≡ m.pdtlist.mlength))
    page none h = (inr (refl, refl, h), λ e. absurd (omega arith))
    page (some l) h = (inl (refl, h.0), λ e. (refl, h.1))

    frame :
        (o : Option MemList)
        → ReleasedList blk (roundmb nbytes) lo (count_bytes (roundmb nbytes) m.ffslist) o
        → let out = elim o as (λ _. ℕ × Mem) [
          | none ↦ (syserr, m)
          | some l ↦ (ok, record m { ffslist = l })
        ] in
          Returned lo blk nbytes m.ffslist out.0 out.1.ffslist
          × (out.0 ≡ ok → out.1.ffslist.mlength ≡ add32 m.ffslist.mlength (roundmb nbytes))
    frame none h = (inr (refl, refl, h), λ e. absurd (omega arith))
    frame (some l) h = (inl (refl, h.0), λ e. h.1)
