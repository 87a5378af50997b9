-- ===== src/Memory.antt =====
-- The free lists of system/getmem.c, freemem.c, getstk.c and meminit.c: the heap (`memlist`), the
-- frames of page tables (`pdtlist`) and those of the FFS space (`ffslist`). A list of `struct memblk`
-- is the list of its blocks in the order of `mnext`; the `kprintf` traces are left out.
pub mod Free
pub mod Alloc
pub mod Settle
pub mod Release
pub mod Start
use ece592_final_project.Base.{
  ℕ, ◌+◌, ◌-◌, Bool, true, false, not, ◌||◌, ◌&&◌, Option, none, some, List, [], ◌∷◌, ◌==◌, ltb,
  leb, if◌then◌else◌, add32, sub32, roundmb, truncmb, syserr, ok,
}

-- a `struct memblk` with its address
pub record Block : Type 0 where
  pub addr : ℕ
  pub len : ℕ

abbrev pub block : ℕ → ℕ → Block
block a n = record { addr = a; len = n }

-- A list head, itself a `struct memblk` at the address `head`.
pub record MemList : Type 0 where
  pub head : ℕ
  pub mlength : ℕ
  pub blocks : List Block

-- The words of memory stand at their addresses; those of a free block are not among them, since its
-- length and its link are in the list.
pub record Mem : Type 0 where
  pub memlist : MemList
  pub pdtlist : MemList
  pub ffslist : MemList
  pub minheap : ℕ
  pub maxheap : ℕ
  pub words : ℕ → ℕ

-- The loop of `getmem`: the first block that is large enough, cut to size.
unfoldable pub first_fit : ℕ → List Block → Option (ℕ × List Block)
first_fit n [] = none
first_fit n (b ∷ bs) =
    let rest = first_fit n bs in
    if b.len == n
    then some (b.addr, bs)
    else if ltb n b.len
    then some (b.addr, block (add32 b.addr n) (b.len - n) ∷ bs)
    else elim rest [ none ↦ none | some (a, bs') ↦ some (a, b ∷ bs') ]

-- The body that `getmem`, `getptmem` and `getffsmem` share, on the list that each names.
unfoldable pub take_block : ℕ → MemList → ℕ × MemList
take_block nbytes l =
    if nbytes == 0
    then (syserr, l)
    else let n = roundmb nbytes in
      elim (first_fit n l.blocks) [
        | none ↦ (syserr, l)
        | some (a, bs) ↦ (a, record l { mlength = sub32 l.mlength n; blocks = bs })
      ]

unfoldable pub getmem : ℕ → Mem → ℕ × Mem
getmem nbytes m = let (a, l) = take_block nbytes m.memlist in (a, record m { memlist = l })

unfoldable pub getptmem : ℕ → Mem → ℕ × Mem
getptmem nbytes m = let (a, l) = take_block nbytes m.pdtlist in (a, record m { pdtlist = l })

unfoldable pub getffsmem : ℕ → Mem → ℕ × Mem
getffsmem nbytes m = let (a, l) = take_block nbytes m.ffslist in (a, record m { ffslist = l })

-- The scan of `getstk`: the last block that is large enough, cut from its top.
unfoldable pub last_fit : ℕ → List Block → Option (ℕ × List Block)
last_fit n [] = none
last_fit n (b ∷ bs) = elim (last_fit n bs) [
  | some (a, bs') ↦ some (a, b ∷ bs')
  | none ↦
      if ltb b.len n
      then none
      else if n == b.len
      then some (b.addr, bs)
      else some (add32 b.addr (b.len - n), block b.addr (b.len - n) ∷ bs)
]

unfoldable pub getstk : ℕ → Mem → ℕ × Mem
getstk nbytes m =
    if nbytes == 0
    then (syserr, m)
    else let n = roundmb nbytes in
      elim (last_fit n m.memlist.blocks) [
        | none ↦ (syserr, m)
        | some (a, bs) ↦ (
          sub32 (add32 a n) 4,
          record m {
            memlist = record m.memlist { mlength = sub32 m.memlist.mlength n; blocks = bs };
          },
        )
      ]

-- `next`, or NULL
abbrev pub next_addr : List Block → ℕ
next_addr [] = 0
next_addr (b ∷ bs) = b.addr

-- `(next != NULL) && block + nbytes > next`
abbrev pub runs_into : ℕ → ℕ → List Block → Bool
runs_into blk n [] = false
runs_into blk n (b ∷ bs) = ltb b.addr (add32 blk n)

-- Coalesce with the next block if adjacent.
abbrev pub join_next : Block → List Block → List Block
join_next b [] = b ∷ []
join_next b (c ∷ cs) =
    if add32 b.addr b.len == c.addr then block b.addr (add32 b.len c.len) ∷ cs else b ∷ c ∷ cs

-- Behind the walk of `freemem`, where `prev` is the last block before `blk`: `none` where the blocks
-- overlap. (`top` is the end of `prev`.)
unfoldable pub settle : ℕ → ℕ → Block → List Block → Option (List Block)
settle blk n prev next =
    let top = add32 prev.addr prev.len in
    if ltb blk top || runs_into blk n next
    then none
    else if top == blk
    then some (join_next (block prev.addr (add32 prev.len n)) next)
    else some (prev ∷ join_next (block blk n) next)

-- The walk along the list, from a block that lies before `blk`.
unfoldable pub release_after : ℕ → ℕ → Block → List Block → Option (List Block)
release_after blk n prev [] = settle blk n prev []
release_after blk n prev (b ∷ bs) = elim (ltb b.addr blk) [
  | true ↦ elim (release_after blk n b bs) [ none ↦ none | some cs ↦ some (prev ∷ cs) ]
  | false ↦ settle blk n prev (b ∷ bs)
]

-- No block lies before `blk`, so that `prev` is the list head and `top` is NULL. A block at address 0
-- is then taken for one that follows the head.
unfoldable pub settle_first : ℕ → ℕ → MemList → Option MemList
settle_first blk n l =
    if runs_into blk n l.blocks
    then none
    else if not (0 == blk)
    then some (record l { blocks = join_next (block blk n) l.blocks })
    else elim (join_next (block l.head (add32 l.mlength n)) l.blocks) [
      | [] ↦ none
      | b ∷ bs ↦ some (record l { mlength = b.len; blocks = bs })
    ]

-- The body that `freemem`, `freeptmem` and `freeffsmem` share, behind their first guards; the caller
-- counts the bytes.
unfoldable pub release : ℕ → ℕ → MemList → Option MemList
release blk n l = elim l.blocks [
  | [] ↦ settle_first blk n l
  | b ∷ bs ↦ elim (ltb b.addr blk) [
    | true ↦ elim (release_after blk n b bs) [
      | none ↦ none
      | some cs ↦ some (record l { blocks = cs })
    ]
    | false ↦ settle_first blk n l
  ]
]

abbrev pub count_bytes : ℕ → MemList → MemList
count_bytes n l = record l { mlength = add32 l.mlength n }

unfoldable pub freemem : ℕ → ℕ → Mem → ℕ × Mem
freemem blkaddr nbytes m =
    if (nbytes == 0) || ltb blkaddr m.minheap || ltb m.maxheap blkaddr
    then (syserr, m)
    else elim (release blkaddr (roundmb nbytes) (count_bytes (roundmb nbytes) m.memlist)) [
      | none ↦ (syserr, m)
      | some l ↦ (ok, record m { memlist = l })
    ]

-- It returns a block to `pdtlist`, and counts the bytes in `memlist`.
unfoldable pub freeptmem : ℕ → ℕ → Mem → ℕ × Mem
freeptmem blkaddr nbytes m =
    if nbytes == 0 then (syserr, m) else elim (release blkaddr (roundmb nbytes) m.pdtlist) [
      | none ↦ (syserr, m)
      | some l ↦ (ok, record m { memlist = count_bytes (roundmb nbytes) m.memlist; pdtlist = l })
    ]

unfoldable pub freeffsmem : ℕ → ℕ → Mem → ℕ × Mem
freeffsmem blkaddr nbytes m =
    if nbytes == 0
    then (syserr, m)
    else elim (release blkaddr (roundmb nbytes) (count_bytes (roundmb nbytes) m.ffslist)) [
      | none ↦ (syserr, m)
      | some l ↦ (ok, record m { ffslist = l })
    ]

-- 640 KB and 1024 KB
abbrev pub holestart : ℕ
holestart = 0xa_0000

abbrev pub holeend : ℕ
holeend = 0x10_0000

abbrev pub nullstk : ℕ
nullstk = 8192

-- 8192 * 4096, and on behind 1024 and 16 * 1024 frames
abbrev pub pt_start : ℕ
pt_start = 0x200_0000

abbrev pub ffs_start : ℕ
ffs_start = 0x240_0000

abbrev pub swp_start : ℕ
swp_start = 0x640_0000

-- `end` is the address that the linker gives the end of the program.
unfoldable pub meminit : ℕ → Mem → Mem
meminit end m = record m {
  minheap = end;
  memlist = record m.memlist {
    blocks =
        if ltb holestart (add32 m.maxheap 1)
        then block (roundmb end) (truncmb (sub32 (sub32 holestart end) 4))
          ∷ block holeend (truncmb (sub32 (sub32 m.maxheap holeend) nullstk))
          ∷ []
        else block (roundmb end) (truncmb (sub32 (sub32 m.maxheap end) nullstk)) ∷ [];
  };
}

unfoldable pub ptmeminit : Mem → Mem
ptmeminit m = record m {
  maxheap = ffs_start;
  minheap = pt_start;
  pdtlist = record m.pdtlist {
    blocks = block (roundmb pt_start) (truncmb (sub32 ffs_start pt_start)) ∷ [];
  };
}

unfoldable pub ffsmeminit : Mem → Mem
ffsmeminit m = record m {
  maxheap = swp_start;
  minheap = ffs_start;
  ffslist = record m.ffslist {
    blocks = block (roundmb ffs_start) (truncmb (sub32 swp_start ffs_start)) ∷ [];
  };
}
