-- ===== src/Port.antt =====
-- Ports, queues of messages over semaphores: include/ports.h and system/ptinit.c, ptcreate.c, ptsend.c,
-- ptrecv.c, ptclear.c, ptreset.c, ptdelete.c and ptcount.c. A pointer to a node is its address, NULL is 0.
-- `ptsend` and `ptrecv` are cut at their `wait`, as its caller goes on when it is current again. `_ptclear`
-- takes what other processes do at each of its calls that may switch to them.
pub mod Nodes
pub mod Join
pub mod Leave
pub mod Fifo
pub mod Start
pub mod Clear
use ece592_final_project.Base.{
  ◌-◌, ◌&&◌, ◌%◌, ℕ, zero, suc, ◌+◌, Bool, true, false, not, ◌||◌, Option, none, some, ◌==◌, leb,
  if◌then◌else◌, update, is_neg, add32, sub32, mul32, syserr, ok,
}
use ece592_final_project.Kernel.{Kernel}
use ece592_final_project.Memory.{Mem, getmem}
use ece592_final_project.Semaphore.{wait, signal, semcreate, semreset, semdelete, semcount}

abbrev pub nports : ℕ
nports = 30

abbrev pub pt_msgs : ℕ
pt_msgs = 100

pub data PtState : Type 0 where
  pt_free pt_limbo pt_alloc : PtState

abbrev pub is_alloc : PtState → Bool
is_alloc PtState.pt_alloc = true
is_alloc _ = false

abbrev is_free_port : PtState → Bool
is_free_port PtState.pt_free = true
is_free_port _ = false

-- `struct ptentry`
pub record PtEntry : Type 0 where
  pub ssem : ℕ
  pub rsem : ℕ
  pub ptstate : PtState
  pub maxcnt : ℕ
  pub seq : ℕ
  pub pthead : ℕ
  pub pttail : ℕ

-- The port table and the nodes, a column for each field of `struct ptnode`.
pub record Ports : Type 0 where
  pub porttab : ℕ → PtEntry
  pub ptmsg : ℕ → ℕ
  pub ptnext : ℕ → ℕ
  pub ptfree : ℕ
  pub ptnextid : ℕ

abbrev pub isbadport : ℕ → Bool
isbadport portid = is_neg portid || leb nports portid

abbrev pub set_port : ℕ → PtEntry → Ports → Ports
set_port portid e p = record p { porttab = update p.porttab portid e }

-- `for (i=0; i<NPORTS; i++)`, counted by the rounds that are left
unfoldable pub free_ports : (rounds i : ℕ) → (ℕ → PtEntry) → ℕ → PtEntry
free_ports zero i tab = tab
free_ports (suc rounds) i tab =
    free_ports rounds (i + 1) (update tab i (record (tab i) { ptstate = PtState.pt_free; seq = 0 }))

-- The list of free nodes: `rounds` more behind `curr`, 8 bytes each.
unfoldable pub link_nodes : (rounds curr : ℕ) → (ℕ → ℕ) → ℕ → ℕ
link_nodes zero curr next = update next curr 0
link_nodes (suc rounds) curr next =
    link_nodes rounds (add32 curr 8) (update next curr (add32 curr 8))

-- `none` where it panics
unfoldable pub ptinit : ℕ → Mem → Ports → Option (Ports × Mem)
ptinit maxmsgs m p =
    let (base, m') = getmem (mul32 maxmsgs 8) m in
    if base == syserr
    then none
    else some (
      record p {
        porttab = free_ports nports 0 p.porttab;
        ptfree = base;
        ptnextid = 0;
        ptnext = link_nodes (if is_neg maxmsgs then 0 else maxmsgs - 1) base p.ptnext;
      },
      m',
    )

-- The search of `ptcreate` over at most NPORTS entries
unfoldable pub ptcreate_scan : (rounds count : ℕ) → Kernel → Ports → ℕ × Kernel × Ports
ptcreate_scan zero count k p = (syserr, k, p)
ptcreate_scan (suc rounds) count k p =
    let ptnum = p.ptnextid in
    let p' = record p { ptnextid = if leb nports (ptnum + 1) then 0 else ptnum + 1 } in
    elim (is_free_port (p.porttab ptnum).ptstate) [
      | false ↦ ptcreate_scan rounds count k p'
      | true ↦
          (let (s, k1) = semcreate count k in
            let (r, k2) = semcreate 0 k1 in
            (
              ptnum,
              k2,
              set_port ptnum
                  (record {
                    ssem = s;
                    rsem = r;
                    ptstate = PtState.pt_alloc;
                    maxcnt = count % 0x1_0000;
                    seq = add32 (p.porttab ptnum).seq 1;
                    pthead = 0;
                    pttail = 0;
                  })
                  p',
            ))
    ]

unfoldable pub ptcreate : ℕ → Kernel → Ports → ℕ × Kernel × Ports
ptcreate count k p = if is_neg count then (syserr, k, p) else ptcreate_scan nports count k p

-- `ptsend` and `ptrecv` up to their `wait`: SYSERR, or the sequence number that was recorded.
pub data PortCall : Type 0 where
  refused : Kernel → PortCall
  waited : ℕ → Kernel → PortCall

abbrev pub closed : ℕ → Ports → Bool
closed portid p = isbadport portid || not (is_alloc (p.porttab portid).ptstate)

unfoldable pub ptsend_begin : ℕ → Kernel → Ports → PortCall
ptsend_begin portid k p =
    if closed portid p
    then refused k
    else let (r, k') = wait (p.porttab portid).ssem k in
      if r == syserr then refused k' else waited (p.porttab portid).seq k'

unfoldable pub ptrecv_begin : ℕ → Kernel → Ports → PortCall
ptrecv_begin portid k p =
    if closed portid p
    then refused k
    else let (r, k') = wait (p.porttab portid).rsem k in
      if r == syserr then refused k' else waited (p.porttab portid).seq k'

-- The port has been reset or deleted while its caller waited.
abbrev pub is_stale : ℕ → ℕ → Ports → Bool
is_stale portid seq p =
    not (is_alloc (p.porttab portid).ptstate) || not ((p.porttab portid).seq == seq)

-- The node off the free list, with its fields set.
unfoldable pub alloc_node : ℕ → Ports → Ports
alloc_node msg p = record p {
  ptfree = p.ptnext p.ptfree;
  ptnext = update p.ptnext p.ptfree 0;
  ptmsg = update p.ptmsg p.ptfree msg;
}

-- The node joins the end of the list of the port.
unfoldable pub link_last : (portid node : ℕ) → Ports → Ports
link_last portid node p =
    let e = p.porttab portid in
    if e.pttail == 0
    then set_port portid (record e { pthead = node; pttail = node }) p
    else set_port portid (record e { pttail = node })
        (record p { ptnext = update p.ptnext e.pttail node })

-- The rest of `ptsend`; `none` where it panics.
unfoldable pub ptsend_end : (portid msg seq : ℕ) → Kernel → Ports → Option (ℕ × Kernel × Ports)
ptsend_end portid msg seq k p =
    if is_stale portid seq p
    then some (syserr, k, p)
    else if p.ptfree == 0
    then none
    else some
        (ok, (signal (p.porttab portid).rsem k).1, link_last portid p.ptfree (alloc_node msg p))

-- The first node leaves the port for the free list.
unfoldable pub unlink_first : ℕ → Ports → Ports
unlink_first portid p =
    let e = p.porttab portid in
    let e' =
      if e.pthead == e.pttail
      then record e { pthead = 0; pttail = 0 }
      else record e { pthead = p.ptnext e.pthead } in
    set_port portid e' (record p { ptnext = update p.ptnext e.pthead p.ptfree; ptfree = e.pthead })

-- The rest of `ptrecv`
unfoldable pub ptrecv_end : (portid seq : ℕ) → Kernel → Ports → ℕ × Kernel × Ports
ptrecv_end portid seq k p = if is_stale portid seq p then (syserr, k, p) else (
  p.ptmsg (p.porttab portid).pthead,
  (signal (p.porttab portid).ssem k).1,
  unlink_first portid p,
)

-- `dispose` of each message, with what else runs before it returns; the fuel is the number of nodes.
unfoldable pub dispose_all :
    (ℕ → Kernel → Ports → Kernel × Ports) → (fuel walk : ℕ) → Kernel → Ports → Kernel × Ports
dispose_all dispose zero walk k p = (k, p)
dispose_all dispose (suc fuel) walk k p = elim (walk == 0) [
  | true ↦ (k, p)
  | false ↦
      (let (k', p') = dispose (p.ptmsg walk) k p in dispose_all dispose fuel (p'.ptnext walk) k' p')
]

-- The whole list of the port goes to the head of the free list.
unfoldable pub splice_free : ℕ → Ports → Ports
splice_free portid p =
    let e = p.porttab portid in
    if e.pthead == 0
    then p
    else record p { ptnext = update p.ptnext e.pttail p.ptfree; ptfree = e.pthead }

abbrev pub in_limbo : PtEntry → PtEntry
in_limbo e = record e { ptstate = PtState.pt_limbo; seq = add32 e.seq 1 }

abbrev pub no_nodes : PtEntry → PtEntry
no_nodes e = record e { pthead = 0; pttail = 0 }

-- `_ptclear` up to the change of the port's pointers
unfoldable pub clear_messages :
    ℕ → (ℕ → Kernel → Ports → Kernel × Ports) → Kernel → Ports → Kernel × Ports
clear_messages portid dispose k p =
    let p1 = set_port portid (in_limbo (p.porttab portid)) p in
    let (k1, p2) = dispose_all dispose pt_msgs (p1.porttab portid).pthead k p1 in
    (k1, splice_free portid p2)

-- With `others`, what other processes do until the caller is current again.
unfoldable pub reset_semaphores :
    ℕ → (Kernel → Ports → Kernel × Ports) → Kernel → Ports → Kernel × Ports
reset_semaphores portid others k p =
    let p1 = set_port portid (no_nodes (p.porttab portid)) p in
    let (k2, p2) = others (semreset (p1.porttab portid).ssem (p1.porttab portid).maxcnt k).1 p1 in
    others (semreset (p2.porttab portid).rsem 0 k2).1 p2

unfoldable pub delete_semaphores :
    ℕ → (Kernel → Ports → Kernel × Ports) → Kernel → Ports → Kernel × Ports
delete_semaphores portid others k p =
    let (k1, p1) = others (semdelete (p.porttab portid).ssem k).1 p in
    others (semdelete (p1.porttab portid).rsem k1).1 p1

abbrev pub leave_limbo : ℕ → PtState → Ports → Ports
leave_limbo portid newstate p = set_port portid (record (p.porttab portid) { ptstate = newstate }) p

-- `_ptclear`, on the new state, the function that disposes of a message, and what other processes do
-- when a semaphore is reset or deleted.
unfoldable pub ptclear :
    ℕ
    → PtState
    → (ℕ → Kernel → Ports → Kernel × Ports)
    → (Kernel → Ports → Kernel × Ports)
    → Kernel
    → Ports
    → Kernel × Ports
ptclear portid newstate dispose others k p =
    let (k1, p1) = clear_messages portid dispose k p in
    let (k2, p2) =
      if is_alloc newstate
      then reset_semaphores portid others k1 p1
      else delete_semaphores portid others k1 p1 in
    (k2, leave_limbo portid newstate p2)

unfoldable pub ptreset :
    ℕ
    → (ℕ → Kernel → Ports → Kernel × Ports)
    → (Kernel → Ports → Kernel × Ports)
    → Kernel
    → Ports
    → ℕ × Kernel × Ports
ptreset portid dispose others k p =
    if closed portid p
    then (syserr, k, p)
    else let (k', p') = ptclear portid PtState.pt_alloc dispose others k p in (ok, k', p')

unfoldable pub ptdelete :
    ℕ
    → (ℕ → Kernel → Ports → Kernel × Ports)
    → (Kernel → Ports → Kernel × Ports)
    → Kernel
    → Ports
    → ℕ × Kernel × Ports
ptdelete portid dispose others k p =
    if closed portid p
    then (syserr, k, p)
    else let (k', p') = ptclear portid PtState.pt_free dispose others k p in
      (ok, k', record p' { ptnextid = portid })

unfoldable pub ptcount : ℕ → Kernel → Ports → ℕ
ptcount portid k p =
    if closed portid p
    then syserr
    else let count = semcount (p.porttab portid).rsem k in
      let senders = semcount (p.porttab portid).ssem k in
      if not (is_neg count) && is_neg senders then add32 count (sub32 0 senders) else count
