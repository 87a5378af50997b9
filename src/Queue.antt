-- ===== src/Queue.antt =====
-- The process queues of include/queue.h and system/queue.c, getitem.c, insert.c, insertd.c and
-- newqueue.c: doubly linked lists threaded through one table by index. Queue/Links has the laws of
-- linked segments, Queue/Table the view of the whole table as lists.
pub mod Links
pub mod Table
pub mod Refine
pub mod Order
pub mod Delta
use ece592_final_project.Base.{
  ℕ, zero, suc, ◌+◌, Bool, true, false, not, ◌&&◌, ◌||◌, ◌==◌, leb, ltb, if◌then◌else◌, update,
  signed_le, sub32, syserr, empty, ok,
}
use ece592_final_project.Process.{Proc, nproc, isbadpid}

-- NPROC + 4 + NSEM + NSEM
abbrev pub nqent : ℕ
nqent = 304

abbrev pub maxkey : ℕ
maxkey = 0x7fff_ffff

abbrev pub minkey : ℕ
minkey = 0x8000_0000

-- `queuetab`, a column for each field of `struct qentry`; indices are sign-extended.
pub record QTab : Type 0 where
  pub key : ℕ → ℕ
  pub next : ℕ → ℕ
  pub prev : ℕ → ℕ

abbrev pub queuehead : ℕ → ℕ
queuehead q = q

abbrev pub queuetail : ℕ → ℕ
queuetail q = q + 1

abbrev pub firstid : QTab → ℕ → ℕ
firstid t q = t.next (queuehead q)

abbrev pub lastid : QTab → ℕ → ℕ
lastid t q = t.prev (queuetail q)

abbrev pub isempty : QTab → ℕ → Bool
isempty t q = signed_le nproc (firstid t q)

abbrev pub nonempty : QTab → ℕ → Bool
nonempty t q = not (isempty t q)

abbrev pub firstkey : QTab → ℕ → ℕ
firstkey t q = t.key (firstid t q)

abbrev pub lastkey : QTab → ℕ → ℕ
lastkey t q = t.key (lastid t q)

abbrev pub isbadqid : ℕ → Bool
isbadqid q = not (signed_le nproc q) || signed_le 303 q

-- The four stores that put `pid` between two nodes; three of the operations end with them.
abbrev pub splice : ℕ → (before after : ℕ) → QTab → QTab
splice pid before after t = record t {
  next = update (update t.next pid after) before pid;
  prev = update (update t.prev pid before) after pid;
}

unfoldable pub enqueue : (ℕ → Proc) → ℕ → ℕ → QTab → ℕ × QTab
enqueue proctab pid q t =
    if isbadqid q || isbadpid proctab pid
    then (syserr, t)
    else (pid, splice pid (t.prev (queuetail q)) (queuetail q) t)

unfoldable pub getitem : ℕ → QTab → ℕ × QTab
getitem pid t =
    let after = t.next pid in
    let before = t.prev pid in
    (pid, record t { next = update t.next before after; prev = update t.prev after before })

unfoldable pub getfirst : ℕ → QTab → ℕ × QTab
getfirst q t = if isempty t q then (empty, t) else getitem (t.next (queuehead q)) t

unfoldable pub getlast : ℕ → QTab → ℕ × QTab
getlast q t = if isempty t q then (empty, t) else getitem (t.prev (queuetail q)) t

unfoldable pub dequeue : ℕ → QTab → ℕ × QTab
dequeue q t =
    if isbadqid q
    then (syserr, t)
    else if isempty t q
    then (empty, t)
    else let (pid, t') = getfirst q t in
      (pid, record t' { prev = update t'.prev pid empty; next = update t'.next pid empty })

-- The loop of `insert`. The fuel is the number of entries of the table.
unfoldable pub insert_scan : ℕ → QTab → ℕ → ℕ → ℕ
insert_scan zero t key curr = curr
insert_scan (suc fuel) t key curr = elim (signed_le key (t.key curr)) [
  | true ↦ insert_scan fuel t key (t.next curr)
  | false ↦ curr
]

unfoldable pub insert : (ℕ → Proc) → ℕ → ℕ → ℕ → QTab → ℕ × QTab
insert proctab pid q key t =
    if isbadqid q || isbadpid proctab pid
    then (syserr, t)
    else let curr = insert_scan nqent t key (firstid t q) in
      let before = t.prev curr in
      (ok, splice pid before curr (record t { key = update t.key pid key }))

-- The variables of the loop of `insertd`.
pub record Place : Type 0 where
  pub key : ℕ
  pub prev : ℕ
  pub next : ℕ

unfoldable pub insertd_scan : ℕ → QTab → ℕ → Place → Place
insertd_scan zero t q p = p
insertd_scan (suc fuel) t q p =
    elim (not (p.next == queuetail q) && signed_le (t.key p.next) p.key) [
      | true ↦
          insertd_scan fuel t q
            (record { key = sub32 p.key (t.key p.next); prev = p.next; next = t.next p.next })
      | false ↦ p
    ]

unfoldable pub insertd : (ℕ → Proc) → ℕ → ℕ → ℕ → QTab → ℕ × QTab
insertd proctab pid q key t =
    if isbadqid q || isbadpid proctab pid
    then (syserr, t)
    else let p =
        insertd_scan nqent t q
          (record { key = key; prev = queuehead q; next = t.next (queuehead q) }) in
      let t' = splice pid p.prev p.next (record t { key = update t.key pid p.key }) in
      (
        ok,
        if p.next == queuetail q
            then t'
            else record t' { key = update t'.key p.next (sub32 (t'.key p.next) p.key) },
      )

-- `nextqid`, the static variable of `newqueue`, is passed and returned.
unfoldable pub newqueue : ℕ → QTab → ℕ × ℕ × QTab
newqueue nextqid t =
    let q = nextqid in
    if leb nqent q then (syserr, nextqid, t) else (
      q,
      nextqid + 2,
      record {
        next = update (update t.next (queuehead q) (queuetail q)) (queuetail q) empty;
        prev = update (update t.prev (queuehead q) empty) (queuetail q) (queuehead q);
        key = update (update t.key (queuehead q) maxkey) (queuetail q) minkey;
      },
    )
