-- ===== src/Port/Clear.antt =====
-- `ptreset` and `ptdelete`: every message is disposed of, and the nodes go to the free list.
use ece592_final_project.Base.{
  add32, subst, ℕ, zero, suc, ◌+◌, ◌≤◌, ◌<◌, ◌≡◌, refl, sym, ap, inl, inr, true, false, List, [],
  ◌∷◌, ◌++◌, arith, ◌==◌, Bool-cases, List-cases, update, has, has-append, length, length-append,
  Distinct, ok,
}
use ece592_final_project.Port.{
  leave_limbo, clear_messages, reset_semaphores, PtState, semreset, pt_msgs, closed, set_port,
  in_limbo, no_nodes, PtEntry, is_alloc, nports, Kernel, Ports, dispose_all, splice_free, ptclear,
  ptreset,
}
use ece592_final_project.Port.Nodes.{Chain, Chain-agree, IsPorts}
use ece592_final_project.Port.Fifo.{Stores, messages}
use ece592_final_project.Queue.Links.{has-last_or, last_or}

abbrev pub dispose_each : (ℕ → Kernel → Kernel) → List ℕ → Kernel → Kernel
dispose_each dispose [] k = k
dispose_each dispose (m ∷ ms) k = dispose_each dispose ms (dispose m k)

dispose_all_lem :
    (dispose : ℕ → Kernel → Ports → Kernel × Ports) (fuel walk : ℕ) (p : Ports) (xs : List ℕ)
    (k : Kernel)
    → ((m : ℕ) (k : Kernel) → (dispose m k p).1 ≡ p)
    → Chain p.ptnext walk xs
    → length xs ≤ fuel
    → dispose_all dispose fuel walk k p
      ≡ (dispose_each (λ m k. (dispose m k p).0) (messages p.ptmsg xs) k, p)
unfolding dispose_all
dispose_all_lem dispose zero walk p [] k keeps c few = refl
dispose_all_lem dispose zero walk p (x ∷ xs) k keeps c few = absurd (omega arith)
dispose_all_lem dispose (suc fuel) walk p [] k keeps c few =
    let done : (walk == 0) ≡ true = ground arith in rw (dispose_all, done)
dispose_all_lem dispose (suc fuel) walk p (x ∷ xs) k keeps (at, real, c) few =
    subst
      (λ w.
        dispose_all dispose (suc fuel) w k p
        ≡ (dispose_each (λ m k. (dispose m k p).0) (messages p.ptmsg (x ∷ xs)) k, p))
      (sym at)
      (rw (dispose_all, real, keeps (p.ptmsg x) k)
        (dispose_all_lem dispose fuel (p.ptnext x) p xs (dispose (p.ptmsg x) k p).0 keeps c
          (omega arith)))

Chain-append :
    (nx : ℕ → ℕ) (p q x : ℕ) (xs ys : List ℕ)
    → Chain nx p (x ∷ xs)
    → Chain nx q ys
    → Distinct (x ∷ xs)
    → has (last_or x xs) ys ≡ false
    → Chain (update nx (last_or x xs) q) p (x ∷ (xs ++ ys))
Chain-append nx p q x [] ys (at, real, c) cy d out =
    let here : update nx x q x ≡ q = ground arith in
    (at, real, rw here (Chain-agree nx (update nx x q) q ys (λ a h. ground arith) cy))
Chain-append nx p q x (y ∷ zs) ys (at, real, c) cy d out =
    let here : update nx (last_or y zs) q x ≡ nx x = ground (arith, has-last_or y zs) in
    (at, real, rw here (Chain-append nx (nx x) q y zs ys c cy d.1 out))

Distinct-append :
    (xs ys : List ℕ)
    → Distinct xs
    → Distinct ys
    → ((a : ℕ) → has a xs ≡ true → has a ys ≡ false)
    → Distinct (xs ++ ys)
Distinct-append [] ys dx dy f = dy
Distinct-append (x ∷ xs) ys dx dy f = (
  ground (arith, has-append x xs ys, f x),
  Distinct-append xs ys dx.1 dy (λ a h. f a (ground arith)),
)

module _ {p : Ports} {spare : List ℕ} {hold : ℕ → List ℕ} (v : IsPorts p spare hold) (portid : ℕ)
    (small : portid < nports) (open_port : is_alloc (p.porttab portid).ptstate ≡ true) where
  spliced_chain :
      Chain (splice_free portid p).ptnext (splice_free portid p).ptfree (hold portid ++ spare)
      × ((a : ℕ) → has a (hold portid) ≡ false → (splice_free portid p).ptnext a ≡ p.ptnext a)
  unfolding splice_free
  spliced_chain = elim (List-cases (hold portid)) [
    | inl none_held ↦
        let vacant : ((p.porttab portid).pthead == 0) ≡ true =
          ground (arith, rw none_held at (v.lists portid small open_port)) in
        rw (vacant, none_held) (v.spare_list, λ a h. refl)
    | inr (x, xs, e) ↦
        let old : Chain p.ptnext (p.porttab portid).pthead (x ∷ xs) =
          rw e at (v.lists portid small open_port) in
        let some_held : ((p.porttab portid).pthead == 0) ≡ false = ground (arith, old) in
        let tail : (p.porttab portid).pttail ≡ last_or x xs =
          rw e at (v.tails portid small open_port) in
        rw (some_held, tail, e)
          (
            Chain-append p.ptnext (p.porttab portid).pthead p.ptfree x xs spare old v.spare_list
                (rw e at (v.distinct portid))
                (v.spare_apart portid (last_or x xs) (rw e (has-last_or x xs))),
            λ a h. ground (arith, has-last_or x xs),
          )
  ]

  has-emptied :
      (i a : ℕ)
      → has a (update hold portid [] i) ≡ true
      → (has a (hold i) ≡ true) × ((portid == i) ≡ false)
  has-emptied i a h = ground arith

  -- The port's entry changes to one without nodes, or to one that is closed.
  splice-IsPorts :
      (q : Ports)
      → q.ptnext ≡ (splice_free portid p).ptnext
      → q.ptfree ≡ (splice_free portid p).ptfree
      → ((i : ℕ) → (portid == i) ≡ false → q.porttab i ≡ p.porttab i)
      → (is_alloc (q.porttab portid).ptstate ≡ true
          → ((q.porttab portid).pthead ≡ 0) × ((q.porttab portid).pttail ≡ 0))
      → IsPorts q (hold portid ++ spare) (update hold portid [])
  splice-IsPorts q next free_at others cleared = record {
    spare_list = rw (next, free_at) spliced_chain.0;
    lists = λ i lt o. elim (Bool-cases (portid == i)) [
      | inl same ↦
          let at : portid ≡ i = ground arith in rw (same, sym at) (cleared (rw (sym at) at o)).0
      | inr diff ↦
          rw (diff, others i diff, next)
            (Chain-agree p.ptnext (splice_free portid p).ptnext (p.porttab i).pthead (hold i)
              (λ a h. spliced_chain.1 a (v.apart i portid a (ground arith) h))
              (v.lists i lt (rw (others i diff) at o)))
    ];
    tails = λ i lt o. elim (Bool-cases (portid == i)) [
      | inl same ↦
          let at : portid ≡ i = ground arith in rw (same, sym at) (cleared (rw (sym at) at o)).1
      | inr diff ↦ rw (diff, others i diff) (v.tails i lt (rw (others i diff) at o))
    ];
    spare_distinct =
        Distinct-append (hold portid) spare (v.distinct portid) v.spare_distinct
          (v.spare_apart portid);
    distinct = λ i. elim (Bool-cases (portid == i)) [
      | inl same ↦ rw same tt
      | inr diff ↦ rw diff (v.distinct i)
    ];
    spare_apart = λ i a h. ground (
      arith,
      has-emptied i a h,
      v.spare_apart i a,
      v.apart i portid a,
      has-append a (hold portid) spare,
    );
    apart = λ i j a ne h. elim (Bool-cases (has a (update hold portid [] j))) [
      | inr out ↦ out
      | inl here ↦
          absurd (ground (arith, has-emptied i a h, has-emptied j a here, v.apart i j a ne))
    ];
  }

length-messages : (msg : ℕ → ℕ) (xs : List ℕ) → length (messages msg xs) ≡ length xs
length-messages msg [] = refl
length-messages msg (x ∷ xs) = ap suc (length-messages msg xs)

-- The nodes of a port in limbo are where they were.
splice-limbo :
    (p : Ports) (portid : ℕ) (e : PtEntry)
    → e.pthead ≡ (p.porttab portid).pthead
    → e.pttail ≡ (p.porttab portid).pttail
    → splice_free portid (set_port portid e p) ≡ record (set_port portid e p) {
      ptnext = (splice_free portid p).ptnext;
      ptfree = (splice_free portid p).ptfree;
    }
unfolding splice_free
splice-limbo p portid e head tail =
    let self : (portid == portid) ≡ true = ground arith in
    elim (Bool-cases ((p.porttab portid).pthead == 0)) [
      | inl vacant ↦ rw (self, head, vacant) refl
      | inr some_held ↦ rw (self, head, some_held, tail) refl
    ]

-- The ports while the messages are disposed of, and while the semaphores are reset.
abbrev pub disposing : ℕ → Ports → Ports
disposing portid p = set_port portid (in_limbo (p.porttab portid)) p

abbrev pub resetting : ℕ → Ports → Ports
resetting portid p =
    set_port portid (no_nodes (in_limbo (p.porttab portid)))
      (splice_free portid (disposing portid p))

released_entry :
    (p : Ports) (portid : ℕ)
    → (splice_free portid (disposing portid p)).porttab portid ≡ in_limbo (p.porttab portid)
released_entry p portid =
    let self : (portid == portid) ≡ true = ground arith in
    rw (splice-limbo p portid (in_limbo (p.porttab portid)) refl refl, self) refl

clear_messages_lem :
    (p : Ports) (k : Kernel) (portid : ℕ) (xs : List ℕ)
    (dispose : ℕ → Kernel → Ports → Kernel × Ports)
    → ((m : ℕ) (k : Kernel) → (dispose m k (disposing portid p)).1 ≡ disposing portid p)
    → Chain p.ptnext (p.porttab portid).pthead xs
    → length xs ≤ pt_msgs
    → clear_messages portid dispose k p ≡ (
      dispose_each (λ m k. (dispose m k (disposing portid p)).0) (messages p.ptmsg xs) k,
      splice_free portid (disposing portid p),
    )
unfolding clear_messages
clear_messages_lem p k portid xs dispose still c few =
    let self : (portid == portid) ≡ true = ground arith in
    let each =
      dispose_all_lem dispose pt_msgs (p.porttab portid).pthead (disposing portid p) xs k still c
        few in
    rw (self, each) refl

reset_semaphores_lem :
    (k : Kernel) (portid : ℕ) (others : Kernel → Ports → Kernel × Ports) (q : Ports) (e : PtEntry)
    → q.porttab portid ≡ e
    → ((k : Kernel)
        → (others k (set_port portid (no_nodes e) q)).1 ≡ set_port portid (no_nodes e) q)
    → let during = set_port portid (no_nodes e) q in
      let k2 = (others (semreset e.ssem e.maxcnt k).1 during).0 in
      reset_semaphores portid others k q ≡ ((others (semreset e.rsem 0 k2).1 during).0, during)
unfolding reset_semaphores
reset_semaphores_lem k portid others q e at calm =
    let self : (portid == portid) ≡ true = ground arith in rw (at, self, calm, self, calm) refl

-- `ptreset` of an open port disposes of each of its messages in their order, then resets its two
-- semaphores, that of the senders to the size of the port. Afterwards the port is open with the next
-- sequence number and no message, its nodes are free, and the other ports and their queues are as
-- they were. The port holds at most PT_MSGS messages, and the function that disposes of a message and
-- the processes that run during the call leave the ports as they are while this port is closed.
pub ptreset_refines :
    (p : Ports) (k : Kernel) (n : ℕ) (queues : ℕ → List ℕ) (portid : ℕ)
    (dispose : ℕ → Kernel → Ports → Kernel × Ports) (others : Kernel → Ports → Kernel × Ports)
    → Stores p n queues
    → closed portid p ≡ false
    → length (queues portid) ≤ pt_msgs
    → ((m : ℕ) (k : Kernel) (q : Ports) → closed portid q ≡ true → (dispose m k q).1 ≡ q)
    → ((k : Kernel) (q : Ports) → closed portid q ≡ true → (others k q).1 ≡ q)
    → let (result, k', p') = ptreset portid dispose others k p in
      let e = p.porttab portid in
      let during = resetting portid p in
      let k1 = dispose_each (λ m k. (dispose m k (disposing portid p)).0) (queues portid) k in
      let k2 = (others (semreset e.ssem e.maxcnt k1).1 during).0 in
      (result ≡ ok)
      × (k' ≡ (others (semreset e.rsem 0 k2).1 during).0)
      × (p'.porttab portid
          ≡ record e { ptstate = PtState.pt_alloc; seq = add32 e.seq 1; pthead = 0; pttail = 0 })
      × ((i : ℕ) → (portid == i) ≡ false → p'.porttab i ≡ p.porttab i)
      × Stores p' (length (queues portid) + n) (update queues portid [])
unfolding ptreset ptclear
ptreset_refines p k n queues portid dispose others (spare, hold, v, len, same) open_port few still
      calm =
    let self : (portid == portid) ≡ true = ground arith in
    let small : portid < nports = ground arith in
    let alloc : is_alloc (p.porttab portid).ptstate ≡ true = ground arith in
    let e : PtEntry = in_limbo (p.porttab portid) in
    let count : length (hold portid) ≤ pt_msgs =
      rw (same portid, length-messages p.ptmsg (hold portid)) at few in
    let shut : closed portid (disposing portid p) ≡ true = ground arith in
    let limbo = splice-limbo p portid e refl refl in
    let shut_again : closed portid (resetting portid p) ≡ true = ground arith in
    let cleared =
      clear_messages_lem p k portid (hold portid) dispose
        (λ m k. still m k (disposing portid p) shut) (v.lists portid small alloc) count in
    let k1 =
      dispose_each (λ m k. (dispose m k (disposing portid p)).0) (messages p.ptmsg (hold portid))
        k in
    let reset =
      reset_semaphores_lem k1 portid others (splice_free portid (disposing portid p)) e
        (released_entry p portid) (λ k. calm k (resetting portid p) shut_again) in
    let p' = leave_limbo portid PtState.pt_alloc (resetting portid p) in
    let entry : p'.porttab portid ≡ record (p.porttab portid) {
      ptstate = PtState.pt_alloc;
      seq = add32 (p.porttab portid).seq 1;
      pthead = 0;
      pttail = 0;
    } =
      rw self refl in
    let rest : (i : ℕ) → (portid == i) ≡ false → p'.porttab i ≡ p.porttab i =
      λ i diff. rw (diff, limbo, diff) refl in
    rw (open_port, cleared, reset, same portid)
      (
        refl,
        refl,
        entry,
        rest,
        (
          hold portid ++ spare,
          update hold portid [],
          splice-IsPorts v portid small alloc p' (ap (λ x. x.ptnext) limbo)
              (ap (λ x. x.ptfree) limbo) rest (λ h. rw entry (refl, refl)),
          ground (
            arith,
            length-append (hold portid) spare,
            len,
            length-messages p.ptmsg (hold portid),
          ),
          λ i. elim (Bool-cases (portid == i)) [
            | inl at ↦ rw at refl
            | inr other ↦ rw (other, same i, limbo) refl
          ],
        ),
      )
