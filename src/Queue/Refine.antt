-- ===== src/Queue/Refine.antt =====
-- `enqueue`, `dequeue`, `getitem` and `insert` against the lists that the queues hold.
use mathlib.Core.List.{append-nil}
use ece592_final_project.Base.{
  ℕ, zero, suc, ◌+◌, ◌≤◌, ◌<◌, ◌≡◌, refl, sym, ap, ◌∙◌, inl, inr, true, false, subst, List, [], ◌∷◌,
  ◌++◌, arith, update, if◌then◌else◌, Bool-cases, length, signed_le, signed_lt, ok, empty,
  length-le_of_Distinct,
}
use ece592_final_project.Process.{Proc, nproc, isbadpid}
use ece592_final_project.Queue.{
  QTab, nqent, minkey, isbadqid, isempty, enqueue, getitem, getfirst, dequeue, insert_scan, insert,
}
use ece592_final_project.Queue.Links.{Links, head_or, last_or, next_of_Links, prev_of_Links}
use ece592_final_project.Queue.Table.{
  IsQid, IsTable, IsLoose, IsTable-insert, IsTable-remove, IsTable-store, IsTable-key,
}

pub isbadqid-IsQid : {q : ℕ} → IsQid q → isbadqid q ≡ false
isbadqid-IsQid iq = ground arith

pub isbadpid-lt : (proctab : ℕ → Proc) (pid : ℕ) → isbadpid proctab pid ≡ false → pid < nproc
isbadpid-lt proctab pid h = ground arith

-- Only what the queues hold matters of a view.
pub IsTable-view :
    {t : QTab} {view view' : ℕ → List ℕ}
    → IsTable t view
    → ((q : ℕ) → view' q ≡ view q)
    → IsTable t view'
IsTable-view {t} w same = record {
  links = λ q iq. rw (same q) (w.links q iq);
  distinct = λ q iq. rw (same q) (w.distinct q iq);
  members = λ q iq. rw (same q) (w.members q iq);
  apart = λ q r a iq ir ne. rw (same q, same r) (w.apart q r a iq ir ne);
  keys = w.keys;
}

module _ {t : QTab} {view : ℕ → List ℕ} (w : IsTable t view) where
  pub first-view : (q : ℕ) → IsQid q → t.next q ≡ head_or (q + 1) (view q)
  first-view q iq = next_of_Links t.next t.prev q (view q) (q + 1) (w.links q iq)

  pub isempty-nil : (q : ℕ) → IsQid q → view q ≡ [] → isempty t q ≡ true
  isempty-nil q iq e = ground (arith, first-view q iq)

  pub isempty-cons :
      (q : ℕ) → IsQid q → (x : ℕ) (xs : List ℕ) → view q ≡ x ∷ xs → isempty t q ≡ false
  isempty-cons q iq x xs e = ground (arith, first-view q iq, w.members q iq)

  pub length-view : (q : ℕ) → IsQid q → length (view q) ≤ nproc
  length-view q iq = length-le_of_Distinct nproc (view q) (w.distinct q iq) (w.members q iq)

  -- `enqueue` of a live process that is in no queue puts it at the end of queue `q`, leaves the
  -- other queues as they are, and returns the process.
  pub enqueue_refines :
      (proctab : ℕ → Proc) (pid q : ℕ)
      → IsQid q
      → isbadpid proctab pid ≡ false
      → IsLoose pid view
      → ((enqueue proctab pid q t).0 ≡ pid)
        × IsTable (enqueue proctab pid q t).1 (update view q (view q ++ (pid ∷ [])))
  unfolding enqueue
  enqueue_refines proctab pid q iq good loose =
      rw (isbadqid-IsQid iq, good)
        (
          refl,
          IsTable-insert w q (view q) [] pid (t.prev (q + 1)) (q + 1) iq (sym (append-nil (view q)))
              last refl (isbadpid-lt proctab pid good) loose,
        )
    where
      last : t.prev (q + 1) ≡ last_or q (view q)
      last =
          prev_of_Links t.next t.prev q (view q) [] (q + 1)
            (rw (append-nil (view q)) (w.links q iq))

  -- `getitem` takes a process out of the queue that holds it, and leaves the others as they are.
  getitem_refines :
      (pid q : ℕ) (xs ys : List ℕ)
      → IsQid q
      → view q ≡ xs ++ (pid ∷ ys)
      → ((getitem pid t).0 ≡ pid)
        × IsTable (getitem pid t).1 (update view q (xs ++ ys))
        × IsLoose pid (update view q (xs ++ ys))
  unfolding getitem
  getitem_refines pid q xs ys iq e = let r = IsTable-remove w q xs ys pid iq e in (refl, r.0, r.1)

  -- On a queue that holds `x ∷ xs`, `getfirst` returns `x` and leaves `xs`, and no queue holds `x`
  -- any more.
  pub getfirst_refines :
      (q x : ℕ) (xs : List ℕ)
      → IsQid q
      → view q ≡ x ∷ xs
      → ((getfirst q t).0 ≡ x)
        × IsTable (getfirst q t).1 (update view q xs)
        × IsLoose x (update view q xs)
  unfolding getfirst
  getfirst_refines q x xs iq e =
      rw (isempty-cons q iq x xs e, first-view q iq, e) (getitem_refines x q [] xs iq e)

  -- On an empty queue `getfirst` and `dequeue` return EMPTY and change nothing.
  pub dequeue_nil :
      (q : ℕ) → IsQid q → view q ≡ [] → (getfirst q t ≡ (empty, t)) × (dequeue q t ≡ (empty, t))
  unfolding getfirst dequeue
  dequeue_nil q iq e = rw (isempty-nil q iq e, isbadqid-IsQid iq) (refl, refl)

  -- On a queue that holds `x ∷ xs`, `dequeue` returns `x` and leaves `xs`, no queue holds `x` any more,
  -- and the other queues are as they were.
  pub dequeue_refines :
      (q x : ℕ) (xs : List ℕ)
      → IsQid q
      → view q ≡ x ∷ xs
      → ((dequeue q t).0 ≡ x)
        × IsTable (dequeue q t).1 (update view q xs)
        × IsLoose x (update view q xs)
  unfolding dequeue
  dequeue_refines q x xs iq e =
      let r = getfirst_refines q x xs iq e in
      rw (isbadqid-IsQid iq, isempty-cons q iq x xs e, r.0)
        (refl, IsTable-store r.1 x empty empty (ground (arith, w.members q iq)) r.2, r.2)

-- Where `insert` puts a key: behind every key that is not smaller.
abbrev pub front : (ℕ → ℕ) → ℕ → List ℕ → List ℕ
front k key [] = []
front k key (x ∷ xs) = if signed_le key (k x) then x ∷ front k key xs else []

abbrev pub back : (ℕ → ℕ) → ℕ → List ℕ → List ℕ
back k key [] = []
back k key (x ∷ xs) = if signed_le key (k x) then back k key xs else x ∷ xs

pub front-append-back : (k : ℕ → ℕ) (key : ℕ) (xs : List ℕ) → xs ≡ front k key xs ++ back k key xs
front-append-back k key [] = refl
front-append-back k key (x ∷ xs) = ground (arith, front-append-back k key xs)

-- The loop of `insert` ends within the fuel, at the first smaller key.
insert_scan-back :
    (t : QTab) (key n : ℕ) (xs : List ℕ) (p fuel : ℕ)
    → Links t.next t.prev p xs n
    → signed_le key (t.key n) ≡ false
    → length xs < fuel
    → insert_scan fuel t key (head_or n xs) ≡ head_or n (back t.key key xs)
unfolding insert_scan
insert_scan-back t key n xs p zero l low f = absurd (omega arith)
insert_scan-back t key n [] p (suc fuel) l low f = rw (low, insert_scan)
insert_scan-back t key n (x ∷ xs) p (suc fuel) l low f =
    elim (Bool-cases (signed_le key (t.key x))) [
      | inl go ↦
          rw (go, insert_scan, next_of_Links t.next t.prev x xs n l.2)
            (insert_scan-back t key n xs x fuel l.2 low (omega arith))
      | inr stop ↦ rw (stop, insert_scan)
    ]

-- `insert` of a live process that is in no queue puts it behind the processes of queue `q` whose key
-- is not smaller and before the others, stores its key, and leaves the other queues as they are.
-- The key is above the least one, which marks the end of a queue.
pub insert_refines :
    {t : QTab} {view : ℕ → List ℕ}
    → IsTable t view
    → (proctab : ℕ → Proc) (pid q key : ℕ) → IsQid q
    → isbadpid proctab pid ≡ false
    → IsLoose pid view
    → signed_lt minkey key ≡ true
    → ((insert proctab pid q key t).0 ≡ ok)
      × IsTable
          (insert proctab pid q key t).1
          (update view q (front t.key key (view q) ++ (pid ∷ back t.key key (view q))))
      × ((insert proctab pid q key t).1.key ≡ update t.key pid key)
unfolding insert
insert_refines {t} {view} w proctab pid q key iq good loose high =
    rw (isbadqid-IsQid iq, good, found)
      (
        refl,
        IsTable-insert stored q (front t.key key (view q)) (back t.key key (view q)) pid
            (t.prev (head_or (q + 1) (back t.key key (view q))))
            (head_or (q + 1) (back t.key key (view q))) iq split before refl small loose,
        refl,
      )
  where
    small : pid < nproc
    small = isbadpid-lt proctab pid good

    split : view q ≡ front t.key key (view q) ++ back t.key key (view q)
    split = front-append-back t.key key (view q)

    stored : IsTable (record t { key = update t.key pid key }) view
    stored = IsTable-key w (update t.key pid key) (λ a h. ground arith)

    before :
        t.prev (head_or (q + 1) (back t.key key (view q))) ≡ last_or q (front t.key key (view q))
    before =
        prev_of_Links t.next t.prev q (front t.key key (view q)) (back t.key key (view q)) (q + 1)
          (subst (λ xs. Links t.next t.prev q xs (q + 1)) split (w.links q iq))

    found : insert_scan nqent t key (t.next q) ≡ head_or (q + 1) (back t.key key (view q))
    found =
        ap (insert_scan nqent t key) (first-view w q iq)
        ∙ insert_scan-back t key (q + 1) (view q) q nqent (w.links q iq)
            (ground (arith, w.keys q iq)) (omega (arith, length-view w q iq))
