-- ===== src/Queue/Table.antt =====
-- The queue table as a family of lists: what links, `splice` and `getitem` do to that view.
use ece592_final_project.Base.{
  ℕ, ◌+◌, ◌%◌, ◌≤◌, ◌<◌, ◌≡◌, refl, ◌≢◌, inl, inr, true, false, List, [], ◌∷◌, ◌++◌, arith, ◌==◌,
  update, has, has-append, All, Distinct, Bool-cases,
}
use ece592_final_project.Process.{nproc}
use ece592_final_project.Queue.{QTab, nqent, maxkey, minkey, splice, getitem}
use ece592_final_project.Queue.Links.{
  Links, head_or, last_or, has-last_or, has-head_or, Links-frame, Links-insert, Links-remove,
  Links-tail, next_of_Links, prev_of_Links,
}

-- The head of a queue that `newqueue` gives out.
abbrev pub IsQid : ℕ → Type 0
IsQid q = (q % 2 ≡ 0) × (nproc ≤ q) × (q + 1 < nqent)

-- `queuetab` holds, for each queue `q`, the processes `view q` in order; no process is in two
-- queues, nor twice in one.
pub record IsTable (t : QTab) (view : ℕ → List ℕ) : Type 0 where
  pub links : (q : ℕ) → IsQid q → Links t.next t.prev q (view q) (q + 1)
  pub distinct : (q : ℕ) → IsQid q → Distinct (view q)
  pub members : (q : ℕ) → IsQid q → All (λ x. x < nproc) (view q)
  pub apart :
      (q r a : ℕ) → IsQid q → IsQid r → q ≢ r → has a (view q) ≡ true → has a (view r) ≡ false
  pub keys : (q : ℕ) → IsQid q → (t.key q ≡ maxkey) × (t.key (q + 1) ≡ minkey)

pub lt_of_has : (a : ℕ) (xs : List ℕ) → All (λ x. x < nproc) xs → has a xs ≡ true → a < nproc
lt_of_has a [] h m = ground arith
lt_of_has a (x ∷ xs) h m = ground (arith, lt_of_has a xs h.1)

pub not-has_of_le : (a : ℕ) (xs : List ℕ) → All (λ x. x < nproc) xs → nproc ≤ a → has a xs ≡ false
not-has_of_le a [] h m = refl
not-has_of_le a (x ∷ xs) h m = ground (arith, not-has_of_le a xs h.1)

Distinct-insert :
    (xs ys : List ℕ) (y : ℕ)
    → Distinct (xs ++ ys)
    → has y (xs ++ ys) ≡ false
    → Distinct (xs ++ (y ∷ ys))
Distinct-insert [] ys y d h = (h, d)
Distinct-insert (x ∷ xs) ys y d h = (
  ground (arith, has-append x xs ys, has-append x xs (y ∷ ys)),
  Distinct-insert xs ys y d.1 (ground arith),
)

pub Distinct-drop :
    (xs ys : List ℕ) (y : ℕ)
    → Distinct (xs ++ (y ∷ ys))
    → Distinct (xs ++ ys) × (has y (xs ++ ys) ≡ false)
Distinct-drop [] ys y d = (d.1, d.0)
Distinct-drop (x ∷ xs) ys y d =
    ground (arith, Distinct-drop xs ys y d.1, has-append x xs ys, has-append x xs (y ∷ ys))

All-insert :
    (xs ys : List ℕ) (y : ℕ)
    → All (λ x. x < nproc) (xs ++ ys)
    → y < nproc
    → All (λ x. x < nproc) (xs ++ (y ∷ ys))
All-insert [] ys y h p = (p, h)
All-insert (x ∷ xs) ys y h p = (h.0, All-insert xs ys y h.1 p)

All-drop :
    (xs ys : List ℕ) (y : ℕ)
    → All (λ x. x < nproc) (xs ++ (y ∷ ys))
    → All (λ x. x < nproc) (xs ++ ys) × (y < nproc)
All-drop [] ys y h = (h.1, h.0)
All-drop (x ∷ xs) ys y h = let r = All-drop xs ys y h.1 in ((h.0, r.0), r.1)

-- No queue holds `y`.
abbrev pub IsLoose : ℕ → (ℕ → List ℕ) → Type 0
IsLoose y view = (q : ℕ) → IsQid q → has y (view q) ≡ false

module _ {t : QTab} {view : ℕ → List ℕ} (w : IsTable t view) where
  -- A node of the queue `q` is no node of another queue.
  other_front :
      (q r a : ℕ)
      → IsQid q
      → IsQid r
      → q ≢ r
      → has a (q ∷ view q) ≡ true
      → has a (r ∷ view r) ≡ false
  other_front q r a iq ir ne h = ground (
    arith,
    w.apart q r a iq ir ne,
    lt_of_has a (view q) (w.members q iq),
    not-has_of_le a (view r) (w.members r ir),
  )

  other_back :
      (q r a : ℕ)
      → IsQid q
      → IsQid r
      → q ≢ r
      → has a ((q + 1) ∷ view q) ≡ true
      → has a ((r + 1) ∷ view r) ≡ false
  other_back q r a iq ir ne h = ground (
    arith,
    w.apart q r a iq ir ne,
    lt_of_has a (view q) (w.members q iq),
    not-has_of_le a (view r) (w.members r ir),
  )

  neighbours :
      (q r : ℕ)
      → IsQid q
      → IsQid r
      → q ≢ r
      → (xs ys : List ℕ) → view q ≡ xs ++ ys
      → (has (last_or q xs) (r ∷ view r) ≡ false)
        × (has (head_or (q + 1) ys) ((r + 1) ∷ view r) ≡ false)
  neighbours q r iq ir ne xs ys e = (
    other_front q r (last_or q xs) iq ir ne
        (ground (arith, has-last_or q xs, has-append (last_or q xs) xs ys)),
    other_back q r (head_or (q + 1) ys) iq ir ne
        (ground (arith, has-head_or (q + 1) ys, has-append (head_or (q + 1) ys) xs ys)),
  )

  -- A new process `y` is linked in between `xs` and `ys`.
  pub IsTable-insert :
      (q : ℕ) (xs ys : List ℕ) (y u c : ℕ)
      → IsQid q
      → view q ≡ xs ++ ys
      → u ≡ last_or q xs
      → c ≡ head_or (q + 1) ys
      → y < nproc
      → IsLoose y view
      → IsTable (splice y u c t) (update view q (xs ++ (y ∷ ys)))
  IsTable-insert q xs ys y u c iq e hu hc small loose = record {
    links = λ r ir. elim (Bool-cases (q == r)) [
      | inl same ↦ ground (
        arith,
        Links-insert t.next t.prev q xs ys (q + 1) y u c,
        w.links q iq,
        w.distinct q iq,
        loose q iq,
        not-has_of_le q (view q) (w.members q iq) iq.1,
        not-has_of_le (q + 1) (view q) (w.members q iq),
      )
      | inr diff ↦ rw diff (
          Links-frame t.next t.prev _ _ r (view r) (r + 1)
            (λ a h. ground (arith, neighbours q r iq ir (ground arith) xs ys e, loose r ir))
            (λ a h. ground (arith, neighbours q r iq ir (ground arith) xs ys e, loose r ir))
            (w.links r ir))
    ];
    distinct = λ r ir.
        ground (arith, w.distinct r ir, w.distinct q iq, loose q iq, Distinct-insert xs ys y);
    members = λ r ir. ground (arith, w.members r ir, w.members q iq, All-insert xs ys y);
    apart = λ r s a ir is ne h. ground (
      arith,
      w.apart r s a ir is ne,
      loose r ir,
      loose s is,
      has-append a xs ys,
      has-append a xs (y ∷ ys),
    );
    keys = w.keys;
  }

  -- The process `y` is unlinked from between `xs` and `ys`.
  pub IsTable-remove :
      (q : ℕ) (xs ys : List ℕ) (y : ℕ)
      → IsQid q
      → view q ≡ xs ++ (y ∷ ys)
      → IsTable (getitem y t).1 (update view q (xs ++ ys)) × IsLoose y (update view q (xs ++ ys))
  unfolding getitem
  IsTable-remove q xs ys y iq e = (
    record {
      links = λ r ir. elim (Bool-cases (q == r)) [
        | inl same ↦ ground (
          arith,
          Links-remove t.next t.prev q xs y ys (q + 1) (t.prev y) (t.next y),
          here,
          before,
          after,
          w.distinct q iq,
          not-has_of_le q (view q) (w.members q iq) iq.1,
          not-has_of_le (q + 1) (view q) (w.members q iq),
        )
        | inr diff ↦ rw diff (
            Links-frame t.next t.prev _ _ r (view r) (r + 1)
              (λ a h. ground (arith, before, (neighbours q r iq ir (ground arith) xs (y ∷ ys) e).0))
              (λ a h. ground (arith, after, beyond r ir (ground arith))) (w.links r ir))
      ];
      distinct = λ r ir. ground (arith, w.distinct r ir, w.distinct q iq, Distinct-drop xs ys y);
      members = λ r ir. ground (arith, w.members r ir, w.members q iq, All-drop xs ys y);
      apart = λ r s a ir is ne h.
          ground (arith, w.apart r s a ir is ne, has-append a xs ys, has-append a xs (y ∷ ys));
      keys = w.keys;
    },
    λ r ir. ground (
      arith,
      w.apart q r y iq ir,
      has-append y xs (y ∷ ys),
      w.distinct q iq,
      Distinct-drop xs ys y,
    ),
  )
    where
      here : Links t.next t.prev q (xs ++ (y ∷ ys)) (q + 1)
      here = rw e at (w.links q iq)

      before : t.prev y ≡ last_or q xs
      before = prev_of_Links t.next t.prev q xs (y ∷ ys) (q + 1) here

      after : t.next y ≡ head_or (q + 1) ys
      after =
          next_of_Links t.next t.prev y ys (q + 1) (Links-tail t.next t.prev q xs y ys (q + 1) here)

      beyond : (r : ℕ) → IsQid r → q ≢ r → has (head_or (q + 1) ys) ((r + 1) ∷ view r) ≡ false
      beyond r ir ne =
          other_back q r (head_or (q + 1) ys) iq ir ne
            (ground (arith, has-head_or (q + 1) ys, has-append (head_or (q + 1) ys) xs (y ∷ ys)))

  -- A store to the links of a process that is in no queue leaves the view as it is.
  pub IsTable-store :
      (y n p : ℕ)
      → y < nproc
      → IsLoose y view
      → IsTable (record t { next = update t.next y n; prev = update t.prev y p }) view
  IsTable-store y n p small loose = record {
    links = λ r ir.
        Links-frame t.next t.prev _ _ r (view r) (r + 1) (λ a h. ground (arith, loose r ir))
          (λ a h. ground (arith, loose r ir)) (w.links r ir);
    distinct = w.distinct;
    members = w.members;
    apart = w.apart;
    keys = w.keys;
  }

  -- So does a change of the keys that spares heads and tails.
  pub IsTable-key :
      (key : ℕ → ℕ)
      → ((a : ℕ) → nproc ≤ a → key a ≡ t.key a)
      → IsTable (record t { key = key }) view
  IsTable-key key same = record {
    links = w.links;
    distinct = w.distinct;
    members = w.members;
    apart = w.apart;
    keys = λ q iq. ground (arith, w.keys q iq, same q, same (q + 1));
  }
