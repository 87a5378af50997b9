-- ===== src/Port/Join.antt =====
-- `ptsend`: a node goes from the free list to the end of a port's list.
use ece592_final_project.Base.{
  sym, ◌⊎◌, ℕ, ◌<◌, ◌≡◌, refl, ◌∙◌, inl, inr, true, false, List, [], ◌∷◌, ◌++◌, arith, ◌==◌,
  Bool-cases, List-cases, update, has, has-append, Distinct,
}
use ece592_final_project.Queue.Links.{has-last_or, last_or}
use ece592_final_project.Port.{is_alloc, nports, Ports, alloc_node, link_last}
use ece592_final_project.Port.Nodes.{Chain, Chain-agree, Chain-join, Chain-nonzero, IsPorts}

Distinct-join : (xs : List ℕ) (n : ℕ) → Distinct xs → has n xs ≡ false → Distinct (xs ++ (n ∷ []))
Distinct-join [] n d out = ground arith
Distinct-join (x ∷ xs) n d out =
    (ground (arith, has-append x xs (n ∷ [])), Distinct-join xs n d.1 (ground arith))

last_or-join : (p n : ℕ) (xs : List ℕ) → last_or p (xs ++ (n ∷ [])) ≡ n
last_or-join p n [] = refl
last_or-join p n (x ∷ xs) = last_or-join x n xs

module _ {p : Ports} {spare : List ℕ} {hold : ℕ → List ℕ} (n : ℕ) (v : IsPorts p (n ∷ spare) hold)
    (portid msg : ℕ) (small : portid < nports)
    (open_port : is_alloc (p.porttab portid).ptstate ≡ true) where
  abbrev joined : ℕ → List ℕ
  joined = update hold portid (hold portid ++ (n ∷ []))

  abbrev linked : Ports
  linked = link_last portid p.ptfree (alloc_node msg p)

  fresh : (i : ℕ) → has n (hold i) ≡ false
  fresh i = elim (Bool-cases (has n (hold i))) [
    | inl here ↦ absurd (ground (arith, v.spare_apart i n here))
    | inr out ↦ out
  ]

  has-joined :
      (i a : ℕ) → has a (joined i) ≡ true → (has a (hold i) ≡ true) ⊎ (portid ≡ i) × (a ≡ n)
  has-joined i a h = elim (Bool-cases (portid == i)) [
    | inl same ↦
        let at : portid ≡ i = ground arith in rw at (ground (arith, has-append a (hold i) (n ∷ [])))
    | inr diff ↦ inl (ground arith)
  ]

  joined-Distinct : (i : ℕ) → Distinct (joined i)
  joined-Distinct i = elim (Bool-cases (portid == i)) [
    | inl same ↦ rw same (Distinct-join (hold portid) n (v.distinct portid) (fresh portid))
    | inr diff ↦ rw diff (v.distinct i)
  ]

  has_last : (y : ℕ) (ys : List ℕ) → has (last_or y ys) (y ∷ ys) ≡ true
  has_last y ys = has-last_or y ys

  -- The links of other nodes
  next_same :
      (a : ℕ)
      → (a == n) ≡ false
      → has a (hold portid) ≡ false
      → (a == 0) ≡ false
      → linked.ptnext a ≡ p.ptnext a
  unfolding link_last alloc_node
  next_same a ne out real = elim (List-cases (hold portid)) [
    | inl none_held ↦ ground (arith, v.tails portid small open_port, none_held, v.spare_list)
    | inr (y, ys, e) ↦
        ground (arith, v.tails portid small open_port, e, has_last y ys, v.spare_list)
  ]

  joined_list : Chain linked.ptnext (linked.porttab portid).pthead (joined portid)
  unfolding link_last alloc_node
  joined_list =
      let self : (portid == portid) ≡ true = ground arith in
      elim (List-cases (hold portid)) [
        | inl none_held ↦
            let tail : (p.porttab portid).pttail ≡ 0 =
              rw none_held at (v.tails portid small open_port) in
            rw (self, none_held, tail) (ground (arith, v.spare_list))
        | inr (y, ys, e) ↦
            let tail : (p.porttab portid).pttail ≡ last_or y ys =
              rw e at (v.tails portid small open_port) in
            let old : Chain p.ptnext (p.porttab portid).pthead (y ∷ ys) =
              rw e at (v.lists portid small open_port) in
            let real : (last_or y ys == 0) ≡ false =
              Chain-nonzero p.ptnext (p.porttab portid).pthead (last_or y ys) (y ∷ ys) old
                (has_last y ys) in
            let first : p.ptfree ≡ n = v.spare_list.0 in
            rw (e, tail, real, first, self)
              (Chain-join p.ptnext (p.porttab portid).pthead n y ys old
                (rw e at (v.distinct portid)) (rw e at (fresh portid))
                (ground (arith, v.spare_list)))
      ]

  port_same : (i : ℕ) → (portid == i) ≡ false → linked.porttab i ≡ p.porttab i
  unfolding link_last alloc_node
  port_same i diff = ground arith

  pub joined_port :
      (linked.ptmsg ≡ update p.ptmsg n msg)
      × (linked.ptfree ≡ p.ptnext n)
      × ((linked.porttab portid).ptstate ≡ (p.porttab portid).ptstate)
      × ((linked.porttab portid).pttail ≡ n)
  unfolding link_last alloc_node
  joined_port =
      let first : p.ptfree ≡ n = v.spare_list.0 in
      let self : (portid == portid) ≡ true = ground arith in
      elim (Bool-cases ((p.porttab portid).pttail == 0)) [
        | inl none_held ↦ rw (none_held, first, self) (refl, refl, refl, refl)
        | inr some_held ↦ rw (some_held, first, self) (refl, refl, refl, refl)
      ]

  pub link-IsPorts : IsPorts linked spare joined
  link-IsPorts = record {
    spare_list = rw (joined_port.1) (
        Chain-agree p.ptnext linked.ptnext (p.ptnext n) spare
          (λ a h.
            next_same a (ground (arith, v.spare_distinct)) (not_held a h)
              (Chain-nonzero p.ptnext (p.ptnext n) a spare v.spare_list.2 h))
          v.spare_list.2);
    lists = λ i lt o. elim (Bool-cases (portid == i)) [
      | inl same ↦ let at : portid ≡ i = ground arith in rw (sym at) joined_list
      | inr diff ↦
          let old = v.lists i lt (rw (port_same i diff) at o) in
          rw (diff, port_same i diff)
            (Chain-agree p.ptnext linked.ptnext (p.porttab i).pthead (hold i)
              (λ a h.
                next_same a (ground (arith, fresh i)) (v.apart i portid a (ground arith) h)
                  (Chain-nonzero p.ptnext (p.porttab i).pthead a (hold i) old h))
              old)
    ];
    tails = λ i lt o. elim (Bool-cases (portid == i)) [
      | inl same ↦
          let at : portid ≡ i = ground arith in
          rw (same, sym at) (joined_port.3 ∙ sym (last_or-join 0 n (hold portid)))
      | inr diff ↦ rw (diff, port_same i diff) (v.tails i lt (rw (port_same i diff) at o))
    ];
    spare_distinct = v.spare_distinct.1;
    distinct = joined-Distinct;
    spare_apart = λ i a h. ground (arith, has-joined i a h, v.spare_apart i a, v.spare_distinct);
    apart = λ i j a ne h. elim (has-joined i a h) [
      | inl old ↦ elim (Bool-cases (has a (joined j))) [
        | inr out ↦ out
        | inl here ↦ absurd (ground (arith, has-joined j a here, v.apart i j a ne old, fresh i))
      ]
      | inr (at, new) ↦ elim (Bool-cases (has a (joined j))) [
        | inr out ↦ out
        | inl here ↦ absurd (ground (arith, has-joined j a here, fresh j))
      ]
    ];
  }
    where
      not_held : (a : ℕ) → has a spare ≡ true → has a (hold portid) ≡ false
      not_held a h = elim (Bool-cases (has a (hold portid))) [
        | inl here ↦ absurd (ground (arith, v.spare_apart portid a here))
        | inr out ↦ out
      ]
