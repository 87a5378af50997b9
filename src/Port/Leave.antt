-- ===== src/Port/Leave.antt =====
-- `ptrecv`: the first node of a port's list goes to the free list.
use ece592_final_project.Base.{
  ap, ℕ, ◌<◌, ◌≡◌, refl, sym, ◌∙◌, ◌⊎◌, inl, inr, true, false, List, [], ◌∷◌, arith, ◌==◌,
  Bool-cases, List-cases, update, has, Distinct,
}
use ece592_final_project.Port.{is_alloc, nports, Ports, unlink_first}
use ece592_final_project.Port.Nodes.{Chain, Chain-agree, IsPorts}
use ece592_final_project.Queue.Links.{has-last_or, last_or}

module _ {p : Ports} {spare : List ℕ} {hold : ℕ → List ℕ} (v : IsPorts p spare hold) (portid x : ℕ)
    (xs : List ℕ) (small : portid < nports) (open_port : is_alloc (p.porttab portid).ptstate ≡ true)
    (e : hold portid ≡ x ∷ xs) where
  abbrev left : ℕ → List ℕ
  left = update hold portid xs

  held : Chain p.ptnext (p.porttab portid).pthead (x ∷ xs)
  held = rw e at (v.lists portid small open_port)

  held-Distinct : Distinct (x ∷ xs)
  held-Distinct = rw e at (v.distinct portid)

  tail_at : (p.porttab portid).pttail ≡ last_or x xs
  tail_at = rw e at (v.tails portid small open_port)

  unlink_next : (unlink_first portid p).ptnext ≡ update p.ptnext x p.ptfree
  unfolding unlink_first
  unlink_next = let first : (p.porttab portid).pthead ≡ x = held.0 in rw first

  unlink_free : (unlink_first portid p).ptfree ≡ x
  unfolding unlink_first
  unlink_free = held.0

  pub unlink_msg : (unlink_first portid p).ptmsg ≡ p.ptmsg
  unfolding unlink_first
  unlink_msg = refl

  unlink_other : (i : ℕ) → (portid == i) ≡ false → (unlink_first portid p).porttab i ≡ p.porttab i
  unfolding unlink_first
  unlink_other i diff = ground arith

  -- The last node of a longer list is not the first.
  last_ne : (y : ℕ) (ys : List ℕ) → xs ≡ y ∷ ys → (x == last_or y ys) ≡ false
  last_ne y ys f = ground (arith, held-Distinct, has-last_or y ys, f)

  unlink_port :
      ((xs ≡ [])
        × ((unlink_first portid p).porttab portid
            ≡ record (p.porttab portid) { pthead = 0; pttail = 0 }))
      ⊎ (y : ℕ) × (ys : List ℕ) × (xs ≡ y ∷ ys)
        × ((unlink_first portid p).porttab portid
            ≡ record (p.porttab portid) { pthead = p.ptnext x })
  unfolding unlink_first
  unlink_port =
      let self : (portid == portid) ≡ true = ground arith in
      let first : (p.porttab portid).pthead ≡ x = held.0 in
      elim (List-cases xs) [
        | inl alone ↦
            let same : (x == x) ≡ true = ground arith in
            let tail : (p.porttab portid).pttail ≡ x = tail_at ∙ ap (last_or x) alone in
            inl (alone, rw (first, tail, same, self) refl)
        | inr (y, ys, f) ↦
            let tail : (p.porttab portid).pttail ≡ last_or y ys = tail_at ∙ ap (last_or x) f in
            inr (y, ys, f, rw (first, tail, last_ne y ys f, self) refl)
      ]

  out_of_spare : has x spare ≡ false
  out_of_spare = v.spare_apart portid x (ground (arith, e))

  has-left : (i a : ℕ) → has a (left i) ≡ true → (has a (hold i) ≡ true) × ((a == x) ≡ false)
  has-left i a h = elim (Bool-cases (portid == i)) [
    | inl same ↦
        let at : portid ≡ i = ground arith in rw (sym at) (ground (arith, e, held-Distinct))
    | inr diff ↦ (ground arith, ground (arith, v.apart i portid a, e))
  ]

  unlink_state : ((unlink_first portid p).porttab portid).ptstate ≡ (p.porttab portid).ptstate
  unlink_state = elim unlink_port [
    | inl (alone, f) ↦ ap (λ q. q.ptstate) f
    | inr (y, ys, more, f) ↦ ap (λ q. q.ptstate) f
  ]

  left_list :
      Chain (unlink_first portid p).ptnext ((unlink_first portid p).porttab portid).pthead xs
  left_list = elim unlink_port [
    | inl (alone, f) ↦ rw (alone, f) refl
    | inr (y, ys, more, f) ↦
        rw (f, unlink_next)
          (Chain-agree p.ptnext (update p.ptnext x p.ptfree) (p.ptnext x) xs
            (λ a h. ground (arith, held-Distinct)) held.2)
  ]

  left_tail : ((unlink_first portid p).porttab portid).pttail ≡ last_or 0 xs
  left_tail = elim unlink_port [
    | inl (alone, f) ↦ rw (alone, f) refl
    | inr (y, ys, more, f) ↦ rw f (tail_at ∙ rw more refl)
  ]

  next_at : (unlink_first portid p).ptnext x ≡ p.ptfree
  next_at = rw unlink_next (ground arith)

  pub unlink-IsPorts : IsPorts (unlink_first portid p) (x ∷ spare) left
  unlink-IsPorts = record {
    spare_list = (
      unlink_free,
      held.1,
      rw next_at (
          Chain-agree p.ptnext (unlink_first portid p).ptnext p.ptfree spare
            (λ a h. rw unlink_next (ground (arith, out_of_spare))) v.spare_list),
    );
    lists = λ i lt o. elim (Bool-cases (portid == i)) [
      | inl same ↦ let at : portid ≡ i = ground arith in rw (same, sym at) left_list
      | inr diff ↦
          rw (diff, unlink_other i diff, unlink_next)
            (Chain-agree p.ptnext (update p.ptnext x p.ptfree) (p.porttab i).pthead (hold i)
              (λ a h. ground (arith, v.apart i portid a, e))
              (v.lists i lt (rw (unlink_other i diff) at o)))
    ];
    tails = λ i lt o. elim (Bool-cases (portid == i)) [
      | inl same ↦ let at : portid ≡ i = ground arith in rw (same, sym at) left_tail
      | inr diff ↦ rw (diff, unlink_other i diff) (v.tails i lt (rw (unlink_other i diff) at o))
    ];
    spare_distinct = (out_of_spare, v.spare_distinct);
    distinct = λ i. elim (Bool-cases (portid == i)) [
      | inl same ↦ rw same held-Distinct.1
      | inr diff ↦ rw diff (v.distinct i)
    ];
    spare_apart = λ i a h. ground (arith, has-left i a h, v.spare_apart i a);
    apart = λ i j a ne h. elim (Bool-cases (has a (left j))) [
      | inr out ↦ out
      | inl here ↦ absurd (ground (arith, has-left i a h, has-left j a here, v.apart i j a ne))
    ];
  }
