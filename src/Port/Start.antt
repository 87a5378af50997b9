-- ===== src/Port/Start.antt =====
-- `ptinit` makes the list of free nodes.
use ece592_final_project.Base.{
  sym, subst, is_neg, roundmb, mul32, ◌⊎◌, All, ◌∙◌, ap, add32, ℕ, zero, suc, ◌+◌, ◌-◌, ◌*◌, ◌<◌,
  ◌≡◌, refl, inl, inr, true, false, none, some, List, [], ◌∷◌, arith, ◌==◌, update, has, length,
  modulus, Distinct, syserr,
}
use ece592_final_project.Port.{
  nports, getmem, is_alloc, Ports, Mem, PtEntry, link_nodes, free_ports, ptinit,
}
use ece592_final_project.Port.Nodes.{Chain}
use ece592_final_project.Port.Fifo.{Stores}
use ece592_final_project.Memory.Free.{IsFree}
use ece592_final_project.Memory.Alloc.{getmem_lem}

-- `n` nodes of 8 bytes
abbrev nodes_at : ℕ → ℕ → List ℕ
nodes_at base zero = []
nodes_at base (suc n) = base ∷ nodes_at (base + 8) n

not-has-nodes_at : (a base n : ℕ) → a < base → has a (nodes_at base n) ≡ false
not-has-nodes_at a base zero lt = refl
not-has-nodes_at a base (suc n) lt = ground (arith, not-has-nodes_at a (base + 8) n)

nodes_at-Distinct : (base n : ℕ) → Distinct (nodes_at base n)
nodes_at-Distinct base zero = tt
nodes_at-Distinct base (suc n) =
    (not-has-nodes_at base (base + 8) n (omega arith), nodes_at-Distinct (base + 8) n)

length-nodes_at : (base n : ℕ) → length (nodes_at base n) ≡ n
length-nodes_at base zero = refl
length-nodes_at base (suc n) = ap suc (length-nodes_at (base + 8) n)

link_nodes_more :
    (rounds curr : ℕ) (next : ℕ → ℕ)
    → add32 curr 8 ≡ curr + 8
    → link_nodes (suc rounds) curr next ≡ link_nodes rounds (curr + 8) (update next curr (curr + 8))
unfolding link_nodes
link_nodes_more rounds curr next up = rw (link_nodes, up)

link_nodes_last :
    (curr : ℕ) (next : ℕ → ℕ)
    → 0 < curr
    → Chain (link_nodes 0 curr next) curr (curr ∷ [])
      × ((a : ℕ) → a < curr → link_nodes 0 curr next a ≡ next a)
unfolding link_nodes
link_nodes_last curr next pos = ground arith

link_nodes_lem :
    (rounds curr : ℕ) (next : ℕ → ℕ)
    → 0 < curr
    → curr + 8 * rounds < modulus
    → Chain (link_nodes rounds curr next) curr (nodes_at curr (suc rounds))
      × ((a : ℕ) → a < curr → link_nodes rounds curr next a ≡ next a)
link_nodes_lem zero curr next pos few = link_nodes_last curr next pos
link_nodes_lem (suc rounds) curr next pos few =
    let up : add32 curr 8 ≡ curr + 8 = omega arith in
    let ih =
      link_nodes_lem rounds (curr + 8) (update next curr (curr + 8)) (omega arith) (omega arith) in
    let here : link_nodes rounds (curr + 8) (update next curr (curr + 8)) curr ≡ curr + 8 =
      ih.1 curr (omega arith) ∙ (ground arith) in
    subst
      (λ nx.
        Chain nx curr (nodes_at curr (suc (suc rounds))) × ((a : ℕ) → a < curr → nx a ≡ next a))
      (sym (link_nodes_more rounds curr next up))
      (
        (
          refl,
          ground arith,
          subst
              (λ q.
                Chain (link_nodes rounds (curr + 8) (update next curr (curr + 8))) q
                  (nodes_at (curr + 8) (suc rounds)))
              (sym here) ih.0,
        ),
        λ a lt. ih.1 a (omega arith) ∙ (ground arith),
      )

free_ports_lem :
    (rounds i : ℕ) (tab : ℕ → PtEntry) (s : ℕ)
    → ((s < i → is_alloc (tab s).ptstate ≡ false)
        → s < i + rounds
        → is_alloc (free_ports rounds i tab s).ptstate ≡ false)
unfolding free_ports
free_ports_lem zero i tab s h lt = h (omega arith)
free_ports_lem (suc rounds) i tab s h lt =
    free_ports_lem rounds (i + 1) _ s (λ l. ground (arith, h)) (omega arith)

-- `ptinit` on a well-formed heap above address 0 panics only where no block of the heap can hold the
-- nodes. Otherwise every port is closed and holds no message, and `maxmsgs` nodes are free. `maxmsgs`
-- is at least 1, and small enough that the size of the nodes does not wrap.
pub ptinit_lem :
    (lo maxmsgs : ℕ) (m : Mem) (p : Ports)
    → IsFree lo m.memlist.blocks
    → 0 < lo
    → 0 < maxmsgs
    → maxmsgs < 0x1000_0000
    → (ptinit maxmsgs m p ≡ none) × All (λ b. b.len < 8 * maxmsgs) m.memlist.blocks
      ⊎ (p' : Ports) × (ptinit maxmsgs m p ≡ some (p', (getmem (8 * maxmsgs) m).1))
        × Stores p' maxmsgs (λ i. [])
        × ((i : ℕ) → i < nports → is_alloc (p'.porttab i).ptstate ≡ false)
unfolding ptinit
ptinit_lem lo zero m p f low pos few = absurd (omega arith)
ptinit_lem lo (suc rounds) m p f low pos few =
    let size : mul32 (suc rounds) 8 ≡ 8 * suc rounds = omega arith in
    let round : roundmb (8 * suc rounds) ≡ 8 * suc rounds = omega arith in
    let wide : is_neg (suc rounds) ≡ false = ground arith in
    let down : suc rounds - 1 ≡ rounds = omega arith in
    elim (getmem_lem lo (8 * suc rounds) m f (omega arith, omega arith)).0 [
      | inr (failed, same, all_small) ↦
          let bad : ((getmem (8 * suc rounds) m).0 == syserr) ≡ true = ground arith in
          rw (size, bad) (inl (refl, rw round at all_small))
      | inl (taken, counted) ↦
          let base = (getmem (8 * suc rounds) m).0 in
          let inside : base + 8 * suc rounds < modulus = rw round at taken.below in
          let good : (base == syserr) ≡ false = ground arith in
          let real : 0 < base = omega (arith, taken.above) in
          let tab = free_ports nports 0 p.porttab in
          let next = link_nodes rounds base p.ptnext in
          let closed_all = λ (i : ℕ) (lt : i < nports).
            free_ports_lem nports 0 p.porttab i (λ h. absurd (omega arith)) (omega arith) in
          rw (size, good, wide, down)
            (inr (
              record p { porttab = tab; ptfree = base; ptnextid = 0; ptnext = next },
              refl,
              (
                nodes_at base (suc rounds),
                (λ i. []),
                record {
                  spare_list = (link_nodes_lem rounds base p.ptnext real (omega arith)).0;
                  lists = λ i lt o. absurd (ground (arith, closed_all i lt));
                  tails = λ i lt o. absurd (ground (arith, closed_all i lt));
                  spare_distinct = nodes_at-Distinct base (suc rounds);
                  distinct = λ i. tt;
                  spare_apart = λ i a h. absurd (ground arith);
                  apart = λ i j a ne h. refl;
                },
                length-nodes_at base (suc rounds),
                λ i. refl,
              ),
              closed_all,
            ))
    ]
