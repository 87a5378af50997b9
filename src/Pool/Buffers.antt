-- ===== src/Pool/Buffers.antt =====
-- A pool of buffers is a list of free buffers: `getbuf` takes the first, and `freebuf` puts one back.
use ece592_final_project.Base.{
  sub32, add32, ℕ, ◌+◌, ◌≤◌, ◌<◌, ◌≡◌, refl, sym, ◌⊎◌, inl, inr, true, false, List, ◌∷◌, arith,
  ◌==◌, Bool-cases, update, has, Distinct, ok, modulus,
}
use ece592_final_project.Port.Nodes.{Chain, Chain-agree}
use ece592_final_project.Kernel.{Kernel}
use ece592_final_project.Memory.{Mem}
use ece592_final_project.Semaphore.{signal}
use ece592_final_project.Pool.{Pools, isbadpool, getbuf_end, freebuf}

-- The free buffers of each pool, in order: no buffer is in two pools, or twice in one.
pub record IsPools (p : Pools) (words : ℕ → ℕ) (spare : ℕ → List ℕ) : Type 0 where
  pub few : p.nbpools ≤ 20
  pub lists : (i : ℕ) → i < p.nbpools → Chain words (p.buftab i).bpnext (spare i)
  pub distinct : (i : ℕ) → i < p.nbpools → Distinct (spare i)
  pub apart :
      (i j a : ℕ)
      → i < p.nbpools
      → j < p.nbpools
      → (i == j) ≡ false
      → has a (spare i) ≡ true
      → has a (spare j) ≡ false

module _ {p : Pools} (m : Mem) {spare : ℕ → List ℕ} (v : IsPools p m.words spare) (poolid : ℕ)
    (small : poolid < p.nbpools) where
  has-left :
      (x : ℕ) (xs : List ℕ)
      → spare poolid ≡ x ∷ xs
      → (i a : ℕ) → has a (update spare poolid xs i) ≡ true
      → has a (spare i) ≡ true
  has-left x xs e i a h = elim (Bool-cases (poolid == i)) [
    | inl same ↦ let at : poolid ≡ i = ground arith in rw (sym at) (ground (arith, e))
    | inr diff ↦ ground arith
  ]

  left_apart :
      (x : ℕ) (xs : List ℕ)
      → spare poolid ≡ x ∷ xs
      → (i j a : ℕ) → i < p.nbpools
      → j < p.nbpools
      → (i == j) ≡ false
      → has a (update spare poolid xs i) ≡ true
      → has a (update spare poolid xs j) ≡ false
  left_apart x xs e i j a li lj ne h = elim (Bool-cases (has a (update spare poolid xs j))) [
    | inr out ↦ out
    | inl here ↦
        absurd
          (ground (arith, has-left x xs e i a h, has-left x xs e j a here, v.apart i j a li lj ne))
  ]

  has-joined :
      (x i a : ℕ)
      → has a (update spare poolid (x ∷ spare poolid) i) ≡ true
      → (has a (spare i) ≡ true) ⊎ (poolid ≡ i) × (a ≡ x)
  has-joined x i a h = elim (Bool-cases (poolid == i)) [
    | inl same ↦ let at : poolid ≡ i = ground arith in rw (sym at) (ground arith)
    | inr diff ↦ inl (ground arith)
  ]

  joined_apart :
      (x : ℕ)
      → ((i : ℕ) → i < p.nbpools → has x (spare i) ≡ false)
      → (i j a : ℕ) → i < p.nbpools
      → j < p.nbpools
      → (i == j) ≡ false
      → has a (update spare poolid (x ∷ spare poolid) i) ≡ true
      → has a (update spare poolid (x ∷ spare poolid) j) ≡ false
  joined_apart x out i j a li lj ne h =
      elim (Bool-cases (has a (update spare poolid (x ∷ spare poolid) j))) [
        | inr away ↦ away
        | inl here ↦ elim (has-joined x i a h) [
          | inl old ↦
              absurd (ground (arith, has-joined x j a here, v.apart i j a li lj ne old, out i li))
          | inr (at, new) ↦ absurd (ground (arith, has-joined x j a here, out j lj))
        ]
      ]

  -- Behind its wait, `getbuf` takes the first free buffer of the pool, if there is one: it returns the
  -- address behind the buffer's first word, which then holds the number of the pool. The other
  -- buffers of the pool and all other pools stay.
  pub getbuf_refines :
      (x : ℕ) (xs : List ℕ)
      → spare poolid ≡ x ∷ xs
      → let (addr, p', m') = getbuf_end poolid p m in
        (addr ≡ add32 x 4)
        × (m'.words x ≡ poolid)
        × (p'.nbpools ≡ p.nbpools)
        × IsPools p' m'.words (update spare poolid xs)
        × ((a : ℕ) → (a == x) ≡ false → m'.words a ≡ m.words a)
  unfolding getbuf_end
  getbuf_refines x xs e =
      let held : Chain m.words (p.buftab poolid).bpnext (x ∷ xs) = rw e at (v.lists poolid small) in
      let alone : Distinct (x ∷ xs) = rw e at (v.distinct poolid small) in
      let first : (p.buftab poolid).bpnext ≡ x = held.0 in
      rw first (
        refl,
        ground arith,
        refl,
        record {
          few = v.few;
          lists = λ i lt. elim (Bool-cases (poolid == i)) [
            | inl same ↦
                rw same (Chain-agree m.words _ (m.words x) xs (λ a h. ground (arith, alone)) held.2)
            | inr diff ↦ rw diff (
                Chain-agree m.words _ (p.buftab i).bpnext (spare i)
                  (λ a h. ground (arith, e, v.apart i poolid a lt small)) (v.lists i lt))
          ];
          distinct = λ i lt. elim (Bool-cases (poolid == i)) [
            | inl same ↦ rw same alone.1
            | inr diff ↦ rw diff (v.distinct i lt)
          ];
          apart = λ i j a li lj ne h. left_apart x xs e i j a li lj ne h;
        },
        λ a ne. ground arith,
      )

  -- `freebuf` of a buffer that no pool has, and whose first word holds the number of a pool, puts it
  -- before the free buffers of that pool and signals the semaphore of the pool. All other pools stay.
  pub freebuf_refines :
      (x : ℕ) (k : Kernel)
      → m.words x ≡ poolid
      → (x == 0) ≡ false
      → x + 4 < modulus
      → ((i : ℕ) → i < p.nbpools → has x (spare i) ≡ false)
      → let (r, p', k', m') = freebuf (x + 4) p k m in
        (r ≡ ok)
        × (k' ≡ (signal (p.buftab poolid).bpsem k).1)
        × (p'.nbpools ≡ p.nbpools)
        × IsPools p' m'.words (update spare poolid (x ∷ spare poolid))
        × ((a : ℕ) → (a == x) ≡ false → m'.words a ≡ m.words a)
  unfolding freebuf
  freebuf_refines x k owner real low out =
      let at : sub32 (x + 4) 4 ≡ x = omega arith in
      let here : update m.words x (p.buftab poolid).bpnext x ≡ (p.buftab poolid).bpnext =
        ground arith in
      let good : isbadpool poolid p ≡ false = ground (arith, v.few) in
      rw (at, owner, good)
        (
          refl,
          refl,
          refl,
          record {
            few = v.few;
            lists = λ i lt. elim (Bool-cases (poolid == i)) [
              | inl same ↦ rw same (
                refl,
                real,
                rw here (
                    Chain-agree m.words _ (p.buftab poolid).bpnext (spare poolid)
                      (λ a h. ground (arith, out poolid small)) (v.lists poolid small)),
              )
              | inr diff ↦ rw diff (
                  Chain-agree m.words _ (p.buftab i).bpnext (spare i)
                    (λ a h. ground (arith, out i lt)) (v.lists i lt))
            ];
            distinct = λ i lt. elim (Bool-cases (poolid == i)) [
              | inl same ↦ rw same (out poolid small, v.distinct poolid small)
              | inr diff ↦ rw diff (v.distinct i lt)
            ];
            apart = λ i j a li lj ne h. joined_apart x out i j a li lj ne h;
          },
          λ a ne. ground arith,
        )
