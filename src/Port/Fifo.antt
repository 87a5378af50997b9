-- ===== src/Port/Fifo.antt =====
-- A port is a queue of messages: what `ptsend` and `ptrecv` do behind their `wait`.
use ece592_final_project.Base.{
  ℕ, suc, ◌<◌, ◌≡◌, refl, ◌∙◌, sym, ap, inl, inr, true, false, some, List, [], ◌∷◌, ◌++◌, arith,
  ◌==◌, Bool-cases, List-cases, update, has, length, ok,
}
use ece592_final_project.Port.{
  alloc_node, link_last, is_alloc, signal, is_stale, nports, Kernel, Ports, ptsend_end, ptrecv_end,
}
use ece592_final_project.Port.Nodes.{IsPorts}
use ece592_final_project.Port.Leave.{unlink_msg, unlink-IsPorts}
use ece592_final_project.Port.Join.{link-IsPorts, joined_port}

-- The messages of a list of nodes
abbrev pub messages : (ℕ → ℕ) → List ℕ → List ℕ
messages msg [] = []
messages msg (x ∷ xs) = msg x ∷ messages msg xs

-- Each port holds its queue of messages, and `n` nodes are free.
abbrev pub Stores : Ports → ℕ → (ℕ → List ℕ) → Type 0
Stores p n queues =
    (spare : List ℕ) × (hold : ℕ → List ℕ) × IsPorts p spare hold
    × (length spare ≡ n)
    × ((i : ℕ) → queues i ≡ messages p.ptmsg (hold i))

pub messages-agree :
    (msg msg' : ℕ → ℕ) (xs : List ℕ)
    → ((a : ℕ) → has a xs ≡ true → msg' a ≡ msg a)
    → messages msg' xs ≡ messages msg xs
messages-agree msg msg' [] f = refl
messages-agree msg msg' (x ∷ xs) f =
    ground (arith, f x, messages-agree msg msg' xs (λ a h. f a (ground arith)))

pub messages-append :
    (msg : ℕ → ℕ) (xs ys : List ℕ) → messages msg (xs ++ ys) ≡ messages msg xs ++ messages msg ys
messages-append msg [] ys = refl
messages-append msg (x ∷ xs) ys = ap (◌∷◌ (msg x)) (messages-append msg xs ys)

-- The rest of `ptsend` at an open port that was not reset meanwhile appends the message to the queue of
-- the port and takes one free node, leaves the other queues as they are, signals the receivers, and
-- returns OK.
pub ptsend_refines :
    (p : Ports) (k : Kernel) (n : ℕ) (queues : ℕ → List ℕ) (portid msg seq : ℕ)
    → Stores p (suc n) queues
    → portid < nports
    → is_stale portid seq p ≡ false
    → (p' : Ports) × (ptsend_end portid msg seq k p
        ≡ some (ok, (signal (p.porttab portid).rsem k).1, p'))
      × Stores p' n (update queues portid (queues portid ++ (msg ∷ [])))
unfolding ptsend_end
ptsend_refines p k n queues portid msg seq (spare, hold, v, len, same) small fresh =
    elim (List-cases spare) [
      | inl none_left ↦ absurd (ground (arith, len, none_left))
      | inr (x, xs, e) ↦
          let v1 : IsPorts p (x ∷ xs) hold = rw e at v in
          let free_node : (p.ptfree == 0) ≡ false = ground (arith, v1.spare_list) in
          let p' = link_last portid p.ptfree (alloc_node msg p) in
          let open_port : is_alloc (p.porttab portid).ptstate ≡ true = ground arith in
          let new_msg : p'.ptmsg ≡ update p.ptmsg x msg =
            (joined_port x v1 portid msg small open_port).0 in
          (
            p',
            rw (fresh, free_node) refl,
            (
              xs,
              update hold portid (hold portid ++ (x ∷ [])),
              link-IsPorts x v1 portid msg small open_port,
              ground (arith, len, e),
              λ i. elim (Bool-cases (portid == i)) [
                | inl at ↦
                    let here : update p.ptmsg x msg x ≡ msg = ground arith in
                    rw
                      (
                        at,
                        new_msg,
                        messages-append (update p.ptmsg x msg) (hold portid) (x ∷ []),
                        here,
                        same portid,
                      )
                      (ap (λ ms. ms ++ (msg ∷ [])) (sym (kept v1 portid msg)))
                | inr other ↦ rw (other, new_msg) (same i ∙ sym (kept v1 i msg))
              ],
            ),
          )
    ]
  where
    kept :
        {p : Ports} {x : ℕ} {xs : List ℕ} {hold : ℕ → List ℕ}
        → IsPorts p (x ∷ xs) hold
        → (i msg : ℕ) → messages (update p.ptmsg x msg) (hold i) ≡ messages p.ptmsg (hold i)
    kept {p} {x} {xs} {hold} v i msg =
        messages-agree p.ptmsg (update p.ptmsg x msg) (hold i)
          (λ a h. ground (arith, v.spare_apart i a h))

-- The rest of `ptrecv` at an open port that was not reset meanwhile and holds a message takes the first
-- message off the queue of the port and returns it, leaves the other queues as they are, signals the
-- senders, and frees the node.
pub ptrecv_refines :
    (p : Ports) (k : Kernel) (n : ℕ) (queues : ℕ → List ℕ) (portid msg seq : ℕ) (msgs : List ℕ)
    → Stores p n queues
    → portid < nports
    → is_stale portid seq p ≡ false
    → queues portid ≡ msg ∷ msgs
    → let (result, k', p') = ptrecv_end portid seq k p in
      (result ≡ msg)
      × (k' ≡ (signal (p.porttab portid).ssem k).1)
      × Stores p' (suc n) (update queues portid msgs)
unfolding ptrecv_end
ptrecv_refines p k n queues portid msg seq msgs (spare, hold, v, len, same) small fresh e =
    elim (List-cases (hold portid)) [
      | inl none_held ↦ absurd (ground (arith, same portid, e, none_held))
      | inr (x, xs, f) ↦
          let open_port : is_alloc (p.porttab portid).ptstate ≡ true = ground arith in
          let both : msg ∷ msgs ≡ p.ptmsg x ∷ messages p.ptmsg xs =
            sym e ∙ same portid ∙ ap (messages p.ptmsg) f in
          let first : (p.porttab portid).pthead ≡ x =
            (rw f at (v.lists portid small open_port)).0 in
          rw fresh (
            ground (arith, first, both),
            refl,
            (
              x ∷ spare,
              update hold portid xs,
              unlink-IsPorts v portid x xs small open_port f,
              ground (arith, len),
              λ i.
                  rw (unlink_msg v portid x xs small open_port f) (elim (Bool-cases (portid == i)) [
                    | inl at ↦ rw at (ground (arith, both))
                    | inr other ↦ rw other (same i)
                  ]),
            ),
          )
    ]
