-- ===== src/Fault.antt =====
-- The handler of page faults: system/pagefault_handler.c. It reads and writes an entry of a table at an
-- address that need not be a multiple of 4; such an entry lies in two words.
pub mod Outcome
pub mod Running
use ece592_final_project.Base.{
  ℕ, ◌+◌, ◌-◌, ◌*◌, ◌/◌, ◌%◌, ◌^◌, ◌==◌, ◌&&◌, if◌then◌else◌, update, add32, modulus,
}
use ece592_final_project.Kernel.{Kernel}
use ece592_final_project.Memory.{Mem, getffsmem}
use ece592_final_project.Paging.{entry_at, pres, set_pres, valid, base, set_base}
use ece592_final_project.Lifetime.{Killing, kill_notify}

-- The word at any address, and its store
unfoldable pub load : (ℕ → ℕ) → ℕ → ℕ
load words a =
    let q = a / 4 * 4 in (words q / 256 ^ (a % 4) + words (add32 q 4) * 256 ^ (4 - a % 4)) % modulus

unfoldable pub store : (ℕ → ℕ) → (a v : ℕ) → ℕ → ℕ
store words a v =
    let q = a / 4 * 4 in
    let s = 256 ^ (a % 4) in
    let low = update words q (v * s % modulus + words q % s) in
    update low (add32 q 4) (words (add32 q 4) / s * s + v / 256 ^ (4 - a % 4))

-- What the handler does before it returns: it kills the current process, or it returns.
pub data Handled : Type 0 where
  kills : Killing → Handled
  returns : Kernel → Mem → Handled

-- The entries of the directory and of the table that the handler reads. It takes pd_base itself for
-- the address of the table.
unfoldable pub directory_entry : (cr2 : ℕ) → Kernel → Mem → ℕ
directory_entry cr2 k m = m.words (entry_at (k.proctab k.currpid).pdbr (cr2 / 0x40_0000 % 1024))

unfoldable pub table_entry : (cr2 : ℕ) → Kernel → Mem → ℕ
table_entry cr2 k m = entry_at (base (directory_entry cr2 k m)) (cr2 / 4096 % 1024)

-- `cr2` is the address that was accessed.
unfoldable pub pagefault_handler : (cr2 : ℕ) → Kernel → Mem → Handled
pagefault_handler cr2 k m =
    let p = k.proctab k.currpid in
    let pt = table_entry cr2 k m in
    let w = load m.words pt in
    if (valid w == 1) && (pres (directory_entry cr2 k m) == 0)
    then (let (mem, m1) = getffsmem 4096 m in
        let words1 = store m1.words pt (set_pres 1 (load m1.words pt)) in
        let words2 = store words1 pt (set_base (mem / 4096) (load words1 pt)) in
        Handled.returns
          (record k {
            proctab = update k.proctab k.currpid (record p { pages_used = add32 p.pages_used 1 });
            cr3 = p.pdbr;
          })
          (record m1 { words = words2 }))
    else if valid w == 0
    then Handled.kills (kill_notify k.currpid k)
    else Handled.returns k m
