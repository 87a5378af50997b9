-- ===== src/Pool.antt =====
-- Buffer pools: include/bufpool.h, system/bufinit.c, mkbufpool.c, getbuf.c and freebuf.c. The free
-- buffers of a pool are linked by their first words in memory.
pub mod Buffers
pub mod Make
pub mod Create
pub mod Outcome
use ece592_final_project.Base.{
  ℕ, zero, suc, ◌+◌, ◌-◌, ◌/◌, ◌*◌, Bool, ◌||◌, ◌==◌, Option, none, some, if◌then◌else◌, update,
  is_neg, signed_lt, signed_le, add32, sub32, mul32, syserr, ok,
}
use ece592_final_project.Kernel.{Kernel}
use ece592_final_project.Memory.{Mem, getmem, freemem}
use ece592_final_project.Semaphore.{wait, signal, semcreate}

abbrev pub nbpools_max : ℕ
nbpools_max = 20

abbrev pub bp_maxb : ℕ
bp_maxb = 8192

abbrev pub bp_minb : ℕ
bp_minb = 8

abbrev pub bp_maxn : ℕ
bp_maxn = 2048

pub record BpEntry : Type 0 where
  pub bpnext : ℕ
  pub bpsem : ℕ
  pub bpsize : ℕ

pub record Pools : Type 0 where
  pub buftab : ℕ → BpEntry
  pub nbpools : ℕ

unfoldable pub bufinit : Pools → Pools
bufinit p = record p { nbpools = 0 }

-- The loop of `mkbufpool`, with `numbufs` already counted down, and the NULL behind it
unfoldable pub link_buffers : (numbufs bufsiz buf : ℕ) → (ℕ → ℕ) → ℕ → ℕ
link_buffers zero bufsiz buf words = update words buf 0
link_buffers (suc numbufs) bufsiz buf words =
    let next = add32 buf bufsiz in link_buffers numbufs bufsiz next (update words buf next)

-- `(bufsiz + 3) & ~3`
abbrev pub round_buffer : ℕ → ℕ
round_buffer bufsiz = add32 bufsiz 3 / 4 * 4

unfoldable pub mkbufpool : (bufsiz numbufs : ℕ) → Pools → Kernel → Mem → ℕ × Pools × Kernel × Mem
mkbufpool bufsiz numbufs p k m =
    if signed_lt bufsiz bp_minb
      || signed_lt bp_maxb bufsiz
      || signed_lt numbufs 1
      || signed_lt bp_maxn numbufs
      || signed_le nbpools_max p.nbpools
    then (syserr, p, k, m)
    else let size = round_buffer bufsiz in
      let total = mul32 numbufs (add32 size 4) in
      let (buf, m1) = getmem total m in
      if buf == syserr
      then (syserr, p, k, m1)
      else let poolid = p.nbpools in
        let (sem, k1) = semcreate numbufs k in
        let tab = update p.buftab poolid (record { bpnext = buf; bpsem = sem; bpsize = size }) in
        if sem == syserr
        then (syserr, record p { buftab = tab }, k1, (freemem buf total m1).1)
        else (
          poolid,
          record p { buftab = tab; nbpools = add32 poolid 1 },
          k1,
          record m1 { words = link_buffers (numbufs - 1) (add32 size 4) buf m1.words },
        )

abbrev pub isbadpool : ℕ → Pools → Bool
isbadpool poolid p = is_neg poolid || signed_le p.nbpools poolid

-- `getbuf` up to the end of its `wait`: `none` where it returns SYSERR.
unfoldable pub getbuf_begin : ℕ → Pools → Kernel → Option Kernel
getbuf_begin poolid p k =
    if isbadpool poolid p then none else some (wait (p.buftab poolid).bpsem k).1

-- The rest of `getbuf`, when the caller is current again.
unfoldable pub getbuf_end : ℕ → Pools → Mem → ℕ × Pools × Mem
getbuf_end poolid p m =
    let e = p.buftab poolid in
    let buf = e.bpnext in
    (
      add32 buf 4,
      record p { buftab = update p.buftab poolid (record e { bpnext = m.words buf }) },
      record m { words = update m.words buf poolid },
    )

unfoldable pub freebuf : ℕ → Pools → Kernel → Mem → ℕ × Pools × Kernel × Mem
freebuf bufaddr p k m =
    let buf = sub32 bufaddr 4 in
    let poolid = m.words buf in
    if isbadpool poolid p
    then (syserr, p, k, m)
    else let e = p.buftab poolid in
      (
        ok,
        record p { buftab = update p.buftab poolid (record e { bpnext = buf }) },
        (signal e.bpsem k).1,
        record m { words = update m.words buf e.bpnext },
      )
