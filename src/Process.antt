-- ===== src/Process.antt =====
-- The process table of include/process.h: its states, its entries, and the test `isbadpid`.
use ece592_final_project.Base.{ℕ, leb, is_neg, Bool, true, false, ◌||◌}

abbrev pub nproc : ℕ
nproc = 100

abbrev pub nullproc : ℕ
nullproc = 0

-- `prstate`; the source numbers the states from PR_FREE = 0 to PR_RECTIM = 7.
pub data PrState : Type 0 where
  free curr ready recv sleep susp wait rectim : PrState

pub data PrType : Type 0 where
  system user : PrType

-- `struct procent`. Words are 32-bit patterns; `prio` is the sign-extended pri16. The saved stack
-- pointer and the contents of the stack belong to `ctxsw`, and the name is for debugging only.
pub record Proc : Type 0 where
  pub state : PrState
  pub prio : ℕ
  pub stkbase : ℕ
  pub stklen : ℕ
  pub sem : ℕ
  pub parent : ℕ
  pub msg : ℕ
  pub hasmsg : Bool
  pub desc : ℕ → ℕ
  pub ptype : PrType
  pub pdbr : ℕ
  pub pages_alloc : ℕ
  pub pages_used : ℕ

abbrev pub is_free : PrState → Bool
is_free PrState.free = true
is_free _ = false

abbrev pub isbadpid : (ℕ → Proc) → ℕ → Bool
isbadpid proctab pid = is_neg pid || leb nproc pid || is_free (proctab pid).state
