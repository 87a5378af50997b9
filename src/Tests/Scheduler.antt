-- ===== src/Tests/Scheduler.antt =====
-- The laws of the scheduler and the semaphores at the small state.
use ece592_final_project.Base.{
  ℕ, ◌<◌, ◌≡◌, ◌⊎◌, refl, true, false, arith, ◌==◌, if◌then◌else◌, update, is_neg, syserr,
}
use ece592_final_project.Kernel.{Kernel, SState, nsem}
use ece592_final_project.Semaphore.Create.{semcreate_lem}
use ece592_final_project.Sched.{resched}
use ece592_final_project.Sched.Priority.{IsHighest, resched-IsHighest}
use ece592_final_project.Semaphore.{semcreate}
use ece592_final_project.Kernel.{is_sfree}
use ece592_final_project.Tests.State.{kernel, kernel-IsSched, kernel-Keyed}

resched-IsHighest_example : IsHighest (resched kernel)
resched-IsHighest_example = resched-IsHighest kernel-IsSched kernel-Keyed refl

-- The semaphore 6 is free; the search starts at 5.
abbrev one_free : Kernel
one_free = record kernel {
  semtab = update kernel.semtab 6 (record (kernel.semtab 6) { sstate = SState.s_free });
}

semcreate_lem_example :
    (is_neg 3 ≡ true) × (semcreate 3 one_free ≡ (syserr, one_free))
    ⊎ (is_neg 3 ≡ false)
      × ((semcreate 3 one_free).0 < nsem)
      × (is_sfree (one_free.semtab (semcreate 3 one_free).0).sstate ≡ true)
      × ((s : ℕ)
          → (semcreate 3 one_free).1.semtab s ≡ (
              if (semcreate 3 one_free).0 == s
              then record (one_free.semtab s) { sstate = SState.s_used; scount = 3 }
              else one_free.semtab s))
    ⊎ (is_neg 3 ≡ false)
      × ((semcreate 3 one_free).0 ≡ syserr)
      × ((semcreate 3 one_free).1.semtab ≡ one_free.semtab)
      × ((s : ℕ) → s < nsem → is_sfree (one_free.semtab s).sstate ≡ false)
semcreate_lem_example = semcreate_lem 3 one_free (omega arith)
