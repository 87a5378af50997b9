-- ===== src/Tests/Queues.antt =====
-- The laws of the queues at the small state.
use ece592_final_project.Base.{ℕ, ◌≡◌, refl, true, [], ◌∷◌, arith, update, has, ok}
use ece592_final_project.Queue.{getfirst, dequeue, insert, insertd}
use ece592_final_project.Queue.Table.{IsTable, IsLoose}
use ece592_final_project.Queue.Refine.{getfirst_refines, dequeue_refines, insert_refines}
use ece592_final_project.Queue.Delta.{delay, insertd_delays}
use ece592_final_project.Tests.State.{lists, queues, kernel, queues-IsTable, IsLoose-3}

getfirst_refines_example :
    ((getfirst 300 queues).0 ≡ 5)
    × IsTable (getfirst 300 queues).1 (update lists 300 (0 ∷ []))
    × IsLoose 5 (update lists 300 (0 ∷ []))
getfirst_refines_example =
    getfirst_refines queues-IsTable 300 5 (0 ∷ []) (refl, omega arith, omega arith) refl

dequeue_refines_example :
    ((dequeue 300 queues).0 ≡ 5)
    × IsTable (dequeue 300 queues).1 (update lists 300 (0 ∷ []))
    × IsLoose 5 (update lists 300 (0 ∷ []))
dequeue_refines_example =
    dequeue_refines queues-IsTable 300 5 (0 ∷ []) (refl, omega arith, omega arith) refl

-- A process of priority 10 goes between those of priority 15 and 0.
insert_refines_example :
    ((insert kernel.proctab 3 300 10 queues).0 ≡ ok)
    × IsTable (insert kernel.proctab 3 300 10 queues).1 (update lists 300 (5 ∷ 3 ∷ 0 ∷ []))
    × ((insert kernel.proctab 3 300 10 queues).1.key ≡ update queues.key 3 10)
insert_refines_example =
    insert_refines queues-IsTable kernel.proctab 3 300 10 (refl, omega arith, omega arith) refl
      IsLoose-3 refl

insertd_delays_example :
    ((insertd kernel.proctab 3 302 50 queues).0 ≡ ok)
    × IsTable (insertd kernel.proctab 3 302 50 queues).1 (update lists 302 (9 ∷ 3 ∷ []))
    × (delay (insertd kernel.proctab 3 302 50 queues).1.key 3 (9 ∷ 3 ∷ []) ≡ 50)
    × ((a : ℕ)
        → has a (9 ∷ []) ≡ true
        → delay (insertd kernel.proctab 3 302 50 queues).1.key a (9 ∷ 3 ∷ [])
          ≡ delay queues.key a (9 ∷ []))
insertd_delays_example =
    insertd_delays queues-IsTable kernel.proctab 3 302 50 (refl, omega arith, omega arith) refl
      IsLoose-3 (omega arith, tt) (omega arith)
