-- ===== src/Sync/Semaphore/Tests.antt =====
-- A semaphore at a concrete state.
use acore.Base.{◌≡◌, refl, inl, [], ◌∷◌, some, ok, arith}
use acore.Task.Sched.{Sched, running, blocked, set_status}
use acore.Sync.Semaphore.{Semaphore, up, down}
use acore.Sync.Semaphore.Laws.{Permits, Refines, spec_up, spec_down, up-Refines, down-Refines}

abbrev one_runs : Sched
one_runs = record {
  ready_queue = [];
  current = some 1;
  status = set_status (λ _. blocked) 1 running;
}

-- Threads 3 and 4 wait.
abbrev contended : Semaphore
contended = record { count = 18446744073709551614; waiter_queue = 3 ∷ 4 ∷ [] }

abbrev two_wait : Permits
two_wait = record { permits = 0; waiters = 3 ∷ 4 ∷ [] }

two_wait-Refines : Refines contended two_wait
two_wait-Refines = record { queue = refl; balance = refl; idle = inl refl; small = omega arith }

up-Refines_example :
    Refines (up contended one_runs).0 (spec_up two_wait one_runs).0
    × ((up contended one_runs).1 ≡ (spec_up two_wait one_runs).1)
up-Refines_example = up-Refines contended two_wait one_runs two_wait-Refines (omega arith)

down-Refines_example :
    (sem' : Semaphore) × (p' : Permits) × (s' : Sched) × (down contended one_runs ≡ ok (sem', s'))
    × (spec_down two_wait one_runs 1 ≡ ok (p', s'))
    × Refines sem' p'
down-Refines_example =
    down-Refines contended two_wait one_runs 1 two_wait-Refines (omega arith) refl
