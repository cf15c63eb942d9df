-- ===== src/Sync/Mutex/Tests.antt =====
-- A blocking mutex at a concrete state.
use acore.Base.{◌≤◌, length, ind, refl, [], ◌∷◌, some, arith, true}
use acore.Task.Sched.{running, blocked, set_status, wakeup_task}
use acore.Sync.Mutex.{unlock}
use acore.Sync.Mutex.World.{World, Step, IsSafe, unlocks}
use acore.Sync.Mutex.Laws.{Step-IsSafe}

-- Thread 1 runs and holds the mutex, thread 2 waits for it, all others are blocked.
abbrev contended : World
contended = record {
  mutex = record { locked = true; waiter_queue = 2 ∷ [] };
  sched = record {
    ready_queue = [];
    current = some 1;
    status = set_status (λ _. blocked) 1 running;
  };
  holders = 1 ∷ [];
  locking = 2 ∷ [];
}

contended-IsSafe : IsSafe contended
contended-IsSafe = record {
  consistent = record { stands = λ t. ground arith };
  balance = refl;
  nobody = ground arith;
  waits = λ t. ground arith;
  asleep = λ t. ground arith;
  once = λ t. ground arith;
}

-- Thread 1 unlocks, thread 2 is handed the mutex and has not run yet.
abbrev handed_over : World
handed_over = record {
  mutex = record { locked = true; waiter_queue = [] };
  sched = wakeup_task contended.sched 2;
  holders = [];
  locking = 2 ∷ [];
}

hand_over : Step contended handed_over
unfolding unlock
hand_over = unlocks refl (omega arith) refl

Step-IsSafe_example : IsSafe handed_over × (length handed_over.holders ≤ ind true)
Step-IsSafe_example = Step-IsSafe contended-IsSafe hand_over
