-- ===== src/Sync/Syscall/Tests.antt =====
-- The tables of a process at a concrete state.
use acore.Base.{[], ◌∷◌, some, none, true, false}
use acore.Task.Sched.{Sched, running, blocked, set_status}
use acore.Sync.Mutex.{spin}
use acore.Sync.Mutex.World.{World}
use acore.Sync.Syscall.{SyncTables}

abbrev tables : SyncTables
tables = record {
  mutex_list = some (spin false) ∷ none ∷ some (spin true) ∷ [];
  semaphore_list = [];
  condvar_list = some [] ∷ [];
}

-- Thread 1 runs and holds a mutex for which thread 2 waits; all others are blocked.
abbrev contended : World
contended = record {
  mutex = record { locked = true; waiter_queue = 2 ∷ [] };
  sched = record {
    ready_queue = [];
    current = some 1;
    status = set_status (λ _. blocked) 1 running;
  };
  holders = 1 ∷ [];
  locking = 2 ∷ [];
}
