-- ===== src/Sync/Syscall/Laws.antt =====
-- Calls on the tables of a process: what is created is found, and threads that wait for a
-- condition are woken.
use acore.Base.{ℕ, ◌<◌, ◌≡◌, refl, ◌⊎◌, inl, inr, List, [], ◌∷◌, ◌++◌, Bool, arith, count}
use acore.Task.Sched.{Sched, ready, blocked, wakeup_task}
use acore.Task.Sched.Laws.{IsConsistent, wakeup_task-IsConsistent}
use acore.Task.Slots.{Installed, install_lem}
use acore.Sync.Mutex.{signal}
use acore.Sync.Mutex.World.{World}
use acore.Sync.Semaphore.{semaphore_new}
use acore.Sync.Syscall.{
  SyncTables, new_mutex, sys_mutex_create, sys_semaphore_create, sys_condvar_create,
}

-- Each create call puts a fresh object into the smallest free slot of its own table, or behind the
-- last, and leaves all other slots and the other two tables alone.
pub create_lem :
    (p : SyncTables) (is_blocking : Bool) (res_count : ℕ)
    → (Installed p.mutex_list
          (new_mutex is_blocking)
          (sys_mutex_create p is_blocking).0
          (sys_mutex_create p is_blocking).1.mutex_list
        × ((sys_mutex_create p is_blocking).1.semaphore_list ≡ p.semaphore_list)
        × ((sys_mutex_create p is_blocking).1.condvar_list ≡ p.condvar_list))
      × (Installed p.semaphore_list
            (semaphore_new res_count)
            (sys_semaphore_create p res_count).0
            (sys_semaphore_create p res_count).1.semaphore_list
          × ((sys_semaphore_create p res_count).1.mutex_list ≡ p.mutex_list)
          × ((sys_semaphore_create p res_count).1.condvar_list ≡ p.condvar_list))
      × (Installed p.condvar_list [] (sys_condvar_create p).0 (sys_condvar_create p).1.condvar_list
          × ((sys_condvar_create p).1.mutex_list ≡ p.mutex_list)
          × ((sys_condvar_create p).1.semaphore_list ≡ p.semaphore_list))
unfolding sys_mutex_create sys_semaphore_create sys_condvar_create
create_lem p is_blocking res_count = (
  (install_lem p.mutex_list (new_mutex is_blocking), refl, refl),
  (install_lem p.semaphore_list (semaphore_new res_count), refl, refl),
  (install_lem p.condvar_list [], refl, refl),
)

-- A queue of a condition variable: who stands in it is blocked.
abbrev pub IsWaiting : List ℕ → Sched → Type 0
IsWaiting queue s = (t : ℕ) → 0 < count t queue → s.status t ≡ blocked

-- A signal wakes the thread that waits longest for the condition, and nobody if none waits.
pub signal_lem :
    (queue : List ℕ) (s : Sched)
    → IsConsistent s
    → IsWaiting queue s
    → IsConsistent (signal queue s).1
      × (((queue ≡ []) × ((signal queue s).0 ≡ []) × ((signal queue s).1 ≡ s))
          ⊎ ((t : ℕ) × (queue ≡ t ∷ (signal queue s).0)
              × ((signal queue s).1.ready_queue ≡ s.ready_queue ++ (t ∷ []))
              × ((signal queue s).1.status t ≡ ready)))
unfolding signal wakeup_task
signal_lem [] s c h = (c, inl (refl, refl, refl))
signal_lem (t ∷ rest) s c h =
    (wakeup_task-IsConsistent s t c (h t (ground arith)), inr (t, refl, refl, ground arith))
