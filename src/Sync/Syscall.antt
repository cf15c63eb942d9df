-- ===== src/Sync/Syscall.antt =====
-- os/src/syscall/sync.rs without sys_sleep: the tables of a process and the calls that go through
-- them. A shared mutex, semaphore or condition variable is its slot in the table. A call that
-- blocks is modelled up to the switch.
pub mod Laws
mod Tests
use acore.Base.{
  ℕ, List, [], Bool, true, if◌then◌else◌, false, Option, some, Outcome, ok, ◌>>=◌, set,
}
use acore.Task.Sched.{Sched}
use acore.Task.Slots.{install, slot}
use acore.Sync.Mutex.{Mutex, spin, blocking, mutex_new, mutex_lock, mutex_unlock, signal, wait}
use acore.Sync.Semaphore.{Semaphore, semaphore_new, up, down}

-- `mutex_list`, `semaphore_list` and `condvar_list` of a process.
pub record SyncTables : Type 0 where
  pub mutex_list : List (Option Mutex)
  pub semaphore_list : List (Option Semaphore)
  pub condvar_list : List (Option (List ℕ))

abbrev pub new_mutex : Bool → Mutex
new_mutex is_blocking = if is_blocking then blocking mutex_new else spin false

pub sys_mutex_create : SyncTables → Bool → ℕ × SyncTables
sys_mutex_create p is_blocking =
    let (id, mutexes) = install p.mutex_list (new_mutex is_blocking) in
    (id, record p { mutex_list = mutexes })

pub sys_semaphore_create : SyncTables → ℕ → ℕ × SyncTables
sys_semaphore_create p res_count =
    let (id, semaphores) = install p.semaphore_list (semaphore_new res_count) in
    (id, record p { semaphore_list = semaphores })

pub sys_condvar_create : SyncTables → ℕ × SyncTables
sys_condvar_create p =
    let (id, condvars) = install p.condvar_list [] in (id, record p { condvar_list = condvars })

pub sys_mutex_lock : SyncTables → Sched → ℕ → Outcome (SyncTables × Sched)
sys_mutex_lock p s id = do
  m ← slot p.mutex_list id
  (m', s') ← mutex_lock m s
  ok (record p { mutex_list = set p.mutex_list id (some m') }, s')

pub sys_mutex_unlock : SyncTables → Sched → ℕ → Outcome (SyncTables × Sched)
sys_mutex_unlock p s id = do
  m ← slot p.mutex_list id
  (m', s') ← mutex_unlock m s
  ok (record p { mutex_list = set p.mutex_list id (some m') }, s')

pub sys_semaphore_up : SyncTables → Sched → ℕ → Outcome (SyncTables × Sched)
unfolding up
sys_semaphore_up p s id = do
  sem ← slot p.semaphore_list id
  let (sem', s') = up sem s
  ok (record p { semaphore_list = set p.semaphore_list id (some sem') }, s')

pub sys_semaphore_down : SyncTables → Sched → ℕ → Outcome (SyncTables × Sched)
unfolding down
sys_semaphore_down p s id = do
  sem ← slot p.semaphore_list id
  (sem', s') ← down sem s
  ok (record p { semaphore_list = set p.semaphore_list id (some sem') }, s')

pub sys_condvar_signal : SyncTables → Sched → ℕ → Outcome (SyncTables × Sched)
unfolding signal
sys_condvar_signal p s id = do
  queue ← slot p.condvar_list id
  let (queue', s') = signal queue s
  ok (record p { condvar_list = set p.condvar_list id (some queue') }, s')

pub sys_condvar_wait : SyncTables → Sched → ℕ → ℕ → Outcome (SyncTables × Sched)
unfolding wait mutex_unlock
sys_condvar_wait p s id mutex_id = do
  queue ← slot p.condvar_list id
  m ← slot p.mutex_list mutex_id
  (queue', m', s') ← wait queue m s
  ok (
    record p {
      condvar_list = set p.condvar_list id (some queue');
      mutex_list = set p.mutex_list mutex_id (some m');
    },
    s',
  )
