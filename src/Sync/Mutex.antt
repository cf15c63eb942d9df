-- ===== src/Sync/Mutex.antt =====
-- os/src/sync/mutex.rs and os/src/sync/condvar.rs. A lock call that blocks stops at the switch, and
-- returns when its thread runs again.
pub mod World
pub mod Laws
mod Tests
use acore.Base.{
  ℕ, List, [], ◌∷◌, ◌++◌, Bool, true, false, if◌then◌else◌, Outcome, ok, ◌>>=◌, ◌>>◌, assert,
  unwrap,
}
use acore.Task.Sched.{Sched, suspend_current, block_current, wakeup_task}

-- One turn of the loop of `MutexSpin::lock`: the new state of the flag, and whether it returned.
unfoldable pub spin_lock_turn : Bool → Sched → Outcome (Bool × Bool × Sched)
unfolding suspend_current
spin_lock_turn locked s =
    if locked then (do s' ← suspend_current s; ok (true, false, s')) else ok (true, true, s)

unfoldable pub spin_unlock : Bool → Bool
spin_unlock locked = false

pub record MutexBlocking : Type 0 where
  pub locked : Bool
  pub waiter_queue : List ℕ

abbrev pub mutex_new : MutexBlocking
mutex_new = record { locked = false; waiter_queue = [] }

-- The flag tells that the call returned; otherwise it stopped at the switch.
unfoldable pub lock : MutexBlocking → Sched → Outcome (MutexBlocking × Bool × Sched)
unfolding block_current
lock m s =
    if m.locked
    then (do
      t ← unwrap s.current
      s' ← block_current s
      ok (record m { waiter_queue = m.waiter_queue ++ (t ∷ []) }, false, s'))
    else ok (record m { locked = true }, true, s)

unfoldable pub unlock : MutexBlocking → Sched → Outcome (MutexBlocking × Sched)
unfolding wakeup_task
unlock m s = do
  assert m.locked
  elim m.waiter_queue [
    | [] ↦ ok (record m { locked = false }, s)
    | t ∷ rest ↦ ok (record m { waiter_queue = rest }, wakeup_task s t)
  ]

-- `Condvar::signal`, on the queue of waiters.
unfoldable pub signal : List ℕ → Sched → List ℕ × Sched
unfolding wakeup_task
signal queue s = elim queue [ [] ↦ ([], s) | t ∷ rest ↦ (rest, wakeup_task s t) ]

-- `dyn Mutex`.
pub data Mutex : Type 0 where
  spin : Bool → Mutex
  blocking : MutexBlocking → Mutex

unfoldable pub mutex_unlock : Mutex → Sched → Outcome (Mutex × Sched)
unfolding unlock spin_unlock
mutex_unlock (spin locked) s = ok (spin (spin_unlock locked), s)
mutex_unlock (blocking m) s = do (m', s') ← unlock m s; ok (blocking m', s')

-- A call of `lock` up to its first switch.
unfoldable pub mutex_lock : Mutex → Sched → Outcome (Mutex × Sched)
unfolding lock spin_lock_turn
mutex_lock (spin locked) s = do (locked', _, s') ← spin_lock_turn locked s; ok (spin locked', s')
mutex_lock (blocking m) s = do (m', _, s') ← lock m s; ok (blocking m', s')

-- `Condvar::wait` up to the switch; the call ends with `lock` when the thread runs again.
unfoldable pub wait : List ℕ → Mutex → Sched → Outcome (List ℕ × Mutex × Sched)
unfolding mutex_unlock block_current
wait queue m s = do
  (m', s') ← mutex_unlock m s
  t ← unwrap s'.current
  s'' ← block_current s'
  ok (queue ++ (t ∷ []), m', s'')
