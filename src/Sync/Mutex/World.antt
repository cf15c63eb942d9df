-- ===== src/Sync/Mutex/World.antt =====
-- A blocking mutex among the threads that use it, and what they do, one step after the other.
use acore.Base.{
  ℕ, ◌+◌, ◌<◌, ◌≤◌, ◌≡◌, List, [], ◌∷◌, Bool, false, ltb, if◌then◌else◌, count, erase, length, some,
  none, ok, ind,
}
use acore.Task.Sched.{Sched, blocked, block_current, suspend_current, wakeup_task, run_next}
use acore.Task.Sched.Laws.{IsConsistent, is_current}
use acore.Sync.Mutex.{MutexBlocking, lock, unlock}

-- A mutex, the scheduler, the threads that hold the mutex, which are those to which a call of `lock`
-- has returned and which have not called `unlock` since, and the threads whose call of `lock` has
-- not returned.
pub record World : Type 0 where
  pub mutex : MutexBlocking
  pub sched : Sched
  pub holders : List ℕ
  pub locking : List ℕ

-- A call of `lock` returns to a thread, and one does or does not.
abbrev pub returns : World → ℕ → List ℕ
returns w t = if ltb 0 (count t w.locking) then t ∷ w.holders else w.holders

abbrev pub called : Bool → World → ℕ → List ℕ × List ℕ
called returned w t = if returned then (t ∷ w.holders, w.locking) else (w.holders, t ∷ w.locking)

-- The running thread calls `lock`, or `unlock` if it holds the mutex, or gives the processor away, or
-- blocks for another reason; or a blocked thread that does not wait for the mutex is woken; or, if no
-- thread runs, the next one does, to which a call of `lock` returns if it had not yet.
pub data Step (w : World) : World → Type 0 where
  locks :
      {t : ℕ} {m : MutexBlocking} {returned : Bool} {s : Sched}
      → w.sched.current ≡ some t
      → lock w.mutex w.sched ≡ ok (m, returned, s)
      → Step w (record {
        mutex = m;
        sched = s;
        holders = (called returned w t).0;
        locking = (called returned w t).1;
      })
  unlocks :
      {t : ℕ} {m : MutexBlocking} {s : Sched}
      → w.sched.current ≡ some t
      → 0 < count t w.holders
      → unlock w.mutex w.sched ≡ ok (m, s)
      → Step w (record { mutex = m; sched = s; holders = erase t w.holders; locking = w.locking })
  yields :
      {t : ℕ} {s : Sched}
      → w.sched.current ≡ some t
      → suspend_current w.sched ≡ ok s
      → Step w (record w { sched = s })
  blocks :
      {t : ℕ} {s : Sched}
      → w.sched.current ≡ some t
      → block_current w.sched ≡ ok s
      → Step w (record w { sched = s })
  wakes :
      {t : ℕ}
      → w.sched.status t ≡ blocked
      → count t w.mutex.waiter_queue ≡ 0
      → Step w (record w { sched = wakeup_task w.sched t })
  runs :
      {t : ℕ} {s : Sched}
      → w.sched.current ≡ none
      → run_next w.sched ≡ some s
      → s.current ≡ some t
      → Step w (record {
        mutex = w.mutex;
        sched = s;
        holders = returns w t;
        locking = erase t w.locking;
      })

-- The waiters of the mutex are blocked, and their calls have not returned; there are none when the
-- mutex is free. The running thread is in no call of `lock`. The mutex is locked exactly if one thread
-- holds it or was handed it by `unlock` and has not run since.
pub record IsSafe (w : World) : Type 0 where
  pub consistent : IsConsistent w.sched
  pub balance :
      length w.holders + length w.locking ≡ ind w.mutex.locked + length w.mutex.waiter_queue
  pub nobody : w.mutex.locked ≡ false → w.mutex.waiter_queue ≡ []
  pub waits : (t : ℕ) → count t w.mutex.waiter_queue ≤ count t w.locking
  pub asleep : (t : ℕ) → 0 < count t w.mutex.waiter_queue → w.sched.status t ≡ blocked
  pub once : (t : ℕ) → count t w.locking + is_current w.sched.current t ≤ 1
