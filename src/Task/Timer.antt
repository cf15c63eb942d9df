-- ===== src/Task/Timer.antt =====
-- os/src/timer/mod.rs without the registers, and sys_sleep of os/src/syscall/sync.rs. The heap is
-- the list of its timers, those that expire first in front.
pub mod Laws
mod Tests
use acore.Base.{
  ℕ, List, [], ◌∷◌, leb, ◌==◌, if◌then◌else◌, Option, some, Outcome, ok, ◌>>=◌, unwrap,
}
use acore.Base.Word.{add64}
use acore.Task.Sched.{Sched, wakeup_task, block_current}

pub record TimerCondVar : Type 0 where
  pub expire_ms : ℕ
  pub task : ℕ

abbrev pub add_timer : List TimerCondVar → TimerCondVar → List TimerCondVar
add_timer [] t = t ∷ []
add_timer (u ∷ us) t =
    let rest = add_timer us t in if leb t.expire_ms u.expire_ms then t ∷ u ∷ us else u ∷ rest

abbrev pub remove_timer : List TimerCondVar → ℕ → List TimerCondVar
remove_timer [] task = []
remove_timer (u ∷ us) task =
    let rest = remove_timer us task in if u.task == task then rest else u ∷ rest

-- The loop of `check_timer` at a time.
unfoldable pub check_timer : List TimerCondVar → ℕ → Sched → List TimerCondVar × Sched
unfolding wakeup_task
check_timer [] now s = ([], s)
check_timer (t ∷ ts) now s =
    let rest = check_timer ts now (wakeup_task s t.task) in
    if leb t.expire_ms now then rest else (t ∷ ts, s)

-- Up to the switch.
unfoldable pub sys_sleep : List TimerCondVar → ℕ → ℕ → Sched → Outcome (List TimerCondVar × Sched)
unfolding block_current
sys_sleep timers now sleep_ms s = do
  task ← unwrap s.current
  s' ← block_current s
  ok (add_timer timers (record { expire_ms = add64 now sleep_ms; task = task }), s')
