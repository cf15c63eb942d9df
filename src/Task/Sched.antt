-- ===== src/Task/Sched.antt =====
-- The scheduler: os/src/task/scheduler/task_manager.rs and processor.rs, and the ways in which a
-- thread gives the processor away in os/src/task/mod.rs. A thread is its number; the switch of
-- register contexts is the change of `current`.
pub mod Laws
use acore.Base.{
  ℕ, zero, suc, List, [], ◌∷◌, ◌++◌, Bool, ◌==◌, if◌then◌else◌, Option, none, some, Outcome, ok,
  panic, ◌>>=◌, unwrap,
}

pub data TaskStatus : Type 0 where
  ready running blocked : TaskStatus

-- `TASK_MANAGER.ready_queue`, `PROCESSOR.current`, and the status of every thread.
pub record Sched : Type 0 where
  pub ready_queue : List ℕ
  pub current : Option ℕ
  pub status : ℕ → TaskStatus

abbrev pub set_status : (ℕ → TaskStatus) → ℕ → TaskStatus → ℕ → TaskStatus
set_status f t v u = if u == t then v else f u

unfoldable pub add_task : Sched → ℕ → Sched
add_task s t = record s { ready_queue = s.ready_queue ++ (t ∷ []) }

-- `ready_queue.pop_front()`.
unfoldable pub fetch_task : Sched → Option ℕ × Sched
fetch_task s = elim s.ready_queue [
  | [] ↦ (none, s)
  | t ∷ rest ↦ (some t, record s { ready_queue = rest })
]

-- The first entry of the thread leaves the queue.
unfoldable pub remove_first : List ℕ → ℕ → List ℕ
remove_first [] t = []
remove_first (u ∷ us) t = if u == t then us else u ∷ remove_first us t

unfoldable pub remove_task : Sched → ℕ → Sched
unfolding remove_first
remove_task s t = record s { ready_queue = remove_first s.ready_queue t }

unfoldable pub wakeup_task : Sched → ℕ → Sched
unfolding add_task
wakeup_task s t = add_task (record s { status = set_status s.status t ready }) t

-- `Processor::new`, with an empty queue.
unfoldable pub sched_new : (ℕ → TaskStatus) → Sched
sched_new status = record { ready_queue = []; current = none; status = status }

unfoldable pub current_task : Sched → Outcome ℕ
current_task s = unwrap s.current

unfoldable pub take_current_task : Sched → Option ℕ × Sched
take_current_task s = (s.current, record s { current = none })

-- `suspend_current_and_run_next`, up to the switch to the idle context.
unfoldable pub suspend_current : Sched → Outcome Sched
unfolding take_current_task add_task
suspend_current s = do
  t ← unwrap (take_current_task s).0
  ok (add_task (record s { current = none; status = set_status s.status t ready }) t)

-- `block_current_and_run_next`, up to the switch to the idle context.
unfoldable pub block_current : Sched → Outcome Sched
unfolding take_current_task
block_current s = do
  t ← unwrap (take_current_task s).0
  ok (record s { current = none; status = set_status s.status t blocked })

-- One round of `run_tasks` in the idle context; none when the queue is empty and the machine
-- shuts down.
unfoldable pub run_next : Sched → Option Sched
unfolding fetch_task
run_next s = elim (fetch_task s).0 [
  | none ↦ none
  | some t ↦ some (record {
    ready_queue = (fetch_task s).1.ready_queue;
    current = some t;
    status = set_status s.status t running;
  })
]
