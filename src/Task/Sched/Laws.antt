-- ===== src/Task/Sched/Laws.antt =====
-- The queue, the current thread and the statuses agree, and threads take turns.
use acore.Base.{
  ℕ, ◌≡◌, refl, inl, inr, [], ◌∷◌, ◌++◌, count, count-append, Option, none, some, ok, arith, ◌==◌,
  ind, List-cases,
}
use acore.Task.Sched.{
  Sched, TaskStatus, ready, running, blocked, wakeup_task, suspend_current, block_current, run_next,
  set_status,
}

abbrev pub is_current : Option ℕ → ℕ → ℕ
is_current none t = 0
is_current (some u) t = ind (u == t)

-- Where a thread of each status stands.
abbrev pub Stands : TaskStatus → ℕ → ℕ → Type 0
Stands ready queued current = (queued ≡ 1) × (current ≡ 0)
Stands running queued current = (queued ≡ 0) × (current ≡ 1)
Stands blocked queued current = (queued ≡ 0) × (current ≡ 0)

-- A ready thread is in the queue once, the running one is the current one, a blocked one is
-- neither.
pub record IsConsistent (s : Sched) : Type 0 where
  pub stands : (t : ℕ) → Stands (s.status t) (count t s.ready_queue) (is_current s.current t)

-- A thread that gives the processor away is ready again, and the queue, the current thread and
-- the statuses still agree.
pub suspend_current-IsConsistent :
    (s : Sched) (t : ℕ)
    → IsConsistent s
    → s.current ≡ some t
    → (s' : Sched) × (suspend_current s ≡ ok s')
      × IsConsistent s'
      × (s'.status t ≡ ready)
      × (s'.ready_queue ≡ s.ready_queue ++ (t ∷ []))
      × (s'.current ≡ none)
unfolding suspend_current
suspend_current-IsConsistent s t c e = (
  record s {
    ready_queue = s.ready_queue ++ (t ∷ []);
    current = none;
    status = set_status s.status t ready;
  },
  ground arith,
  record {
    stands = λ u. ground (arith, c.stands u, c.stands t, count-append u s.ready_queue (t ∷ []));
  },
  ground arith,
  refl,
  refl,
)

pub block_current-IsConsistent :
    (s : Sched) (t : ℕ)
    → IsConsistent s
    → s.current ≡ some t
    → (s' : Sched) × (block_current s ≡ ok s')
      × IsConsistent s'
      × (s'.status t ≡ blocked)
      × (s'.ready_queue ≡ s.ready_queue)
      × (s'.current ≡ none)
unfolding block_current
block_current-IsConsistent s t c e = (
  record s { current = none; status = set_status s.status t blocked },
  ground arith,
  record { stands = λ u. ground (arith, c.stands u, c.stands t) },
  ground arith,
  refl,
  refl,
)

-- Waking a blocked thread.
pub wakeup_task-IsConsistent :
    (s : Sched) (t : ℕ) → IsConsistent s → s.status t ≡ blocked → IsConsistent (wakeup_task s t)
unfolding wakeup_task
wakeup_task-IsConsistent s t c e = record {
  stands = λ u. ground (arith, c.stands u, c.stands t, count-append u s.ready_queue (t ∷ []));
}

-- Waking a thread that is ready puts it into the queue twice.
pub wakeup_task_twice :
    (s : Sched) (t : ℕ)
    → IsConsistent s
    → s.status t ≡ ready
    → count t (wakeup_task s t).ready_queue ≡ 2
unfolding wakeup_task
wakeup_task_twice s t c e = ground (arith, c.stands t, count-append t s.ready_queue (t ∷ []))

-- The idle context runs the thread at the front of the queue.
pub run_next-IsConsistent :
    (s s' : Sched) → IsConsistent s → s.current ≡ none → run_next s ≡ some s' → IsConsistent s'
unfolding run_next
run_next-IsConsistent s s' c e h = elim (List-cases s.ready_queue) [
  | inl q ↦ ground arith
  | inr (t, r, q) ↦ record { stands = λ u. ground (arith, c.stands u, c.stands t) }
]
