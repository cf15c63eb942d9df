-- ===== src/Task/Timer/Laws.antt =====
-- check_timer wakes the threads that are due, in the order in which they are, and no others.
use acore.Base.{ℕ, ◌≤◌, inl, inr, List, [], ◌∷◌, leb, Bool-cases, arith}
use acore.Task.Sched.{Sched}
use acore.Task.Timer.{TimerCondVar, add_timer}

abbrev pub AllFrom : ℕ → List TimerCondVar → Type 0
AllFrom ms [] = Unit {0}
AllFrom ms (t ∷ ts) = (ms ≤ t.expire_ms) × AllFrom ms ts

-- The timers that expire first stand in front.
abbrev pub Sorted : List TimerCondVar → Type 0
Sorted [] = Unit {0}
Sorted (t ∷ ts) = AllFrom t.expire_ms ts × Sorted ts

abbrev pub AllUntil : ℕ → List TimerCondVar → Type 0
AllUntil ms [] = Unit {0}
AllUntil ms (t ∷ ts) = (t.expire_ms ≤ ms) × AllUntil ms ts

abbrev pub tasks_of : List TimerCondVar → List ℕ
tasks_of [] = []
tasks_of (t ∷ ts) = t.task ∷ tasks_of ts

AllFrom-weaken : (a b : ℕ) (ts : List TimerCondVar) → a ≤ b → AllFrom b ts → AllFrom a ts
AllFrom-weaken a b [] l h = tt
AllFrom-weaken a b (t ∷ ts) l h = (omega (arith, h.0), AllFrom-weaken a b ts l h.1)

AllFrom-add_timer :
    (ms : ℕ) (ts : List TimerCondVar) (t : TimerCondVar)
    → ms ≤ t.expire_ms
    → AllFrom ms ts
    → AllFrom ms (add_timer ts t)
AllFrom-add_timer ms [] t l h = (l, tt)
AllFrom-add_timer ms (u ∷ us) t l h = elim (Bool-cases (leb t.expire_ms u.expire_ms)) [
  | inl e ↦ rw (e, add_timer) (l, h)
  | inr e ↦ rw (e, add_timer) (h.0, AllFrom-add_timer ms us t l h.1)
]

pub add_timer-Sorted :
    (ts : List TimerCondVar) (t : TimerCondVar) → Sorted ts → Sorted (add_timer ts t)
add_timer-Sorted [] t h = (tt, tt)
add_timer-Sorted (u ∷ us) t h = elim (Bool-cases (leb t.expire_ms u.expire_ms)) [
  | inl e ↦
      rw (e, add_timer)
        ((ground (arith, e), AllFrom-weaken t.expire_ms u.expire_ms us (ground (arith, e)) h.0), h)
  | inr e ↦
      rw (e, add_timer)
        (AllFrom-add_timer u.expire_ms us t (ground (arith, e)) h.0, add_timer-Sorted us t h.1)
]
