-- ===== src/Task/Timer/Tests.antt =====
-- Timers at a concrete state.
use acore.Base.{List, [], ◌∷◌, none}
use acore.Task.Sched.{Sched, blocked}
use acore.Task.Timer.{TimerCondVar}

abbrev timers : List TimerCondVar
timers =
    record { expire_ms = 10; task = 4 }
    ∷ record { expire_ms = 20; task = 5 }
    ∷ record { expire_ms = 30; task = 6 }
    ∷ []

abbrev idle : Sched
idle = record { ready_queue = 1 ∷ []; current = none; status = λ _. blocked }
