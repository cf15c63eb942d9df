-- ===== src/Task/Fds/Tests.antt =====
-- The descriptors of a process at a concrete table.
use acore.Base.{ℕ, List, [], ◌∷◌, Option, none, some}
use acore.Task.Fds.{sys_pipe}
use acore.Task.Fds.Laws.{PipeOpened, pipe_fds}

-- Files are numbers; descriptor 1 was closed.
abbrev table : List (Option ℕ)
table = some 7 ∷ none ∷ some 8 ∷ []

pipe_fds_example : PipeOpened table 20 21 (sys_pipe table 20 21)
pipe_fds_example = pipe_fds table 20 21
