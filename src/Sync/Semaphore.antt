-- ===== src/Sync/Semaphore.antt =====
-- os/src/sync/semaphore.rs. The count is an `isize`, kept as its 64 bits: negative from 2 ^ 63 on.
pub mod Laws
mod Tests
use acore.Base.{
  Bool, ℕ, ◌^◌, List, [], ◌∷◌, ◌++◌, ltb, leb, ◌==◌, ◌||◌, if◌then◌else◌, Outcome, ok, ◌>>=◌,
  unwrap,
}
use acore.Base.Word.{add64, sub64}
use acore.Task.Sched.{Sched, block_current, wakeup_task}

pub record Semaphore : Type 0 where
  pub count : ℕ
  pub waiter_queue : List ℕ

abbrev pub semaphore_new : ℕ → Semaphore
semaphore_new res_count = record { count = res_count; waiter_queue = [] }

abbrev is_negative : ℕ → Bool
is_negative n = leb (2 ^ 63) n

unfoldable pub up : Semaphore → Sched → Semaphore × Sched
unfolding wakeup_task
up sem s =
    let count = add64 sem.count 1 in
    if count == 0 || is_negative count
    then elim sem.waiter_queue [
      | [] ↦ (record sem { count = count }, s)
      | t ∷ rest ↦ (record { count = count; waiter_queue = rest }, wakeup_task s t)
    ]
    else (record sem { count = count }, s)

unfoldable pub down : Semaphore → Sched → Outcome (Semaphore × Sched)
unfolding block_current
down sem s =
    let count = sub64 sem.count 1 in
    if is_negative count
    then (do
      t ← unwrap s.current
      s' ← block_current s
      ok (record { count = count; waiter_queue = sem.waiter_queue ++ (t ∷ []) }, s'))
    else ok (record sem { count = count }, s)
