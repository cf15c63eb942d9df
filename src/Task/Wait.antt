-- ===== src/Task/Wait.antt =====
-- Waiting for children and threads, and adding a thread to its process: sys_waitpid of
-- os/src/syscall/process.rs, sys_waittid and the table part of sys_thread_create of
-- os/src/syscall/thread.rs.
pub mod Laws
pub mod Threads
mod Tests
use acore.Base.{
  ℕ, zero, suc, ◌+◌, ◌-◌, ◌^◌, List, [], ◌∷◌, ◌++◌, Bool, true, false, ◌&&◌, ◌||◌, ltb, ◌==◌,
  if◌then◌else◌, Option, none, some, Outcome, ok, ◌>>=◌, ◌>>◌, assert, unwrap, length, get_elem?,
  set,
}
use acore.Mm.Memory.{Memory}
use acore.Mm.Buffer.{translated_ref}
use acore.Task.Recycle.{RecycleAllocator, dealloc}

-- Results are 64 bits of an `isize`.
abbrev pub minus : ℕ → ℕ
minus n = 2 ^ 64 - n

-- `strong_count` counts the references to the process besides the one in `children`.
pub record Child : Type 0 where
  pub pid : ℕ
  pub is_zombie : Bool
  pub exit_code : ℕ
  pub other_refs : ℕ

abbrev pub matches : ℕ → Child → Bool
matches pid c = pid == minus 1 || pid == c.pid

abbrev pub any_child : List Child → ℕ → Bool
any_child [] pid = false
any_child (c ∷ cs) pid = matches pid c || any_child cs pid

-- The first child that matches and is a zombie, and the list without it.
abbrev pub take_zombie : List Child → ℕ → Option (Child × List Child)
take_zombie [] pid = none
take_zombie (c ∷ cs) pid =
    let rest = take_zombie cs pid in
    if c.is_zombie && matches pid c
    then some (c, cs)
    else elim rest [ none ↦ none | some (z, cs') ↦ some (z, c ∷ cs') ]

-- Over the memory and the `satp` of the process. The result, the physical address and the exit code
-- that is written there, and the children that are left.
unfoldable pub sys_waitpid :
    Memory → ℕ → List Child → ℕ → ℕ → Outcome (ℕ × Option (ℕ × ℕ) × List Child)
sys_waitpid mem satp children pid exit_code_ptr =
    if any_child children pid
    then elim (take_zombie children pid) [
      | none ↦ ok (minus 2, none, children)
      | some (child, rest) ↦ (do
        assert (child.other_refs == 0)
        place ← translated_ref mem satp exit_code_ptr
        ok (child.pid, some (place, child.exit_code), rest))
    ]
    else ok (minus 1, none, children)

pub record Thread : Type 0 where
  pub exit_code : Option ℕ

pub record ThreadTable : Type 0 where
  pub tasks : List (Option Thread)
  pub tid_allocator : RecycleAllocator

unfoldable pub sys_waittid : ThreadTable → ℕ → ℕ → Outcome (ℕ × ThreadTable)
sys_waittid p current tid =
    if current == tid
    then ok (minus 1, p)
    else if ltb (length p.tasks) tid
    then ok (minus 1, p)
    else (do
      waited ← unwrap (get_elem? p.tasks tid)
      elim waited [
        | none ↦ ok (minus 1, p)
        | some task ↦ elim task.exit_code [
          | none ↦ ok (minus 2, p)
          | some code ↦ (do
            tids ← dealloc p.tid_allocator tid
            ok (code, record { tasks = set p.tasks tid none; tid_allocator = tids }))
        ]
      ])

-- `while tasks.len() < new_task_tid + 1 { tasks.push(None) }`, on fuel.
unfoldable pub push_until : ℕ → List (Option Thread) → ℕ → List (Option Thread)
push_until zero tasks len = tasks
push_until (suc fuel) tasks len =
    let pushed = push_until fuel (tasks ++ (none ∷ [])) len in
    if ltb (length tasks) len then pushed else tasks

-- The new thread is put at its tid.
unfoldable pub add_thread : List (Option Thread) → ℕ → Thread → List (Option Thread)
unfolding push_until
add_thread tasks tid task = set (push_until (tid + 1) tasks (tid + 1)) tid (some task)
