-- ===== src/Task/Wait/Tests.antt =====
-- Waiting at concrete states.
use acore.Base.{
  ◌+◌, ◌*◌, ◌^◌, ◌==◌, if◌then◌else◌, ℕ, ◌≡◌, ◌≢◌, refl, ◌⊎◌, List, [], ◌∷◌, none, some, true,
  false, ok, panic, arith,
}
use acore.Mm.Memory.{Memory}
use acore.Mm.Buffer.{translated_ref}
use acore.Mm.Address.{indexes}
use acore.Mm.PageTable.{translate_va, find_pte, is_valid, entry_ppn}
use acore.Task.Recycle.{RecycleAllocator, dealloc}
use acore.Task.Wait.{
  Child, any_child, sys_waitpid, minus, Thread, ThreadTable, sys_waittid, add_thread,
}
use acore.Task.Wait.Laws.{NoZombie, Reaped, waitpid_lem}
use acore.Task.Wait.Threads.{thread_at, add_thread_lem, waittid_past_end}

abbrev children : List Child
children =
    record { pid = 4; is_zombie = false; exit_code = 0; other_refs = 1 }
    ∷ record { pid = 5; is_zombie = true; exit_code = 9; other_refs = 0 }
    ∷ []

-- Page 0 is mapped to frame 9, by way of the tables in frames 5, 6 and 7.
abbrev memory : Memory
memory p i =
    if i == 0
    then (if p == 5 then 6145 else if p == 6 then 7169 else if p == 7 then 9223 else 0)
    else 0

abbrev satp : ℕ
satp = 8 * 2 ^ 60 + 5

place_found : translated_ref memory satp 16 ≡ ok 36880
unfolding translated_ref translate_va find_pte indexes is_valid entry_ppn
place_found = refl

waitpid_lem_example :
    ((any_child children 5 ≡ false)
      × (sys_waitpid memory satp children 5 16 ≡ ok (minus 1, none, children)))
    ⊎ ((any_child children 5 ≡ true)
        × NoZombie children 5
        × (sys_waitpid memory satp children 5 16 ≡ ok (minus 2, none, children)))
    ⊎ ((c : Child) × (rest : List Child) × Reaped children 5 c rest
        × (((place : ℕ) × (translated_ref memory satp 16 ≡ ok place)
              × (sys_waitpid memory satp children 5 16
                  ≡ ok (c.pid, some (place, c.exit_code), rest)))
            ⊎ ((translated_ref memory satp 16 ≡ panic)
                × (sys_waitpid memory satp children 5 16 ≡ panic))))
waitpid_lem_example =
    waitpid_lem memory satp children 5 16 ((λ e. ground (arith, e)), ((λ e. refl), tt))

abbrev exited : Thread
exited = record { exit_code = some 3 }

abbrev threads : ThreadTable
threads = record {
  tasks = some (record { exit_code = none }) ∷ some exited ∷ [];
  tid_allocator = record { current = 2; recycled = [] };
}

add_thread_lem_example :
    (thread_at (add_thread threads.tasks 4 exited) 4 ≡ some exited)
    × ((i : ℕ)
        → i ≢ 4
        → thread_at (add_thread threads.tasks 4 exited) i ≡ thread_at threads.tasks i)
add_thread_lem_example = add_thread_lem threads.tasks 4 exited

abbrev one_free : RecycleAllocator
one_free = record { current = 2; recycled = 1 ∷ [] }

dealloc_1 : dealloc threads.tid_allocator 1 ≡ ok one_free
unfolding dealloc
dealloc_1 = refl

waittid_past_end_example : sys_waittid threads 0 2 ≡ panic
waittid_past_end_example = waittid_past_end threads 0 λ e. ground (arith, e)
