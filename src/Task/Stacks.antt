-- ===== src/Task/Stacks.antt =====
-- Where stacks and trap contexts of threads stand: os/src/task/thread/kernel_stack.rs and
-- user_resource.rs.
use acore.Base.{ℕ, ◌+◌, ◌*◌, ◌^◌, ◌<◌, ◌≤◌, ◌≡◌, arith}
use acore.Base.Word.{add64, sub64}

abbrev pub trampoline : ℕ
trampoline = 18446744073709547520

-- The bottom and the top of a kernel stack.
unfoldable pub kernel_stack_position : ℕ → ℕ × ℕ
kernel_stack_position id = let top = sub64 trampoline (id * 12288) in (sub64 top 8192, top)

unfoldable pub trap_cx_bottom : ℕ → ℕ
trap_cx_bottom tid = sub64 (sub64 trampoline 4096) (tid * 4096)

unfoldable pub user_stack_bottom : ℕ → ℕ → ℕ
user_stack_bottom base tid = add64 base (tid * 12288)

-- Kernel stacks of different threads do not overlap: a page lies between the top of the lower
-- one and the bottom of the other, for all ids up to 2 ^ 40.
pub kernel_stacks_apart :
    (i j : ℕ)
    → i < j
    → j < 2 ^ 40
    → (kernel_stack_position j).1 + 4096 ≤ (kernel_stack_position i).0
      × ((kernel_stack_position i).0 + 8192 ≡ (kernel_stack_position i).1)
unfolding kernel_stack_position
kernel_stacks_apart i j h l = (omega (arith, h, l), omega (arith, h, l))
