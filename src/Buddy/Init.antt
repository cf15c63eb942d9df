-- ===== src/Buddy/Init.antt =====
-- buddy-allocator/src/lib.rs: init, which cuts a range of memory into blocks.
pub mod Powers
pub mod Range
mod Tests
use Prim.Native.Nat.{bit_and}
use acore.Base.{
  ℕ, zero, suc, ◌+◌, ◌-◌, ◌/◌, ◌%◌, ◌^◌, min, ltb, leb, ◌==◌, if◌then◌else◌, Outcome, ok, panic,
  ◌>>=◌, ◌>>◌, assert,
}
use acore.Base.Word.{add64}
use acore.Buddy.Blocks.{classes, FreeList, push, next_power_of_two, trailing_zeros}

unfoldable pub prev_power_of_two : ℕ → ℕ
prev_power_of_two num =
    let next_power = next_power_of_two num in
    if num == next_power then next_power else next_power / 2

-- `start & (!start + 1)`, which wraps at 0.
unfoldable pub low_bit : ℕ → ℕ
low_bit start = bit_and start ((2 ^ 64 - start) % 2 ^ 64)

unfoldable pub block_size : ℕ → ℕ → ℕ
unfolding prev_power_of_two low_bit
block_size start end = min (low_bit start) (prev_power_of_two (end - start))

-- The loop of `init`, on fuel.
unfoldable pub init_loop : ℕ → FreeList → ℕ → ℕ → Outcome FreeList
unfolding block_size
init_loop zero lists start end = if ltb start end then panic else ok lists
init_loop (suc left) lists start end =
    let size = block_size start end in
    let class = trailing_zeros 64 size in
    let rest = init_loop left (push lists class start) (start + size) end in
    if ltb start end then assert (ltb class classes) >> rest else ok lists

-- `x & (!8 + 1)`.
abbrev pub round_down : ℕ → ℕ
round_down x = bit_and x (2 ^ 64 - 8)

unfoldable pub buddy_init : FreeList → ℕ → ℕ → Outcome FreeList
unfolding init_loop
buddy_init lists start size =
    let first = round_down (add64 start 7) in
    let end = round_down (add64 first size) in
    assert (leb first end) >> init_loop (end - first) lists first end
