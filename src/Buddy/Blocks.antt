-- ===== src/Buddy/Blocks.antt =====
-- buddy-allocator/src/lib.rs: a free list for each class of blocks, of 2 ^ class bytes. A list is
-- the addresses of its blocks, as Buddy/Chain threads them through memory. A null head is the empty
-- list, so that a list whose first block stands at address 0 counts as empty.
pub mod Cover
pub mod Alloc
pub mod Merge
pub mod Dealloc
mod Tests
use Prim.Native.Nat.{bit_xor}
use acore.Base.{
  ℕ, zero, suc, ◌+◌, ◌-◌, ◌*◌, ◌/◌, ◌%◌, ◌^◌, min, max, List, [], ◌∷◌, Bool, ltb, leb, ◌==◌,
  if◌then◌else◌, Option, none, some, Outcome, ok, panic, ◌>>=◌, ◌>>◌, assert, contains, erase,
}

abbrev pub classes : ℕ
classes = 32

-- `free_list`, by class.
abbrev pub FreeList : Type 0
FreeList = ℕ → List ℕ

abbrev pub empty : FreeList
empty class = []

abbrev pub set_list : FreeList → ℕ → List ℕ → FreeList
set_list lists class blocks c = if c == class then blocks else lists c

abbrev pub push : FreeList → ℕ → ℕ → FreeList
push lists class block = set_list lists class (block ∷ lists class)

-- `next_power_of_two` of a number up to 2 ^ 63, from a power on.
abbrev pub power_from : ℕ → ℕ → ℕ → ℕ
power_from zero p n = p
power_from (suc left) p n = let rest = power_from left (2 * p) n in if leb n p then p else rest

abbrev pub next_power_of_two : ℕ → ℕ
next_power_of_two n = power_from 63 1 n

-- `trailing_zeros`, over the bits that are left.
abbrev pub trailing_zeros : ℕ → ℕ → ℕ
trailing_zeros zero n = 0
trailing_zeros (suc left) n =
    let rest = trailing_zeros left (n / 2) in if n % 2 == 0 then suc rest else 0

-- The size and the class that serve a layout.
unfoldable pub size_for : ℕ → ℕ → ℕ
size_for size align = max (next_power_of_two size) (max align 8)

unfoldable pub class_for : ℕ → ℕ → ℕ
unfolding size_for
class_for size align = trailing_zeros 64 (size_for size align)

-- `LinkedList::pop`: the first block and the list behind it.
abbrev pub pop : List ℕ → Option (ℕ × List ℕ)
pop [] = none
pop (b ∷ bs) = if b == 0 then none else some (b, bs)

-- `(class..32).find(|i| !self.free_list[*i].is_empty())`, over the classes that are left.
abbrev pub find_class : ℕ → ℕ → FreeList → Option ℕ
find_class zero class lists = none
find_class (suc left) class lists =
    let rest = find_class left (suc class) lists in
    elim (pop (lists class)) [ none ↦ rest | some _ ↦ some class ]

-- A round of the loop of `alloc`: a block of class j becomes two of class j - 1.
unfoldable pub split : FreeList → ℕ → Outcome FreeList
split lists j = elim (pop (lists (suc j))) [
  | none ↦ panic
  | some (block, rest) ↦ ok (push (push (set_list lists (suc j) rest) j block) j (block + 2 ^ j))
]

-- The rounds from a class down, over the rounds that are left.
unfoldable pub split_down : ℕ → ℕ → FreeList → Outcome FreeList
unfolding split
split_down zero class lists = ok lists
split_down (suc rounds) class lists = split lists (class + rounds) >>= split_down rounds class

-- The `pop` at the end of `alloc`, as a `NonNull`.
unfoldable pub take_block : FreeList → ℕ → Outcome (Option ℕ × FreeList)
take_block lists class = elim (pop (lists class)) [
  | none ↦ panic
  | some (block, rest) ↦ ok (if block == 0 then none else some block, set_list lists class rest)
]

-- None for the `Err`.
unfoldable pub alloc_class : FreeList → ℕ → Outcome (Option ℕ × FreeList)
unfolding split_down take_block
alloc_class lists class = elim (find_class (classes - class) class lists) [
  | none ↦ ok (none, lists)
  | some i ↦ (do lists' ← split_down (i - class) class lists; take_block lists' class)
]

unfoldable pub alloc : FreeList → ℕ → ℕ → Outcome (Option ℕ × FreeList)
unfolding class_for alloc_class
alloc lists size align = alloc_class lists (class_for size align)

-- `pop` on a list that is not empty.
abbrev pub drop_first : List ℕ → List ℕ
drop_first [] = []
drop_first (b ∷ bs) = bs

-- The loop of `dealloc`, over the classes that are left: the block is in front of its list. The search
-- is through a list without a block at address 0.
unfoldable pub merge : ℕ → ℕ → ℕ → FreeList → Outcome FreeList
merge zero class ptr lists = ok lists
merge (suc left) class ptr lists =
    let buddy = bit_xor ptr (2 ^ class) in
    let merged = set_list lists class (drop_first (erase buddy (lists class))) in
    let rest = merge left (suc class) (min ptr buddy) (push merged (suc class) (min ptr buddy)) in
    if contains (lists class) buddy then assert (ltb (suc class) classes) >> rest else ok lists

unfoldable pub dealloc_class : FreeList → ℕ → ℕ → Outcome FreeList
unfolding merge
dealloc_class lists ptr class =
    assert (ltb class classes) >> merge (classes - class) class ptr (push lists class ptr)

unfoldable pub dealloc : FreeList → ℕ → ℕ → ℕ → Outcome FreeList
unfolding class_for dealloc_class
dealloc lists ptr size align = dealloc_class lists ptr (class_for size align)
