-- ===== src/Buddy/Chain.antt =====
-- buddy-allocator/src/linked_list.rs: a list that is threaded through the free blocks themselves.
-- The first word of a block holds the address of the next one, 0 at the end.
pub mod Laws
mod Tests
use acore.Base.{ℕ, zero, suc, Bool, ◌==◌, if◌then◌else◌, Option, none, some}

-- The word at each address.
abbrev pub Words : Type 0
Words = ℕ → ℕ

abbrev pub put : Words → ℕ → ℕ → Words
put words p v q = if q == p then v else words q

-- A list is the address of its first block.
abbrev pub list_new : ℕ
list_new = 0

abbrev pub list_is_empty : ℕ → Bool
list_is_empty head = head == 0

-- The words and the new head.
unfoldable pub list_push : Words → ℕ → ℕ → Words × ℕ
list_push words head item = (put words item head, item)

unfoldable pub list_pop : Words → ℕ → Option (ℕ × ℕ)
list_pop words head = if list_is_empty head then none else some (head, words head)

-- What `prev` points to: the head of the list, or the first word of a block.
pub data Slot : Type 0 where
  head_field : Slot
  block : ℕ → Slot

pub record ListNode : Type 0 where
  pub cur : ℕ
  pub prev : Slot

-- `iter_mut().find(|block| block.value() == item)` from a node on, over the nodes that are left.
unfoldable pub find_node : ℕ → Words → ListNode → ℕ → Option ListNode
find_node zero words node item = none
find_node (suc left) words node item =
    let rest = find_node left words (record { cur = words node.cur; prev = block node.cur }) item in
    if node.cur == 0 then none else if node.cur == item then some node else rest

-- `ListNode::pop`: the slot before the block takes what the block holds.
unfoldable pub node_pop : Words → ℕ → ListNode → Words × ℕ
node_pop words head node = elim node.prev [
  | head_field ↦ (words, words node.cur)
  | block p ↦ (put words p (words node.cur), head)
]
