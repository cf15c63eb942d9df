-- ===== src/Buddy/Chain/Tests.antt =====
-- A chain of two blocks.
use acore.Base.{
  ℕ, ◌+◌, ◌<◌, ◌≡◌, refl, ◌⊎◌, [], ◌∷◌, none, some, length, count, erase, ◌==◌, if◌then◌else◌,
  arith,
}
use acore.Buddy.Chain.{Words, ListNode, head_field, find_node, node_pop}
use acore.Buddy.Chain.Laws.{IsChain, find_pop_chain}

abbrev words : Words
words p = if p == 16 then 32 else 0

two_blocks : IsChain words 16 (16 ∷ 32 ∷ [])
two_blocks = (refl, omega arith, refl, (refl, omega arith, refl, refl))

find_pop_chain_example :
    ((0 < count 32 (16 ∷ 32 ∷ []))
      × (node : ListNode) × (find_node
            (length {A = ℕ} (16 ∷ 32 ∷ []) + 1)
            words
            (record { cur = 16; prev = head_field })
            32
          ≡ some node)
      × (node.cur ≡ 32)
      × IsChain (node_pop words 16 node).0 (node_pop words 16 node).1 (erase 32 (16 ∷ 32 ∷ [])))
    ⊎ ((count 32 (16 ∷ 32 ∷ []) ≡ 0)
        × (find_node
              (length {A = ℕ} (16 ∷ 32 ∷ []) + 1)
              words
              (record { cur = 16; prev = head_field })
              32
            ≡ none))
find_pop_chain_example = find_pop_chain words 16 (16 ∷ 32 ∷ []) 32 two_blocks
