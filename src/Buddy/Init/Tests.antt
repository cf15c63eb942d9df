-- ===== src/Buddy/Init/Tests.antt =====
-- The range of 100 bytes from 20 on: 24 to 120, in blocks of 8, 32, 32, 16 and 8 bytes.
use acore.Base.{ℕ, ◌≡◌, refl, List, [], ◌∷◌, Outcome, ok, panic}
use acore.Buddy.Blocks.{FreeList, empty}
use acore.Buddy.Init.{buddy_init}

abbrev list_of : Outcome FreeList → ℕ → List ℕ
list_of (ok lists) class = lists class
list_of panic class = []

two_blocks_of_32 : list_of (buddy_init empty 20 100) 5 ≡ 64 ∷ 32 ∷ []
unfolding buddy_init
two_blocks_of_32 = refl
