-- ===== src/Task/Recycle.antt =====
-- `RecycleAllocator` of os/src/task/utils.rs.
pub mod Laws
mod Tests
use acore.Base.{ℕ, ◌+◌, ◌-◌, List, [], ◌∷◌, Bool, not, ltb, contains, Outcome, ok, ◌>>◌, assert}
use acore.Base.Word.{add64, sub64}

-- The head of `recycled` is the back of the vector.
pub record RecycleAllocator : Type 0 where
  pub current : ℕ
  pub recycled : List ℕ

pub new : RecycleAllocator
new = record { current = 0; recycled = [] }

pub alloc : RecycleAllocator → ℕ × RecycleAllocator
alloc a = elim a.recycled [
  | id ∷ rest ↦ (id, record a { recycled = rest })
  | [] ↦ let current = add64 a.current 1 in (sub64 current 1, record a { current = current })
]

unfoldable pub dealloc : RecycleAllocator → ℕ → Outcome RecycleAllocator
dealloc a id = do
  assert (ltb id a.current)
  assert (not (contains a.recycled id))
  ok (record a { recycled = id ∷ a.recycled })
