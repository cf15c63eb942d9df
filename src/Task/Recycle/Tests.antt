-- ===== src/Task/Recycle/Tests.antt =====
-- The allocator of ids at a concrete state.
use acore.Base.{◌≡◌, refl}
use acore.Task.Recycle.{new, alloc}

alloc_first : (alloc new).0 ≡ 0
unfolding alloc new
alloc_first = refl
