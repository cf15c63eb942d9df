-- ===== src/Buddy/Class/Tests.antt =====
-- 20 bytes aligned to 64.
use acore.Base.{ℕ, ◌*◌, ◌^◌, ◌<◌, ◌≤◌, ◌≡◌, refl, arith}
use acore.Buddy.Blocks.{class_for}
use acore.Buddy.Class.{class_for_lem}

class_for_lem_example :
    (class_for 20 (2 ^ 6) < 32)
    × (20 ≤ 2 ^ class_for 20 (2 ^ 6))
    × ((q : ℕ) × (2 ^ class_for 20 (2 ^ 6) ≡ q * 2 ^ 6))
class_for_lem_example = class_for_lem 20 6 (omega arith) (omega arith)

class_6 : class_for 20 64 ≡ 6
unfolding class_for
class_6 = refl
