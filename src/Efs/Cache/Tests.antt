-- ===== src/Efs/Cache/Tests.antt =====
-- The block cache at a concrete state.
use acore.Base.{
  false, ◌<◌, sym, zero, suc, List, ℕ, ◌+◌, ◌≡◌, ◌≢◌, refl, ◌⊎◌, [], ◌∷◌, none, ok, panic, true,
  length, arith,
}
use acore.Efs.Cache.{
  BlockCache, BlockCacheManager, block_cache_size, find, get_block_cache, modify,
  block_cache_sync_all,
}
use acore.Efs.Cache.View.{view, Coherent, AllUsed, Gets, IsCoherent, get_block_cache-view}
use acore.Efs.Cache.Sync.{modify-view, sync_all-view}

-- Block i of the device holds i + 100; block 3 was changed to 7 in its cache.
abbrev one_changed : BlockCacheManager ℕ
one_changed = record {
  queue = record { cache = 7; disk_id = 3; modified = true; users = 0 } ∷ [];
  device = λ i. i + 100;
}

one_changed-IsCoherent : IsCoherent one_changed
one_changed-IsCoherent = ((refl, (λ e. ground (arith, e)), tt), omega arith)

-- 16 cached blocks, of which only block 15 has no user and was changed.
abbrev in_use : ℕ → List (BlockCache ℕ) → List (BlockCache ℕ)
in_use zero cs = cs
in_use (suc n) cs =
    in_use n (record { cache = n + 100; disk_id = n; modified = false; users = 1 } ∷ cs)

in_use-Coherent :
    (n : ℕ) (cs : List (BlockCache ℕ)) (device : ℕ → ℕ)
    → Coherent cs device
    → ((i : ℕ) → i < n → find cs i ≡ none)
    → ((i : ℕ) → device i ≡ i + 100)
    → Coherent (in_use n cs) device
in_use-Coherent zero cs device h absent same = h
in_use-Coherent (suc n) cs device h absent same =
    in_use-Coherent n (record { cache = n + 100; disk_id = n; modified = false; users = 1 } ∷ cs)
      device (absent n (omega arith), (λ e. sym (same n)), h)
      (λ i l. ground (arith, absent i (omega arith))) same

abbrev changed_15 : BlockCache ℕ
changed_15 = record { cache = 7; disk_id = 15; modified = true; users = 0 }

abbrev full : BlockCacheManager ℕ
full = record { queue = in_use 15 (changed_15 ∷ []); device = λ i. i + 100 }

full-IsCoherent : IsCoherent full
full-IsCoherent = (
  in_use-Coherent 15 (changed_15 ∷ []) full.device ((refl, (λ e. ground (arith, e)), tt))
      (λ i h. ground arith) (λ i. refl),
  omega arith,
)

get_block_cache-view_example :
    ((find full.queue 20 ≡ none)
      × (length full.queue ≡ block_cache_size)
      × AllUsed full.queue
      × (get_block_cache full 20 ≡ panic))
    ⊎ ((m' : BlockCacheManager ℕ) × (get_block_cache full 20 ≡ ok m') × Gets full 20 m')
get_block_cache-view_example = get_block_cache-view full 20 full-IsCoherent

modify-view_example :
    IsCoherent (modify one_changed 3 (λ b. b + 1))
    × (view (modify one_changed 3 (λ b. b + 1)) 3 ≡ view one_changed 3 + 1)
    × ((i : ℕ) → i ≢ 3 → view (modify one_changed 3 (λ b. b + 1)) i ≡ view one_changed i)
modify-view_example = modify-view one_changed 3 (λ b. b + 1) 7 one_changed-IsCoherent refl

sync_all-view_example :
    IsCoherent (block_cache_sync_all one_changed)
    × ((i : ℕ) → (block_cache_sync_all one_changed).device i ≡ view one_changed i)
    × ((i : ℕ) → view (block_cache_sync_all one_changed) i ≡ view one_changed i)
sync_all-view_example = sync_all-view one_changed one_changed-IsCoherent
