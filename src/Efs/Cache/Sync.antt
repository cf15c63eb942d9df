-- ===== src/Efs/Cache/Sync.antt =====
-- Writing to a cached block, and writing all caches back.
use acore.Base.{
  ℕ, suc, ◌≡◌, ◌≢◌, refl, ◌∙◌, ap, inl, inr, List, [], ◌∷◌, ◌==◌, if◌then◌else◌, none, some, length,
  arith, Bool-cases,
}
use acore.Efs.Cache.{
  BlockCache, BlockCacheManager, find, modify_in, modify, sync, sync_queue, synced_queue,
  block_cache_sync_all,
}
use acore.Efs.Cache.View.{content, view, Coherent, IsCoherent, Coherent-sync}

module _ {A : Type 0} where
  find-modify_in :
      (cs : List (BlockCache A)) (id i : ℕ) (f : A → A)
      → find (modify_in cs id f) i
        ≡ elim (find cs i) [ none ↦ none | some b ↦ some (if i == id then f b else b) ]
  find-modify_in [] id i f = refl
  find-modify_in (c ∷ cs) id i f = ground (arith, find-modify_in cs id i f)

  length-modify_in :
      (cs : List (BlockCache A)) (id : ℕ) (f : A → A) → length (modify_in cs id f) ≡ length cs
  length-modify_in [] id f = refl
  length-modify_in (c ∷ cs) id f = ground (arith, length-modify_in cs id f)

  Coherent-modify_in :
      (cs : List (BlockCache A)) (id : ℕ) (f : A → A) (device : ℕ → A)
      → Coherent cs device
      → Coherent (modify_in cs id f) device
  Coherent-modify_in [] id f device h = tt
  Coherent-modify_in (c ∷ cs) id f device h = elim (Bool-cases (c.disk_id == id)) [
    | inl e ↦ rw (e, modify_in) (h.0, (λ m. absurd (ground (arith, m))), h.2)
    | inr e ↦
        rw (e, modify_in)
          (
            ground (arith, find-modify_in cs id c.disk_id f, h.0),
            h.1,
            Coherent-modify_in cs id f device h.2,
          )
  ]

  -- A change to a cached block changes what this block reads as, and no other.
  pub modify-view :
      (m : BlockCacheManager A) (id : ℕ) (f : A → A) (block : A)
      → IsCoherent m
      → find m.queue id ≡ some block
      → IsCoherent (modify m id f)
        × (view (modify m id f) id ≡ f (view m id))
        × ((i : ℕ) → i ≢ id → view (modify m id f) i ≡ view m i)
  unfolding modify
  modify-view m id f block h e = (
    (
      Coherent-modify_in m.queue id f m.device h.0,
      ground (arith, length-modify_in m.queue id f, h.1),
    ),
    ground (arith, find-modify_in m.queue id id f, e),
    λ i n. ground (arith, find-modify_in m.queue id i f, n),
  )

  find-synced_queue : (cs : List (BlockCache A)) (i : ℕ) → find (synced_queue cs) i ≡ find cs i
  find-synced_queue [] i = refl
  find-synced_queue (c ∷ cs) i = ground (arith, find-synced_queue cs i)

  length-synced_queue : (cs : List (BlockCache A)) → length (synced_queue cs) ≡ length cs
  length-synced_queue [] = refl
  length-synced_queue (c ∷ cs) = ap suc (length-synced_queue cs)

  sync_queue-content :
      (cs : List (BlockCache A)) (device : ℕ → A)
      → Coherent cs device
      → (i : ℕ) → sync_queue cs device i ≡ content cs device i
  sync_queue-content [] device h i = refl
  sync_queue-content (c ∷ cs) device h i =
      sync_queue-content cs (sync c device) (Coherent-sync cs c device h.0 h.2) i
      ∙ ground (arith, h.0, h.1)

  Coherent-synced_queue :
      (cs : List (BlockCache A)) (device device' : ℕ → A)
      → Coherent cs device
      → ((i : ℕ) (b : A) → find cs i ≡ some b → b ≡ device' i)
      → Coherent (synced_queue cs) device'
  Coherent-synced_queue [] device device' h e = tt
  Coherent-synced_queue (c ∷ cs) device device' h e = (
    find-synced_queue cs c.disk_id ∙ h.0,
    (λ m. e c.disk_id c.cache (ground arith)),
    Coherent-synced_queue cs device device' h.2 (λ i b g. e i b (ground (arith, h.0, g))),
  )

  -- After all caches were written back, the device itself holds what every block reads as, and
  -- nothing reads differently.
  pub sync_all-view :
      (m : BlockCacheManager A)
      → IsCoherent m
      → IsCoherent (block_cache_sync_all m)
        × ((i : ℕ) → (block_cache_sync_all m).device i ≡ view m i)
        × ((i : ℕ) → view (block_cache_sync_all m) i ≡ view m i)
  unfolding block_cache_sync_all
  sync_all-view m h =
      let back = sync_queue-content m.queue m.device h.0 in
      (
        (
          Coherent-synced_queue m.queue m.device (sync_queue m.queue m.device) h.0
              (λ i b e. ground (arith, back i, e)),
          ground (arith, length-synced_queue m.queue, h.1),
        ),
        back,
        λ i. ground (arith, find-synced_queue m.queue i, back i),
      )
