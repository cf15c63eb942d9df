-- ===== src/Efs/Cache/View.antt =====
-- Through the caches the device reads as if there were none.
use acore.Base.{
  ℕ, ◌+◌, ind, suc, ◌<◌, ◌≤◌, ◌≡◌, ◌≢◌, refl, ◌∙◌, ap, ◌⊎◌, inl, inr, List, [], ◌∷◌, ◌++◌, false,
  ◌==◌, if◌then◌else◌, none, some, ok, panic, length, length-append, arith, Bool-cases,
  Option-cases,
}
use acore.Efs.Cache.{
  BlockCache, BlockCacheManager, block_cache_size, new, cloned, clone_in, find, take_unused,
  make_room, get_block_cache, sync,
}

module _ {A : Type 0} where
  -- The content of a block: that of its cache, or of the device.
  abbrev pub content : List (BlockCache A) → (ℕ → A) → ℕ → A
  content queue device id = elim (find queue id) [ none ↦ device id | some block ↦ block ]

  abbrev pub view : BlockCacheManager A → ℕ → A
  view m = content m.queue m.device

  -- No block has two caches, and a cache that is not marked as modified is as the device is.
  abbrev pub Coherent : List (BlockCache A) → (ℕ → A) → Type 0
  Coherent [] device = Unit {0}
  Coherent (c ∷ cs) device =
      (find cs c.disk_id ≡ none)
      × (c.modified ≡ false → c.cache ≡ device c.disk_id)
      × Coherent cs device

  abbrev pub IsCoherent : BlockCacheManager A → Type 0
  IsCoherent m = Coherent m.queue m.device × (length m.queue ≤ block_cache_size)

  -- How many users the cache of a block has; a block without a cache has none.
  abbrev pub users_of : List (BlockCache A) → ℕ → ℕ
  users_of [] id = 0
  users_of (c ∷ cs) id = let rest = users_of cs id in if c.disk_id == id then c.users else rest

  -- Every cache has a user.
  abbrev pub AllUsed : List (BlockCache A) → Type 0
  AllUsed [] = Unit {0}
  AllUsed (c ∷ cs) = (0 < c.users) × AllUsed cs

  users_of-absent : (cs : List (BlockCache A)) (id : ℕ) → find cs id ≡ none → users_of cs id ≡ 0
  users_of-absent [] id h = refl
  users_of-absent (c ∷ cs) id h = ground (arith, h, users_of-absent cs id)

  -- Writing a block that has no cache keeps the caches coherent.
  pub Coherent-sync :
      (cs : List (BlockCache A)) (c : BlockCache A) (device : ℕ → A)
      → find cs c.disk_id ≡ none
      → Coherent cs device
      → Coherent cs (sync c device)
  Coherent-sync [] c device e h = tt
  Coherent-sync (d ∷ cs) c device e h =
      (h.0, (λ m. ground (arith, h.1 m)), Coherent-sync cs c device (ground arith) h.2)

  -- What is left of the queue and the device when a cache is dropped.
  abbrev Dropped : List (BlockCache A) → (ℕ → A) → BlockCache A → List (BlockCache A) → Type 0
  Dropped cs device v rest =
      Coherent rest (sync v device)
      × ((i : ℕ) → content rest (sync v device) i ≡ content cs device i)
      × ((i : ℕ) → find cs i ≡ none → find rest i ≡ none)
      × (length cs ≡ suc (length rest))
      × (find cs v.disk_id ≡ some v.cache)
      × ((i : ℕ) → users_of rest i ≡ users_of cs i)

  drop_first :
      (c : BlockCache A) (cs : List (BlockCache A)) (device : ℕ → A)
      → Coherent (c ∷ cs) device
      → c.users ≡ 0
      → Dropped (c ∷ cs) device c cs
  drop_first c cs device h u = (
    Coherent-sync cs c device h.0 h.2,
    (λ i. ground (arith, h.0, h.1)),
    (λ i e. ground (arith, e)),
    refl,
    ground arith,
    (λ i. ground (arith, u, users_of-absent cs c.disk_id h.0)),
  )

  drop_later :
      (c v : BlockCache A) (cs rest : List (BlockCache A)) (device : ℕ → A)
      → Coherent (c ∷ cs) device
      → Dropped cs device v rest
      → Dropped (c ∷ cs) device v (c ∷ rest)
  drop_later c v cs rest device h d =
      let apart : c.disk_id ≢ v.disk_id = λ e. ground (arith, h.0, d.4, e) in
      (
        (d.2 c.disk_id h.0, (λ m. ground (arith, h.1 m, apart)), d.0),
        (λ i. ground (arith, d.1 i)),
        (λ i e. ground (arith, e, d.2 i)),
        ap suc d.3,
        ground (arith, d.4, apart),
        (λ i. ground (arith, d.5 i)),
      )

  take_unused-cases :
      (cs : List (BlockCache A)) (device : ℕ → A)
      → Coherent cs device
      → ((take_unused cs ≡ none) × AllUsed cs)
        ⊎ ((v : BlockCache A) × (rest : List (BlockCache A)) × (take_unused cs ≡ some (v, rest))
            × Dropped cs device v rest)
  take_unused-cases [] device h = inl (refl, tt)
  take_unused-cases (c ∷ cs) device h = elim (Bool-cases (c.users == 0)) [
    | inl e ↦ inr (c, cs, rw (e, take_unused) refl, drop_first c cs device h (ground (arith, e)))
    | inr e ↦ elim (take_unused-cases cs device h.2) [
      | inl (n, all) ↦ inl (rw (e, n, take_unused) refl, (ground (arith, e), all))
      | inr (v, rest, t, d) ↦
          inr (v, c ∷ rest, rw (e, t, take_unused) refl, drop_later c v cs rest device h d)
    ]
  ]

  find-snoc :
      (cs : List (BlockCache A)) (c : BlockCache A) (i : ℕ)
      → find (cs ++ (c ∷ [])) i ≡ elim (find cs i) [
        | none ↦ if c.disk_id == i then some c.cache else none
        | some b ↦ some b
      ]
  find-snoc [] c i = refl
  find-snoc (d ∷ cs) c i = ground (arith, find-snoc cs c i)

  users_of-snoc :
      (cs : List (BlockCache A)) (c : BlockCache A) (i : ℕ)
      → users_of (cs ++ (c ∷ [])) i
        ≡ elim (find cs i) [ none ↦ if c.disk_id == i then c.users else 0 | some b ↦ users_of cs i ]
  users_of-snoc [] c i = refl
  users_of-snoc (d ∷ cs) c i = ground (arith, users_of-snoc cs c i)

  -- A clone changes the count of users of its block, and nothing else.
  find-clone_in : (cs : List (BlockCache A)) (id i : ℕ) → find (clone_in cs id) i ≡ find cs i
  find-clone_in [] id i = refl
  find-clone_in (c ∷ cs) id i = ground (arith, find-clone_in cs id i)

  length-clone_in : (cs : List (BlockCache A)) (id : ℕ) → length (clone_in cs id) ≡ length cs
  length-clone_in [] id = refl
  length-clone_in (c ∷ cs) id = ground (arith, length-clone_in cs id)

  users_of-clone_in :
      (cs : List (BlockCache A)) (id i : ℕ) (b : A)
      → find cs id ≡ some b
      → users_of (clone_in cs id) i ≡ users_of cs i + ind (i == id)
  users_of-clone_in [] id i b h = absurd (ground (arith, h))
  users_of-clone_in (c ∷ cs) id i b h = ground (arith, h, users_of-clone_in cs id i b)

  Coherent-clone_in :
      (cs : List (BlockCache A)) (id : ℕ) (device : ℕ → A)
      → Coherent cs device
      → Coherent (clone_in cs id) device
  Coherent-clone_in [] id device h = tt
  Coherent-clone_in (c ∷ cs) id device h = elim (Bool-cases (c.disk_id == id)) [
    | inl e ↦ rw (e, clone_in) (h.0, h.1, h.2)
    | inr e ↦
        rw (e, clone_in)
          (find-clone_in cs id c.disk_id ∙ h.0, h.1, Coherent-clone_in cs id device h.2)
  ]

  Coherent-snoc :
      (cs : List (BlockCache A)) (id : ℕ) (device : ℕ → A)
      → Coherent cs device
      → find cs id ≡ none
      → Coherent (cs ++ (cloned (new id device) ∷ [])) device
  Coherent-snoc [] id device h e = (refl, (λ m. refl), tt)
  Coherent-snoc (c ∷ cs) id device h e = (
    ground (arith, find-snoc cs (cloned (new id device)) c.disk_id, h.0, e),
    h.1,
    Coherent-snoc cs id device h.2 (ground (arith, e)),
  )

  -- A cache of a block that has none is put behind the queue, with one user.
  add_cache :
      (m : BlockCacheManager A) (id : ℕ)
      → Coherent m.queue m.device
      → length m.queue < block_cache_size
      → find m.queue id ≡ none
      → let m' = record m { queue = m.queue ++ (cloned (new id m.device) ∷ []) } in
        IsCoherent m'
        × ((i : ℕ) → view m' i ≡ view m i)
        × (find m'.queue id ≡ some (view m id))
        × ((i : ℕ) → users_of m'.queue i ≡ users_of m.queue i + ind (i == id))
  add_cache m id h l e =
      let c = cloned (new id m.device) in
      (
        (
          Coherent-snoc m.queue id m.device h e,
          omega (arith, l, length-append {A = BlockCache A} m.queue (c ∷ [])),
        ),
        (λ i. ground (arith, find-snoc m.queue c i)),
        ground (arith, find-snoc m.queue c id, e),
        (λ i. ground (arith, users_of-snoc m.queue c i, users_of-absent m.queue i, e)),
      )

  -- What getting the cache of a block makes of the manager.
  abbrev pub Gets : BlockCacheManager A → ℕ → BlockCacheManager A → Type 0
  Gets m id m' =
      IsCoherent m'
      × ((i : ℕ) → view m' i ≡ view m i)
      × (find m'.queue id ≡ some (view m id))
      × ((i : ℕ) → users_of m'.queue i ≡ users_of m.queue i + ind (i == id))

  -- Getting the cache of a block fails only if 16 other blocks are cached and every one of these caches
  -- has a user. Otherwise the block is cached afterwards with its content and has one user more, the
  -- cache of every other block has as many users as before, so that no cache in use was dropped, and no
  -- block, cached or dropped, reads differently than before.
  pub get_block_cache-view :
      (m : BlockCacheManager A) (id : ℕ)
      → IsCoherent m
      → ((find m.queue id ≡ none)
          × (length m.queue ≡ block_cache_size)
          × AllUsed m.queue
          × (get_block_cache m id ≡ panic))
        ⊎ ((m' : BlockCacheManager A) × (get_block_cache m id ≡ ok m') × Gets m id m')
  unfolding get_block_cache make_room
  get_block_cache-view m id h = elim (Option-cases (find m.queue id)) [
    | inr (b, e) ↦ inr (
      record m { queue = clone_in m.queue id },
      rw (e, get_block_cache) refl,
      (
        (Coherent-clone_in m.queue id m.device h.0, omega (arith, h.1, length-clone_in m.queue id)),
        (λ i. ground (arith, find-clone_in m.queue id i)),
        find-clone_in m.queue id id ∙ ground (arith, e),
        (λ i. users_of-clone_in m.queue id i b e),
      ),
    )
    | inl e ↦ elim (Bool-cases (length m.queue == block_cache_size)) [
      | inr l ↦ inr (
        record m { queue = m.queue ++ (cloned (new id m.device) ∷ []) },
        rw (e, l, get_block_cache, make_room) refl,
        add_cache m id h.0 (ground (arith, h.1)) e,
      )
      | inl l ↦ elim (take_unused-cases m.queue m.device h.0) [
        | inl (n, all) ↦
            inl (e, ground (arith, l), all, rw (e, l, n, get_block_cache, make_room) refl)
        | inr (victim, rest, t, (k, same, gone, len, _, users)) ↦
            let m₁ : BlockCacheManager A = record { queue = rest; device = sync victim m.device } in
            let (c, v, f, u) = add_cache m₁ id k (ground (arith, l, len)) (gone id e) in
            inr (
              record m₁ { queue = rest ++ (cloned (new id m₁.device) ∷ []) },
              rw (e, l, t, get_block_cache, make_room) refl,
              (
                c,
                (λ i. v i ∙ same i),
                f ∙ ap (λ b. some b) (same id),
                (λ i. u i ∙ ap (λ n. n + ind (i == id)) (users i)),
              ),
            )
      ]
    ]
  ]
