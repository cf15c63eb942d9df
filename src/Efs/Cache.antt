-- ===== src/Efs/Cache.antt =====
-- easy-fs/src/block_cache.rs. A block holds a value of any type; a device is the block at each id.
pub mod View
pub mod Sync
mod Tests
use acore.Base.{
  ℕ, ◌+◌, ◌-◌, List, [], ◌∷◌, ◌++◌, Bool, true, false, ◌==◌, ◌||◌, if◌then◌else◌, Option, none,
  some, Outcome, ok, ◌>>=◌, unwrap, length,
}

abbrev pub block_cache_size : ℕ
block_cache_size = 16

-- `users` is the number of references outside the manager's queue: `Arc::strong_count` less one.
pub record BlockCache (A : Type 0) : Type 0 where
  pub cache : A
  pub disk_id : ℕ
  pub modified : Bool
  pub users : ℕ

-- The queue of the manager, and the device.
pub record BlockCacheManager (A : Type 0) : Type 0 where
  pub queue : List (BlockCache A)
  pub device : ℕ → A

module _ {A : Type 0} where
  abbrev pub write_block : (ℕ → A) → ℕ → A → ℕ → A
  write_block device id block i = if i == id then block else device i

  abbrev pub new : ℕ → (ℕ → A) → BlockCache A
  new id device = record { cache = device id; disk_id = id; modified = false; users = 0 }

  -- `Arc::clone` of a cache for its user, and the drop of it.
  abbrev pub cloned : BlockCache A → BlockCache A
  cloned c = record c { users = c.users + 1 }

  abbrev pub dropped : BlockCache A → BlockCache A
  dropped c = record c { users = c.users - 1 }

  -- What `sync` leaves of the cache, and of the device. A cache that is dropped does the latter too.
  abbrev pub synced : BlockCache A → BlockCache A
  synced c = record c { modified = false }

  abbrev pub sync : BlockCache A → (ℕ → A) → ℕ → A
  sync c device = if c.modified then write_block device c.disk_id c.cache else device

  -- `queue.iter().find(|pair| pair.0 == disk_id)`.
  abbrev pub find : List (BlockCache A) → ℕ → Option A
  find [] id = none
  find (c ∷ cs) id = let rest = find cs id in if c.disk_id == id then some c.cache else rest

  -- The queue with the cache of a block cloned for its user, or dropped by one.
  abbrev pub clone_in : List (BlockCache A) → ℕ → List (BlockCache A)
  clone_in [] id = []
  clone_in (c ∷ cs) id =
      let rest = clone_in cs id in if c.disk_id == id then cloned c ∷ cs else c ∷ rest

  abbrev pub drop_in : List (BlockCache A) → ℕ → List (BlockCache A)
  drop_in [] id = []
  drop_in (c ∷ cs) id =
      let rest = drop_in cs id in if c.disk_id == id then dropped c ∷ cs else c ∷ rest

  -- The first cache without users, and the queue without it.
  abbrev pub take_unused : List (BlockCache A) → Option (BlockCache A × List (BlockCache A))
  take_unused [] = none
  take_unused (c ∷ cs) =
      let rest = take_unused cs in
      if c.users == 0
      then some (c, cs)
      else elim rest [ none ↦ none | some (v, cs') ↦ some (v, c ∷ cs') ]

  unfoldable pub make_room : BlockCacheManager A → Outcome (BlockCacheManager A)
  make_room m =
      if length m.queue == block_cache_size
      then (do
        (victim, rest) ← unwrap (take_unused m.queue)
        ok (record { queue = rest; device = sync victim m.device }))
      else ok m

  -- The cache that is returned is the one of the block, which then has one user more.
  unfoldable pub get_block_cache : BlockCacheManager A → ℕ → Outcome (BlockCacheManager A)
  unfolding make_room
  get_block_cache m id = elim (find m.queue id) [
    | some _ ↦ ok (record m { queue = clone_in m.queue id })
    | none ↦ (do
      m' ← make_room m
      ok (record m' { queue = m'.queue ++ (cloned (new id m'.device) ∷ []) }))
  ]

  -- `modify` through `get_mut`, and `read` through `get_ref`, on the cache of a block.
  abbrev pub modify_in : List (BlockCache A) → ℕ → (A → A) → List (BlockCache A)
  modify_in [] id f = []
  modify_in (c ∷ cs) id f =
      let rest = modify_in cs id f in
      if c.disk_id == id then record c { cache = f c.cache; modified = true } ∷ cs else c ∷ rest

  -- The end of a use of the cache of a block.
  unfoldable pub release : BlockCacheManager A → ℕ → BlockCacheManager A
  release m id = record m { queue = drop_in m.queue id }

  unfoldable pub modify : BlockCacheManager A → ℕ → (A → A) → BlockCacheManager A
  modify m id f = record m { queue = modify_in m.queue id f }

  unfoldable pub read : {B : Type 0} → BlockCacheManager A → ℕ → (A → B) → Outcome B
  read m id f = do c ← unwrap (find m.queue id); ok (f c)

  abbrev pub sync_queue : List (BlockCache A) → (ℕ → A) → ℕ → A
  sync_queue [] device = device
  sync_queue (c ∷ cs) device = sync_queue cs (sync c device)

  abbrev pub synced_queue : List (BlockCache A) → List (BlockCache A)
  synced_queue [] = []
  synced_queue (c ∷ cs) = synced c ∷ synced_queue cs

  unfoldable pub block_cache_sync_all : BlockCacheManager A → BlockCacheManager A
  block_cache_sync_all m = record {
    queue = synced_queue m.queue;
    device = sync_queue m.queue m.device;
  }
