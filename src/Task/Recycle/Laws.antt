-- ===== src/Task/Recycle/Laws.antt =====
-- `RecycleAllocator` never hands out an id twice, and takes back exactly what it handed out.
use acore.Base.{
  ℕ, suc, ◌+◌, ◌<◌, ◌≡◌, ◌⊎◌, inl, inr, List, [], ◌∷◌, ltb, ind, count, erase, contains-eq-ltb,
  count-erase, ok, panic, arith,
}
use native.Mathlib.Decide.{dec_lt}
use acore.Base.Word.{usize_mod}
use acore.Task.Recycle.{RecycleAllocator, new, alloc, dealloc}

-- `live` lists the ids in use: each id below `current` is once either recycled or live, no other.
pub record Tracks (a : RecycleAllocator) (live : List ℕ) : Type 0 where
  pub split : (i : ℕ) → count i a.recycled + count i live ≡ ind (ltb i a.current)

pub new-Tracks : Tracks new []
unfolding new
new-Tracks = record { split = λ i. ground arith }

-- As long as the counter does not reach 2^64, `alloc` returns an id that is not in use, and the
-- ids in use afterwards are that id and those of before.
pub alloc_fresh :
    (a : RecycleAllocator) (live : List ℕ)
    → Tracks a live
    → suc a.current < usize_mod
    → (count (alloc a).0 live ≡ 0) × Tracks (alloc a).1 ((alloc a).0 ∷ live)
unfolding alloc
alloc_fresh a live t room = (
  ground (arith, t.split (alloc a).0),
  record { split = λ i. ground (arith, t.split i, t.split (alloc a).0) },
)

-- An id in use is taken back and is out of use afterwards; giving back any other id panics.
pub dealloc_live :
    (a : RecycleAllocator) (live : List ℕ) (id : ℕ)
    → Tracks a live
    → ((0 < count id live)
        × (b : RecycleAllocator) × (dealloc a id ≡ ok b)
        × Tracks b (erase id live))
      ⊎ ((count id live ≡ 0) × (dealloc a id ≡ panic))
unfolding dealloc
dealloc_live a live id t = elim (dec_lt 0 (count id live)) [
  | yes h ↦ inl (
    h,
    record a { recycled = id ∷ a.recycled },
    ground (arith, t.split id, contains-eq-ltb a.recycled id),
    record { split = λ i. ground (arith, t.split i, t.split id, count-erase i id live) },
  )
  | no h ↦ inr (omega arith, ground (arith, t.split id, contains-eq-ltb a.recycled id))
]
