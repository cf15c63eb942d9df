-- ===== src/Mm/Frame/Laws.antt =====
-- No frame is handed out twice, none outside the range given to `init`, and each is cleared.
use acore.Base.{
  ℕ, suc, length, ◌-◌, ◌+◌, ◌<◌, ◌≤◌, ◌^◌, ◌≡◌, refl, ◌↔◌, ◌⊎◌, inl, inr, List-cases, List, [], ◌∷◌,
  ltb, leb, ◌&&◌, ind, count, erase, contains-eq-ltb, count-erase, none, some, Outcome, ok, panic,
  arith,
}
use native.Mathlib.Decide.{dec_lt}
use acore.Mm.Address.{ppn_from}
use acore.Mm.Memory.{Memory, clear_frame}
use acore.Mm.Frame.{StackFrameAllocator, init, alloc, dealloc, frame_alloc}

-- `live` lists the frames in use: each frame from `start` up to `current` is once either recycled
-- or live, and no other frame is. The range ends within the 44 bits of a page number.
pub record Tracks (start : ℕ) (a : StackFrameAllocator) (live : List ℕ) : Type 0 where
  pub split : (p : ℕ) → count p a.recycled + count p live ≡ ind (leb start p && ltb p a.current)
  pub above : start ≤ a.current
  pub below : a.current ≤ a.end
  pub width : a.end ≤ 2 ^ 44

init-Tracks :
    (a : StackFrameAllocator) (l r : ℕ)
    → a.recycled ≡ []
    → l ≤ r
    → r ≤ 2 ^ 44
    → Tracks l (init a l r) []
unfolding init
init-Tracks a l r e h w = record {
  split = λ p. ground arith;
  above = omega arith;
  below = h;
  width = w;
}

-- The frame `ppn` was not in use, lies from `start` up to the end, and reads as zero everywhere;
-- the frames in use are then this one and those of before, and no other frame has changed.
abbrev pub IsFresh :
    ℕ → StackFrameAllocator → StackFrameAllocator → List ℕ → Memory → Memory → ℕ → Type 0
IsFresh start a b live m n ppn =
    (count ppn live ≡ 0)
    × (start ≤ ppn)
    × (ppn < a.end)
    × Tracks start b (ppn ∷ live)
    × ((i : ℕ) → n ppn i ≡ 0)
    × ((p i : ℕ) → (p ≡ ppn → ⊥) → n p i ≡ m p i)

-- A frame that `frame_alloc` returns was not in use, lies from `start` up to the end, and reads as
-- zero everywhere; the frames in use are then this one and those of before, and no other frame's
-- contents change.
pub frame_alloc-IsFresh :
    (start : ℕ) (a b : StackFrameAllocator) (live : List ℕ) (m n : Memory) (ppn : ℕ)
    → Tracks start a live
    → frame_alloc a m ≡ some (ppn, b, n)
    → IsFresh start a b live m n ppn
unfolding frame_alloc alloc
frame_alloc-IsFresh start a b live m n ppn t e = (
  ground (arith, t.split ppn),
  ground (arith, t.split ppn),
  ground (arith, t.split ppn),
  record {
    split = λ p. ground (arith, t.split p, t.split ppn);
    above = ground arith;
    below = ground arith;
    width = ground arith;
  },
  λ i. ground arith,
  λ p i h. ground arith,
)

-- `frame_alloc` fails exactly when every frame of the range is in use.
pub frame_alloc_exhausted :
    (start : ℕ) (a : StackFrameAllocator) (live : List ℕ) (m : Memory)
    → Tracks start a live
    → (frame_alloc a m ≡ none) ↔ ((p : ℕ) → count p live ≡ ind (leb start p && ltb p a.end))
unfolding frame_alloc alloc
frame_alloc_exhausted start a live m t = (
  λ e p. ground (arith, t.split p),
  λ all. elim (List-cases a.recycled) [
    | inl e ↦ ground (arith, t.split a.current, all a.current)
    | inr (x, r, e) ↦ ground (arith, t.split x, all x)
  ],
)

-- The outcome of giving back a frame: it leaves the frames in use, or was not among them.
abbrev pub ReturnsLive : ℕ → StackFrameAllocator → List ℕ → ℕ → Outcome StackFrameAllocator → Type 0
ReturnsLive start a live ppn out =
    ((0 < count ppn live)
      × (b : StackFrameAllocator) × (out ≡ ok b)
      × Tracks start b (erase ppn live))
    ⊎ ((count ppn live ≡ 0) × (out ≡ panic))

-- A frame in use is taken back; one that is not, and that is not below the range, makes
-- `dealloc` panic.
pub dealloc_iff_live :
    (start : ℕ) (a : StackFrameAllocator) (live : List ℕ) (ppn : ℕ)
    → Tracks start a live
    → start ≤ ppn
    → ReturnsLive start a live ppn (dealloc a ppn)
unfolding dealloc
dealloc_iff_live start a live ppn t h = elim (dec_lt 0 (count ppn live)) [
  | yes held ↦ inl (
    held,
    record a { recycled = ppn ∷ a.recycled },
    ground (arith, t.split ppn, contains-eq-ltb a.recycled ppn),
    record {
      split = λ p. ground (arith, t.split p, t.split ppn, count-erase p ppn live);
      above = t.above;
      below = t.below;
      width = t.width;
    },
  )
  | no free ↦ inr (omega arith, ground (arith, t.split ppn, contains-eq-ltb a.recycled ppn))
]

-- The number of frames that are left to hand out.
abbrev pub available : StackFrameAllocator → ℕ
available a = length a.recycled + (a.end - a.current)

-- While a frame is left, `frame_alloc` returns one, and one less is left.
pub frame_alloc-some :
    (start : ℕ) (a : StackFrameAllocator) (live : List ℕ) (m : Memory)
    → Tracks start a live
    → 0 < available a
    → (ppn : ℕ) × (b : StackFrameAllocator) × (n : Memory) × (frame_alloc a m ≡ some (ppn, b, n))
      × (suc (available b) ≡ available a)
unfolding frame_alloc alloc ppn_from
frame_alloc-some start a live m t h = elim (List-cases a.recycled) [
  | inl e ↦ (
    a.current,
    record a { current = a.current + 1 },
    clear_frame m a.current,
    ground arith,
    ground arith,
  )
  | inr (x, r, e) ↦ (x, record a { recycled = r }, clear_frame m x, ground arith, ground arith)
]

-- A frame below the range given to `init` is not in use, and `dealloc` takes it all the same: the
-- next `alloc` hands it out.
pub dealloc_below :
    (start : ℕ) (a : StackFrameAllocator) (live : List ℕ) (ppn : ℕ)
    → Tracks start a live
    → ppn < start
    → (count ppn live ≡ 0)
      × (b : StackFrameAllocator) × (dealloc a ppn ≡ ok b)
      × (alloc b ≡ some (ppn, a))
unfolding dealloc alloc
dealloc_below start a live ppn t h = (
  ground (arith, t.split ppn),
  record a { recycled = ppn ∷ a.recycled },
  ground (arith, t.split ppn, t.above, contains-eq-ltb a.recycled ppn),
  refl,
)
