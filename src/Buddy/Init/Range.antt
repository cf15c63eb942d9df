-- ===== src/Buddy/Init/Range.antt =====
-- What init frees.
use native.Mathlib.Nat.{one-le-pow}
use acore.Base.{
  ℕ, zero, suc, ◌+◌, ◌-◌, ◌*◌, ◌^◌, ◌<◌, ◌≤◌, ◌≡◌, inl, inr, refl, ◌∙◌, ltb, leb, ◌&&◌, ind, true,
  false, ok, ◌∷◌, arith, Bool-cases,
}
use acore.Buddy.Blocks.{classes, FreeList, push, trailing_zeros}
use acore.Buddy.Blocks.Cover.{inside, cover, cover-set_list, Aligned, Aligned-set_list}
use acore.Buddy.Init.{block_size, init_loop}
use acore.Buddy.Init.Powers.{block_size_lem}

init_loop-done :
    (left : ℕ) (lists : FreeList) (start end : ℕ)
    → end ≤ start
    → init_loop left lists start end ≡ ok lists
unfolding init_loop
init_loop-done zero lists start end h =
    let off : ltb start end ≡ false = ground (arith, h) in rw off refl
init_loop-done (suc left) lists start end h =
    let off : ltb start end ≡ false = ground (arith, h) in rw off refl

ltb-true : (a b : ℕ) → a < b → ltb a b ≡ true
ltb-true a b h = ground (arith, h)

init_loop-round :
    (left : ℕ) (lists : FreeList) (start end c : ℕ)
    → start < end
    → block_size start end ≡ 2 ^ c
    → trailing_zeros 64 (block_size start end) ≡ c
    → c < 32
    → init_loop (suc left) lists start end ≡ init_loop left (push lists c start) (start + 2 ^ c) end
unfolding init_loop
init_loop-round left lists start end c h s t m =
    rw (ltb-true start end h, t, s, ltb-true c 32 m) refl

-- A range is its first block and the rest of it.
range_split :
    (start mid end a : ℕ)
    → start ≤ mid
    → mid ≤ end
    → ind (leb start a && ltb a end) ≡ ind (leb start a && ltb a mid) + ind (leb mid a && ltb a end)
range_split start mid end a h m = ground (arith, h, m)

cover-push :
    (lists : FreeList) (c start a : ℕ)
    → c < 32
    → cover classes (push lists c start) a ≡ cover classes lists a + inside c start a
cover-push lists c start a h = omega (arith, cover-set_list classes lists c (start ∷ lists c) a h)

Aligned-push :
    (lists : FreeList) (c start q : ℕ)
    → start ≡ q * 2 ^ c
    → Aligned lists
    → Aligned (push lists c start)
Aligned-push lists c start q e al = Aligned-set_list lists c (start ∷ lists c) al ((q, e), al c)

-- What the loop leaves of a range.
abbrev pub Freed : FreeList → ℕ → ℕ → FreeList → Type 0
Freed lists start end lists' =
    Aligned lists'
    × ((a : ℕ) → cover classes lists' a ≡ cover classes lists a + ind (leb start a && ltb a end))

Freed-round :
    (lists lists' : FreeList) (start end c : ℕ)
    → c < 32
    → start + 2 ^ c ≤ end
    → Freed (push lists c start) (start + 2 ^ c) end lists'
    → Freed lists start end lists'
Freed-round lists lists' start end c h m (al, f) = (
  al,
  λ a. omega (
    arith,
    f a,
    cover-push lists c start a h,
    range_split start (start + 2 ^ c) end a (omega arith) m,
  ),
)

nothing-Freed :
    (lists : FreeList) (start end : ℕ) → end ≤ start → Aligned lists → Freed lists start end lists
nothing-Freed lists start end h al = (al, λ a. ground (arith, h))

pub init_loop_lem :
    (left : ℕ) (lists : FreeList) (start end : ℕ)
    → 0 < start
    → end < 2 ^ 64
    → end - start < 2 ^ 32
    → end ≤ start + left
    → Aligned lists
    → (lists' : FreeList) × (init_loop left lists start end ≡ ok lists')
      × Freed lists start end lists'
init_loop_lem zero lists start end p m n l al = (
  lists,
  init_loop-done zero lists start end (omega (arith, l)),
  nothing-Freed lists start end (omega (arith, l)) al,
)
init_loop_lem (suc left) lists start end p m n l al = elim (Bool-cases (ltb start end)) [
  | inr e ↦
      let done : end ≤ start = ground (arith, e) in
      (lists, init_loop-done (suc left) lists start end done, nothing-Freed lists start end done al)
  | inl e ↦
      let more : start < end = ground (arith, e) in
      let (c, q, s, t, small, d, fits) = block_size_lem start end p more m n in
      let some_bytes = one-le-pow c 2 in
      let (lists', r, freed) =
        init_loop_lem left (push lists c start) (start + 2 ^ c) end (omega (arith, p)) m
          (omega (arith, n)) (omega (arith, l, some_bytes)) (Aligned-push lists c start q d al) in
      (
        lists',
        init_loop-round left lists start end c more s t small ∙ r,
        Freed-round lists lists' start end c small fits freed,
      )
]
