-- ===== src/Buddy/Blocks/Alloc.antt =====
-- What alloc returns.
use native.Mathlib.Decide.{ℕ_discrete}
use acore.Base.{
  ℕ, zero, suc, ◌+◌, ◌-◌, ◌*◌, ◌^◌, ◌<◌, ◌≤◌, ◌≡◌, refl, sym, subst, ap, ◌⊎◌, inl, inr, List, [],
  ◌∷◌, none, some, ok, arith, List-cases, ◌≢◌,
}
use acore.Buddy.Blocks.{
  classes, FreeList, set_list, take_block, find_class, split_down, alloc_class,
}
use acore.Buddy.Blocks.Cover.{
  inside, covers, cover, cover-set_list, Multiples, Aligned, Aligned-set_list, NonNull,
  NonNull-set_list, pop_head, split_down_lem,
}

find_class-cases :
    (left class : ℕ) (lists : FreeList)
    → NonNull lists
    → ((find_class left class lists ≡ none)
        × ((c : ℕ) → class ≤ c → c < class + left → lists c ≡ []))
      ⊎ ((i : ℕ) × (block : ℕ) × (rest : List ℕ) × (find_class left class lists ≡ some i)
          × (class ≤ i)
          × (i < class + left)
          × (lists i ≡ block ∷ rest))
find_class-cases zero class lists nn = inl (refl, λ c p q. absurd (omega (arith, p, q)))
find_class-cases (suc left) class lists nn = elim (List-cases (lists class)) [
  | inr (block, rest, e) ↦ inr (
    class,
    block,
    rest,
    rw ((pop_head lists class block rest nn e).0, find_class) refl,
    omega arith,
    omega arith,
    e,
  )
  | inl e ↦ elim (find_class-cases left (suc class) lists nn) [
    | inr (i, block, rest, f, p, q, n) ↦
        inr (i, block, rest, rw (e, find_class) f, omega (arith, p), omega (arith, q), n)
    | inl (f, none_there) ↦ inl (
      rw (e, find_class) f,
      λ c p q. elim (ℕ_discrete c class) [
        | yes s ↦ rw s e
        | no s ↦ none_there c (omega (arith, p, s)) (omega (arith, q))
      ],
    )
  ]
]

found :
    (lists l₁ : FreeList) (class i b : ℕ) (bs : List ℕ)
    → find_class (classes - class) class lists ≡ some i
    → split_down (i - class) class lists ≡ ok l₁
    → l₁ class ≡ b ∷ bs
    → 0 < b
    → alloc_class lists class ≡ ok (some b, set_list l₁ class bs)
unfolding alloc_class take_block
found lists l₁ class i b bs f s n z =
    let taken : take_block l₁ class ≡ ok (some b, set_list l₁ class bs) = ground (arith, n, z) in
    rw (f, alloc_class) (rw s taken)

-- When no free block stands at address 0: allocation of a class fails, and changes nothing, exactly if
-- no list from this class on has a block. Otherwise it returns a block at a multiple of its size,
-- not at 0; the block covered free addresses, and these and no others are no longer free.
pub alloc_class_lem :
    (lists : FreeList) (class : ℕ)
    → Aligned lists
    → NonNull lists
    → ((alloc_class lists class ≡ ok (none, lists))
        × ((c : ℕ) → class ≤ c → c < classes → lists c ≡ []))
      ⊎ ((block : ℕ) × (lists' : FreeList) × (alloc_class lists class ≡ ok (some block, lists'))
          × ((c : ℕ) × (class ≤ c) × (c < classes) × (lists c ≢ []))
          × Aligned lists'
          × NonNull lists'
          × ((q : ℕ) × (block ≡ q * 2 ^ class))
          × (0 < block)
          × ((a : ℕ) → cover classes lists a ≡ inside class block a + cover classes lists' a))
unfolding alloc_class
alloc_class_lem lists class al nn = elim (find_class-cases (classes - class) class lists nn) [
  | inl (f, empty) ↦ inl (rw (f, alloc_class) refl, λ c p q. empty c p (omega (arith, p, q)))
  | inr (i, block, rest, f, p, q, e) ↦
      let up : class + (i - class) ≡ i = omega (arith, p) in
      let (l₁, s, al₁, nn₁, same, (b, bs, n)) =
        split_down_lem classes (i - class) class lists block rest (omega (arith, p, q))
          (subst (λ c. lists c ≡ block ∷ rest) (sym up) e) al nn in
      let (multiple, ms) = subst (Multiples class) n (al₁ class) in
      let (_, positive, nn_bs) = pop_head l₁ class b bs nn₁ n in
      inr (
        b,
        set_list l₁ class bs,
        found lists l₁ class i b bs f s n positive,
        (i, p, omega (arith, p, q), λ z. absurd (ground (arith, e, z))),
        Aligned-set_list l₁ class bs al₁ ms,
        NonNull-set_list l₁ class bs nn₁ nn_bs,
        multiple,
        positive,
        λ a. omega (
          arith,
          same a,
          cover-set_list classes l₁ class bs a (omega (arith, p, q)),
          ap (λ l. covers class l a) n,
        ),
      )
]
