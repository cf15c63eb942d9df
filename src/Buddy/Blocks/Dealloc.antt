-- ===== src/Buddy/Blocks/Dealloc.antt =====
-- What dealloc frees.
use Prim.Native.Nat.{bit_xor}
use acore.Base.{
  ℕ, zero, suc, ◌+◌, ◌-◌, ◌*◌, ◌/◌, ◌^◌, ◌<◌, ◌≡◌, ◌≢◌, refl, subst, ap, ◌∙◌, inl, inr, List, [],
  ◌∷◌, true, false, ltb, Outcome, ok, min, contains, erase, arith, Bool-cases,
}
use acore.Buddy.Blocks.{classes, FreeList, set_list, push, drop_first, merge, dealloc_class}
use acore.Buddy.Blocks.Cover.{
  inside, covers, cover, cover-set_list, Multiples, Aligned, Aligned-set_list,
}
use acore.Buddy.Blocks.Merge.{merged_block, covers-erase, Multiples-erase}

-- One round that finds the buddy behind the block.
merge_round :
    (left class ptr : ℕ) (lists : FreeList) (rest : List ℕ)
    → let buddy = bit_xor ptr (2 ^ class) in
      lists class ≡ ptr ∷ rest
      → buddy ≢ ptr
      → contains rest buddy ≡ true
      → suc class < classes
      → merge (suc left) class ptr lists
        ≡ merge left
            (suc class)
            (min ptr buddy)
            (push (set_list lists class (erase buddy rest)) (suc class) (min ptr buddy))
unfolding merge
merge_round left class ptr lists rest e n c h =
    let buddy = bit_xor ptr (2 ^ class) in
    let there : contains (ptr ∷ rest) buddy ≡ true = ground (arith, c) in
    let taken : drop_first (erase buddy (ptr ∷ rest)) ≡ erase buddy rest = ground (arith, n) in
    let small : ltb (suc class) classes ≡ true = ground (arith, h) in
    rw (e, merge) (rw there (rw (small, taken) refl))

-- The last round, where the buddy is not free.
merge_end :
    (left class ptr : ℕ) (lists : FreeList) (rest : List ℕ)
    → let buddy = bit_xor ptr (2 ^ class) in
      lists class ≡ ptr ∷ rest
      → buddy ≢ ptr
      → contains rest buddy ≡ false
      → merge (suc left) class ptr lists ≡ ok lists
unfolding merge
merge_end left class ptr lists rest e n c =
    let absent : contains (ptr ∷ rest) (bit_xor ptr (2 ^ class)) ≡ false = ground (arith, c, n) in
    rw (e, merge) (rw absent refl)

-- What merging does not change, and that it ends.
abbrev Merged : FreeList → Outcome FreeList → Type 0
Merged lists result =
    (lists' : FreeList) × (result ≡ ok lists')
    × Aligned lists'
    × ((a : ℕ) → cover classes lists' a ≡ cover classes lists a)

merged_cover :
    (class ptr buddy low a : ℕ) (lists : FreeList) (rest : List ℕ)
    → suc class < classes
    → lists class ≡ ptr ∷ rest
    → contains rest buddy ≡ true
    → inside (suc class) low a ≡ inside class ptr a + inside class buddy a
    → cover classes (push (set_list lists class (erase buddy rest)) (suc class) low) a
      ≡ cover classes lists a
merged_cover class ptr buddy low a lists rest h e c same =
    let l₁ = set_list lists class (erase buddy rest) in
    omega (
      arith,
      h,
      same,
      cover-set_list classes lists class (erase buddy rest) a (omega (arith, h)),
      cover-set_list classes l₁ (suc class) (low ∷ l₁ (suc class)) a h,
      covers-erase class buddy a rest c,
      ap (λ l. covers class l a) e,
    )

merge_lem :
    (left class ptr q : ℕ) (lists : FreeList) (rest : List ℕ)
    → class + left ≡ classes
    → class < classes
    → lists class ≡ ptr ∷ rest
    → ptr ≡ q * 2 ^ class
    → Aligned lists
    → (class < 31 → lists 31 ≡ [])
    → (class ≡ 31 → rest ≡ [])
    → Merged lists (merge left class ptr lists)
merge_lem zero class ptr q lists rest s h e m al top last = absurd (omega (arith, s, h))
merge_lem (suc left) class ptr q lists rest s h e m al top last =
    let buddy = bit_xor ptr (2 ^ class) in
    let (low, differ, same) = merged_block ptr q class m in
    let (_, ms) = subst (Multiples class) e (al class) in
    elim (Bool-cases (contains rest buddy)) [
      | inr c ↦ (lists, merge_end left class ptr lists rest e differ c, al, λ a. refl)
      | inl c ↦
          let below : class ≢ 31 = λ t. ground (arith, c, last t) in
          let l₁ = set_list lists class (erase buddy rest) in
          let al₁ =
            Aligned-set_list lists class (erase buddy rest) al
              (Multiples-erase class buddy rest ms) in
          let l₂ = push l₁ (suc class) (min ptr buddy) in
          let here : l₂ (suc class) ≡ min ptr buddy ∷ l₁ (suc class) = ground arith in
          let (l₃, r, al₃, c₃) =
            merge_lem left (suc class) (min ptr buddy) (q / 2) l₂ (l₁ (suc class))
              (omega (arith, s)) (omega (arith, h, below)) here low
              (Aligned-set_list l₁ (suc class) (min ptr buddy ∷ l₁ (suc class)) al₁
                ((q / 2, low), al₁ (suc class)))
              (λ t. ground (arith, top (omega (arith, t)), t))
              (λ t. ground (arith, top (omega (arith, h, below)), t)) in
          (
            l₃,
            merge_round left class ptr lists rest e differ c (omega (arith, h, below)) ∙ r,
            al₃,
            λ a.
                c₃ a
                ∙ merged_cover class ptr buddy (min ptr buddy) a lists rest
                    (omega (arith, h, below)) e c (same a),
          )
    ]

-- Giving back a block, aligned to its size, ends while no block of the largest class is
-- free: its addresses are free afterwards, with those that were, each as often as before, and every free
-- block is aligned to its size, the merged ones too.
pub dealloc_class_lem :
    (lists : FreeList) (ptr class q : ℕ)
    → class < classes
    → ptr ≡ q * 2 ^ class
    → Aligned lists
    → lists 31 ≡ []
    → (lists' : FreeList) × (dealloc_class lists ptr class ≡ ok lists')
      × Aligned lists'
      × ((a : ℕ) → cover classes lists' a ≡ inside class ptr a + cover classes lists a)
unfolding dealloc_class
dealloc_class_lem lists ptr class q h m al top =
    let small : ltb class classes ≡ true = ground (arith, h) in
    let here : push lists class ptr class ≡ ptr ∷ lists class = ground arith in
    let (l', r, al', c) =
      merge_lem (classes - class) class ptr q (push lists class ptr) (lists class)
        (omega (arith, h)) h here m
        (Aligned-set_list lists class (ptr ∷ lists class) al ((q, m), al class))
        (λ t. ground (arith, top, t)) (λ t. ap lists t ∙ top) in
    (
      l',
      rw (small, dealloc_class) r,
      al',
      λ a. c a ∙ omega (arith, cover-set_list classes lists class (ptr ∷ lists class) a h),
    )
