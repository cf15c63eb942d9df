-- ===== src/Efs/Resize/Fill.antt =====
-- The loops that store new blocks in an inode.
use acore.Base.{
  ℕ, zero, suc, ◌+◌, ◌<◌, ◌≤◌, ◌≡◌, ◌≢◌, refl, ap, ap₂, ◌∙◌, ◌⊎◌, inl, inr, List, [], ◌∷◌, ◌++◌, ok,
  arith, length, get_or, set, length-set, get_or-set_self, get_or-set_ne,
}
use acore.Efs.Bitmap.{set_word}
use acore.Efs.Resize.{Indirect, push_words, fill_direct, fill_indirect}

pub fill_direct_lem :
    (left : ℕ) (direct : List ℕ) (current : ℕ) (blocks : List ℕ)
    → current + left ≤ length direct
    → left ≤ length blocks
    → (direct' taken rest : List ℕ) × (fill_direct left direct current blocks ≡ ok (direct', rest))
      × (blocks ≡ taken ++ rest)
      × (length taken ≡ left)
      × (length direct' ≡ length direct)
      × ((i : ℕ) → i < current → get_or direct' i 0 ≡ get_or direct i 0)
      × (push_words left (λ i. get_or direct' i 0) current ≡ taken)
unfolding fill_direct
fill_direct_lem zero direct current blocks h l =
    (direct, [], blocks, refl, refl, refl, refl, λ i p. refl, refl)
fill_direct_lem (suc left) direct current [] h l = absurd (omega (arith, l))
fill_direct_lem (suc left) direct current (b ∷ bs) h l =
    let len = length-set {A = ℕ} direct current b in
    let (direct', taken, rest, e, cut, n, size, before, pushed) =
      fill_direct_lem left (set direct current b) (suc current) bs (omega (arith, h, len))
        (omega (arith, l)) in
    (
      direct',
      b ∷ taken,
      rest,
      e,
      ap (λ xs. b ∷ xs) cut,
      ap suc n,
      size ∙ len,
      λ i p.
          before i (omega (arith, p))
          ∙ get_or-set_ne direct b 0 (λ q. absurd (omega (arith, q, p))),
      ap₂ (λ x xs. x ∷ xs)
          (before current (omega arith) ∙ get_or-set_self direct current b 0 (omega (arith, h)))
          pushed,
    )

pub fill_indirect_lem :
    (left : ℕ) (w : Indirect) (id current : ℕ) (blocks : List ℕ)
    → left ≤ length blocks
    → (w' : Indirect) × (taken rest : List ℕ) × (fill_indirect left w id current blocks
        ≡ ok (w', rest))
      × (blocks ≡ taken ++ rest)
      × (length taken ≡ left)
      × ((b j : ℕ) → (b ≢ id) ⊎ (j < current) → w' b j ≡ w b j)
      × (push_words left (w' id) current ≡ taken)
unfolding fill_indirect
fill_indirect_lem zero w id current blocks l =
    (w, [], blocks, refl, refl, refl, λ b j p. refl, refl)
fill_indirect_lem (suc left) w id current [] l = absurd (omega (arith, l))
fill_indirect_lem (suc left) w id current (b ∷ bs) l =
    let (w', taken, rest, e, cut, n, same, pushed) =
      fill_indirect_lem left (set_word w id current b) id (suc current) bs (omega (arith, l)) in
    let here : set_word w id current b id current ≡ b = ground arith in
    (
      w',
      b ∷ taken,
      rest,
      e,
      ap (λ xs. b ∷ xs) cut,
      ap suc n,
      λ c j p.
          same c j (elim p [ inl q ↦ inl q | inr q ↦ inr (omega (arith, q)) ]) ∙ ground (arith, p),
      ap₂ (λ x xs. x ∷ xs) (same id current (inr (omega arith)) ∙ here) pushed,
    )
