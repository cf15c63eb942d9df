-- ===== src/Efs/Resize/Tail.antt =====
-- increase_size behind the direct blocks.
use acore.Base.{
  ℕ, ◌+◌, ◌-◌, ◌<◌, ◌≤◌, ◌≡◌, refl, sym, ap, ◌∙◌, subst, inl, inr, min, max, List, [], ◌∷◌, ◌++◌,
  ltb, leb, if◌then◌else◌, true, false, ok, arith, length, length-append, count, count-append,
  Bool-cases, append-nil,
}
use acore.Efs.Layout.{DiskInode}
use acore.Efs.Resize.{Indirect, push_words, increase_indirect1, increase_indirect2}
use acore.Efs.Resize.Listing.{push_words-cong}
use acore.Efs.Resize.Phases.{
  indirect1_part, indirect2_part, indirect1_count, after_indirect1, indirect1_phase,
}
use acore.Efs.Resize.Last.{indirect2_count, indirect2_phase}

-- What the phases behind the direct blocks do.
abbrev pub TailGrows : DiskInode → Indirect → ℕ → ℕ → List ℕ → Type 0
TailGrows inode w c t blocks =
    (indirect1 indirect2 : ℕ) × (w' : Indirect) × (one two rest : List ℕ) × (increase_indirect1
        inode w (max c 28) t blocks
      ≡ ok (record inode { indirect1 = indirect1; indirect2 = indirect2 }, w', rest))
    × (blocks ≡ one ++ (two ++ rest))
    × (length one + indirect1_count c ≡ indirect1_count t)
    × (length two + indirect2_count c ≡ indirect2_count t)
    × (indirect1_part t indirect1 w' ≡ indirect1_part c inode.indirect1 w ++ one)
    × (indirect2_part t indirect2 w' ≡ indirect2_part c inode.indirect2 w ++ two)

after_indirect1-done :
    (inode : DiskInode) (w : Indirect) (c t : ℕ) (blocks : List ℕ)
    → t ≤ 156
    → after_indirect1 inode w c t blocks ≡ ok (inode, w, blocks)
after_indirect1-done inode w c t blocks h =
    let e : leb (t - 28) 128 ≡ true = ground (arith, h) in rw e refl

after_indirect1-more :
    (inode : DiskInode) (w : Indirect) (c t : ℕ) (blocks : List ℕ)
    → 156 < t
    → after_indirect1 inode w c t blocks
      ≡ increase_indirect2 inode w (max (max c 28 - 28) 128) (t - 28) blocks
after_indirect1-more inode w c t blocks h =
    let e : leb (t - 28) 128 ≡ false = ground (arith, h) in rw e refl

indirect1_part-same :
    (n id : ℕ) (w w' : Indirect)
    → ((j : ℕ) → w' id j ≡ w id j)
    → indirect1_part n id w' ≡ indirect1_part n id w
indirect1_part-same n id w w' h =
    ap (λ xs. if ltb 28 n then id ∷ xs else [])
      (push_words-cong (min 128 (n - 28)) (w' id) (w id) 0 (λ i p q. h i))

indirect2_part-same :
    (n id : ℕ) (w w' : Indirect)
    → (156 < n → w' ≡ w)
    → indirect2_part n id w' ≡ indirect2_part n id w
indirect2_part-same n id w w' h = elim (Bool-cases (ltb 156 n)) [
  | inl e ↦ ap (indirect2_part n id) (h (ground (arith, e)))
  | inr e ↦ rw e refl
]

pub indirect2_part-none : (n id : ℕ) (w : Indirect) → n ≤ 156 → indirect2_part n id w ≡ []
indirect2_part-none n id w h = let e : ltb 156 n ≡ false = ground (arith, h) in rw e refl

pub indirect2_count_le : (c t : ℕ) → c ≤ t → indirect2_count c ≤ indirect2_count t
indirect2_count_le c t h = ground (arith, h)

-- A block that moves from the new ones to the file is counted as before.
once_moved :
    (x : ℕ) (front old one kept before blocks rest : List ℕ)
    → front ≡ old ++ one
    → kept ≡ before
    → blocks ≡ one ++ rest
    → count x old + count x before + count x blocks ≤ 1
    → count x front + count x kept + count x rest ≤ 1
once_moved x front old one kept before blocks rest a b c h = omega (
  arith,
  h,
  ap (count x) a,
  ap (count x) b,
  ap (count x) c,
  count-append x old one,
  count-append x one rest,
)

pub tail_grows :
    (inode : DiskInode) (w : Indirect) (c t : ℕ) (blocks : List ℕ)
    → 28 < t
    → t ≤ 16540
    → c ≤ t
    → ((x : ℕ)
        → count x (indirect1_part c inode.indirect1 w)
            + count x (indirect2_part c inode.indirect2 w)
            + count x blocks
          ≤ 1)
    → indirect1_count t + indirect2_count t ≤ indirect1_count c + indirect2_count c + length blocks
    → TailGrows inode w c t blocks
tail_grows inode w c t blocks m f h once n =
    let (id, w', one, rest, r, cut, num, list, same) =
      indirect1_phase inode w c t blocks m h (omega (arith, n, indirect2_count_le c t h)) in
    elim (Bool-cases (leb t 156)) [
      | inl e ↦
          let low : t ≤ 156 = ground (arith, e) in
          (
            id,
            inode.indirect2,
            w',
            one,
            [],
            rest,
            r ∙ after_indirect1-done (record inode { indirect1 = id }) w' c t rest low,
            cut,
            num,
            ground (arith, e, h),
            list,
            indirect2_part-none t inode.indirect2 w' low
                ∙ sym (
                    append-nil (indirect2_part c inode.indirect2 w)
                    ∙ indirect2_part-none c inode.indirect2 w (omega (arith, low, h))),
          )
      | inr e ↦
          let high : 156 < t = ground (arith, e) in
          let on : ltb 28 t ≡ true = ground (arith, m) in
          let xs = push_words (min 128 (t - 28)) (w' id) 0 in
          let front : id ∷ xs ≡ indirect1_part c inode.indirect1 w ++ one =
            subst (λ s. (if s then id ∷ xs else []) ≡ indirect1_part c inode.indirect1 w ++ one) on
              list in
          let kept = indirect2_part-same c inode.indirect2 w w' same in
          let (id', w'', two, rest', r', cut', num', list', same') =
            indirect2_phase (record inode { indirect1 = id }) w' c t xs rest high f h
              (λ x.
                once_moved x (id ∷ xs) (indirect1_part c inode.indirect1 w) one
                  (indirect2_part c inode.indirect2 w') (indirect2_part c inode.indirect2 w) blocks
                  rest front kept cut (once x))
              (omega (arith, n, num, ap length cut ∙ length-append one rest)) in
          (
            id,
            id',
            w'',
            one,
            two,
            rest',
            r ∙ after_indirect1-more (record inode { indirect1 = id }) w' c t rest high ∙ r',
            cut ∙ ap (λ ys. one ++ ys) cut',
            num,
            num',
            indirect1_part-same t id w' w'' same' ∙ list,
            list' ∙ ap (λ ys. ys ++ two) kept,
          )
    ]
