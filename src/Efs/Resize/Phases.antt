-- ===== src/Efs/Resize/Phases.antt =====
-- The three phases of increase_size, each with its part of the listing of the file's blocks.
use acore.Base.{
  ℕ, ◌+◌, ◌-◌, ◌<◌, ◌≤◌, ◌≡◌, refl, sym, ap, ap₂, ◌∙◌, inl, inr, min, max, List, [], ◌∷◌, ◌++◌, ltb,
  leb, ◌==◌, if◌then◌else◌, true, false, Outcome, ok, arith, length, get_or, Bool-cases, append-nil,
  List-cases, subst,
}
use acore.Efs.Layout.{DiskInode}
use acore.Efs.Resize.{
  Indirect, push_words, fill_direct, fill_indirect, increase_indirect1, increase_indirect2,
}
use acore.Efs.Resize.Listing.{second_blocks, push_words-cong, push_words-append}
use acore.Efs.Resize.Fill.{fill_direct_lem, fill_indirect_lem}

-- The parts of the listing: `file_blocks` is their concatenation.
abbrev pub direct_part : ℕ → List ℕ → List ℕ
direct_part n direct = push_words (min 28 n) (λ i. get_or direct i 0) 0

abbrev pub indirect1_part : ℕ → ℕ → Indirect → List ℕ
indirect1_part n indirect1 w =
    if ltb 28 n then indirect1 ∷ push_words (min 128 (n - 28)) (w indirect1) 0 else []

abbrev pub indirect2_part : ℕ → ℕ → Indirect → List ℕ
indirect2_part n indirect2 w =
    if ltb 156 n then indirect2 ∷ second_blocks w indirect2 (n - 156) else []

fill_direct-zero :
    (direct : List ℕ) (c : ℕ) (blocks : List ℕ)
    → fill_direct 0 direct c blocks ≡ ok (direct, blocks)
unfolding fill_direct
fill_direct-zero direct c blocks = refl

pub direct_phase :
    (c t : ℕ) (direct blocks : List ℕ)
    → c ≤ t
    → length direct ≡ 28
    → min 28 t - c ≤ length blocks
    → (direct' taken rest : List ℕ) × (fill_direct (min 28 t - c) direct c blocks
        ≡ ok (direct', rest))
      × (blocks ≡ taken ++ rest)
      × (length taken ≡ min 28 t - c)
      × (length direct' ≡ 28)
      × (direct_part t direct' ≡ direct_part c direct ++ taken)
direct_phase c t direct blocks h d l = elim (Bool-cases (leb c (min 28 t))) [
  | inl e ↦
      let (direct', taken, rest, r, cut, num, len, same, pushed) =
        fill_direct_lem (min 28 t - c) direct c blocks (ground (arith, e, d)) l in
      let f : ℕ → ℕ = λ i. get_or direct i 0 in
      let f' : ℕ → ℕ = λ i. get_or direct' i 0 in
      let start : min 28 c ≡ c = ground (arith, e) in
      (
        direct',
        taken,
        rest,
        r,
        cut,
        num,
        len ∙ d,
        push_words-append c (min 28 t - c) (min 28 t) f' 0 c (ground (arith, e)) (omega arith)
            ∙ ap₂ (λ xs ys. xs ++ ys)
                (push_words-cong c f' f 0 (λ i p q. same i (omega (arith, q)))) pushed
            ∙ ap (λ n. push_words n f 0 ++ taken) (sym start),
      )
  | inr e ↦
      let none_left : min 28 t - c ≡ 0 = ground (arith, e) in
      let both : min 28 t ≡ min 28 c = ground (arith, e, h) in
      (
        direct,
        [],
        blocks,
        rw none_left (fill_direct-zero direct c blocks),
        refl,
        sym none_left,
        d,
        ap (λ n. push_words n (λ i. get_or direct i 0) 0) both
            ∙ sym (append-nil (direct_part c direct)),
      )
]

-- The indirect block and its words, by the number of data blocks of the file.
abbrev pub indirect1_count : ℕ → ℕ
indirect1_count n = if ltb 28 n then 1 + min 128 (n - 28) else 0

-- What follows the words of the first indirect block.
abbrev pub after_indirect1 :
    DiskInode → Indirect → ℕ → ℕ → List ℕ → Outcome (DiskInode × Indirect × List ℕ)
after_indirect1 inode w c t blocks =
    if leb (t - 28) 128
    then ok (inode, w, blocks)
    else increase_indirect2 inode w (max (max c 28 - 28) 128) (t - 28) blocks

fill_indirect-zero :
    (w : Indirect) (id c : ℕ) (blocks : List ℕ) → fill_indirect 0 w id c blocks ≡ ok (w, blocks)
unfolding fill_indirect
fill_indirect-zero w id c blocks = refl

increase_indirect1-old :
    (inode : DiskInode) (w w' : Indirect) (c t : ℕ) (blocks rest : List ℕ)
    → 28 < c
    → fill_indirect (min 128 (t - 28) - (c - 28)) w inode.indirect1 (c - 28) blocks ≡ ok (w', rest)
    → increase_indirect1 inode w (max c 28) t blocks ≡ after_indirect1 inode w' c t rest
unfolding increase_indirect1
increase_indirect1-old inode w w' c t blocks rest h e =
    let m : max c 28 ≡ c = omega (arith, h) in
    let old : (c == 28) ≡ false = ground (arith, h) in rw (m, old, e) refl

increase_indirect1-new :
    (inode : DiskInode) (w w' : Indirect) (c t b : ℕ) (blocks rest : List ℕ)
    → c ≤ 28
    → fill_indirect (min 128 (t - 28)) w b 0 blocks ≡ ok (w', rest)
    → increase_indirect1 inode w (max c 28) t (b ∷ blocks)
      ≡ after_indirect1 (record inode { indirect1 = b }) w' c t rest
unfolding increase_indirect1
increase_indirect1-new inode w w' c t b blocks rest h e =
    let m : max c 28 ≡ 28 = omega (arith, h) in
    let all : min 128 (t - 28) - 0 ≡ min 128 (t - 28) = omega arith in rw (m, all, e) refl

-- What the phase does to a file of c data blocks that gets t.
abbrev pub Indirect1Phase : DiskInode → Indirect → ℕ → ℕ → List ℕ → Type 0
Indirect1Phase inode w c t blocks =
    (indirect1 : ℕ) × (w' : Indirect) × (taken rest : List ℕ) × (increase_indirect1 inode w
        (max c 28) t blocks
      ≡ after_indirect1 (record inode { indirect1 = indirect1 }) w' c t rest)
    × (blocks ≡ taken ++ rest)
    × (length taken + indirect1_count c ≡ indirect1_count t)
    × (indirect1_part t indirect1 w' ≡ indirect1_part c inode.indirect1 w ++ taken)
    × (156 < c → w' ≡ w)

module _ (inode : DiskInode) (w : Indirect) (c t : ℕ) (more : 28 < t) (up : c ≤ t) where
  phase_new :
      (b : ℕ) (bs : List ℕ)
      → c ≤ 28
      → indirect1_count t ≤ indirect1_count c + length (b ∷ bs)
      → Indirect1Phase inode w c t (b ∷ bs)
  phase_new b bs h n =
      let on : ltb 28 t ≡ true = ground (arith, more) in
      let off : ltb 28 c ≡ false = ground (arith, h) in
      let (w', taken, rest, r, cut, num, same, pushed) =
        fill_indirect_lem (min 128 (t - 28)) w b 0 bs (ground (arith, on, off, n)) in
      (
        b,
        w',
        b ∷ taken,
        rest,
        increase_indirect1-new inode w w' c t b bs rest h r,
        ap (λ xs. b ∷ xs) cut,
        ground (arith, on, off, num),
        rw (on, off) (ap (λ xs. b ∷ xs) pushed),
        λ p. absurd (omega (arith, p, h)),
      )

  phase_old :
      (blocks : List ℕ)
      → 28 < c
      → c ≤ 156
      → indirect1_count t ≤ indirect1_count c + length blocks
      → Indirect1Phase inode w c t blocks
  phase_old blocks g h n =
      let on : ltb 28 t ≡ true = ground (arith, more) in
      let on' : ltb 28 c ≡ true = ground (arith, g) in
      let id = inode.indirect1 in
      let (w', taken, rest, r, cut, num, same, pushed) =
        fill_indirect_lem (min 128 (t - 28) - (c - 28)) w id (c - 28) blocks
          (ground (arith, on, on', n)) in
      let start : min 128 (c - 28) ≡ c - 28 = omega (arith, h) in
      (
        id,
        w',
        taken,
        rest,
        increase_indirect1-old inode w w' c t blocks rest g r,
        cut,
        ground (arith, on, on', num, h, up),
        rw (on, on', start)
            (ap (λ xs. id ∷ xs)
              (push_words-append (c - 28) (min 128 (t - 28) - (c - 28)) (min 128 (t - 28)) (w' id) 0
                  (c - 28) (omega (arith, h, up)) (omega arith)
                ∙ ap₂ (λ xs ys. xs ++ ys)
                    (push_words-cong (c - 28) (w' id) (w id) 0
                      (λ i p q. same id i (inr (omega (arith, q)))))
                    pushed)),
        λ p. absurd (omega (arith, p, h)),
      )

  phase_full : (blocks : List ℕ) → 156 < c → Indirect1Phase inode w c t blocks
  phase_full blocks g =
      let on : ltb 28 t ≡ true = ground (arith, more) in
      let on' : ltb 28 c ≡ true = ground (arith, g) in
      let none_left : min 128 (t - 28) - (c - 28) ≡ 0 = omega (arith, g) in
      let both : min 128 (t - 28) ≡ min 128 (c - 28) = omega (arith, g, up) in
      let id = inode.indirect1 in
      (
        id,
        w,
        [],
        blocks,
        increase_indirect1-old inode w w c t blocks blocks (omega (arith, g))
            (rw none_left (fill_indirect-zero w id (c - 28) blocks)),
        refl,
        ground (arith, on, on', both),
        rw (on, on', both) (sym (append-nil (id ∷ push_words (min 128 (c - 28)) (w id) 0))),
        λ p. refl,
      )

pub indirect1_phase :
    (inode : DiskInode) (w : Indirect) (c t : ℕ) (blocks : List ℕ)
    → 28 < t
    → c ≤ t
    → indirect1_count t ≤ indirect1_count c + length blocks
    → Indirect1Phase inode w c t blocks
indirect1_phase inode w c t blocks l h n = elim (Bool-cases (leb c 28)) [
  | inl e ↦ elim (List-cases blocks) [
    | inl none ↦ absurd (ground (arith, l, e, n, none))
    | inr (b, bs, f) ↦ subst (Indirect1Phase inode w c t) (sym f) (
        phase_new inode w c t l h b bs (ground (arith, e))
          (subst (λ xs. indirect1_count t ≤ indirect1_count c + length xs) f n))
  ]
  | inr e ↦ elim (Bool-cases (leb c 156)) [
    | inl f ↦ phase_old inode w c t l h blocks (ground (arith, e)) (ground (arith, f)) n
    | inr f ↦ phase_full inode w c t l h blocks (ground (arith, f))
  ]
]
