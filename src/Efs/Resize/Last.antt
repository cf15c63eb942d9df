-- ===== src/Efs/Resize/Last.antt =====
-- The last phase of increase_size, behind the second indirect block.
use acore.Base.{
  ℕ, zero, suc, ◌+◌, ◌-◌, ◌*◌, ◌/◌, ◌%◌, ◌<◌, ◌≤◌, ◌≡◌, refl, sym, ap, inl, inr, max, List, [], ◌∷◌,
  ◌++◌, ltb, leb, ◌==◌, if◌then◌else◌, true, false, ok, arith, length, count, count-append,
  Bool-cases, List-cases, subst,
}
use acore.Efs.Layout.{DiskInode}
use acore.Efs.Resize.{Indirect, fill_second, increase_indirect2}
use acore.Efs.Resize.Listing.{second_blocks}
use acore.Efs.Resize.Tree.{IsTree, second_count}
use acore.Efs.Resize.Second.{fill_second_lem}
use acore.Efs.Resize.Phases.{indirect2_part}

-- A second-level block stands in the listing, and twice if it is that of two rows.
row_counted :
    (w : Indirect) (indirect2 n i : ℕ)
    → i * 128 < n
    → 0 < count (w indirect2 i) (second_blocks w indirect2 n)
unfolding second_blocks
row_counted w indirect2 zero i h = absurd (omega (arith, h))
row_counted w indirect2 (suc n) i h =
    let x = w indirect2 i in
    let split = count-append x (second_blocks w indirect2 n) in
    elim (Bool-cases (ltb (i * 128) n)) [
      | inl e ↦
          let before = row_counted w indirect2 n i (ground (arith, e)) in
          omega (arith, before, split _)
      | inr e ↦
          let row : n / 128 ≡ i = ground (arith, e, h) in
          let start : (n % 128 == 0) ≡ true = ground (arith, e, h) in
          rw (start, row) (ground (arith, split (x ∷ w x (n % 128) ∷ [])))
    ]

rows_counted :
    (w : Indirect) (indirect2 n i j : ℕ)
    → i < j
    → j * 128 < n
    → w indirect2 i ≡ w indirect2 j
    → 1 < count (w indirect2 i) (second_blocks w indirect2 n)
unfolding second_blocks
rows_counted w indirect2 zero i j h l e = absurd (omega (arith, l))
rows_counted w indirect2 (suc n) i j h l e =
    let x = w indirect2 i in
    let split = count-append x (second_blocks w indirect2 n) in
    elim (Bool-cases (ltb (j * 128) n)) [
      | inl f ↦
          let before = rows_counted w indirect2 n i j h (ground (arith, f)) e in
          omega (arith, before, split _)
      | inr f ↦
          let row : n / 128 ≡ j = ground (arith, f, l) in
          let start : (n % 128 == 0) ≡ true = ground (arith, f, l) in
          let before = row_counted w indirect2 n i (ground (arith, f, h, l)) in
          rw (start, row)
            (ground (arith, before, e, split (w indirect2 j ∷ w (w indirect2 j) (n % 128) ∷ [])))
    ]

-- Where no block occurs twice, neither in the listing nor among the new blocks, the tree is one.
IsTree-listed :
    (indirect1 indirect2 : ℕ) (xs : List ℕ) (w : Indirect) (n : ℕ) (blocks : List ℕ)
    → ((b : ℕ)
        → count b (indirect1 ∷ xs)
            + count b (indirect2 ∷ second_blocks w indirect2 n)
            + count b blocks
          ≤ 1)
    → IsTree indirect1 indirect2 w n blocks
IsTree-listed indirect1 indirect2 xs w n blocks once = record {
  two_one = λ e. absurd (ground (arith, once indirect1, e));
  row_one = λ i p e. absurd (ground (arith, once indirect1, row_counted w indirect2 n i p, e));
  row_two = λ i p e. absurd (ground (arith, once indirect2, row_counted w indirect2 n i p, e));
  apart = λ i j p q e. elim (Bool-cases (ltb i j)) [
    | inl f ↦ absurd (
        ground
          (arith, once (w indirect2 i), rows_counted w indirect2 n i j (ground (arith, f)) q e))
    | inr f ↦ elim (Bool-cases (ltb j i)) [
      | inl g ↦ absurd (
          ground (
            arith,
            once (w indirect2 j),
            rows_counted w indirect2 n j i (ground (arith, g)) p (sym e),
          ))
      | inr g ↦ ground (arith, f, g)
    ]
  ];
  new_one = λ b p e. absurd (ground (arith, once b, p, e));
  new_two = λ b p e. absurd (ground (arith, once b, p, e));
  new_row = λ b i p q e. absurd (ground (arith, once b, p, row_counted w indirect2 n i q, e));
  once = λ b. omega (arith, once b);
}

abbrev pub indirect2_count : ℕ → ℕ
indirect2_count n = if ltb 156 n then 1 + second_count (n - 156) else 0

increase_indirect2-old :
    (inode : DiskInode) (w w' : Indirect) (c t : ℕ) (blocks rest : List ℕ)
    → 156 < c
    → fill_second
        (t - 156 - (c - 156) + 1)
        w
        inode.indirect2
        ((c - 156) / 128)
        ((c - 156) % 128)
        ((t - 156) / 128)
        ((t - 156) % 128)
        blocks
      ≡ ok (w', rest)
    → increase_indirect2 inode w (max (max c 28 - 28) 128) (t - 28) blocks ≡ ok (inode, w', rest)
unfolding increase_indirect2
increase_indirect2-old inode w w' c t blocks rest h e =
    let old : (max (max c 28 - 28) 128 == 128) ≡ false = ground (arith, h) in
    let m : max (max c 28 - 28) 128 - 128 ≡ c - 156 = omega (arith, h) in
    let k : t - 28 - 128 ≡ t - 156 = omega arith in rw (old, m, k, e) refl

increase_indirect2-new :
    (inode : DiskInode) (w w' : Indirect) (c t b : ℕ) (blocks rest : List ℕ)
    → c ≤ 156
    → fill_second (t - 156 - 0 + 1) w b 0 0 ((t - 156) / 128) ((t - 156) % 128) blocks
      ≡ ok (w', rest)
    → increase_indirect2 inode w (max (max c 28 - 28) 128) (t - 28) (b ∷ blocks)
      ≡ ok (record inode { indirect2 = b }, w', rest)
unfolding increase_indirect2
increase_indirect2-new inode w w' c t b blocks rest h e =
    let m : max (max c 28 - 28) 128 ≡ 128 = omega (arith, h) in
    let k : t - 28 - 128 ≡ t - 156 = omega arith in rw (m, k, e) refl

-- What the phase does to a file of c data blocks that gets t.
abbrev pub Indirect2Phase : DiskInode → Indirect → ℕ → ℕ → List ℕ → Type 0
Indirect2Phase inode w c t blocks =
    (indirect2 : ℕ) × (w' : Indirect) × (taken rest : List ℕ) × (increase_indirect2 inode w
        (max (max c 28 - 28) 128) (t - 28) blocks
      ≡ ok (record inode { indirect2 = indirect2 }, w', rest))
    × (blocks ≡ taken ++ rest)
    × (length taken + indirect2_count c ≡ indirect2_count t)
    × (indirect2_part t indirect2 w' ≡ indirect2_part c inode.indirect2 w ++ taken)
    × ((j : ℕ) → w' inode.indirect1 j ≡ w inode.indirect1 j)

module _ (inode : DiskInode) (w : Indirect) (c t : ℕ) (more : 156 < t) (fits : t ≤ 16540)
    (up : c ≤ t) (xs : List ℕ) where
  phase_new :
      (b : ℕ) (bs : List ℕ)
      → c ≤ 156
      → ((x : ℕ) → count x (inode.indirect1 ∷ xs) + count x (b ∷ bs) ≤ 1)
      → indirect2_count t ≤ indirect2_count c + length (b ∷ bs)
      → Indirect2Phase inode w c t (b ∷ bs)
  unfolding second_blocks
  phase_new b bs h once n =
      let on : ltb 156 t ≡ true = ground (arith, more) in
      let off : ltb 156 c ≡ false = ground (arith, h) in
      let tree = IsTree-listed inode.indirect1 b xs w 0 bs (λ x. omega (arith, once x)) in
      let (w', taken, rest, r, (cut, list, num, same)) =
        fill_second_lem (t - 156 - 0 + 1) inode.indirect1 b w 0 (t - 156) bs tree (omega arith)
          (omega (arith, fits)) (omega arith) (ground (arith, on, off, n)) in
      (
        b,
        w',
        b ∷ taken,
        rest,
        increase_indirect2-new inode w w' c t b bs rest h r,
        ap (λ ys. b ∷ ys) cut,
        ground (arith, on, off, num),
        rw (on, off) (ap (λ ys. b ∷ ys) list),
        same,
      )

  phase_old :
      (blocks : List ℕ)
      → 156 < c
      → ((x : ℕ)
          → count x (inode.indirect1 ∷ xs)
              + count x (inode.indirect2 ∷ second_blocks w inode.indirect2 (c - 156))
              + count x blocks
            ≤ 1)
      → indirect2_count t ≤ indirect2_count c + length blocks
      → Indirect2Phase inode w c t blocks
  phase_old blocks h once n =
      let on : ltb 156 t ≡ true = ground (arith, more) in
      let on' : ltb 156 c ≡ true = ground (arith, h) in
      let id = inode.indirect2 in
      let tree = IsTree-listed inode.indirect1 id xs w (c - 156) blocks once in
      let (w', taken, rest, r, (cut, list, num, same)) =
        fill_second_lem (t - 156 - (c - 156) + 1) inode.indirect1 id w (c - 156) (t - 156) blocks
          tree (omega (arith, up)) (omega (arith, fits)) (omega (arith, up))
          (ground (arith, on, on', n)) in
      (
        id,
        w',
        taken,
        rest,
        increase_indirect2-old inode w w' c t blocks rest h r,
        cut,
        ground (arith, on, on', num),
        rw (on, on') (ap (λ ys. id ∷ ys) list),
        same,
      )

pub indirect2_phase :
    (inode : DiskInode) (w : Indirect) (c t : ℕ) (xs blocks : List ℕ)
    → 156 < t
    → t ≤ 16540
    → c ≤ t
    → ((x : ℕ)
        → count x (inode.indirect1 ∷ xs)
            + count x (indirect2_part c inode.indirect2 w)
            + count x blocks
          ≤ 1)
    → indirect2_count t ≤ indirect2_count c + length blocks
    → Indirect2Phase inode w c t blocks
indirect2_phase inode w c t xs blocks m f h once n = elim (Bool-cases (leb c 156)) [
  | inl e ↦ elim (List-cases blocks) [
    | inl none ↦ absurd (ground (arith, m, e, n, none))
    | inr (b, bs, g) ↦ subst (Indirect2Phase inode w c t) (sym g) (
        phase_new inode w c t m f h xs b bs (ground (arith, e))
          (λ x.
            let y : count x (inode.indirect1 ∷ xs) + count x blocks ≤ 1 = omega (arith, once x) in
            subst (λ ys. count x (inode.indirect1 ∷ xs) + count x ys ≤ 1) g y)
          (subst (λ ys. indirect2_count t ≤ indirect2_count c + length ys) g n))
  ]
  | inr e ↦
      let on : ltb 156 c ≡ true = ground (arith, e) in
      phase_old inode w c t m f h xs blocks (ground (arith, e))
        (λ x.
          subst
            (λ s.
              count x (inode.indirect1 ∷ xs)
                + count x
                    (if s then inode.indirect2 ∷ second_blocks w inode.indirect2 (c - 156) else [])
                + count x blocks
              ≤ 1)
            on (once x))
        n
]
