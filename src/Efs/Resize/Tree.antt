-- ===== src/Efs/Resize/Tree.antt =====
-- One round of the last loop of increase_size: the next data block, and its block of addresses.
use acore.Base.{
  ℕ, suc, ◌+◌, ◌*◌, ◌/◌, ◌%◌, ◌<◌, ◌≤◌, ◌≡◌, ◌≢◌, refl, sym, ap, ◌∙◌, ◌⊎◌, inl, inr, List, [], ◌∷◌,
  ◌++◌, ◌==◌, true, false, arith, length, count, Bool-cases,
}
use acore.Efs.Bitmap.{set_word}
use acore.Efs.Resize.{Indirect}
use acore.Efs.Resize.Listing.{second_blocks, second_blocks-cong}

-- The second-level blocks of n data blocks, and the new blocks, are blocks of their own.
pub record IsTree (indirect1 indirect2 : ℕ) (w : Indirect) (n : ℕ) (blocks : List ℕ) : Type 0 where
  pub two_one : indirect2 ≢ indirect1
  pub row_one : (i : ℕ) → i * 128 < n → w indirect2 i ≢ indirect1
  pub row_two : (i : ℕ) → i * 128 < n → w indirect2 i ≢ indirect2
  pub apart : (i j : ℕ) → i * 128 < n → j * 128 < n → w indirect2 i ≡ w indirect2 j → i ≡ j
  pub new_one : (b : ℕ) → 0 < count b blocks → b ≢ indirect1
  pub new_two : (b : ℕ) → 0 < count b blocks → b ≢ indirect2
  pub new_row : (b i : ℕ) → 0 < count b blocks → i * 128 < n → b ≢ w indirect2 i
  pub once : (b : ℕ) → count b blocks ≤ 1

-- The blocks that n data blocks behind the second indirect block take.
abbrev pub second_count : ℕ → ℕ
second_count n = n + (n + 127) / 128

-- What storing the next data block does.
abbrev pub Stores : ℕ → ℕ → Indirect → ℕ → List ℕ → Indirect → List ℕ → List ℕ → Type 0
Stores indirect1 indirect2 w n blocks w' taken rest =
    (blocks ≡ taken ++ rest)
    × (second_blocks w' indirect2 (suc n) ≡ second_blocks w indirect2 n ++ taken)
    × (length taken + second_count n ≡ second_count (suc n))
    × IsTree indirect1 indirect2 w' (suc n) rest
    × ((j : ℕ) → w' indirect1 j ≡ w indirect1 j)

-- One more row, b, in front of the new blocks, or none.
IsTree-row :
    (indirect1 indirect2 : ℕ) (w v : Indirect) (n b : ℕ) (blocks rest : List ℕ)
    → IsTree indirect1 indirect2 w n blocks
    → ((x : ℕ) → count x rest ≤ count x blocks)
    → 0 < count b blocks
    → count b rest ≡ 0
    → ((i : ℕ)
        → i * 128 < suc n
        → ((i * 128 < n) × (v indirect2 i ≡ w indirect2 i)) ⊎ ((i ≡ n / 128) × (v indirect2 i ≡ b)))
    → IsTree indirect1 indirect2 v (suc n) rest
IsTree-row indirect1 indirect2 w v n b blocks rest t fewer have gone row = record {
  two_one = t.two_one;
  row_one = λ i p. elim (row i p) [
    | inl (q, e) ↦ λ f. t.row_one i q (sym e ∙ f)
    | inr (q, e) ↦ λ f. t.new_one b have (sym e ∙ f)
  ];
  row_two = λ i p. elim (row i p) [
    | inl (q, e) ↦ λ f. t.row_two i q (sym e ∙ f)
    | inr (q, e) ↦ λ f. t.new_two b have (sym e ∙ f)
  ];
  apart = λ i j p q f. elim (row i p) [
    | inl (m, e) ↦ elim (row j q) [
      | inl (m', e') ↦ t.apart i j m m' (sym e ∙ f ∙ e')
      | inr (m', e') ↦ absurd (t.new_row b i have m (sym e' ∙ sym f ∙ e))
    ]
    | inr (m, e) ↦ elim (row j q) [
      | inl (m', e') ↦ absurd (t.new_row b j have m' (sym e ∙ f ∙ e'))
      | inr (m', e') ↦ m ∙ sym m'
    ]
  ];
  new_one = λ x p. t.new_one x (omega (arith, p, fewer x));
  new_two = λ x p. t.new_two x (omega (arith, p, fewer x));
  new_row = λ x i p q. elim (row i q) [
    | inl (m, e) ↦ λ f. t.new_row x i (omega (arith, p, fewer x)) m (f ∙ e)
    | inr (m, e) ↦ λ f.
        let same : x ≡ b = f ∙ e in absurd (omega (arith, p, gone, ap (λ y. count y rest) same))
  ];
  once = λ x. omega (arith, fewer x, t.once x);
}

-- The same rows, and fewer new blocks.
IsTree-same :
    (indirect1 indirect2 : ℕ) (w v : Indirect) (n : ℕ) (blocks rest : List ℕ)
    → IsTree indirect1 indirect2 w n blocks
    → 0 < n % 128
    → ((x : ℕ) → count x rest ≤ count x blocks)
    → ((i : ℕ) → v indirect2 i ≡ w indirect2 i)
    → IsTree indirect1 indirect2 v (suc n) rest
IsTree-same indirect1 indirect2 w v n blocks rest t z fewer row =
    let old : (i : ℕ) → i * 128 < suc n → i * 128 < n = λ i p. omega (arith, z, p) in
    record {
      two_one = t.two_one;
      row_one = λ i p f. t.row_one i (old i p) (sym (row i) ∙ f);
      row_two = λ i p f. t.row_two i (old i p) (sym (row i) ∙ f);
      apart = λ i j p q f. t.apart i j (old i p) (old j q) (sym (row i) ∙ f ∙ row j);
      new_one = λ x p. t.new_one x (omega (arith, p, fewer x));
      new_two = λ x p. t.new_two x (omega (arith, p, fewer x));
      new_row = λ x i p q f. t.new_row x i (omega (arith, p, fewer x)) (old i q) (f ∙ row i);
      once = λ x. omega (arith, fewer x, t.once x);
    }

module _ (indirect1 indirect2 : ℕ) (w : Indirect) (n c : ℕ) (rest : List ℕ) where
  pub store_first :
      (b : ℕ)
      → n % 128 ≡ 0
      → IsTree indirect1 indirect2 w n (b ∷ c ∷ rest)
      → Stores indirect1 indirect2 w n
          (b ∷ c ∷ rest)
          (set_word (set_word w indirect2 (n / 128) b) b 0 c)
          (b ∷ c ∷ [])
          rest
  unfolding second_blocks
  store_first b z t =
      let v = set_word (set_word w indirect2 (n / 128) b) b 0 c in
      let one : b ≢ indirect1 = t.new_one b (ground arith) in
      let two : b ≢ indirect2 = t.new_two b (ground arith) in
      let here : v indirect2 (n / 128) ≡ b = ground (arith, two) in
      let other : (i : ℕ) → i ≢ n / 128 → v indirect2 i ≡ w indirect2 i =
        λ i p. ground (arith, two, p) in
      let data_here : v b 0 ≡ c = ground arith in
      let far : (x j : ℕ) → x ≢ b → x ≢ indirect2 → v x j ≡ w x j =
        λ x j p q. ground (arith, p, q) in
      let start : (n % 128 == 0) ≡ true = ground (arith, z) in
      let same =
        second_blocks-cong w v indirect2 n
          (λ i p. other (i / 128) (λ e. absurd (omega (arith, e, p, z))))
          (λ i p.
            far (w indirect2 (i / 128)) (i % 128)
              (λ e. t.new_row b (i / 128) (ground arith) (omega (arith, p)) (sym e))
              (t.row_two (i / 128) (omega (arith, p)))) in
      (
        refl,
        rw (start, z, here, data_here, same) refl,
        omega (arith, z),
        IsTree-row indirect1 indirect2 w v n b (b ∷ c ∷ rest) rest t (λ x. omega arith)
            (ground arith) (ground (arith, t.once b))
            (λ i p. elim (Bool-cases (i == n / 128)) [
              | inl e ↦
                  let q : i ≡ n / 128 = ground (arith, e) in inr (q, ap (v indirect2) q ∙ here)
              | inr e ↦ inl (ground (arith, e, p, z), other i (ground (arith, e)))
            ]),
        λ j. far indirect1 j (λ e. one (sym e)) (λ e. t.two_one (sym e)),
      )

  pub store_next :
      0 < n % 128
      → IsTree indirect1 indirect2 w n (c ∷ rest)
      → Stores indirect1 indirect2 w n
          (c ∷ rest)
          (set_word w (w indirect2 (n / 128)) (n % 128) c)
          (c ∷ [])
          rest
  unfolding second_blocks
  store_next z t =
      let s = w indirect2 (n / 128) in
      let v = set_word w s (n % 128) c in
      let old : n / 128 * 128 < n = omega (arith, z) in
      let two : s ≢ indirect2 = t.row_two (n / 128) old in
      let row : (i : ℕ) → v indirect2 i ≡ w indirect2 i = λ i. ground (arith, two) in
      let data_here : v s (n % 128) ≡ c = ground arith in
      let start : (n % 128 == 0) ≡ false = ground (arith, z) in
      let same =
        second_blocks-cong w v indirect2 n (λ i p. row (i / 128))
          (λ i p. elim (Bool-cases (i / 128 == n / 128)) [
            | inl e ↦
                let q : i / 128 ≡ n / 128 = ground (arith, e) in
                let r : i % 128 ≢ n % 128 = ground (arith, q, p) in ground (arith, r)
            | inr e ↦
                let q : w indirect2 (i / 128) ≢ s = λ f.
                  absurd
                    (ground (arith, e, t.apart (i / 128) (n / 128) (omega (arith, p)) old f)) in
                ground (arith, q)
          ]) in
      (
        refl,
        rw (start, row (n / 128), data_here, same) refl,
        omega (arith, z),
        IsTree-same indirect1 indirect2 w v n (c ∷ rest) rest t z (λ x. omega arith) row,
        λ j. let q : s ≢ indirect1 = t.row_one (n / 128) old in ground (arith, q),
      )
