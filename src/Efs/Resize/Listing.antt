-- ===== src/Efs/Resize/Listing.antt =====
-- All blocks of a file, data blocks and those that address them, in the order in which they are
-- taken.
use acore.Base.{
  ℕ, zero, suc, ◌+◌, ◌-◌, ◌*◌, ◌/◌, ◌%◌, ◌<◌, ◌≤◌, ◌≡◌, refl, true, false, append-nil,
  length-append, Bool-cases, inl, inr, sym, ap, ap₂, ◌∙◌, append_assoc, min, List, [], ◌∷◌, ◌++◌,
  ltb, ◌==◌, if◌then◌else◌, arith, length, get_or,
}
use acore.Efs.Layout.{DiskInode, indirect_blocks}
use acore.Efs.Resize.{Indirect, push_words}

-- The blocks behind the second indirect block, for n data blocks: each data block where the
-- inode addresses it, behind the block of addresses that it is the first of.
unfoldable pub second_blocks : Indirect → ℕ → ℕ → List ℕ
second_blocks w indirect2 zero = []
second_blocks w indirect2 (suc n) =
    second_blocks w indirect2 n
    ++ ((if n % 128 == 0 then w indirect2 (n / 128) ∷ [] else [])
        ++ (w (w indirect2 (n / 128)) (n % 128) ∷ []))

unfoldable pub file_blocks : ℕ → DiskInode → Indirect → List ℕ
unfolding second_blocks
file_blocks n inode w =
    push_words (min 28 n) (λ i. get_or inode.direct i 0) 0
    ++ ((if ltb 28 n
          then inode.indirect1 ∷ push_words (min 128 (n - 28)) (w inode.indirect1) 0
          else [])
        ++ (if ltb 156 n then inode.indirect2 ∷ second_blocks w inode.indirect2 (n - 156) else []))

pub push_words-cong :
    (n : ℕ) (f g : ℕ → ℕ) (at : ℕ)
    → ((i : ℕ) → at ≤ i → i < at + n → f i ≡ g i)
    → push_words n f at ≡ push_words n g at
push_words-cong zero f g at h = refl
push_words-cong (suc n) f g at h =
    ap₂ (λ x xs. x ∷ xs) (h at (omega arith) (omega arith))
      (push_words-cong n f g (suc at) (λ i p q. h i (omega (arith, p)) (omega (arith, q))))

pub push_words-suc :
    (n : ℕ) (f : ℕ → ℕ) (at last : ℕ)
    → last ≡ at + n
    → push_words (suc n) f at ≡ push_words n f at ++ (f last ∷ [])
push_words-suc zero f at last h = ap (λ i. f i ∷ []) (omega (arith, h))
push_words-suc (suc n) f at last h =
    ap (λ xs. f at ∷ xs) (push_words-suc n f (suc at) last (omega (arith, h)))

pub length-push_words : (n : ℕ) (f : ℕ → ℕ) (at : ℕ) → length (push_words n f at) ≡ n
length-push_words zero f at = refl
length-push_words (suc n) f at = ap suc (length-push_words n f (suc at))

-- A second-level block and the first words of it.
pub second_blocks-row :
    (w : Indirect) (indirect2 a j : ℕ)
    → j < 128
    → second_blocks w indirect2 (a * 128 + suc j)
      ≡ second_blocks w indirect2 (a * 128)
        ++ (w indirect2 a ∷ push_words (suc j) (w (w indirect2 a)) 0)
unfolding second_blocks
second_blocks-row w indirect2 a zero h =
    let n : a * 128 + 1 ≡ suc (a * 128) = omega arith in
    let q : a * 128 / 128 ≡ a = omega arith in
    let r : a * 128 % 128 ≡ 0 = omega arith in rw (n, q, r) refl
second_blocks-row w indirect2 a (suc j) h =
    let n : a * 128 + suc (suc j) ≡ suc (a * 128 + suc j) = omega arith in
    let q : (a * 128 + suc j) / 128 ≡ a = omega (arith, h) in
    let r : (a * 128 + suc j) % 128 ≡ suc j = omega (arith, h) in
    let inner : suc j == 0 ≡ false = ground arith in
    rw (n, q, r, inner, second_blocks-row w indirect2 a j (omega (arith, h)))
      (append_assoc (second_blocks w indirect2 (a * 128))
          (w indirect2 a ∷ push_words (suc j) (w (w indirect2 a)) 0)
          (w (w indirect2 a) (suc j) ∷ [])
        ∙ ap (λ xs. second_blocks w indirect2 (a * 128) ++ (w indirect2 a ∷ xs))
            (sym (push_words-suc (suc j) (w (w indirect2 a)) 0 (suc j) (omega arith))))

pub length-second_blocks :
    (w : Indirect) (indirect2 n : ℕ) → length (second_blocks w indirect2 n) ≡ n + (n + 127) / 128
unfolding second_blocks
length-second_blocks w indirect2 zero = refl
length-second_blocks w indirect2 (suc n) =
    let before = length-second_blocks w indirect2 n in
    let split = length-append (second_blocks w indirect2 n) in
    elim (Bool-cases (n % 128 == 0)) [
      | inl e ↦
          let at_start : n % 128 ≡ 0 = ground (arith, e) in
          rw e (
            omega (
              arith,
              split (w indirect2 (n / 128) ∷ w (w indirect2 (n / 128)) (n % 128) ∷ []),
              before,
              at_start,
            ))
      | inr e ↦
          let behind : 0 < n % 128 = ground (arith, e) in
          rw e (omega (arith, split (w (w indirect2 (n / 128)) (n % 128) ∷ []), before, behind))
    ]

-- The listing by the number of data blocks.
module _ (n : ℕ) (inode : DiskInode) (w : Indirect) where
  pub file_blocks-small :
      n ≤ 28 → file_blocks n inode w ≡ push_words n (λ i. get_or inode.direct i 0) 0
  unfolding file_blocks
  file_blocks-small h =
      let m : min 28 n ≡ n = omega (arith, h) in
      let a : ltb 28 n ≡ false = ground (arith, h) in
      let b : ltb 156 n ≡ false = ground (arith, h) in
      rw (m, a, b) (append-nil (push_words n (λ i. get_or inode.direct i 0) 0))

  pub file_blocks-middle :
      28 < n
      → n ≤ 156
      → file_blocks n inode w
        ≡ push_words 28 (λ i. get_or inode.direct i 0) 0
          ++ (inode.indirect1 ∷ push_words (n - 28) (w inode.indirect1) 0)
  unfolding file_blocks
  file_blocks-middle g h =
      let m : min 28 n ≡ 28 = omega (arith, g) in
      let k : min 128 (n - 28) ≡ n - 28 = omega (arith, h) in
      let a : ltb 28 n ≡ true = ground (arith, g) in
      let b : ltb 156 n ≡ false = ground (arith, h) in
      rw (m, k, a, b)
        (ap (λ xs. push_words 28 (λ i. get_or inode.direct i 0) 0 ++ xs)
          (append-nil (inode.indirect1 ∷ push_words (n - 28) (w inode.indirect1) 0)))

  pub file_blocks-large :
      156 < n
      → file_blocks n inode w
        ≡ push_words 28 (λ i. get_or inode.direct i 0) 0
          ++ ((inode.indirect1 ∷ push_words 128 (w inode.indirect1) 0)
              ++ (inode.indirect2 ∷ second_blocks w inode.indirect2 (n - 156)))
  unfolding file_blocks
  file_blocks-large g =
      let m : min 28 n ≡ 28 = omega (arith, g) in
      let k : min 128 (n - 28) ≡ 128 = omega (arith, g) in
      let a : ltb 28 n ≡ true = ground (arith, g) in
      let b : ltb 156 n ≡ true = ground (arith, g) in rw (m, k, a, b) refl

  pub length-file_blocks : length (file_blocks n inode w) ≡ n + indirect_blocks n
  unfolding file_blocks
  length-file_blocks =
      let f : ℕ → ℕ = λ i. get_or inode.direct i 0 in
      let one = inode.indirect1 ∷ push_words (min 128 (n - 28)) (w inode.indirect1) 0 in
      let two = inode.indirect2 ∷ second_blocks w inode.indirect2 (n - 156) in
      let len_d = length-push_words (min 28 n) f 0 in
      let len_1 = length-push_words (min 128 (n - 28)) (w inode.indirect1) 0 in
      let len_2 = length-second_blocks w inode.indirect2 (n - 156) in
      let sum = length-append {A = ℕ} (push_words (min 28 n) f 0) in
      elim (Bool-cases (ltb 28 n)) [
        | inl a ↦ elim (Bool-cases (ltb 156 n)) [
          | inl b ↦
              rw (a, b)
                (ground (
                  arith,
                  sum (one ++ two),
                  length-append {A = ℕ} one two,
                  len_d,
                  len_1,
                  len_2,
                  a,
                  b,
                ))
          | inr b ↦
              rw (a, b)
                (ground (arith, sum (one ++ []), length-append {A = ℕ} one [], len_d, len_1, a, b))
        ]
        | inr a ↦
            let b : ltb 156 n ≡ false = ground (arith, a) in
            rw (a, b) (ground (arith, sum [], len_d, a))
      ]

pub push_words-append :
    (n m k : ℕ) (f : ℕ → ℕ) (at mid : ℕ)
    → k ≡ n + m
    → mid ≡ at + n
    → push_words k f at ≡ push_words n f at ++ push_words m f mid
push_words-append zero m k f at mid h e =
    ap₂ (λ j i. push_words j f i) (omega (arith, h)) (omega (arith, e))
push_words-append (suc n) m k f at mid h e =
    let j : k ≡ suc (n + m) = omega (arith, h) in
    rw j
      (ap (λ xs. f at ∷ xs) (push_words-append n m (n + m) f (suc at) mid refl (omega (arith, e))))

pub second_blocks-cong :
    (w w' : Indirect) (indirect2 n : ℕ)
    → ((i : ℕ) → i < n → w' indirect2 (i / 128) ≡ w indirect2 (i / 128))
    → ((i : ℕ) → i < n → w' (w indirect2 (i / 128)) (i % 128) ≡ w (w indirect2 (i / 128)) (i % 128))
    → second_blocks w' indirect2 n ≡ second_blocks w indirect2 n
unfolding second_blocks
second_blocks-cong w w' indirect2 zero h k = refl
second_blocks-cong w w' indirect2 (suc n) h k =
    rw
      (
        second_blocks-cong w w' indirect2 n (λ i p. h i (omega (arith, p)))
            (λ i p. k i (omega (arith, p))),
        h n (omega arith),
        k n (omega arith),
      )
      refl
