-- ===== src/Efs/Resize/Second.antt =====
-- The last loop of increase_size.
use acore.Base.{
  ℕ, zero, suc, ◌+◌, ◌/◌, ◌%◌, ◌<◌, ◌≤◌, ◌≡◌, refl, sym, ap, ◌∙◌, inl, inr, List, [], ◌∷◌, ◌++◌,
  ltb, ◌==◌, ◌&&◌, ◌||◌, true, false, ok, arith, length, length-append, Bool-cases, append_assoc,
  append-nil,
}
use acore.Efs.Bitmap.{set_word}
use acore.Efs.Resize.{Indirect, fill_round, fill_second}
use acore.Efs.Resize.Listing.{second_blocks}
use acore.Efs.Resize.Tree.{IsTree, Stores, second_count, store_first, store_next}

round_lem :
    (indirect1 indirect2 : ℕ) (w : Indirect) (n : ℕ) (blocks : List ℕ)
    → IsTree indirect1 indirect2 w n blocks
    → n < 16384
    → second_count (suc n) ≤ second_count n + length blocks
    → (w' : Indirect) × (taken rest : List ℕ) × (fill_round w indirect2 (n / 128) (n % 128) blocks
        ≡ ok (w', rest))
      × Stores indirect1 indirect2 w n blocks w' taken rest
unfolding fill_round
round_lem indirect1 indirect2 w n [] t h l = absurd (omega (arith, l))
round_lem indirect1 indirect2 w n (b ∷ []) t h l =
    let z : 0 < n % 128 = omega (arith, l) in
    let few : ltb (n / 128) 128 ≡ true = ground (arith, h) in
    let inner : (n % 128 == 0) ≡ false = ground (arith, z) in
    (
      set_word w (w indirect2 (n / 128)) (n % 128) b,
      b ∷ [],
      [],
      rw (few, inner) refl,
      store_next indirect1 indirect2 w n b [] z t,
    )
round_lem indirect1 indirect2 w n (b ∷ c ∷ rest) t h l =
    let few : ltb (n / 128) 128 ≡ true = ground (arith, h) in
    elim (Bool-cases (n % 128 == 0)) [
      | inl e ↦
          let z : n % 128 ≡ 0 = ground (arith, e) in
          let here : set_word w indirect2 (n / 128) b indirect2 (n / 128) ≡ b = ground arith in
          (
            set_word (set_word w indirect2 (n / 128) b) b 0 c,
            b ∷ c ∷ [],
            rest,
            rw (few, e, here)
                (ap (λ r. ok (set_word (set_word w indirect2 (n / 128) b) b r c, rest)) z),
            store_first indirect1 indirect2 w n c rest b z t,
          )
      | inr e ↦ (
        set_word w (w indirect2 (n / 128)) (n % 128) b,
        b ∷ [],
        c ∷ rest,
        rw (few, e) refl,
        store_next indirect1 indirect2 w n b (c ∷ rest) (ground (arith, e)) t,
      )
    ]

fill_second-step :
    (left : ℕ) (w w' : Indirect) (indirect2 n t : ℕ) (blocks rest : List ℕ)
    → n < t
    → fill_round w indirect2 (n / 128) (n % 128) blocks ≡ ok (w', rest)
    → fill_second (suc left) w indirect2 (n / 128) (n % 128) (t / 128) (t % 128) blocks
      ≡ fill_second left w' indirect2 (suc n / 128) (suc n % 128) (t / 128) (t % 128) rest
unfolding fill_second
fill_second-step left w w' indirect2 n t blocks rest h e =
    let on : (ltb (n / 128) (t / 128) || (n / 128 == t / 128 && ltb (n % 128) (t % 128))) ≡ true =
      ground (arith, h) in
    rw (on, e)
      (elim (Bool-cases (suc (n % 128) == 128)) [
        | inl f ↦
            let a : suc n / 128 ≡ suc (n / 128) = ground (arith, f) in
            let b : suc n % 128 ≡ 0 = ground (arith, f) in rw (f, a, b) refl
        | inr f ↦
            let a : suc n / 128 ≡ n / 128 = ground (arith, f) in
            let b : suc n % 128 ≡ suc (n % 128) = ground (arith, f) in rw (f, a, b) refl
      ])

-- What the loop does from n data blocks up to t.
abbrev pub Filled : ℕ → ℕ → Indirect → ℕ → ℕ → List ℕ → Indirect → List ℕ → List ℕ → Type 0
Filled indirect1 indirect2 w n t blocks w' taken rest =
    (blocks ≡ taken ++ rest)
    × (second_blocks w' indirect2 t ≡ second_blocks w indirect2 n ++ taken)
    × (length taken + second_count n ≡ second_count t)
    × ((j : ℕ) → w' indirect1 j ≡ w indirect1 j)

Filled-round :
    (indirect1 indirect2 : ℕ) (w w' w'' : Indirect) (n t : ℕ)
    (blocks taken rest taken' rest' : List ℕ)
    → Stores indirect1 indirect2 w n blocks w' taken rest
    → Filled indirect1 indirect2 w' (suc n) t rest w'' taken' rest'
    → Filled indirect1 indirect2 w n t blocks w'' (taken ++ taken') rest'
Filled-round indirect1 indirect2 w w' w'' n t blocks taken rest taken' rest'
      (cut, list, num, tree, same) (cut', list', num', same') =
    (
      cut ∙ ap (λ xs. taken ++ xs) cut' ∙ sym (append_assoc taken taken' rest'),
      list'
          ∙ ap (λ xs. xs ++ taken') list
          ∙ append_assoc (second_blocks w indirect2 n) taken taken',
      omega (arith, length-append taken taken', num, num'),
      λ j. same' j ∙ same j,
    )

-- With a round for each data block and one more, the loop stores them all.
pub fill_second_lem :
    (left : ℕ) (indirect1 indirect2 : ℕ) (w : Indirect) (n t : ℕ) (blocks : List ℕ)
    → IsTree indirect1 indirect2 w n blocks
    → n ≤ t
    → t ≤ 16384
    → t < n + left
    → second_count t ≤ second_count n + length blocks
    → (w' : Indirect) × (taken rest : List ℕ) × (fill_second left w indirect2
          (n / 128)
          (n % 128)
          (t / 128)
          (t % 128)
          blocks
        ≡ ok (w', rest))
      × Filled indirect1 indirect2 w n t blocks w' taken rest
unfolding fill_second
fill_second_lem zero indirect1 indirect2 w n t blocks tree h m l k = absurd (omega (arith, l, h))
fill_second_lem (suc left) indirect1 indirect2 w n t blocks tree h m l k =
    elim (Bool-cases (ltb n t)) [
      | inr e ↦
          let done : t ≡ n = ground (arith, e, h) in
          let stop : ltb (n / 128) (t / 128) || (n / 128 == t / 128 && ltb (n % 128) (t % 128))
              ≡ false =
            ground (arith, done) in
          (
            w,
            [],
            blocks,
            rw stop refl,
            (
              refl,
              ap (second_blocks w indirect2) done ∙ sym (append-nil (second_blocks w indirect2 n)),
              omega (arith, done),
              λ j. refl,
            ),
          )
      | inl e ↦
          let below : n < t = ground (arith, e) in
          let (w', taken, rest, r, stores) =
            round_lem indirect1 indirect2 w n blocks tree (omega (arith, below, m))
              (omega (arith, k, below)) in
          let sum = ap length stores.0 ∙ length-append taken rest in
          let (w'', taken', rest', r', filled) =
            fill_second_lem left indirect1 indirect2 w' (suc n) t rest stores.3
              (omega (arith, below)) m (omega (arith, l)) (omega (arith, k, stores.2, sum)) in
          (
            w'',
            taken ++ taken',
            rest',
            fill_second-step left w w' indirect2 n t blocks rest below r ∙ r',
            Filled-round indirect1 indirect2 w w' w'' n t blocks taken rest taken' rest' stores
                filled,
          )
    ]
