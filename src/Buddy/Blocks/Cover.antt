-- ===== src/Buddy/Blocks/Cover.antt =====
-- Which bytes are free: splitting a block frees and takes none, and alloc takes those of the block it
-- returns.
use native.Mathlib.Nat.{pow-suc, one-le-pow}
use native.Mathlib.Decide.{ℕ_discrete}
use acore.Base.{
  ℕ, zero, suc, ◌+◌, ◌*◌, ◌^◌, ◌<◌, ◌≤◌, ◌≡◌, refl, sym, subst, ap, ◌∙◌, List, [], ◌∷◌, ltb, leb,
  ◌&&◌, ind, ok, arith, some, count,
}
use acore.Base.Word.Digits.{twice_pow}
use acore.Buddy.Blocks.{FreeList, set_list, push, pop, split, split_down}

-- Whether a block of a class covers an address.
abbrev pub inside : ℕ → ℕ → ℕ → ℕ
inside class block a = ind (leb block a && ltb a (block + 2 ^ class))

-- How many blocks of a list cover an address.
abbrev pub covers : ℕ → List ℕ → ℕ → ℕ
covers class [] a = 0
covers class (b ∷ bs) a = inside class b a + covers class bs a

-- How many free blocks of the first classes cover an address.
unfoldable pub cover : ℕ → FreeList → ℕ → ℕ
cover zero lists a = 0
cover (suc n) lists a = cover n lists a + covers n (lists n) a

cover-set_beyond :
    (n : ℕ) (lists : FreeList) (class : ℕ) (bs : List ℕ) (a : ℕ)
    → n ≤ class
    → cover n (set_list lists class bs) a ≡ cover n lists a
unfolding cover
cover-set_beyond zero lists class bs a h = refl
cover-set_beyond (suc n) lists class bs a h =
    let same : set_list lists class bs n ≡ lists n = ground arith in
    rw same
      (ap (λ (k : ℕ). k + covers n (lists n) a) (cover-set_beyond n lists class bs a (omega arith)))

pub cover-set_list :
    (n : ℕ) (lists : FreeList) (class : ℕ) (bs : List ℕ) (a : ℕ)
    → class < n
    → cover n (set_list lists class bs) a + covers class (lists class) a
      ≡ cover n lists a + covers class bs a
unfolding cover
cover-set_list zero lists class bs a h = absurd (omega arith)
cover-set_list (suc n) lists class bs a h = elim (ℕ_discrete n class) [
  | yes e ↦
      let here : set_list lists class bs n ≡ bs = ground (arith, e) in
      rw here (rw (sym e) (omega (arith, cover-set_beyond n lists n bs a (omega arith))))
  | no e ↦
      let there : set_list lists class bs n ≡ lists n = ground (arith, e) in
      rw there (omega (arith, cover-set_list n lists class bs a (omega (arith, e))))
]

-- A block stands at a multiple of its size.
abbrev pub Multiples : ℕ → List ℕ → Type 0
Multiples class [] = Unit {0}
Multiples class (b ∷ bs) = ((q : ℕ) × (b ≡ q * 2 ^ class)) × Multiples class bs

abbrev pub Aligned : FreeList → Type 0
Aligned lists = (class : ℕ) → Multiples class (lists class)

pub Aligned-set_list :
    (lists : FreeList) (class : ℕ) (bs : List ℕ)
    → Aligned lists
    → Multiples class bs
    → Aligned (set_list lists class bs)
Aligned-set_list lists class bs h m c = elim (ℕ_discrete c class) [
  | yes e ↦ let here : set_list lists class bs c ≡ bs = ground (arith, e) in rw here (rw e m)
  | no e ↦ let there : set_list lists class bs c ≡ lists c = ground (arith, e) in rw there (h c)
]

-- No free block stands at address 0.
abbrev pub NonNull : FreeList → Type 0
NonNull lists = (class : ℕ) → count 0 (lists class) ≡ 0

pub NonNull-set_list :
    (lists : FreeList) (class : ℕ) (bs : List ℕ)
    → NonNull lists
    → count 0 bs ≡ 0
    → NonNull (set_list lists class bs)
NonNull-set_list lists class bs h z c = ground (arith, h c, z)

-- A list with a block is not empty.
pub pop_head :
    (lists : FreeList) (class block : ℕ) (rest : List ℕ)
    → NonNull lists
    → lists class ≡ block ∷ rest
    → (pop (lists class) ≡ some (block, rest)) × (0 < block) × (count 0 rest ≡ 0)
pop_head lists class block rest h e =
    let z : count 0 (block ∷ rest) ≡ 0 = ap (count 0) (sym e) ∙ h class in
    (rw e (ground (arith, z)), ground (arith, z), ground (arith, z))

pub halves :
    (j block a : ℕ) → inside (suc j) block a ≡ inside j block a + inside j (block + 2 ^ j) a
halves j block a = ground (arith, pow-suc 2 j, one-le-pow j 2)

pub even_multiple : (q k : ℕ) → 2 * q * 2 ^ k ≡ 2 * (q * 2 ^ k)
even_multiple q k = grind arith

module _ (n : ℕ) where
  -- A block of the class above splits into two blocks that cover the same addresses.
  split_lem :
      (lists : FreeList) (j block : ℕ) (rest : List ℕ)
      → suc j < n
      → lists (suc j) ≡ block ∷ rest
      → Aligned lists
      → NonNull lists
      → (lists' : FreeList) × (split lists j ≡ ok lists')
        × Aligned lists'
        × NonNull lists'
        × ((a : ℕ) → cover n lists' a ≡ cover n lists a)
        × ((b : ℕ) × (bs : List ℕ) × (lists' j ≡ b ∷ bs))
  unfolding split
  split_lem lists j block rest h e al nn =
      let (popped, positive, nn_rest) = pop_head lists (suc j) block rest nn e in
      let l₁ = set_list lists (suc j) rest in
      let l₂ = push l₁ j block in
      let l₃ = push l₂ j (block + 2 ^ j) in
      let ((q, m), ms) = subst (Multiples (suc j)) e (al (suc j)) in
      let low : block ≡ 2 * q * 2 ^ j = omega (arith, m, even_multiple q j, twice_pow q j) in
      let high : block + 2 ^ j ≡ suc (2 * q) * 2 ^ j = grind (arith, low) in
      let al₁ = Aligned-set_list lists (suc j) rest al ms in
      let nn₁ = NonNull-set_list lists (suc j) rest nn nn_rest in
      let nn₂ = NonNull-set_list l₁ j (block ∷ l₁ j) nn₁ (ground (arith, positive, nn₁ j)) in
      let al₂ = Aligned-set_list l₁ j (block ∷ l₁ j) al₁ ((2 * q, low), al₁ j) in
      (
        l₃,
        rw (popped, split) refl,
        Aligned-set_list l₂ j ((block + 2 ^ j) ∷ l₂ j) al₂ ((suc (2 * q), high), al₂ j),
        NonNull-set_list l₂ j ((block + 2 ^ j) ∷ l₂ j) nn₂ (ground (arith, positive, nn₂ j)),
        (λ a. omega (
          arith,
          cover-set_list n lists (suc j) rest a h,
          cover-set_list n l₁ j (block ∷ l₁ j) a (omega (arith, h)),
          cover-set_list n l₂ j ((block + 2 ^ j) ∷ l₂ j) a (omega (arith, h)),
          halves j block a,
          ap (λ l. covers (suc j) l a) e,
        )),
        (block + 2 ^ j, l₂ j, ground arith),
      )

  pub split_down_lem :
      (rounds class : ℕ) (lists : FreeList) (block : ℕ) (rest : List ℕ)
      → class + rounds < n
      → lists (class + rounds) ≡ block ∷ rest
      → Aligned lists
      → NonNull lists
      → (lists' : FreeList) × (split_down rounds class lists ≡ ok lists')
        × Aligned lists'
        × NonNull lists'
        × ((a : ℕ) → cover n lists' a ≡ cover n lists a)
        × ((b : ℕ) × (bs : List ℕ) × (lists' class ≡ b ∷ bs))
  unfolding split_down
  split_down_lem zero class lists block rest h e al nn =
      let same : class + 0 ≡ class = omega arith in
      (lists, refl, al, nn, (λ a. refl), (block, rest, subst (λ c. lists c ≡ block ∷ rest) same e))
  split_down_lem (suc rounds) class lists block rest h e al nn =
      let above : class + suc rounds ≡ suc (class + rounds) = omega arith in
      let (l₁, s₁, al₁, nn₁, c₁, (b, bs, m)) =
        split_lem lists (class + rounds) block rest (omega (arith, h))
          (subst (λ c. lists c ≡ block ∷ rest) above e) al nn in
      let (l₂, s₂, al₂, nn₂, c₂, last) =
        split_down_lem rounds class l₁ b bs (omega (arith, h)) m al₁ nn₁ in
      (l₂, rw s₁ s₂, al₂, nn₂, (λ a. c₂ a ∙ c₁ a), last)
