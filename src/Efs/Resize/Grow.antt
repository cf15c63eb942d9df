-- ===== src/Efs/Resize/Grow.antt =====
-- Growing a file: increase_size as a whole.
use acore.Base.{
  ℕ, ◌+◌, ◌-◌, ◌<◌, ◌≤◌, ◌≡◌, refl, sym, ap, ap₂, ◌∙◌, ◌⊎◌, inl, inr, min, max, List, [], ◌++◌, ltb,
  leb, true, false, ok, arith, length, get_or, length-append, count, count-append, Bool-cases,
  append_assoc, append-nil, nil_of_length,
}
use acore.Efs.Layout.{DiskInode, data_blocks, total_blocks, indirect_blocks}
use acore.Efs.Resize.{Indirect, push_words, fill_direct, increase_indirect1, increase_size}
use acore.Efs.Resize.Listing.{file_blocks, file_blocks-small}
use acore.Efs.Resize.Phases.{
  direct_part, indirect1_part, indirect2_part, indirect1_count, direct_phase,
}
use acore.Efs.Resize.Last.{indirect2_count}
use acore.Efs.Resize.Tail.{indirect2_part-none, indirect2_count_le, tail_grows}

-- Three parts that grow at their ends, where only the last one that is not empty grows.
weave :
    (d₁ d₀ d b₁ b₀ b c₁ c₀ c : List ℕ)
    → d₁ ≡ d₀ ++ d
    → b₁ ≡ b₀ ++ b
    → c₁ ≡ c₀ ++ c
    → ((b₀ ≡ []) × (c₀ ≡ [])) ⊎ (d ≡ [])
    → (c₀ ≡ []) ⊎ ((d ≡ []) × (b ≡ []))
    → d₁ ++ (b₁ ++ c₁) ≡ (d₀ ++ (b₀ ++ c₀)) ++ (d ++ (b ++ c))
weave d₁ d₀ d b₁ b₀ b c₁ c₀ c e f g (inl (p, q)) r =
    rw (e, f, g, p, q) (simp (append_assoc, append-nil) refl)
weave d₁ d₀ d b₁ b₀ b c₁ c₀ c e f g (inr p) (inl q) =
    rw (e, f, g, p, q) (simp (append_assoc, append-nil) refl)
weave d₁ d₀ d b₁ b₀ b c₁ c₀ c e f g (inr p) (inr (q, r)) =
    rw (e, f, g, p, r) (simp (append_assoc, append-nil) refl)

increase_size-direct :
    (inode : DiskInode) (w : Indirect) (new_size : ℕ) (blocks direct rest : List ℕ)
    → fill_direct
        (min 28 (data_blocks new_size) - data_blocks inode.size)
        inode.direct
        (data_blocks inode.size)
        blocks
      ≡ ok (direct, rest)
    → data_blocks new_size ≤ 28
    → increase_size inode w new_size blocks
      ≡ ok (record inode { size = new_size; direct = direct }, w, rest)
unfolding increase_size
increase_size-direct inode w new_size blocks direct rest r h =
    let e : leb (data_blocks new_size) 28 ≡ true = ground (arith, h) in rw (r, e) refl

increase_size-tail :
    (inode : DiskInode) (w : Indirect) (new_size : ℕ) (blocks direct rest : List ℕ)
    → fill_direct
        (min 28 (data_blocks new_size) - data_blocks inode.size)
        inode.direct
        (data_blocks inode.size)
        blocks
      ≡ ok (direct, rest)
    → 28 < data_blocks new_size
    → increase_size inode w new_size blocks
      ≡ increase_indirect1
          (record inode { size = new_size; direct = direct })
          w
          (max (data_blocks inode.size) 28)
          (data_blocks new_size)
          rest
unfolding increase_size
increase_size-tail inode w new_size blocks direct rest r h =
    let e : leb (data_blocks new_size) 28 ≡ false = ground (arith, h) in rw (r, e) refl

increase_size-all :
    (inode inode₁ inode' : DiskInode) (w w' : Indirect) (new_size : ℕ) (blocks rest rest' : List ℕ)
    → increase_size inode w new_size blocks
      ≡ increase_indirect1 inode₁ w (max (data_blocks inode.size) 28) (data_blocks new_size) rest
    → increase_indirect1 inode₁ w (max (data_blocks inode.size) 28) (data_blocks new_size) rest
      ≡ ok (inode', w', rest')
    → rest' ≡ []
    → increase_size inode w new_size blocks ≡ ok (inode', w', [])
increase_size-all inode inode₁ inode' w w' new_size blocks rest rest' e f g =
    e ∙ f ∙ ap (λ ys. ok (inode', w', ys)) g

woven :
    (d₁ d₀ d b₁ b₀ b c₁ c₀ c new : List ℕ)
    → d₁ ≡ d₀ ++ d
    → b₁ ≡ b₀ ++ b
    → c₁ ≡ c₀ ++ c
    → ((b₀ ≡ []) × (c₀ ≡ [])) ⊎ (d ≡ [])
    → (c₀ ≡ []) ⊎ ((d ≡ []) × (b ≡ []))
    → new ≡ d ++ (b ++ c)
    → d₁ ++ (b₁ ++ c₁) ≡ (d₀ ++ (b₀ ++ c₀)) ++ new
woven d₁ d₀ d b₁ b₀ b c₁ c₀ c new e f g p q h =
    weave d₁ d₀ d b₁ b₀ b c₁ c₀ c e f g p q ∙ ap (λ ys. (d₀ ++ (b₀ ++ c₀)) ++ ys) (sym h)

-- The blocks of a file, by the parts that grow.
parts_count : (n : ℕ) → n + indirect_blocks n ≡ min 28 n + indirect1_count n + indirect2_count n
parts_count n = ground arith

-- What a file of c data blocks is after it got t.
abbrev pub Grows : DiskInode → Indirect → ℕ → ℕ → ℕ → List ℕ → Type 0
Grows inode w new_size c t new_blocks =
    (inode' : DiskInode) × (w' : Indirect) × (increase_size inode w new_size new_blocks
      ≡ ok (inode', w', []))
    × (inode'.size ≡ new_size)
    × (length inode'.direct ≡ 28)
    × (file_blocks t inode' w' ≡ file_blocks c inode w ++ new_blocks)

file_blocks-direct :
    (n : ℕ) (inode : DiskInode) (w : Indirect)
    → n ≤ 28
    → file_blocks n inode w ≡ direct_part n inode.direct
file_blocks-direct n inode w h =
    let m : n ≡ min 28 n = omega (arith, h) in
    file_blocks-small n inode w h ∙ ap (λ k. push_words k (λ i. get_or inode.direct i 0) 0) m

indirect1_count_le : (c t : ℕ) → c ≤ t → indirect1_count c ≤ indirect1_count t
indirect1_count_le c t h = ground (arith, h)

indirect1_part-none : (n id : ℕ) (w : Indirect) → n ≤ 28 → indirect1_part n id w ≡ []
indirect1_part-none n id w h = let e : ltb 28 n ≡ false = ground (arith, h) in rw e refl

-- Which parts are empty before, and which do not grow.
parts_apart :
    (c t i1 i2 : ℕ) (w : Indirect) (taken one : List ℕ)
    → c ≤ t
    → 28 < t
    → length taken ≡ min 28 t - c
    → length one + indirect1_count c ≡ indirect1_count t
    → (((indirect1_part c i1 w ≡ []) × (indirect2_part c i2 w ≡ [])) ⊎ (taken ≡ []))
      × ((indirect2_part c i2 w ≡ []) ⊎ ((taken ≡ []) × (one ≡ [])))
parts_apart c t i1 i2 w taken one h m num num1 = (
  elim (Bool-cases (leb c 28)) [
    | inl e ↦ inl (
      indirect1_part-none c i1 w (ground (arith, e)),
      indirect2_part-none c i2 w (ground (arith, e)),
    )
    | inr e ↦ inr (nil_of_length taken (ground (arith, e, num)))
  ],
  elim (Bool-cases (leb c 156)) [
    | inl e ↦ inl (indirect2_part-none c i2 w (ground (arith, e)))
    | inr e ↦ inr (
      nil_of_length taken (ground (arith, e, num)),
      nil_of_length one (ground (arith, e, num1, h)),
    )
  ],
)

few_needed :
    (c t n : ℕ) → c ≤ t → t ≤ 28 → c + indirect_blocks c + n ≡ t + indirect_blocks t → c + n ≡ t
few_needed c t n h m e = ground (arith, h, m, e)

-- The three lists of new blocks are all of them.
nothing_left :
    (c t : ℕ) (new taken rest one two rest' : List ℕ)
    → c ≤ t
    → new ≡ taken ++ rest
    → rest ≡ one ++ (two ++ rest')
    → length taken ≡ min 28 t - c
    → length one + indirect1_count c ≡ indirect1_count t
    → length two + indirect2_count c ≡ indirect2_count t
    → c + indirect_blocks c + length new ≡ t + indirect_blocks t
    → (rest' ≡ []) × (new ≡ taken ++ (one ++ two))
nothing_left c t new taken rest one two rest' h cut cut' num num1 num2 n =
    let all : new ≡ taken ++ (one ++ (two ++ rest')) = cut ∙ ap (λ ys. taken ++ ys) cut' in
    let sum = length-append {A = ℕ} taken (one ++ (two ++ rest')) in
    let sum' = length-append {A = ℕ} one (two ++ rest') in
    let none_left : rest' ≡ [] = nil_of_length rest' (
      omega (
        arith,
        n,
        parts_count c,
        parts_count t,
        num,
        num1,
        num2,
        h,
        ap length all,
        sum,
        sum',
        length-append {A = ℕ} two rest',
      )) in
    (
      none_left,
      all ∙ ap (λ ys. taken ++ (one ++ ys)) (ap (λ ys. two ++ ys) none_left ∙ append-nil two),
    )

once_behind :
    (x : ℕ) (front i1 i2 new taken rest : List ℕ)
    → new ≡ taken ++ rest
    → count x (front ++ (i1 ++ i2)) + count x new ≤ 1
    → count x i1 + count x i2 + count x rest ≤ 1
once_behind x front i1 i2 new taken rest cut h = omega (
  arith,
  h,
  ap (count x) cut,
  count-append x taken rest,
  count-append x front (i1 ++ i2),
  count-append x i1 i2,
)

module _ (inode : DiskInode) (w : Indirect) (new_size : ℕ) (new_blocks : List ℕ)
    (len : length inode.direct ≡ 28) (up : data_blocks inode.size ≤ data_blocks new_size) where
  grow_direct :
      data_blocks new_size ≤ 28
      → data_blocks inode.size + length new_blocks ≡ data_blocks new_size
      → Grows inode w new_size (data_blocks inode.size) (data_blocks new_size) new_blocks
  grow_direct h n =
      let c = data_blocks inode.size in
      let t = data_blocks new_size in
      let (direct, taken, rest, r, cut, num, size, list) =
        direct_phase c t inode.direct new_blocks up len (omega (arith, n)) in
      let none_left : rest ≡ [] =
        nil_of_length rest (omega (arith, num, n, h, ap length cut ∙ length-append taken rest)) in
      let all : new_blocks ≡ taken = cut ∙ ap (λ ys. taken ++ ys) none_left ∙ append-nil taken in
      let inode' = record inode { size = new_size; direct = direct } in
      (
        inode',
        w,
        increase_size-direct inode w new_size new_blocks direct rest r h
            ∙ ap (λ ys. ok (inode', w, ys)) none_left,
        refl,
        size,
        file_blocks-direct t inode' w h
            ∙ list
            ∙ ap₂ (λ xs ys. xs ++ ys) (sym (file_blocks-direct c inode w (omega (arith, h, up))))
                (sym all),
      )

  grow_tail :
      28 < data_blocks new_size
      → data_blocks new_size ≤ 16540
      → ((x : ℕ) → count x (file_blocks (data_blocks inode.size) inode w) + count x new_blocks ≤ 1)
      → data_blocks inode.size + indirect_blocks (data_blocks inode.size) + length new_blocks
        ≡ data_blocks new_size + indirect_blocks (data_blocks new_size)
      → Grows inode w new_size (data_blocks inode.size) (data_blocks new_size) new_blocks
  unfolding file_blocks
  grow_tail m f once n =
      let c = data_blocks inode.size in
      let t = data_blocks new_size in
      let need : indirect1_count t + indirect2_count t + min 28 t
          ≡ indirect1_count c + indirect2_count c + min 28 c + length new_blocks =
        omega (arith, n, parts_count c, parts_count t) in
      let (direct, taken, rest, r, cut, num, size, list) =
        direct_phase c t inode.direct new_blocks up len
          (omega (arith, need, up, indirect1_count_le c t up, indirect2_count_le c t up)) in
      let inode₁ = record inode { size = new_size; direct = direct } in
      let (i1, i2, w', one, two, rest', r', cut', num1, num2, list1, list2) =
        tail_grows inode₁ w c t rest m f up
          (λ x.
            once_behind x (direct_part c inode.direct) (indirect1_part c inode.indirect1 w)
              (indirect2_part c inode.indirect2 w) new_blocks taken rest cut (once x))
          (omega (arith, need, num, ap length cut ∙ length-append taken rest)) in
      let (none_left, all) =
        nothing_left c t new_blocks taken rest one two rest' up cut cut' num num1 num2 n in
      let (p, q) = parts_apart c t inode.indirect1 inode.indirect2 w taken one up m num num1 in
      let inode' = record inode₁ { indirect1 = i1; indirect2 = i2 } in
      (
        inode',
        w',
        increase_size-all inode inode₁ inode' w w' new_size new_blocks rest rest'
            (increase_size-tail inode w new_size new_blocks direct rest r m) r' none_left,
        refl,
        size,
        woven (direct_part t direct) (direct_part c inode.direct) taken (indirect1_part t i1 w')
            (indirect1_part c inode.indirect1 w) one (indirect2_part t i2 w')
            (indirect2_part c inode.indirect2 w) two new_blocks list list1 list2 p q all,
      )

-- Growing a file of at most 16540 data blocks, with as many new blocks as the sizes differ by and no
-- block twice among them and the file's, uses them all: the file has the new size, and its blocks, data
-- blocks and those of addresses in the order in which they are taken, are those it had and the new ones.
pub increase_size_lem :
    (inode : DiskInode) (w : Indirect) (new_size : ℕ) (new_blocks : List ℕ)
    → length inode.direct ≡ 28
    → data_blocks inode.size ≤ data_blocks new_size
    → data_blocks new_size ≤ 16540
    → ((x : ℕ) → count x (file_blocks (data_blocks inode.size) inode w) + count x new_blocks ≤ 1)
    → total_blocks inode.size + length new_blocks ≡ total_blocks new_size
    → (inode' : DiskInode) × (w' : Indirect) × (increase_size inode w new_size new_blocks
        ≡ ok (inode', w', []))
      × (inode'.size ≡ new_size)
      × (length inode'.direct ≡ 28)
      × (file_blocks (data_blocks new_size) inode' w'
          ≡ file_blocks (data_blocks inode.size) inode w ++ new_blocks)
unfolding total_blocks
increase_size_lem inode w new_size new_blocks len up f once n =
    elim (Bool-cases (leb (data_blocks new_size) 28)) [
      | inl e ↦ grow_direct inode w new_size new_blocks len up (ground (arith, e)) (
          few_needed (data_blocks inode.size) (data_blocks new_size) (length new_blocks) up
            (ground (arith, e)) n)
      | inr e ↦ grow_tail inode w new_size new_blocks len up (ground (arith, e)) f once n
    ]
