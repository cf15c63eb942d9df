-- ===== src/Buddy/Chain/Laws.antt =====
-- The chain in memory behaves as a list of addresses.
use acore.Base.{
  ℕ, zero, suc, ◌+◌, ◌<◌, ◌≡◌, ◌≢◌, refl, subst, ◌∙◌, ◌⊎◌, inl, inr, List, [], ◌∷◌, true, false,
  ◌==◌, none, some, length, count, erase, arith, Bool-cases, ==_iff,
}
use acore.Buddy.Chain.{
  Words, put, list_push, list_pop, Slot, head_field, block, ListNode, find_node, node_pop,
}

-- From an address the first words lead through these blocks, in order, to 0; no block twice.
abbrev pub IsChain : Words → ℕ → List ℕ → Type 0
IsChain words p [] = p ≡ 0
IsChain words p (b ∷ bs) = (p ≡ b) × (b ≢ 0) × (count b bs ≡ 0) × IsChain words (words b) bs

-- A chain does not depend on words outside its blocks.
IsChain-put :
    (words : Words) (p : ℕ) (bs : List ℕ) (q v : ℕ)
    → count q bs ≡ 0
    → IsChain words p bs
    → IsChain (put words q v) p bs
IsChain-put words p [] q v n h = h
IsChain-put words p (b ∷ bs) q v n h =
    let e : put words q v b ≡ words b = ground (arith, n) in
    (h.0, h.1, h.2, rw e (IsChain-put words (words b) bs q v (ground (arith, n)) h.3))

-- A push puts the block in front, and a pop takes the first block off.
pub push_pop_chain :
    (words : Words) (head item : ℕ) (bs : List ℕ)
    → IsChain words head bs
    → item ≢ 0
    → count item bs ≡ 0
    → IsChain (list_push words head item).0 (list_push words head item).1 (item ∷ bs)
      × (list_pop (list_push words head item).0 (list_push words head item).1 ≡ some (item, head))
      × IsChain (list_push words head item).0 head bs
unfolding list_push list_pop
push_pop_chain words head item bs h z n =
    let e : put words item head item ≡ head = ground arith in
    let rest = IsChain-put words head bs item head n h in
    ((refl, z, n, rw e rest), ground (arith, z), rest)

count-erase_le : (q item : ℕ) (bs : List ℕ) → count q bs ≡ 0 → count q (erase item bs) ≡ 0
count-erase_le q item [] h = refl
count-erase_le q item (b ∷ bs) h = ground (arith, count-erase_le q item bs)

-- A node that the iteration finds, and what taking it out leaves.
abbrev Taken : Words → ℕ → ListNode → ℕ → List ℕ → ℕ → Type 0
Taken words head node before bs item =
    (node.cur ≡ item)
    × ((node_pop words head node).1 ≡ head)
    × IsChain (node_pop words head node).0 before (before ∷ erase item bs)
    × ((q : ℕ) → count q (before ∷ bs) ≡ 0 → (node_pop words head node).0 q ≡ words q)

Taken-here :
    (words : Words) (before head b : ℕ) (bs : List ℕ)
    → IsChain words before (before ∷ b ∷ bs)
    → Taken words head (record { cur = b; prev = block before }) before (b ∷ bs) b
unfolding node_pop
Taken-here words before head b bs h =
    let same : erase b (b ∷ bs) ≡ bs = ground arith in
    let e : put words before (words b) before ≡ words b = ground arith in
    (
      refl,
      refl,
      rw same (
        refl,
        h.1,
        ground (arith, h.2),
        rw e (IsChain-put words (words b) bs before (words b) (ground (arith, h.2)) h.3.3),
      ),
      λ q n. ground (arith, n),
    )

Taken-later :
    (words : Words) (before head b item : ℕ) (bs : List ℕ) (node : ListNode)
    → IsChain words before (before ∷ b ∷ bs)
    → (b == item) ≡ false
    → Taken words head node b bs item
    → Taken words head node before (b ∷ bs) item
Taken-later words before head b item bs node h e t =
    let other : erase item (b ∷ bs) ≡ b ∷ erase item bs = ground (arith, e) in
    let next : (node_pop words head node).0 before ≡ b = t.3 before (ground (arith, h.2)) ∙ h.3.0 in
    (
      t.0,
      t.1,
      rw other (refl, h.1, ground (arith, h.2, count-erase_le before item bs), rw next t.2),
      λ q n. t.3 q (ground (arith, n)),
    )

find_from :
    (words : Words) (before head : ℕ) (bs : List ℕ) (item left : ℕ)
    → IsChain words before (before ∷ bs)
    → length bs < left
    → 0 < count item bs
    → (node : ListNode) × (find_node left words
          (record { cur = words before; prev = block before })
          item
        ≡ some node)
      × Taken words head node before bs item
unfolding find_node
find_from words before head [] item left h l c = absurd (omega arith)
find_from words before head (b ∷ bs) item zero h l c = absurd (omega arith)
find_from words before head (b ∷ bs) item (suc left) h l c = elim (Bool-cases (b == item)) [
  | inl e ↦ (
    record { cur = b; prev = block before },
    ground (arith, h.3.0, h.3.1, e),
    subst (Taken words head (record { cur = b; prev = block before }) before (b ∷ bs))
        ((==_iff b item).0 e) (Taken-here words before head b bs h),
  )
  | inr e ↦
      let (node, f, t) =
        find_from words b head bs item left (refl, h.3.1, h.3.2, h.3.3) (omega arith)
          (ground (arith, c, e)) in
      (node, ground (arith, h.3.0, h.3.1, e, f), Taken-later words before head b item bs node h e t)
]

find_none :
    (words : Words) (p : ℕ) (prev : Slot) (bs : List ℕ) (item left : ℕ)
    → IsChain words p bs
    → length bs < left
    → count item bs ≡ 0
    → find_node left words (record { cur = p; prev = prev }) item ≡ none
unfolding find_node
find_none words p prev bs item zero h l n = absurd (omega arith)
find_none words p prev [] item (suc left) h l n = ground (arith, h)
find_none words p prev (b ∷ bs) item (suc left) h l n =
    ground (arith, h.0, h.1, n, find_none words (words b) (block b) bs item left h.3 (omega arith))

count_later :
    (b item : ℕ) (bs : List ℕ) → (b == item) ≡ false → 0 < count item (b ∷ bs) → 0 < count item bs
count_later b item bs e c = ground arith

-- One step of the search past a block.
find_node-step :
    (left : ℕ) (words : Words) (p : ℕ) (prev : Slot) (item : ℕ)
    → p ≢ 0
    → (p == item) ≡ false
    → find_node (suc left) words (record { cur = p; prev = prev }) item
      ≡ find_node left words (record { cur = words p; prev = block p }) item
unfolding find_node
find_node-step left words p prev item z e = ground arith

find_node-here :
    (left : ℕ) (words : Words) (p : ℕ) (prev : Slot) (item : ℕ)
    → p ≢ 0
    → (p == item) ≡ true
    → find_node (left + 1) words (record { cur = p; prev = prev }) item
      ≡ some (record { cur = p; prev = prev })
unfolding find_node
find_node-here left words p prev item z e = ground arith

find_in :
    (words : Words) (b : ℕ) (bs : List ℕ) (item : ℕ)
    → IsChain words b (b ∷ bs)
    → 0 < count item (b ∷ bs)
    → (node : ListNode) × (find_node
          (length bs + 1 + 1)
          words
          (record { cur = b; prev = head_field })
          item
        ≡ some node)
      × (node.cur ≡ item)
      × IsChain (node_pop words b node).0 (node_pop words b node).1 (erase item (b ∷ bs))
unfolding node_pop
find_in words b bs item h c = elim (Bool-cases (b == item)) [
  | inl e ↦
      let same : erase item (b ∷ bs) ≡ bs = ground (arith, e) in
      (
        record { cur = b; prev = head_field },
        find_node-here (length bs + 1) words b head_field item h.1 e,
        (==_iff b item).0 e,
        rw same h.3,
      )
  | inr e ↦
      let (node, f, t) =
        find_from words b b bs item (length bs + 1) h (omega arith) (count_later b item bs e c) in
      let other : erase item (b ∷ bs) ≡ b ∷ erase item bs = ground (arith, e) in
      let fuel : length bs + 1 + 1 ≡ suc (length bs + 1) = omega arith in
      (
        node,
        rw fuel (find_node-step (length bs + 1) words b head_field item h.1 e ∙ f),
        t.0,
        rw (other, t.1) t.2,
      )
]

-- The search finds a block that is in the chain, in as many steps as the chain is long and one more,
-- and taking it out there leaves the chain without it; it finds no other.
pub find_pop_chain :
    (words : Words) (head : ℕ) (bs : List ℕ) (item : ℕ)
    → IsChain words head bs
    → ((0 < count item bs)
        × (node : ListNode) × (find_node
              (length bs + 1)
              words
              (record { cur = head; prev = head_field })
              item
            ≡ some node)
        × (node.cur ≡ item)
        × IsChain (node_pop words head node).0 (node_pop words head node).1 (erase item bs))
      ⊎ ((count item bs ≡ 0)
          × (find_node (length bs + 1) words (record { cur = head; prev = head_field }) item
              ≡ none))
find_pop_chain words head [] item h =
    inr (refl, find_none words head head_field [] item 1 h (omega arith) refl)
find_pop_chain words head (b ∷ bs) item h = elim (Bool-cases (count item (b ∷ bs) == 0)) [
  | inl e ↦ inr (
    ground (arith, e),
    find_none words head head_field (b ∷ bs) item (length (b ∷ bs) + 1) h (omega arith)
        (ground (arith, e)),
  )
  | inr e ↦ rw h.0 (
      let (node, f, t, chain) = find_in words b bs item (refl, h.1, h.2, h.3) (ground (arith, e)) in
      let fuel : length (b ∷ bs) + 1 ≡ length bs + 1 + 1 = omega arith in
      inl (ground (arith, e), node, rw fuel f, t, chain))
]
