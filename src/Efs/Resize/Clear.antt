-- ===== src/Efs/Resize/Clear.antt =====
-- Emptying a file gives back all its blocks.
use acore.Base.{
  ℕ, zero, suc, ◌+◌, ◌-◌, ◌*◌, ◌/◌, ◌%◌, ◌<◌, ◌≤◌, ◌≡◌, refl, sym, ap, ap₂, ◌∙◌, append_assoc,
  append-nil, min, List, ◌∷◌, ◌++◌, ltb, leb, true, ok, arith, length, get_or, set, length-set,
  get_or-set_self, get_or-set_ne, Bool-cases, inl, inr,
}
use acore.Efs.Layout.{DiskInode, data_blocks, total_blocks}
use acore.Efs.Resize.{Indirect, push_words, clear_direct, clear_full, clear_second, clear_size}
use acore.Efs.Resize.Listing.{
  second_blocks, file_blocks, push_words-cong, second_blocks-row, length-file_blocks,
  file_blocks-small, file_blocks-middle, file_blocks-large,
}

clear_full-suc :
    (n : ℕ) (w : Indirect) (id a last : ℕ)
    → last ≡ a + n
    → clear_full (suc n) w id a
      ≡ clear_full n w id a ++ (w id last ∷ push_words 128 (w (w id last)) 0)
clear_full-suc zero w id a last h =
    let e : last ≡ a = omega (arith, h) in
    rw e (ap (λ xs. w id a ∷ xs) (append-nil (push_words 128 (w (w id a)) 0)))
clear_full-suc (suc n) w id a last h =
    ap (λ xs. w id a ∷ (push_words 128 (w (w id a)) 0 ++ xs))
      (clear_full-suc n w id (suc a) last (omega (arith, h)))
    ∙ ap (λ xs. w id a ∷ xs)
        (sym (
          append_assoc (push_words 128 (w (w id a)) 0) (clear_full n w id (suc a))
            (w id last ∷ push_words 128 (w (w id last)) 0)))

second_blocks-full :
    (n : ℕ) (w : Indirect) (id : ℕ) → second_blocks w id (n * 128) ≡ clear_full n w id 0
unfolding second_blocks
second_blocks-full zero w id = refl
second_blocks-full (suc n) w id =
    let e : suc n * 128 ≡ n * 128 + suc 127 = omega arith in
    rw e (second_blocks-row w id n 127 (omega arith))
    ∙ ap (λ xs. xs ++ (w id n ∷ push_words 128 (w (w id n)) 0)) (second_blocks-full n w id)
    ∙ sym (clear_full-suc n w id 0 n (omega arith))

clear_second_lem :
    (w : Indirect) (id n : ℕ) → n ≤ 16384 → clear_second w id n ≡ ok (second_blocks w id n)
unfolding clear_second
clear_second_lem w id n h = elim (Bool-cases (ltb 0 (n % 128))) [
  | inl e ↦
      let rows : min (n / 128) 128 ≡ n / 128 = omega (arith, h) in
      let few : ltb (n / 128) 128 ≡ true = ground (arith, h, e) in
      let j : n % 128 ≡ suc (n % 128 - 1) = ground (arith, e) in
      let whole : n / 128 * 128 + suc (n % 128 - 1) ≡ n = ground (arith, e) in
      rw (e, few, rows)
        (ap ok (
          ap (λ xs. xs ++ (w id (n / 128) ∷ push_words (n % 128) (w (w id (n / 128))) 0))
            (sym (second_blocks-full (n / 128) w id))
          ∙ ap
              (λ m.
                second_blocks w id (n / 128 * 128)
                ++ (w id (n / 128) ∷ push_words m (w (w id (n / 128))) 0))
              j
          ∙ sym (second_blocks-row w id (n / 128) (n % 128 - 1) (omega arith))
          ∙ ap (second_blocks w id) whole))
  | inr e ↦
      let rows : min (n / 128) 128 ≡ n / 128 = omega (arith, h) in
      let whole : n / 128 * 128 ≡ n = ground (arith, e) in
      rw (e, rows) (ap ok (sym (second_blocks-full (n / 128) w id) ∙ ap (second_blocks w id) whole))
]

clear_direct_lem :
    (left : ℕ) (direct : List ℕ) (at : ℕ)
    → at + left ≤ length direct
    → ((clear_direct left direct at).0 ≡ push_words left (λ i. get_or direct i 0) at)
      × (length (clear_direct left direct at).1 ≡ length direct)
      × ((i : ℕ) → at ≤ i → i < at + left → get_or (clear_direct left direct at).1 i 0 ≡ 0)
      × ((i : ℕ) → i < at → get_or (clear_direct left direct at).1 i 0 ≡ get_or direct i 0)
clear_direct_lem zero direct at h = (refl, refl, λ i p q. absurd (omega (arith, p, q)), λ i p. refl)
clear_direct_lem (suc left) direct at h =
    let (pushed, len, zeros, before) =
      clear_direct_lem left (set direct at 0) (suc at)
        (omega (arith, h, length-set {A = ℕ} direct at 0)) in
    (
      ap (λ xs. get_or direct at 0 ∷ xs)
          (pushed
            ∙ push_words-cong left (λ i. get_or (set direct at 0) i 0) (λ i. get_or direct i 0)
                (suc at) (λ i p q. get_or-set_ne direct 0 0 (λ e. absurd (omega (arith, e, p))))),
      len ∙ length-set direct at 0,
      λ i p q. elim (Bool-cases (ltb at i)) [
        | inl e ↦ zeros i (ground (arith, e)) (omega (arith, q))
        | inr e ↦
            let same : i ≡ at = ground (arith, e, p) in
            rw same (before at (omega arith) ∙ get_or-set_self direct at 0 0 (omega (arith, h)))
      ],
      λ i p.
          before i (omega (arith, p))
          ∙ get_or-set_ne direct 0 0 (λ e. absurd (omega (arith, e, p))),
    )

pub length-file_blocks_total :
    (inode : DiskInode) (w : Indirect) (size : ℕ)
    → length (file_blocks (data_blocks size) inode w) ≡ total_blocks size
unfolding total_blocks
length-file_blocks_total inode w size = length-file_blocks (data_blocks size) inode w

-- Emptying a file of at most 16540 data blocks returns all its blocks, those of addresses too, each
-- before the blocks it addresses: as many as the code computes for the size. The file has
-- no size then, and no direct address is left in it.
pub clear_size_lem :
    (inode : DiskInode) (w : Indirect)
    → length inode.direct ≡ 28
    → data_blocks inode.size ≤ 16540
    → (inode' : DiskInode) × (clear_size inode w
        ≡ ok (file_blocks (data_blocks inode.size) inode w, inode'))
      × (length (file_blocks (data_blocks inode.size) inode w) ≡ total_blocks inode.size)
      × (inode'.size ≡ 0)
      × (length inode'.direct ≡ 28)
      × ((i : ℕ) → i < min 28 (data_blocks inode.size) → get_or inode'.direct i 0 ≡ 0)
unfolding clear_size
clear_size_lem inode w h n =
    let size = data_blocks inode.size in
    let direct = clear_direct (min 28 size) inode.direct 0 in
    let f : ℕ → ℕ = λ i. get_or inode.direct i 0 in
    let (pushed, len, zeros, before) =
      clear_direct_lem (min 28 size) inode.direct 0 (omega (arith, h)) in
    let count = length-file_blocks_total inode w inode.size in
    let zeroed : (i : ℕ) → i < min 28 size → get_or direct.1 i 0 ≡ 0 =
      λ i p. zeros i (omega arith) (omega (arith, p)) in
    elim (Bool-cases (leb size 28)) [
      | inl a ↦
          let m : min 28 size ≡ size = ground (arith, a) in
          let list =
            pushed
            ∙ ap (λ k. push_words k f 0) m
            ∙ sym (file_blocks-small size inode w (ground (arith, a))) in
          let inode' = record inode { size = 0; direct = direct.1 } in
          (inode', rw a (ap (λ v. ok (v, inode')) list), count, refl, len ∙ h, zeroed)
      | inr a ↦
          let m : min 28 size ≡ 28 = ground (arith, a) in
          let front = pushed ∙ ap (λ k. push_words k f 0) m in
          elim (Bool-cases (leb (size - 28) 128)) [
            | inl b ↦
                let k : min 128 (size - 28) ≡ size - 28 = ground (arith, b) in
                let list =
                  ap₂ (λ v j. v ++ inode.indirect1 ∷ push_words j (w inode.indirect1) 0) front k
                  ∙ sym (file_blocks-middle size inode w (ground (arith, a)) (ground (arith, b))) in
                let inode' = record inode { size = 0; direct = direct.1; indirect1 = 0 } in
                (inode', rw (a, b) (ap (λ v. ok (v, inode')) list), count, refl, len ∙ h, zeroed)
            | inr b ↦
                let k : min 128 (size - 28) ≡ 128 = ground (arith, b) in
                let tail =
                  clear_second_lem w inode.indirect2 (size - 28 - 128) (omega (arith, n)) in
                let left : size - 28 - 128 ≡ size - 156 = omega arith in
                let one : List ℕ = inode.indirect1 ∷ push_words 128 (w inode.indirect1) 0 in
                let list =
                  ap₂
                    (λ v j.
                      (v ++ inode.indirect1 ∷ push_words j (w inode.indirect1) 0)
                      ++ inode.indirect2 ∷ second_blocks w inode.indirect2 (size - 28 - 128))
                    front k
                  ∙ append_assoc (push_words 28 f 0) one
                      (inode.indirect2 ∷ second_blocks w inode.indirect2 (size - 28 - 128))
                  ∙ ap
                      (λ j.
                        push_words 28 f 0
                        ++ (one ++ inode.indirect2 ∷ second_blocks w inode.indirect2 j))
                      left
                  ∙ sym (file_blocks-large size inode w (ground (arith, b))) in
                let inode' = record inode {
                  size = 0;
                  direct = direct.1;
                  indirect1 = 0;
                  indirect2 = 0;
                } in
                (
                  inode',
                  rw (a, b, tail) (ap (λ v. ok (v, inode')) list),
                  count,
                  refl,
                  len ∙ h,
                  zeroed,
                )
          ]
    ]
