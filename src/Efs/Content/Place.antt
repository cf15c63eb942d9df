-- ===== src/Efs/Content/Place.antt =====
-- Files whose blocks are their own, and what copying into one block does to one.
use acore.Base.{
  ℕ, ◌+◌, ◌-◌, ◌*◌, ◌/◌, ◌%◌, ◌<◌, ◌≤◌, ◌≡◌, ◌≢◌, refl, ap, ◌∙◌, ltb, leb, ◌==◌, ◌&&◌, ok, arith,
  Bool-cases, inl, inr, true, false, ◌⊎◌,
}
use acore.Efs.Layout.{block_sz, DiskInode, get_disk_id}
use acore.Efs.Content.{Device, words, copy_in}

-- The first n blocks of a file are found, they differ, and none of them is a block that addresses
-- others.
pub record IsLaid (inode : DiskInode) (n : ℕ) (ids : ℕ → ℕ) (device : Device) : Type 0 where
  pub found : (i : ℕ) → i < n → get_disk_id inode (words device) i ≡ ok (ids i)
  pub apart : (i j : ℕ) → i < n → j < n → ids i ≡ ids j → i ≡ j
  pub not_indirect1 : (i : ℕ) → i < n → ids i ≢ inode.indirect1
  pub not_indirect2 : (i : ℕ) → i < n → ids i ≢ inode.indirect2
  pub not_second : (i j : ℕ) → i < n → ids i ≢ words device inode.indirect2 j

-- A byte of the file.
unfoldable pub byte_at : (ℕ → ℕ) → Device → ℕ → ℕ
byte_at ids device k = device (ids (k / block_sz)) (k % block_sz)

-- Addresses do not change with a block that addresses nothing.
get_disk_id-same :
    (inode : DiskInode) (w w' : ℕ → ℕ → ℕ) (i : ℕ)
    → ((j : ℕ) → w' inode.indirect1 j ≡ w inode.indirect1 j)
    → ((j : ℕ) → w' inode.indirect2 j ≡ w inode.indirect2 j)
    → ((j k : ℕ) → w' (w inode.indirect2 j) k ≡ w (w inode.indirect2 j) k)
    → get_disk_id inode w' i ≡ get_disk_id inode w i
unfolding get_disk_id
get_disk_id-same inode w w' i one two second = elim (Bool-cases (ltb ((i - 156) / 128) 128)) [
  | inl f ↦
      rw (one (i - 28), two ((i - 156) / 128), f, second ((i - 156) / 128) ((i - 156) % 128)) refl
  | inr f ↦ rw (one (i - 28), f) refl
]

words-copy_in :
    (device : Device) (id at n : ℕ) (src : ℕ → ℕ) (b j : ℕ)
    → id ≢ b
    → words (copy_in device id at n src) b j ≡ words device b j
words-copy_in device id at n src b j h = ground (arith, h)

pub IsLaid-copy_in :
    (inode : DiskInode) (n : ℕ) (ids : ℕ → ℕ) (device : Device) (i at m : ℕ) (src : ℕ → ℕ)
    → IsLaid inode n ids device
    → i < n
    → IsLaid inode n ids (copy_in device (ids i) at m src)
IsLaid-copy_in inode n ids device i at m src l h =
    let same : (b j : ℕ)
        → ids i ≢ b
        → words (copy_in device (ids i) at m src) b j ≡ words device b j =
      λ b j. words-copy_in device (ids i) at m src b j in
    record {
      found = λ j p.
          get_disk_id-same inode (words device) (words (copy_in device (ids i) at m src)) j
            (λ k. same inode.indirect1 k (l.not_indirect1 i h))
            (λ k. same inode.indirect2 k (l.not_indirect2 i h))
            (λ k q. same (words device inode.indirect2 k) q (l.not_second i k h))
          ∙ l.found j p;
      apart = l.apart;
      not_indirect1 = l.not_indirect1;
      not_indirect2 = l.not_indirect2;
      not_second = λ j k p e. l.not_second j k p (e ∙ same inode.indirect2 k (l.not_indirect2 i h));
    }

-- What a range of the file holds after bytes are copied into it, and nothing else of the device.
pub record IsWritten (n : ℕ) (ids : ℕ → ℕ) (device device' : Device) (cur end : ℕ) (src : ℕ → ℕ)
    : Type 0 where
  pub inside : (k : ℕ) → cur ≤ k → k < end → byte_at ids device' k ≡ src (k - cur)
  pub outside :
      (k : ℕ) → k < n * 512 → (k < cur) ⊎ (end ≤ k) → byte_at ids device' k ≡ byte_at ids device k
  pub elsewhere : (b j : ℕ) → ((i : ℕ) → i < n → ids i ≢ b) → device' b j ≡ device b j

pub copy_in-IsWritten :
    (inode : DiskInode) (n : ℕ) (ids : ℕ → ℕ) (device : Device) (cur cur_end : ℕ) (src : ℕ → ℕ)
    → IsLaid inode n ids device
    → cur < n * 512
    → cur_end ≤ (cur / 512 + 1) * 512
    → IsWritten n ids device
        (copy_in device (ids (cur / 512)) (cur % 512) (cur_end - cur) src)
        cur
        cur_end
        src
unfolding byte_at
copy_in-IsWritten inode n ids device cur cur_end src l h e = record {
  inside = λ k p q.
      let same : k / 512 ≡ cur / 512 = omega (arith, e, p, q) in
      let place : k % 512 - cur % 512 ≡ k - cur = omega (arith, same, p) in
      let low : leb (cur % 512) (k % 512) ≡ true = ground (arith, same, p) in
      let high : ltb (k % 512) (cur % 512 + (cur_end - cur)) ≡ true = ground (arith, same, p, q) in
      rw (same, low, high, place) (ground arith);
  outside = λ k p q. elim (Bool-cases (k / 512 == cur / 512)) [
    | inl f ↦
        let same : k / 512 ≡ cur / 512 = ground (arith, f) in
        let off : leb (cur % 512) (k % 512) && ltb (k % 512) (cur % 512 + (cur_end - cur)) ≡ false =
          ground (arith, same, q) in
        rw off (ground arith)
    | inr f ↦
        let off : ids (k / 512) == ids (cur / 512) ≡ false =
          ground (arith, f, l.apart (k / 512) (cur / 512) (omega (arith, p)) (omega (arith, h))) in
        rw off (ground arith)
  ];
  elsewhere = λ b j d. ground (arith, h, d (cur / 512));
}

-- Two parts of a range, one after the other.
pub IsWritten-append :
    (n : ℕ) (ids : ℕ → ℕ) (d₀ d₁ d₂ : Device) (cur mid end : ℕ) (src rest : ℕ → ℕ)
    → cur ≤ mid
    → mid ≤ end
    → end ≤ n * 512
    → ((i : ℕ) → rest i ≡ src (mid - cur + i))
    → IsWritten n ids d₀ d₁ cur mid src
    → IsWritten n ids d₁ d₂ mid end rest
    → IsWritten n ids d₀ d₂ cur end src
IsWritten-append n ids d₀ d₁ d₂ cur mid end src rest a b c same u v = record {
  inside = λ k p q. elim (Bool-cases (ltb k mid)) [
    | inl f ↦
        v.outside k (omega (arith, q, c)) (inl (ground (arith, f)))
        ∙ u.inside k p (ground (arith, f))
    | inr f ↦
        let place : mid - cur + (k - mid) ≡ k - cur = ground (arith, f, a) in
        v.inside k (ground (arith, f)) q ∙ same (k - mid) ∙ ap src place
  ];
  outside = λ k p q.
      v.outside k p (elim q [ inl r ↦ inl (omega (arith, r, a)) | inr r ↦ inr r ])
      ∙ u.outside k p (elim q [ inl r ↦ inl r | inr r ↦ inr (omega (arith, r, b)) ]);
  elsewhere = λ i j d. v.elsewhere i j d ∙ u.elsewhere i j d;
}
