-- ===== src/Efs/Content/Read.antt =====
-- Reading by blocks against reading byte by byte.
use acore.Base.{
  ℕ, zero, suc, ◌+◌, ◌-◌, ◌/◌, ◌%◌, ◌^◌, ◌<◌, ◌≤◌, ◌≡◌, refl, ap, ◌∙◌, min, List, [], ◌∷◌, ◌++◌,
  leb, ◌==◌, Outcome, ok, panic, ◌>>=◌, arith, Bool-cases, inl, inr, append-nil, sym, Outcome-cases,
}
use acore.Base.Word.{add64}
use acore.Efs.Layout.{block_sz, DiskInode, get_disk_id}
use acore.Efs.Content.{Device, words, slice, block_end, block_of, read_loop, read_at}

-- The file's bytes one at a time, each in the block that the inode names for it.
unfoldable pub read_bytes : ℕ → DiskInode → Device → ℕ → Outcome (List ℕ)
read_bytes zero inode device cur = ok []
read_bytes (suc n) inode device cur =
    let rest = read_bytes n inode device (suc cur) in
    do id ← block_of inode device cur; bytes ← rest; ok (device id (cur % block_sz) ∷ bytes)

block_of-same :
    (inode : DiskInode) (device : Device) (a b : ℕ)
    → a / 512 ≡ b / 512
    → block_of inode device a ≡ block_of inode device b
block_of-same inode device a b h = ap (λ c. get_disk_id inode (words device) (c % 2 ^ 32)) h

-- A byte in front of a run of bytes and what follows them.
in_front :
    (x : ℕ) (xs : List ℕ) (rest : Outcome (List ℕ))
    → ((rest >>= λ r. ok (xs ++ r)) >>= λ r. ok (x ∷ r)) ≡ (rest >>= λ r. ok ((x ∷ xs) ++ r))
in_front x xs (ok r) = refl
in_front x xs panic = refl

nothing_in_front : (rest : Outcome (List ℕ)) → rest ≡ (rest >>= λ r. ok ([] ++ r))
nothing_in_front (ok r) = refl
nothing_in_front panic = refl

read_bytes-suc :
    (n : ℕ) (inode : DiskInode) (device : Device) (cur id : ℕ) (rest : Outcome (List ℕ))
    → block_of inode device cur ≡ ok id
    → read_bytes n inode device (suc cur) ≡ rest
    → read_bytes (suc n) inode device cur ≡ (rest >>= λ bytes. ok (device id (cur % 512) ∷ bytes))
unfolding read_bytes
read_bytes-suc n inode device cur id rest e r = rw (e, r) refl

-- A run of bytes that stay in one block.
read_bytes-block :
    (n m k : ℕ) (inode : DiskInode) (device : Device) (cur id : ℕ)
    → block_of inode device cur ≡ ok id
    → k ≡ n + m
    → cur % 512 + n ≤ 512
    → read_bytes k inode device cur ≡ (
        read_bytes m inode device (cur + n) >>= λ bytes.
        ok (slice (device id) (cur % 512) n ++ bytes))
read_bytes-block zero m k inode device cur id e t h =
    let here : k ≡ m = omega (arith, t) in
    let same : cur + 0 ≡ cur = omega arith in
    rw (here, same) (nothing_in_front (read_bytes m inode device cur))
read_bytes-block (suc zero) m k inode device cur id e t h =
    let here : k ≡ suc m = omega (arith, t) in
    let next : cur + 1 ≡ suc cur = omega arith in
    rw (here, next)
      (read_bytes-suc m inode device cur id (read_bytes m inode device (suc cur)) e refl)
read_bytes-block (suc (suc n)) m k inode device cur id e t h =
    let here : k ≡ suc (suc n + m) = omega (arith, t) in
    let next : cur + suc (suc n) ≡ suc cur + suc n = omega arith in
    let same : suc cur / 512 ≡ cur / 512 = omega (arith, h) in
    let place : suc cur % 512 ≡ suc (cur % 512) = omega (arith, h) in
    let tail =
      read_bytes-block (suc n) m (suc n + m) inode device (suc cur) id
        (block_of-same inode device (suc cur) cur same ∙ e) refl (omega (arith, h)) in
    rw (here, next)
      (read_bytes-suc (suc n + m) inode device cur id _ e tail
        ∙ rw place (
            in_front (device id (cur % 512)) (slice (device id) (suc (cur % 512)) (suc n))
              (read_bytes m inode device (suc cur + suc n))))

read_bytes-panic :
    (n : ℕ) (inode : DiskInode) (device : Device) (cur : ℕ)
    → block_of inode device cur ≡ panic
    → 0 < n
    → read_bytes n inode device cur ≡ panic
unfolding read_bytes
read_bytes-panic zero inode device cur e h = absurd (omega (arith, h))
read_bytes-panic (suc n) inode device cur e h = rw e refl

last_run :
    (bytes : ℕ → ℕ) (at n : ℕ) (inode : DiskInode) (device : Device) (cur : ℕ)
    → (read_bytes 0 inode device cur >>= λ r. ok (slice bytes at n ++ r)) ≡ ok (slice bytes at n)
unfolding read_bytes
last_run bytes at n inode device cur = ap ok (append-nil (slice bytes at n))

-- With a round for each byte, the loop reads what the bytes one at a time are.
read_loop_lem :
    (left : ℕ) (inode : DiskInode) (device : Device) (cur end : ℕ)
    → cur < end
    → end ≤ cur + left
    → read_loop left inode device cur end ≡ read_bytes (end - cur) inode device cur
unfolding read_loop
read_loop_lem zero inode device cur end h l = absurd (omega (arith, h, l))
read_loop_lem (suc left) inode device cur end h l =
    elim (Outcome-cases (block_of inode device cur)) [
      | inr e ↦ rw e (sym (read_bytes-panic (end - cur) inode device cur e (omega (arith, h))))
      | inl (id, e) ↦
          let here =
            read_bytes-block (block_end cur end - cur) (end - block_end cur end) (end - cur) inode
              device cur id e (ground (arith, h)) (ground (arith, h)) in
          let next : cur + (block_end cur end - cur) ≡ block_end cur end = ground (arith, h) in
          rw e (elim (Bool-cases (block_end cur end == end)) [
            | inl f ↦
                let none_left : end - block_end cur end ≡ 0 = ground (arith, f) in
                rw f (
                  sym (
                    here
                    ∙ rw none_left (
                        last_run (device id) (cur % 512) (block_end cur end - cur) inode device
                          (cur + (block_end cur end - cur)))))
            | inr f ↦
                rw
                  (
                    f,
                    read_loop_lem left inode device (block_end cur end) end (ground (arith, h, f))
                        (ground (arith, h, l)),
                  )
                  (sym (here ∙ rw next refl))
          ])
    ]

-- Reading by blocks gives the same as reading the bytes of the file one at a time, each from the
-- block the inode names for it, and panics if and only if that does: min(offset + len, size) - offset
-- bytes, if offset + len is below 2 ^ 64.
pub read_at-eq-read_bytes :
    (inode : DiskInode) (device : Device) (offset len : ℕ)
    → offset + len < 2 ^ 64
    → read_at inode device offset len
      ≡ read_bytes (min (offset + len) inode.size - offset) inode device offset
unfolding read_at read_bytes
read_at-eq-read_bytes inode device offset len h =
    let e : add64 offset len ≡ offset + len = omega (arith, h) in
    rw e (elim (Bool-cases (leb (min (offset + len) inode.size) offset)) [
      | inl f ↦
          let z : min (offset + len) inode.size - offset ≡ 0 = ground (arith, f) in rw (f, z) refl
      | inr f ↦ rw f (
          read_loop_lem (min (offset + len) inode.size - offset) inode device offset
            (min (offset + len) inode.size) (ground (arith, f)) (ground (arith, f)))
    ])
