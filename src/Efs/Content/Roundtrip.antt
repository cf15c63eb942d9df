-- ===== src/Efs/Content/Roundtrip.antt =====
-- What is written is read back.
use acore.Base.{
  ℕ, zero, suc, ◌+◌, ◌-◌, ◌*◌, ◌/◌, ◌%◌, ◌^◌, ◌<◌, ◌≤◌, ◌≡◌, refl, ap, ap₂, [], ◌∷◌, ◌∙◌, min, List,
  ok, arith, length, get_or,
}
use acore.Efs.Layout.{DiskInode}
use acore.Efs.Content.Read.{read_bytes, read_at-eq-read_bytes}
use acore.Efs.Content.{read_at, slice, Device, block_of, write_at}
use acore.Efs.Content.Place.{IsLaid, byte_at}
use acore.Efs.Content.Write.{write_at_lem}

read_bytes-slice :
    (m : ℕ) (inode : DiskInode) (n : ℕ) (ids : ℕ → ℕ) (device : Device) (cur : ℕ)
    → IsLaid inode n ids device
    → cur + m ≤ n * 512
    → cur + m ≤ 2 ^ 32
    → read_bytes m inode device cur ≡ ok (slice (byte_at ids device) cur m)
unfolding read_bytes byte_at
read_bytes-slice zero inode n ids device cur l t w = refl
read_bytes-slice (suc m) inode n ids device cur l t w =
    let small : cur / 512 % 2 ^ 32 ≡ cur / 512 = omega (arith, w) in
    let e : block_of inode device cur ≡ ok (ids (cur / 512)) =
      rw small (l.found (cur / 512) (omega (arith, t))) in
    rw (e, read_bytes-slice m inode n ids device (suc cur) l (omega (arith, t)) (omega (arith, w)))
      refl

slice-eq :
    (f : ℕ → ℕ) (at : ℕ) (buf : List ℕ)
    → ((i : ℕ) → i < length buf → f (at + i) ≡ get_or buf i 0)
    → slice f at (length buf) ≡ buf
slice-eq f at [] h = refl
slice-eq f at (b ∷ bs) h =
    let first : f at ≡ b = ap f (omega arith) ∙ h 0 (omega arith) in
    ap₂ (λ x xs. x ∷ xs) first
      (slice-eq f (suc at) bs (λ i p. ap f (omega arith) ∙ h (suc i) (omega (arith, p))))

-- Bytes written inside a file whose blocks are its own are read back.
pub write_read_roundtrip :
    (inode : DiskInode) (n : ℕ) (ids : ℕ → ℕ) (device : Device) (offset : ℕ) (buf : List ℕ)
    → IsLaid inode n ids device
    → inode.size ≤ n * 512
    → inode.size < 2 ^ 32
    → 0 < length buf
    → offset + length buf ≤ inode.size
    → (device' : Device) × (write_at inode device offset buf ≡ ok (length buf, device'))
      × (read_at inode device' offset (length buf) ≡ ok buf)
write_read_roundtrip inode n ids device offset buf l t w p h =
    let (d, r, written, l') =
      write_at_lem inode n ids device offset buf l t w (omega (arith, p, h)) p
        (omega (arith, h, w)) in
    let len : min (offset + length buf) inode.size - offset ≡ length buf = omega (arith, h) in
    (
      d,
      r ∙ ap (λ x. ok (x, d)) len,
      read_at-eq-read_bytes inode d offset (length buf) (omega (arith, h, w))
          ∙ ap (λ x. read_bytes x inode d offset) len
          ∙ read_bytes-slice (length buf) inode n ids d offset l' (omega (arith, h, t))
              (omega (arith, h, w))
          ∙ ap ok (
              slice-eq (byte_at ids d) offset buf (λ i q.
                written.inside (offset + i) (omega arith) (omega (arith, q, h))
                ∙ ap (λ x. get_or buf x 0) (omega arith))),
    )
