-- ===== src/Efs/Content/Write.antt =====
-- Writing a file whose blocks are its own.
use acore.Base.{
  ℕ, zero, suc, ◌+◌, ◌-◌, ◌*◌, ◌/◌, ◌%◌, ◌^◌, ◌<◌, ◌≤◌, ◌≡◌, fun_ext, ap, ◌∙◌, subst, min, List,
  leb, ◌==◌, ok, arith, length, get_or, Bool-cases, inl, inr, true,
}
use acore.Base.Word.{add64}
use acore.Efs.Layout.{DiskInode}
use acore.Efs.Content.{Device, copy_in, block_end, block_of, write_loop, write_at}
use acore.Efs.Content.Place.{IsLaid, IsWritten, IsLaid-copy_in, copy_in-IsWritten, IsWritten-append}

-- With a round for each byte, the loop writes the range.
write_loop_lem :
    (left : ℕ) (inode : DiskInode) (n : ℕ) (ids : ℕ → ℕ) (device : Device) (cur end : ℕ)
    (buf : List ℕ) (buf_ptr : ℕ)
    → IsLaid inode n ids device
    → cur < end
    → end ≤ cur + left
    → end ≤ n * 512
    → end ≤ 2 ^ 32
    → (device' : Device) × (write_loop left inode device cur end buf buf_ptr
        ≡ ok (buf_ptr + (end - cur), device'))
      × IsWritten n ids device device' cur end (λ i. get_or buf (buf_ptr + i) 0)
      × IsLaid inode n ids device'
unfolding write_loop
write_loop_lem zero inode n ids device cur end buf buf_ptr l h m t w = absurd (omega (arith, h, m))
write_loop_lem (suc left) inode n ids device cur end buf buf_ptr l h m t w =
    let small : cur / 512 % 2 ^ 32 ≡ cur / 512 = omega (arith, h, w) in
    let e : block_of inode device cur ≡ ok (ids (cur / 512)) =
      rw small (l.found (cur / 512) (omega (arith, h, t))) in
    let src : ℕ → ℕ = λ i. get_or buf (buf_ptr + i) 0 in
    let mid = block_end cur end in
    let device' = copy_in device (ids (cur / 512)) (cur % 512) (mid - cur) src in
    let u =
      copy_in-IsWritten inode n ids device cur mid src l (omega (arith, h, t)) (omega arith) in
    let l' =
      IsLaid-copy_in inode n ids device (cur / 512) (cur % 512) (mid - cur) src l
        (omega (arith, h, t)) in
    rw e (elim (Bool-cases (mid == end)) [
      | inl f ↦
          let all : mid ≡ end = ground (arith, f) in
          (
            device',
            rw f (ap (λ x. ok (buf_ptr + (x - cur), device')) all),
            subst (λ x. IsWritten n ids device device' cur x src) all u,
            l',
          )
      | inr f ↦
          let (d, r, v, l'') =
            write_loop_lem left inode n ids device' mid end buf (buf_ptr + (mid - cur)) l'
              (ground (arith, h, f)) (omega (arith, h, m)) t w in
          let sum : buf_ptr + (mid - cur) + (end - mid) ≡ buf_ptr + (end - cur) =
            omega (arith, h) in
          (
            d,
            rw f (r ∙ ap (λ x. ok (x, d)) sum),
            IsWritten-append n ids device device' d cur mid end src
                (λ i. get_or buf (buf_ptr + (mid - cur) + i) 0) (omega (arith, h)) (omega arith) t
                (λ i. ap (λ x. get_or buf x 0) (omega arith)) u v,
            l'',
          )
    ])

write_at-loop :
    (inode : DiskInode) (device : Device) (offset : ℕ) (buf : List ℕ) (d : Device)
    → offset ≤ inode.size
    → offset + length buf < 2 ^ 64
    → write_loop
        (min (offset + length buf) inode.size - offset + 1)
        inode
        device
        offset
        (min (offset + length buf) inode.size)
        buf
        0
      ≡ ok (0 + (min (offset + length buf) inode.size - offset), d)
    → write_at inode device offset buf ≡ ok (min (offset + length buf) inode.size - offset, d)
unfolding write_at
write_at-loop inode device offset buf d h v r =
    let e : add64 offset (length buf) ≡ offset + length buf = omega (arith, v) in
    let fits : leb offset (min (offset + length buf) inode.size) ≡ true = ground (arith, h) in
    let count : 0 + (min (offset + length buf) inode.size - offset)
        ≡ min (offset + length buf) inode.size - offset =
      omega arith in
    rw (e, fits) (r ∙ ap (λ x. ok (x, d)) count)

-- A write of some bytes that starts inside a file whose blocks are its own returns the number of
-- bytes up to the end of the buffer or of the file. The file holds them in the range and is as
-- before outside of it, the other blocks of the device are as before, and the file's blocks are the same.
pub write_at_lem :
    (inode : DiskInode) (n : ℕ) (ids : ℕ → ℕ) (device : Device) (offset : ℕ) (buf : List ℕ)
    → IsLaid inode n ids device
    → inode.size ≤ n * 512
    → inode.size < 2 ^ 32
    → offset < inode.size
    → 0 < length buf
    → offset + length buf < 2 ^ 64
    → (device' : Device) × (write_at inode device offset buf
        ≡ ok (min (offset + length buf) inode.size - offset, device'))
      × IsWritten n ids device device' offset
          (min (offset + length buf) inode.size)
          (λ i. get_or buf i 0)
      × IsLaid inode n ids device'
write_at_lem inode n ids device offset buf l t w h p v =
    let end = min (offset + length buf) inode.size in
    let (d, r, written, l') =
      write_loop_lem (end - offset + 1) inode n ids device offset end buf 0 l (omega (arith, h, p))
        (omega arith) (omega (arith, t)) (omega (arith, w)) in
    let src : (λ i. get_or buf (0 + i) 0) ≡ (λ i. get_or buf i 0) =
      fun_ext (λ i. let z : 0 + i ≡ i = omega arith in ap (λ x. get_or buf x 0) z) in
    (
      d,
      write_at-loop inode device offset buf d (omega (arith, h)) v r,
      subst (IsWritten n ids device d offset end) src written,
      l',
    )
