-- ===== src/Mm/Buffer/Bytes.antt =====
-- The slices of a user's range are its bytes, each at the address it translates to.
use acore.Base.{
  ℕ, zero, suc, ◌+◌, ◌-◌, ◌*◌, ◌/◌, ◌%◌, ◌^◌, ◌<◌, ◌≤◌, ◌≡◌, refl, sym, ap, ◌∙◌, min, List, [], ◌∷◌,
  ◌++◌, ltb, ◌==◌, if◌then◌else◌, true, false, Option, none, some, Outcome, ok, panic, ◌>>=◌,
  Option-cases, gather, each, gather-run, gather-panic, arith, Bool-cases, inl, inr,
}
use acore.Base.Word.{add64, shl64, shr}
use acore.Mm.Address.{
  ppn_from, phys_addr_from, virt_addr_from, virt_addr_to_usize, addr_of_page_num, floor,
  page_offset, step,
}
use acore.Mm.Memory.{Memory}
use acore.Mm.PageTable.{entry_ppn, translate, translate_va, find_pte, from_satp}
use acore.Mm.Buffer.{
  Slice, slice_len, byte_address, end_va, page_slice, buffer_loop, translated_byte_buffer,
  translated_ref,
}

-- The addresses of the bytes of slices.
abbrev pub addresses : List Slice → List ℕ
addresses [] = []
addresses (s ∷ rest) = each (byte_address s.ppn) s.from (slice_len s) ++ addresses rest

-- The addresses of the bytes of a range, one at a time: what the kernel would read byte by byte.
unfoldable pub translate_bytes : Memory → ℕ → ℕ → ℕ → Outcome (List ℕ)
unfolding translated_ref
translate_bytes mem satp ptr len = gather (translated_ref mem satp) len ptr

-- Addresses of the lower half are themselves.
virt_addr_from-low : (va : ℕ) → va < 2 ^ 39 → virt_addr_from va ≡ va
unfolding virt_addr_from
virt_addr_from-low va h = omega (arith, h)

virt_addr_to_usize-low : (va : ℕ) → va < 2 ^ 38 → virt_addr_to_usize va ≡ va
unfolding virt_addr_to_usize
virt_addr_to_usize-low va h = let e : ltb 0 (shr va 38) ≡ false = ground (arith, h) in rw e refl

entry_ppn_lt : (bits : ℕ) → entry_ppn bits < 2 ^ 44
unfolding entry_ppn ppn_from
entry_ppn_lt bits = omega arith

-- An address goes by its page's entry alone.
by_entry :
    (mem : Memory) (f : ℕ → ℕ) (found : Option (ℕ × ℕ))
    → (elim found [ none ↦ none | some (p, i) ↦ some (f (mem p i)) ])
      ≡ (elim (elim found as (λ x. Option ℕ) [ none ↦ none | some (p, i) ↦ some (mem p i) ])
          as (λ x. Option ℕ) [ none ↦ none | some e ↦ some (f e) ])
by_entry mem f none = refl
by_entry mem f (some (p, i)) = refl

translate_va-entry :
    (mem : Memory) (root va : ℕ)
    → translate_va mem root va ≡ (elim (translate mem root (floor va)) as (λ x. Option ℕ) [
      | none ↦ none
      | some e ↦ some (phys_addr_from (add64 (addr_of_page_num (entry_ppn e)) (page_offset va)))
    ])
unfolding translate translate_va
translate_va-entry mem root va =
    by_entry mem (λ e. phys_addr_from (add64 (addr_of_page_num (entry_ppn e)) (page_offset va)))
      (find_pte mem root (floor va))

byte_address-fits :
    (ppn va : ℕ)
    → ppn < 2 ^ 44
    → phys_addr_from (add64 (addr_of_page_num ppn) (page_offset va)) ≡ byte_address ppn (va % 4096)
unfolding phys_addr_from addr_of_page_num page_offset
byte_address-fits ppn va h = omega (arith, h)

-- A byte of the lower half translates with its page.
translated_ref-found :
    (mem : Memory) (satp va entry : ℕ)
    → va < 2 ^ 39
    → translate mem (from_satp satp) (va / 4096) ≡ some entry
    → translated_ref mem satp va ≡ ok (byte_address (entry_ppn entry) (va % 4096))
unfolding translated_ref floor
translated_ref-found mem satp va entry h e =
    rw
      (
        virt_addr_from-low va h,
        translate_va-entry mem (from_satp satp) va,
        e,
        byte_address-fits (entry_ppn entry) va (entry_ppn_lt entry),
      )
      refl

translated_ref-none :
    (mem : Memory) (satp va : ℕ)
    → va < 2 ^ 39
    → translate mem (from_satp satp) (va / 4096) ≡ none
    → translated_ref mem satp va ≡ panic
unfolding translated_ref floor
translated_ref-none mem satp va h e =
    rw (virt_addr_from-low va h, translate_va-entry mem (from_satp satp) va, e) refl

-- One round of the loop, below the middle of the address space.
buffer_loop-round :
    (left : ℕ) (mem : Memory) (root start end entry last : ℕ)
    → start < end
    → end < 2 ^ 38
    → last ≡ min ((start / 4096 + 1) * 4096) end
    → translate mem root (start / 4096) ≡ some entry
    → buffer_loop (suc left) mem root start end ≡ (
        buffer_loop left mem root last end >>= λ slices. ok (
          record {
            ppn = entry_ppn entry;
            from = start % 4096;
            to = if last % 4096 == 0 then 4096 else last % 4096;
          }
          ∷ slices))
unfolding buffer_loop end_va page_slice floor page_offset addr_of_page_num step
buffer_loop-round left mem root start end entry last h w l e =
    let on : ltb start end ≡ true = ground (arith, h) in
    let low = virt_addr_from-low start (omega (arith, h, w)) in
    let low' = virt_addr_from-low end (omega (arith, w)) in
    let next : min (shl64 (add64 (shr start 12) 1) 12) end ≡ last = omega (arith, l, h, w) in
    let positive : ltb 0 (shr last 38) ≡ false = ground (arith, l, w) in
    let from : shr (shl64 start 52) 52 ≡ start % 4096 = omega arith in
    let to : shr (shl64 last 52) 52 ≡ last % 4096 = omega arith in
    rw (on, low, low', next, e, positive, from, to) refl

buffer_loop-none :
    (left : ℕ) (mem : Memory) (root start end : ℕ)
    → start < end
    → end < 2 ^ 38
    → translate mem root (start / 4096) ≡ none
    → buffer_loop (suc left) mem root start end ≡ panic
unfolding buffer_loop floor
buffer_loop-none left mem root start end h w e =
    let on : ltb start end ≡ true = ground (arith, h) in
    rw (on, virt_addr_from-low start (omega (arith, h, w)), e) refl

buffer_loop-done :
    (left : ℕ) (mem : Memory) (root start end : ℕ)
    → end ≤ start
    → buffer_loop left mem root start end ≡ ok []
unfolding buffer_loop
buffer_loop-done zero mem root start end h =
    let off : ltb start end ≡ false = ground (arith, h) in rw off refl
buffer_loop-done (suc left) mem root start end h =
    let off : ltb start end ≡ false = ground (arith, h) in rw off refl

-- The addresses of a slice in front of others.
addresses_front :
    (s : Slice) (rest : Outcome (List Slice)) (found : Outcome (List ℕ))
    → (rest >>= λ v. ok (addresses v)) ≡ found
    → ((rest >>= λ v. ok (s ∷ v)) >>= λ v. ok (addresses v))
      ≡ (found >>= λ r. ok (each (byte_address s.ppn) s.from (slice_len s) ++ r))
addresses_front s (ok v) found h = rw (sym h) refl
addresses_front s panic found h = rw (sym h) refl

-- The place behind the last byte of a page's part, and its length.
slice_end :
    (start last end : ℕ)
    → start < end
    → last ≡ min ((start / 4096 + 1) * 4096) end
    → (if last % 4096 == 0 then 4096 else last % 4096) - start % 4096 ≡ last - start
slice_end start last end h l = ground (arith, h, l)

buffer_loop_lem :
    (left : ℕ) (mem : Memory) (satp start end : ℕ)
    → start ≤ end
    → end < 2 ^ 38
    → end ≤ start + left
    → (buffer_loop left mem (from_satp satp) start end >>= λ v. ok (addresses v))
      ≡ gather (translated_ref mem satp) (end - start) start
buffer_loop_lem zero mem satp start end h w l =
    let none_left : end - start ≡ 0 = omega (arith, l) in
    rw (none_left, buffer_loop-done zero mem (from_satp satp) start end (omega (arith, l))) refl
buffer_loop_lem (suc left) mem satp start end h w l = elim (Bool-cases (ltb start end)) [
  | inr f ↦
      let none_left : end - start ≡ 0 = ground (arith, f) in
      rw (none_left, buffer_loop-done (suc left) mem (from_satp satp) start end (ground (arith, f)))
        refl
  | inl f ↦
      let more : start < end = ground (arith, f) in
      elim (Option-cases (translate mem (from_satp satp) (start / 4096))) [
        | inl e ↦ rw (buffer_loop-none left mem (from_satp satp) start end more w e) (
            sym (
              gather-panic (end - start) (translated_ref mem satp) start
                (translated_ref-none mem satp start (omega (arith, more, w)) e)
                (omega (arith, more))))
        | inr (entry, e) ↦
            let last = min ((start / 4096 + 1) * 4096) end in
            let found : (i : ℕ)
                → i < last - start
                → translated_ref mem satp (start + i)
                  ≡ ok (byte_address (entry_ppn entry) (start % 4096 + i)) =
              λ i p.
                let page : (start + i) / 4096 ≡ start / 4096 = omega (arith, p) in
                let place : (start + i) % 4096 ≡ start % 4096 + i = omega (arith, p) in
                translated_ref-found mem satp (start + i) entry (omega (arith, p, w))
                  (ap (translate mem (from_satp satp)) page ∙ e)
                ∙ ap (λ x. ok (byte_address (entry_ppn entry) x)) place in
            let s : Slice = record {
              ppn = entry_ppn entry;
              from = start % 4096;
              to = if last % 4096 == 0 then 4096 else last % 4096;
            } in
            rw (buffer_loop-round left mem (from_satp satp) start end entry last more w refl e) (
              addresses_front s (buffer_loop left mem (from_satp satp) last end) _
                (buffer_loop_lem left mem satp last end (omega arith) w (omega (arith, l, more)))
              ∙ ap
                  (λ n. gather (translated_ref mem satp) (end - last) last >>= λ r.
                    ok (each (byte_address (entry_ppn entry)) (start % 4096) n ++ r))
                  (slice_end start last end more refl)
              ∙ sym (
                  gather-run (last - start) (end - last) (end - start) (translated_ref mem satp)
                    (byte_address (entry_ppn entry)) start (start % 4096) last (omega (arith, more))
                    (omega (arith, more)) found))
      ]
]

-- The slices of a range of user memory below the middle of the address space are its bytes in order:
-- each byte stands at the address it translates to, and the call panics if and only if one of them
-- does not translate.
pub translated_byte_buffer-eq-translate_bytes :
    (mem : Memory) (satp ptr len : ℕ)
    → ptr + len < 2 ^ 38
    → (translated_byte_buffer mem satp ptr len >>= λ slices. ok (addresses slices))
      ≡ translate_bytes mem satp ptr len
unfolding translated_byte_buffer translate_bytes
translated_byte_buffer-eq-translate_bytes mem satp ptr len h =
    let end : add64 ptr len ≡ ptr + len = omega (arith, h) in
    let n : ptr + len - ptr ≡ len = omega arith in
    rw end (
      buffer_loop_lem len mem satp ptr (ptr + len) (omega arith) h (omega arith)
      ∙ ap (λ k. gather (translated_ref mem satp) k ptr) n)
