-- ===== src/Mm/Buffer.antt =====
-- os/src/mm/page_table.rs: memory of a user process as the kernel reads and writes it. A slice of a
-- frame's bytes is the frame, the first place and the place behind the last; the byte at a
-- place stands at a physical address.
pub mod Bytes
pub mod Iter
mod Tests
use acore.Base.{
  ℕ, zero, suc, ◌+◌, ◌-◌, ◌*◌, min, List, [], ◌∷◌, ◌++◌, ltb, leb, ◌==◌, if◌then◌else◌, Option,
  none, some, Outcome, ok, panic, ◌>>=◌, ◌>>◌, assert, unwrap, length, get_elem?,
}
use acore.Base.Word.{add64}
use acore.Mm.Address.{
  page_size, virt_addr_from, virt_addr_to_usize, addr_of_page_num, floor, page_offset, step,
}
use acore.Mm.Memory.{Memory}
use acore.Mm.PageTable.{entry_ppn, translate, translate_va, from_satp}

pub record Slice : Type 0 where
  pub ppn : ℕ
  pub from : ℕ
  pub to : ℕ

-- Where the part of the range in the page of `start` ends, as a virtual address.
unfoldable pub end_va : ℕ → ℕ → ℕ
unfolding virt_addr_from addr_of_page_num floor step
end_va start end = min (addr_of_page_num (step (floor (virt_addr_from start)))) (virt_addr_from end)

-- The body of the loop: `[start_va.page_offset()..]`, or `[..end_va.page_offset()]` of that.
unfoldable pub page_slice : ℕ → ℕ → ℕ → Slice
unfolding virt_addr_from page_offset
page_slice ppn start last = record {
  ppn = ppn;
  from = page_offset (virt_addr_from start);
  to = if page_offset last == 0 then page_size else page_offset last;
}

-- The loop of `translated_byte_buffer`, on fuel.
unfoldable pub buffer_loop : ℕ → Memory → ℕ → ℕ → ℕ → Outcome (List Slice)
unfolding end_va page_slice virt_addr_from virt_addr_to_usize floor
buffer_loop zero mem root start end = if ltb start end then panic else ok []
buffer_loop (suc left) mem root start end =
    let last = end_va start end in
    let rest = buffer_loop left mem root (virt_addr_to_usize last) end in
    let body = (do
      entry ← unwrap (translate mem root (floor (virt_addr_from start)))
      slices ← rest
      ok (page_slice (entry_ppn entry) start last ∷ slices)) in
    if ltb start end then body else ok []

unfoldable pub translated_byte_buffer : Memory → ℕ → ℕ → ℕ → Outcome (List Slice)
unfolding buffer_loop from_satp
translated_byte_buffer mem satp ptr len = buffer_loop len mem (from_satp satp) ptr (add64 ptr len)

-- `translated_ref` and `translated_refmut`: the physical address.
unfoldable pub translated_ref : Memory → ℕ → ℕ → Outcome ℕ
unfolding from_satp virt_addr_from
translated_ref mem satp ptr = unwrap (translate_va mem (from_satp satp) (virt_addr_from ptr))

-- `translated_str`, over a memory of bytes at physical addresses, on fuel.
unfoldable pub translated_str : ℕ → (ℕ → ℕ) → Memory → ℕ → ℕ → Outcome (List ℕ)
unfolding translated_ref
translated_str zero bytes mem satp va = panic
translated_str (suc left) bytes mem satp va =
    let rest = translated_str left bytes mem satp (add64 va 1) in
    do
      pa ← translated_ref mem satp va
      (if bytes pa == 0 then ok [] else (do string ← rest; ok (bytes pa ∷ string)))

-- `UserBuffer::len`.
abbrev pub slice_len : Slice → ℕ
slice_len s = s.to - s.from

abbrev pub user_buffer_len : List Slice → ℕ
user_buffer_len [] = 0
user_buffer_len (s ∷ rest) = slice_len s + user_buffer_len rest

pub record UserBufferIterator : Type 0 where
  pub buffer_id : ℕ
  pub offset : ℕ

unfoldable pub into_iter : UserBufferIterator
into_iter = record { buffer_id = 0; offset = 0 }

abbrev pub byte_address : ℕ → ℕ → ℕ
byte_address ppn i = addr_of_page_num ppn + i

-- `next`: the place after the last byte of a slice is the start of the next one.
unfoldable pub buffer_next :
    List Slice → UserBufferIterator → Outcome (Option ℕ × UserBufferIterator)
unfolding addr_of_page_num
buffer_next buffers it = elim (get_elem? buffers it.buffer_id) [
  | none ↦ ok (none, it)
  | some s ↦ (do
    assert (ltb it.offset (slice_len s))
    ok (
      some (byte_address s.ppn (s.from + it.offset)),
      (if it.offset + 1 == slice_len s
          then record { buffer_id = it.buffer_id + 1; offset = 0 }
          else record it { offset = it.offset + 1 }),
    ))
]
