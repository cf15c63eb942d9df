-- ===== src/Mm/Address.antt =====
-- Physical and virtual addresses and page numbers of Sv39: os/src/mm/address.rs. An address or a
-- page number is its `usize`.
pub mod Laws
mod Tests
use Prim.Native.Nat.{bit_or, bit_and}
use acore.Base.{
  ℕ, ◌-◌, ◌+◌, Bool, ltb, leb, ◌==◌, if◌then◌else◌, Outcome, ok, ◌>>◌, assert, List, [], ◌∷◌,
  Option, none, some, zero, suc, ◌^◌,
}
use acore.Base.Word.{add64, sub64, shl64, shr}

abbrev pub page_size_bits : ℕ
page_size_bits = 12

abbrev pub page_size : ℕ
page_size = 0x1000

-- `PA_WIDTH_SV39` and its companions.
abbrev pub pa_width : ℕ
pa_width = 56

abbrev pub va_width : ℕ
va_width = 39

abbrev pub ppn_width : ℕ
ppn_width = pa_width - page_size_bits

abbrev pub vpn_width : ℕ
vpn_width = va_width - page_size_bits

-- `v << bits >> bits`, which the conversions from `usize` share.
abbrev pub truncate : ℕ → ℕ → ℕ
truncate width v = let bits = 64 - width in shr (shl64 v bits) bits

unfoldable pub phys_addr_from : ℕ → ℕ
phys_addr_from = truncate pa_width

unfoldable pub ppn_from : ℕ → ℕ
ppn_from = truncate ppn_width

unfoldable pub virt_addr_from : ℕ → ℕ
virt_addr_from = truncate va_width

unfoldable pub vpn_from : ℕ → ℕ
vpn_from = truncate vpn_width

-- `usize::from(VirtAddr)`: the sign extension of a 39-bit address.
unfoldable pub virt_addr_to_usize : ℕ → ℕ
virt_addr_to_usize v =
    if ltb 0 (shr v (va_width - 1)) then bit_or v (shl64 (2 ^ 64 - 1) (va_width - 1)) else v

-- `page_offset`, `floor` and `ceil` are the same code for both kinds of address.
unfoldable pub page_offset : ℕ → ℕ
page_offset a = let bits = 64 - page_size_bits in shr (shl64 a bits) bits

unfoldable pub floor : ℕ → ℕ
floor a = shr a page_size_bits

unfoldable pub ceil : ℕ → ℕ
ceil a = shr (sub64 (add64 a page_size) 1) page_size_bits

unfoldable pub aligned : ℕ → Bool
unfolding page_offset
aligned a = page_offset a == 0

-- `PhysPageNum::from(PhysAddr)` and `VirtPageNum::from(VirtAddr)` assert the alignment.
unfoldable pub page_num_of_addr : ℕ → Outcome ℕ
unfolding page_offset floor
page_num_of_addr a = do assert (page_offset a == 0); ok (floor a)

-- `PhysAddr::from(PhysPageNum)` and `VirtAddr::from(VirtPageNum)`.
unfoldable pub addr_of_page_num : ℕ → ℕ
addr_of_page_num n = shl64 n page_size_bits

-- `VirtPageNum::indexes`: the loop fills `res` from the back, nine bits at a time.
index_loop : ℕ → ℕ → List ℕ → List ℕ
index_loop zero vpn res = res
index_loop (suc i) vpn res = index_loop i (shr vpn 9) (bit_and vpn 511 ∷ res)

unfoldable pub indexes : ℕ → List ℕ
unfolding index_loop
indexes vpn = index_loop 3 vpn []

-- `SimpleRange` of page numbers, and its iterator.
pub record SimpleRange : Type 0 where
  pub l : ℕ
  pub r : ℕ

unfoldable pub simple_range : ℕ → ℕ → Outcome SimpleRange
simple_range start end = do assert (leb start end); ok (record { l = start; r = end })

unfoldable pub step : ℕ → ℕ
step n = add64 n 1

unfoldable pub next : SimpleRange → Option ℕ × SimpleRange
unfolding step
next it = if it.l == it.r then (none, it) else (some it.l, record it { l = step it.l })

-- `for x in range`: the iterator is called until it returns `None`. The first number bounds the
-- calls.
unfoldable pub collect : ℕ → SimpleRange → Option (List ℕ)
unfolding next
collect zero it = none
collect (suc fuel) it =
    let rest = collect fuel (next it).1 in
    elim (next it).0 [
      | none ↦ some []
      | some x ↦ elim rest [ none ↦ none | some xs ↦ some (x ∷ xs) ]
    ]
