-- ===== src/Mm/Address/Tests.antt =====
-- Conversions of addresses at concrete values.
use acore.Base.{◌+◌, ◌-◌, ◌*◌, ◌<◌, ◌≡◌, refl, [], ◌∷◌, ok, arith}
use acore.Base.Word.{usize_mod}
use acore.Mm.Address.{
  page_size, virt_addr_from, page_offset, floor, page_num_of_addr, addr_of_page_num, indexes,
}
use acore.Mm.Address.Laws.{floor-page_offset, page_num-addr_roundtrip}

-- The trampoline is the last page of the address space.
trampoline_indexes : indexes (floor (virt_addr_from (usize_mod - page_size))) ≡ 511 ∷ 511 ∷ 511 ∷ []
unfolding indexes floor virt_addr_from
trampoline_indexes = refl

page_num-addr_roundtrip_example : page_num_of_addr (addr_of_page_num 77) ≡ ok 77
page_num-addr_roundtrip_example = page_num-addr_roundtrip 77 (omega arith)

floor-page_offset_example :
    (floor 4099 * page_size + page_offset 4099 ≡ 4099) × (page_offset 4099 < page_size)
floor-page_offset_example = floor-page_offset 4099
