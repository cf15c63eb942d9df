-- ===== src/Mm/Buffer/Tests.antt =====
-- A range over the end of page 1, which stands in frame 9; page 2 stands in frame 4.
use acore.Base.{◌+◌, ◌≡◌, refl, List, [], ◌∷◌, ◌==◌, if◌then◌else◌, ok, ◌>>=◌, arith}
use acore.Mm.Address.{indexes}
use acore.Mm.Memory.{Memory}
use acore.Mm.PageTable.{translate, find_pte, is_valid, entry_ppn}
use acore.Mm.Buffer.{Slice, user_buffer_len, into_iter, translated_byte_buffer}
use acore.Mm.Buffer.Bytes.{addresses, translate_bytes, translated_byte_buffer-eq-translate_bytes}
use acore.Mm.Buffer.Iter.{iterate, iterate_lem}

abbrev two_pages : Memory
two_pages p i =
    if p == 5
    then (if i == 0 then 6145 else 0)
    else if p == 6
    then (if i == 0 then 7169 else 0)
    else if p == 7
    then (if i == 1 then 9239 else if i == 2 then 4119 else 0)
    else 0

translated_byte_buffer-eq-translate_bytes_example :
    (translated_byte_buffer two_pages 5 8190 4 >>= λ slices. ok (addresses slices))
    ≡ translate_bytes two_pages 5 8190 4
translated_byte_buffer-eq-translate_bytes_example =
    translated_byte_buffer-eq-translate_bytes two_pages 5 8190 4 (omega arith)

four_bytes :
    (translated_byte_buffer two_pages 5 8190 4 >>= λ slices. ok (addresses slices))
    ≡ ok (40958 ∷ 40959 ∷ 16384 ∷ 16385 ∷ [])
unfolding translated_byte_buffer translate find_pte indexes is_valid entry_ppn
four_bytes = refl

abbrev two_slices : List Slice
two_slices = record { ppn = 9; from = 4094; to = 4096 } ∷ record { ppn = 4; from = 0; to = 2 } ∷ []

iterate_lem_example :
    iterate (user_buffer_len two_slices + 1) two_slices into_iter ≡ ok (addresses two_slices)
iterate_lem_example = iterate_lem two_slices (omega arith, (omega arith, tt))
