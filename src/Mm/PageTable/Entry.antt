-- ===== src/Mm/PageTable/Entry.antt =====
-- An entry gives back the page number and the flags that it was made of; so does `satp`.
use acore.Base.{ℕ, ◌+◌, ◌*◌, ◌%◌, ◌^◌, ◌<◌, ◌≡◌, refl, arith, false, ◌==◌}
use acore.Base.Word.Digits.{or_split, or-zero, zero-or, and_mask}
use acore.Mm.PageTable.{entry_new, entry_ppn, entry_flags, is_valid, satp, from_satp}

entry_new_sum :
    (ppn flags : ℕ) → ppn < 2 ^ 54 → flags < 2 ^ 10 → entry_new ppn flags ≡ ppn * 2 ^ 10 + flags
unfolding entry_new
entry_new_sum ppn flags h f = ground (arith, or_split 10 ppn 0 0 flags, or-zero ppn, zero-or flags)

-- The fields of an entry of a 44-bit page number and eight flag bits; it is valid exactly when
-- the lowest flag is set.
pub entry_roundtrip :
    (ppn flags : ℕ)
    → ppn < 2 ^ 44
    → flags < 2 ^ 8
    → (entry_ppn (entry_new ppn flags) ≡ ppn)
      × (entry_flags (entry_new ppn flags) ≡ flags)
      × (is_valid (entry_new ppn flags) ≡ (flags % 2 == 1))
unfolding entry_ppn entry_flags is_valid
entry_roundtrip ppn flags h f = (
  omega (arith, entry_new_sum ppn flags (omega arith) (omega arith)),
  omega (arith, entry_new_sum ppn flags (omega arith) (omega arith)),
  ground (arith, entry_new_sum ppn flags, and_mask 1 (entry_new ppn flags % 2 ^ 8)),
)

-- The empty entry is invalid.
pub is_valid-zero : is_valid 0 ≡ false
unfolding is_valid
is_valid-zero = refl

-- A root frame of 44 bits survives the way through the `satp` register.
pub satp_roundtrip : (root : ℕ) → root < 2 ^ 44 → from_satp (satp root) ≡ root
unfolding satp from_satp
satp_roundtrip root h = ground (arith, or_split 60 8 0 0 root, zero-or root, or-zero 8)
