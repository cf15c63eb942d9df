-- ===== src/Mm/PageTable.antt =====
-- os/src/mm/page_table.rs: page table entries, and the three-level tables of Sv39 in physical
-- memory. A `&mut PageTableEntry` is the frame and the index at which the entry stands.
pub mod Entry
pub mod Owner
pub mod Grow
pub mod Walk
pub mod Map
pub mod Unmap
mod Tests
use Prim.Native.Nat.{bit_or, bit_and}
use acore.Base.{
  ℕ, suc, ◌%◌, ◌^◌, List, [], ◌∷◌, Bool, true, not, ◌==◌, if◌then◌else◌, Option, none, some,
  Outcome, ok, panic, ◌>>=◌, ◌>>◌, assert, unwrap,
}
use acore.Base.Word.{add64, shl64, shr}
use acore.Mm.Address.{
  ppn_from, phys_addr_from, virt_addr_from, addr_of_page_num, indexes, floor, page_offset,
}
use acore.Mm.Memory.{Memory, store}
use acore.Mm.Frame.{StackFrameAllocator, frame_alloc}

-- `PTEFlags`: the low eight bits of an entry.
abbrev pub flag_v : ℕ
flag_v = 1

abbrev pub flag_r : ℕ
flag_r = 2

abbrev pub flag_w : ℕ
flag_w = 4

abbrev pub flag_x : ℕ
flag_x = 8

-- `PageTableEntry::new`, `ppn`, `flags`. All eight bits are flags, so `from_bits` never fails.
unfoldable pub entry_new : ℕ → ℕ → ℕ
entry_new ppn flags = bit_or (shl64 ppn 10) flags

unfoldable pub entry_ppn : ℕ → ℕ
unfolding ppn_from
entry_ppn bits = ppn_from (shr (shl64 bits 10) 20)

unfoldable pub entry_flags : ℕ → ℕ
entry_flags bits = bits % 2 ^ 8

abbrev has_flag : ℕ → ℕ → Bool
has_flag flag bits = not (bit_and (entry_flags bits) flag == 0)

unfoldable pub is_valid : ℕ → Bool
unfolding entry_flags
is_valid = has_flag flag_v

pub readable : ℕ → Bool
unfolding entry_flags
readable = has_flag flag_r

pub writable : ℕ → Bool
unfolding entry_flags
writable = has_flag flag_w

pub executable : ℕ → Bool
unfolding entry_flags
executable = has_flag flag_x

-- What the walks share: the allocator of frames and physical memory.
pub record Kernel : Type 0 where
  pub frames : StackFrameAllocator
  pub mem : Memory

-- The head of `frames` is the back of the vector.
pub record PageTable : Type 0 where
  pub root_ppn : ℕ
  pub frames : List ℕ

-- `frame_alloc().unwrap()`.
unfoldable pub alloc_frame : Kernel → Outcome (ℕ × Kernel)
alloc_frame k = do
  (ppn, frames, mem) ← unwrap (frame_alloc k.frames k.mem)
  ok (ppn, record { frames = frames; mem = mem })

pub new : Kernel → Outcome (PageTable × Kernel)
unfolding alloc_frame
new k = do (ppn, k') ← alloc_frame k; ok (record { root_ppn = ppn; frames = ppn ∷ [] }, k')

-- The body of the loop of `find_pte_create` at an upper level: the frame of the next table, which
-- is made if there is none.
pub next_table : PageTable → Kernel → ℕ → ℕ → Outcome (ℕ × PageTable × Kernel)
next_table pt k ppn i = if is_valid (k.mem ppn i) then ok (entry_ppn (k.mem ppn i), pt, k) else (do
  (f, k') ← alloc_frame k
  let mem = store k'.mem ppn i (entry_new f flag_v)
  ok (entry_ppn (mem ppn i), record pt { frames = f ∷ pt.frames }, record k' { mem = mem }))

-- `find_pte_create` from a table on, over the indexes that are left.
pub walk_create : List ℕ → PageTable → Kernel → ℕ → Outcome (Option (ℕ × ℕ) × PageTable × Kernel)
walk_create [] pt k ppn = ok (none, pt, k)
walk_create (i ∷ []) pt k ppn = ok (some (ppn, i), pt, k)
walk_create (i ∷ j ∷ rest) pt k ppn = do
  (next, pt', k') ← next_table pt k ppn i
  walk_create (j ∷ rest) pt' k' next

unfoldable pub find_pte_create :
    PageTable → Kernel → ℕ → Outcome (Option (ℕ × ℕ) × PageTable × Kernel)
unfolding walk_create next_table alloc_frame
find_pte_create pt k vpn = walk_create (indexes vpn) pt k pt.root_ppn

-- `PageTableView::find_pte` from a table on.
unfoldable pub walk : Memory → List ℕ → ℕ → Option (ℕ × ℕ)
walk mem [] ppn = none
walk mem (i ∷ []) ppn = some (ppn, i)
walk mem (i ∷ j ∷ rest) ppn =
    let below = walk mem (j ∷ rest) (entry_ppn (mem ppn i)) in
    if is_valid (mem ppn i) then below else none

unfoldable pub find_pte : Memory → ℕ → ℕ → Option (ℕ × ℕ)
unfolding walk
find_pte mem root vpn = walk mem (indexes vpn) root

unfoldable pub map : PageTable → Kernel → ℕ → ℕ → ℕ → Outcome (PageTable × Kernel)
map pt k vpn ppn permission = do
  (found, pt', k') ← find_pte_create pt k vpn
  (p, i) ← unwrap found
  assert (not (is_valid (k'.mem p i)))
  ok (pt', record k' { mem = store k'.mem p i (entry_new ppn (bit_or permission flag_v)) })

unfoldable pub unmap : PageTable → Kernel → ℕ → Outcome Kernel
unmap pt k vpn = do
  (p, i) ← unwrap (find_pte k.mem pt.root_ppn vpn)
  assert (is_valid (k.mem p i))
  ok (record k { mem = store k.mem p i 0 })

unfoldable pub translate : Memory → ℕ → ℕ → Option ℕ
translate mem root vpn = elim (find_pte mem root vpn) [ none ↦ none | some (p, i) ↦ some (mem p i) ]

unfoldable pub translate_va : Memory → ℕ → ℕ → Option ℕ
unfolding phys_addr_from addr_of_page_num page_offset floor
translate_va mem root va = elim (find_pte mem root (floor va)) [
  | none ↦ none
  | some (p, i) ↦
      some (phys_addr_from (add64 (addr_of_page_num (entry_ppn (mem p i))) (page_offset va)))
]

-- `satp` of a table, and the root that `PageTableView::from_satp` reads off it.
unfoldable pub satp : ℕ → ℕ
satp root = bit_or (shl64 8 60) root

unfoldable pub from_satp : ℕ → ℕ
unfolding ppn_from
from_satp satp = ppn_from satp
