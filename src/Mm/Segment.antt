-- ===== src/Mm/Segment.antt =====
-- os/src/mm/address_space.rs: a segment of an address space, and mapping and unmapping its pages.
pub mod Identical
mod Tests
use acore.Base.{
  ℕ, zero, suc, ◌+◌, ◌-◌, List, [], ◌∷◌, ◌==◌, if◌then◌else◌, Option, none, some, Outcome, ok,
  ◌>>=◌,
}
use acore.Mm.Address.{SimpleRange, simple_range, step, floor, ceil}
use acore.Mm.Frame.{frame_dealloc}
use acore.Mm.PageTable.{PageTable, Kernel, alloc_frame, map, unmap}

pub data MapType : Type 0 where
  identical framed : MapType

-- `data_frames` is the frame of each page that has one.
pub record MemorySegment : Type 0 where
  pub vpn_range : SimpleRange
  pub data_frames : List (ℕ × ℕ)
  pub map_type : MapType
  pub permission : ℕ

pub segment_new : ℕ → ℕ → MapType → ℕ → Outcome MemorySegment
unfolding simple_range floor ceil
segment_new start_va end_va map_type permission = do
  range ← simple_range (floor start_va) (ceil end_va)
  ok (record { vpn_range = range; data_frames = []; map_type = map_type; permission = permission })

pub from_other : MemorySegment → Outcome MemorySegment
unfolding simple_range
from_other other = do
  range ← simple_range other.vpn_range.l other.vpn_range.r
  ok (record other { vpn_range = range; data_frames = [] })

abbrev frame_of : List (ℕ × ℕ) → ℕ → Option ℕ
frame_of [] vpn = none
frame_of ((v, ppn) ∷ rest) vpn =
    let below = frame_of rest vpn in if v == vpn then some ppn else below

abbrev without : List (ℕ × ℕ) → ℕ → List (ℕ × ℕ)
without [] vpn = []
without ((v, ppn) ∷ rest) vpn =
    let below = without rest vpn in if v == vpn then below else (v, ppn) ∷ below

-- The frame that a page has, if it has one, goes back to the allocator.
drop_frame : List (ℕ × ℕ) → ℕ → Kernel → Outcome Kernel
drop_frame frames vpn k = elim (frame_of frames vpn) [
  | none ↦ ok k
  | some ppn ↦ (do left ← frame_dealloc k.frames ppn; ok (record k { frames = left }))
]

-- `insert` drops the frame that the page had.
pub map_page : MemorySegment → PageTable → Kernel → ℕ → Outcome (MemorySegment × PageTable × Kernel)
unfolding drop_frame
map_page segment pt k vpn = elim segment.map_type [
  | identical ↦ (do (pt', k') ← map pt k vpn vpn segment.permission; ok (segment, pt', k'))
  | framed ↦ (do
    (ppn, k₁) ← alloc_frame k
    k₂ ← drop_frame segment.data_frames vpn k₁
    (pt', k') ← map pt k₂ vpn ppn segment.permission
    ok (record segment { data_frames = (vpn, ppn) ∷ without segment.data_frames vpn }, pt', k'))
]

unmap_page : MemorySegment → PageTable → Kernel → ℕ → Outcome (MemorySegment × Kernel)
unfolding drop_frame
unmap_page segment pt k vpn = elim segment.map_type [
  | identical ↦ (do k' ← unmap pt k vpn; ok (segment, k'))
  | framed ↦ (do
    k₁ ← drop_frame segment.data_frames vpn k
    k' ← unmap pt k₁ vpn
    ok (record segment { data_frames = without segment.data_frames vpn }, k'))
]

-- `for vpn in self.vpn_range`, over the pages that are left.
pub map_pages :
    ℕ → MemorySegment → PageTable → Kernel → ℕ → Outcome (MemorySegment × PageTable × Kernel)
unfolding map_page
map_pages zero segment pt k vpn = ok (segment, pt, k)
map_pages (suc left) segment pt k vpn = do
  (segment', pt', k') ← map_page segment pt k vpn
  map_pages left segment' pt' k' (suc vpn)

pub segment_map : MemorySegment → PageTable → Kernel → Outcome (MemorySegment × PageTable × Kernel)
unfolding map_pages
segment_map segment pt k =
    map_pages (segment.vpn_range.r - segment.vpn_range.l) segment pt k segment.vpn_range.l

unmap_pages : ℕ → MemorySegment → PageTable → Kernel → ℕ → Outcome (MemorySegment × Kernel)
unfolding unmap_page
unmap_pages zero segment pt k vpn = ok (segment, k)
unmap_pages (suc left) segment pt k vpn = do
  (segment', k') ← unmap_page segment pt k vpn
  unmap_pages left segment' pt k' (suc vpn)

pub segment_unmap : MemorySegment → PageTable → Kernel → Outcome (MemorySegment × Kernel)
unfolding unmap_pages
segment_unmap segment pt k =
    unmap_pages (segment.vpn_range.r - segment.vpn_range.l) segment pt k segment.vpn_range.l
