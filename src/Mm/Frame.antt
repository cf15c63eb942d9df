-- ===== src/Mm/Frame.antt =====
-- os/src/mm/frame_allocator.rs: the allocator of page frames, and the handles that clear and free
-- them. The head of `recycled` is the back of the vector.
pub mod Laws
mod Tests
use acore.Base.{
  ℕ, List, [], ◌∷◌, Bool, ◌||◌, leb, ◌==◌, if◌then◌else◌, contains, Option, none, some, Outcome, ok,
  panic,
}
use acore.Base.Word.{add64, sub64}
use acore.Mm.Address.{ppn_from, phys_addr_from, ceil, floor}
use acore.Mm.Memory.{Memory, clear_frame}

pub record StackFrameAllocator : Type 0 where
  pub current : ℕ
  pub end : ℕ
  pub recycled : List ℕ

pub new : StackFrameAllocator
unfolding ppn_from
new = record { current = ppn_from 0; end = ppn_from 0; recycled = [] }

pub init : StackFrameAllocator → ℕ → ℕ → StackFrameAllocator
init a l r = record a { current = l; end = r }

pub alloc : StackFrameAllocator → Option (ℕ × StackFrameAllocator)
unfolding ppn_from
alloc a = elim a.recycled [
  | ppn ∷ rest ↦ some (ppn, record a { recycled = rest })
  | [] ↦
      if a.current == a.end
      then none
      else (let current = add64 a.current 1 in
          some (ppn_from (sub64 current 1), record a { current = current }))
]

unfoldable pub dealloc : StackFrameAllocator → ℕ → Outcome StackFrameAllocator
dealloc a ppn =
    if leb a.current ppn || contains a.recycled ppn
    then panic
    else ok (record a { recycled = ppn ∷ a.recycled })

abbrev pub memory_end : ℕ
memory_end = 0x88000000

-- `init_frame_allocator`: the frames between the end of the kernel image and the end of memory.
pub init_frame_allocator : ℕ → StackFrameAllocator → StackFrameAllocator
unfolding init phys_addr_from ceil floor
init_frame_allocator ekernel a =
    init a (ceil (phys_addr_from ekernel)) (floor (phys_addr_from memory_end))

-- `frame_alloc` makes a `FrameTracker`, which clears the frame.
unfoldable pub frame_alloc :
    StackFrameAllocator → Memory → Option (ℕ × StackFrameAllocator × Memory)
unfolding alloc
frame_alloc a m = elim (alloc a) [
  | none ↦ none
  | some (ppn, a') ↦ some (ppn, a', clear_frame m ppn)
]

-- `Drop for FrameTracker`.
unfoldable pub frame_dealloc : StackFrameAllocator → ℕ → Outcome StackFrameAllocator
frame_dealloc a ppn = dealloc a ppn
