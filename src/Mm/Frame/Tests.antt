-- ===== src/Mm/Frame/Tests.antt =====
-- The frame allocator at concrete states.
use acore.Base.{◌≡◌, refl, [], ◌∷◌, arith}
use acore.Mm.Memory.{Memory, clear_frame}
use acore.Mm.Frame.{StackFrameAllocator, alloc, dealloc, frame_alloc, init_frame_allocator, new}
use acore.Mm.Frame.Laws.{Tracks, frame_alloc-IsFresh, dealloc_iff_live, IsFresh, ReturnsLive}

-- Frames 5 to 9; 5 and 6 were handed out, and 6 came back.
abbrev used : StackFrameAllocator
used = record { current = 7; end = 10; recycled = 6 ∷ [] }

used-Tracks : Tracks 5 used (5 ∷ [])
used-Tracks = record {
  split = λ p. ground arith;
  above = omega arith;
  below = omega arith;
  width = omega arith;
}

abbrev noise : Memory
noise p i = 7

kernel_range : (init_frame_allocator 0x80200123 new).current ≡ 0x80201
unfolding init_frame_allocator new
kernel_range = refl

frame_alloc-IsFresh_example :
    IsFresh 5 used (record used { recycled = [] }) (5 ∷ []) noise (clear_frame noise 6) 6
unfolding frame_alloc alloc
frame_alloc-IsFresh_example =
    frame_alloc-IsFresh 5 used (record used { recycled = [] }) (5 ∷ []) noise (clear_frame noise 6)
      6 used-Tracks refl

dealloc_iff_live_example : ReturnsLive 5 used (5 ∷ []) 5 (dealloc used 5)
dealloc_iff_live_example = dealloc_iff_live 5 used (5 ∷ []) 5 used-Tracks (omega arith)
