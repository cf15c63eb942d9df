-- ===== src/Mm/Segment/Tests.antt =====
-- A segment at a concrete state: pages 1 to 3, and the tables of one root at frame 5.
use acore.Base.{
  ℕ, ◌≡◌, refl, ◌∙◌, List, [], ◌∷◌, Option, none, some, Outcome, ok, ◌>>=◌, arith, if◌then◌else◌,
  ◌==◌,
}
use acore.Mm.Address.{simple_range, floor, ceil, indexes}
use acore.Mm.Frame.{frame_alloc, frame_dealloc}
use acore.Mm.PageTable.{
  PageTable, Kernel, map, unmap, translate, find_pte, find_pte_create, entry_new, entry_ppn,
  is_valid, alloc_frame,
}
use acore.Mm.PageTable.Entry.{is_valid-zero}
use acore.Mm.PageTable.Owner.{Owner, IsTree, leaf}
use acore.Mm.PageTable.Map.{mapped-leaf}
use acore.Mm.Segment.{
  identical, framed, MemorySegment, segment_new, from_other, segment_map, segment_unmap,
}
use acore.Mm.Segment.Identical.{IsIdentical, segment_map_lem}

abbrev table : PageTable
table = record { root_ppn = 5; frames = 5 ∷ [] }

abbrev blank : Kernel
blank = record { frames = record { current = 6; end = 20; recycled = [] }; mem = λ p i. 0 }

abbrev root_only : Owner
root_only p = if p == 5 then some [] else none

abbrev three_pages : MemorySegment
three_pages = record {
  vpn_range = record { l = 1; r = 4 };
  data_frames = [];
  map_type = identical;
  permission = 6;
}

-- A framed segment of the same pages, made from another one: what they translate to when it is
-- mapped, and when it is unmapped again, and the frames that are back.
abbrev run : Outcome (Option ℕ × Option ℕ × Option ℕ × List ℕ)
run = do
  segment ← segment_new 4096 12289 framed 6
  fresh ← from_other segment
  (segment', pt, k) ← segment_map fresh table blank
  (empty, k') ← segment_unmap segment' pt k
  ok (translate k.mem 5 1, translate k.mem 5 3, translate k'.mem 5 1, k'.frames.recycled)

run_result : run ≡ ok (some (entry_new 6 7), some (entry_new 10 7), some 0, 10 ∷ 9 ∷ 6 ∷ [])
unfolding segment_new from_other segment_map segment_unmap simple_range floor ceil translate
    find_pte entry_new is_valid entry_ppn indexes alloc_frame map unmap find_pte_create frame_alloc
    frame_dealloc acore.Mm.Frame.dealloc
run_result = refl

blank-IsTree : IsTree 5 5 blank root_only (5 ∷ [])
blank-IsTree = record {
  tracks = record {
    split = λ p. ground arith;
    above = omega arith;
    below = omega arith;
    width = omega arith;
  };
  rooted = refl;
  linked = λ p i path o short v. cc (is_valid-zero, v);
  held = λ p path o. ground arith;
}

blank-leaf : (is : List ℕ) (p : ℕ) → leaf (λ p i. 0) is p ≡ none
unfolding leaf is_valid
blank-leaf [] p = refl
blank-leaf (i ∷ []) p = refl
blank-leaf (i ∷ j ∷ is) p = refl

segment_map_lem_example :
    (pt' : PageTable) × (k' : Kernel) × (owner' : Owner) × (live' : List ℕ) × (segment_map
        three_pages table blank
      ≡ ok (three_pages, pt', k'))
    × (pt'.root_ppn ≡ 5)
    × IsIdentical 5 5 1 3 6 blank k' owner' live'
segment_map_lem_example =
    segment_map_lem 5 three_pages table blank root_only (5 ∷ []) refl (omega arith) blank-IsTree
      (omega arith) (omega arith) (omega arith)
      (λ v low high. mapped-leaf blank.mem 5 v ∙ blank-leaf (indexes v) 5)
