-- ===== src/Mm/PageTable/Tests.antt =====
-- Page tables at a concrete state: a new table at frame 5, and frames 6 to 19 to hand out.
use Prim.Native.Nat.{bit_or}
use acore.Base.{
  ℕ, ◌≡◌, refl, ◌⊎◌, List, [], ◌∷◌, Option, none, some, ok, panic, Outcome, ◌>>=◌, arith, false,
  if◌then◌else◌, ◌==◌,
}
use acore.Mm.Frame.{frame_alloc}
use acore.Mm.Memory.{store}
use acore.Mm.Frame.Laws.{Tracks}
use acore.Mm.Address.{indexes, page_offset, floor}
use acore.Mm.PageTable.{
  Kernel, PageTable, map, unmap, translate, translate_va, entry_new, entry_ppn, is_valid, flag_v,
  find_pte, find_pte_create,
}
use acore.Mm.PageTable.Entry.{is_valid-zero}
use acore.Mm.PageTable.Owner.{Owner, IsTree}
use acore.Mm.PageTable.Map.{mapped, Changes, map_lem}
use acore.Mm.PageTable.Unmap.{unmap_lem, unmapped_translates}

abbrev table : PageTable
table = record { root_ppn = 5; frames = 5 ∷ [] }

abbrev blank : Kernel
blank = record { frames = record { current = 6; end = 20; recycled = [] }; mem = λ p i. 0 }

abbrev root_only : Owner
root_only p = if p == 5 then some [] else none

blank-Tracks : Tracks 5 blank.frames (5 ∷ [])
blank-Tracks = record {
  split = λ p. ground arith;
  above = omega arith;
  below = omega arith;
  width = omega arith;
}

blank-IsTree : IsTree 5 5 blank root_only (5 ∷ [])
blank-IsTree = record {
  tracks = blank-Tracks;
  rooted = refl;
  linked = λ p i path o short v. cc (is_valid-zero, v);
  held = λ p path o. ground arith;
}

-- Map page 1 to frame 77, read-write, and unmap it.
abbrev run : Outcome (Option ℕ × Option ℕ)
run = do
  (pt, k) ← map table blank 1 77 6
  k' ← unmap pt k 1
  ok (translate k.mem pt.root_ppn 1, translate k'.mem pt.root_ppn 1)

run_result : run ≡ ok (some (entry_new 77 7), some 0)
unfolding map unmap translate find_pte find_pte_create frame_alloc entry_new is_valid entry_ppn
    indexes
run_result = refl

blank-mapped : mapped blank.mem 5 1 ≡ none
unfolding translate find_pte indexes is_valid
blank-mapped = refl

map_lem_example :
    (pt' : PageTable) × (k' : Kernel) × (owner' : Owner) × (live' : List ℕ) × (map table blank 1 77
        6
      ≡ ok (pt', k'))
    × (pt'.root_ppn ≡ 5)
    × Changes 5 5 1 blank k' owner' live' (some (entry_new 77 (bit_or 6 flag_v)))
map_lem_example =
    map_lem 5 table blank root_only (5 ∷ []) 1 77 6 blank-IsTree (omega arith) (omega arith)
      (omega arith) (omega arith) blank-mapped

-- The tables after page 1 was mapped to frame 77: frames 6 and 7 are tables.
abbrev mapped_one : Kernel
mapped_one = record {
  frames = record { current = 8; end = 20; recycled = [] };
  mem = λ p i.
      if p == 5
      then (if i == 0 then 6145 else 0)
      else (if p == 6
          then (if i == 0 then 7169 else 0)
          else (if p == 7 then (if i == 1 then 78855 else 0) else 0));
}

abbrev three_tables : Owner
three_tables p =
    if p == 5
    then some []
    else (if p == 6 then some (0 ∷ []) else (if p == 7 then some (0 ∷ 0 ∷ []) else none))

abbrev live_tables : List ℕ
live_tables = 7 ∷ 6 ∷ 5 ∷ []

entries : (entry_ppn 6145 ≡ 6) × (entry_ppn 7169 ≡ 7) × (is_valid 0 ≡ false)
unfolding entry_ppn is_valid
entries = (refl, refl, refl)

mapped_one-IsTree : IsTree 5 5 mapped_one three_tables live_tables
mapped_one-IsTree = record {
  tracks = record {
    split = λ p. ground arith;
    above = omega arith;
    below = omega arith;
    width = omega arith;
  };
  rooted = refl;
  linked = λ p i path o short v. ground (arith, entries);
  held = λ p path o. ground arith;
}

page_one : mapped mapped_one.mem 5 1 ≡ some 78855
unfolding translate find_pte indexes is_valid entry_ppn
page_one = refl

unmap_lem_example :
    ((mapped mapped_one.mem 5 1 ≡ none) × (unmap table mapped_one 1 ≡ panic))
    ⊎ ((entry : ℕ) × (mapped mapped_one.mem 5 1 ≡ some entry)
        × (k' : Kernel) × (unmap table mapped_one 1 ≡ ok k')
        × Changes 5 5 1 mapped_one k' three_tables live_tables none)
unmap_lem_example =
    unmap_lem 5 5 (5 ∷ []) mapped_one three_tables live_tables 1 mapped_one-IsTree (omega arith)

abbrev unmapped : Kernel
unmapped = record mapped_one { mem = store mapped_one.mem 7 1 0 }

unmapped_translates_example :
    (translate unmapped.mem 5 (floor 4100) ≡ some 0)
    × (translate_va unmapped.mem 5 4100 ≡ some (page_offset 4100))
unfolding unmap find_pte indexes is_valid entry_ppn floor
unmapped_translates_example =
    unmapped_translates 5 5 (5 ∷ []) mapped_one unmapped three_tables live_tables 4100
      mapped_one-IsTree (omega arith) refl
