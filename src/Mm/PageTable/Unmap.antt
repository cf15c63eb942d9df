-- ===== src/Mm/PageTable/Unmap.antt =====
-- Unmapping a page, and what is left behind.
use acore.Base.{
  ℕ, suc, ◌/◌, ◌<◌, ◌^◌, ◌%◌, ◌≡◌, sym, subst, ◌∙◌, List, [], ◌∷◌, false, Bool-cases, inl, inr, ◌⊎◌,
  if◌then◌else◌, ◌==◌, none, some, arith, ok, panic, Option-cases,
}
use acore.Mm.Memory.{Memory, store}
use acore.Mm.Address.{indexes, page_offset, floor}
use acore.Mm.Address.Laws.{indexes_eq}
use acore.Mm.Frame.{StackFrameAllocator, frame_alloc}
use acore.Mm.Frame.Laws.{Tracks, available, frame_alloc-some, frame_alloc-IsFresh}
use acore.Mm.PageTable.{
  Kernel, PageTable, entry_ppn, is_valid, walk, find_pte, new, unmap, translate, translate_va,
  alloc_frame,
}
use acore.Mm.PageTable.Entry.{is_valid-zero}
use acore.Mm.PageTable.Owner.{Owner, IsTree, leaf}
use acore.Mm.PageTable.Map.{
  mapped, mapped-leaf, Changes, stored-IsTree, walk-stored, mapped-store_self, mapped-store_other,
}

-- `unmap` of a mapped page returns; the page then translates to nothing that is valid, every
-- other page as before, and the tables are a tree as before. `unmap` of any other page panics.
pub unmap_lem :
    (start root : ℕ) (frames : List ℕ) (k : Kernel) (owner : Owner) (live : List ℕ) (vpn : ℕ)
    → IsTree start root k owner live
    → vpn < 2 ^ 27
    → ((mapped k.mem root vpn ≡ none)
        × (unmap (record { root_ppn = root; frames = frames }) k vpn ≡ panic))
      ⊎ ((entry : ℕ) × (mapped k.mem root vpn ≡ some entry)
          × (k' : Kernel) × (unmap (record { root_ppn = root; frames = frames }) k vpn ≡ ok k')
          × Changes start root vpn k k' owner live none)
unfolding unmap find_pte translate
unmap_lem start root frames k owner live vpn t h =
    elim (Option-cases (walk k.mem (indexes vpn) root)) [
      | inl e ↦ inl (ground arith, rw e)
      | inr ((q, l), e) ↦ elim (Bool-cases (is_valid (k.mem q l))) [
        | inl v ↦ inr (
          k.mem q l,
          ground arith,
          record k { mem = store k.mem q l 0 },
          rw (e, v),
          record {
            tree = stored-IsTree t vpn q l 0 h e;
            here = mapped-store_self t vpn q l 0 h e ∙ rw is_valid-zero;
            others = λ vpn' h' ne. mapped-store_other t vpn q l 0 h e vpn' h' ne;
          },
        )
        | inr v ↦ inl (ground arith, rw (e, v))
      ]
    ]

zero_entry :
    (mem : Memory) (root va q l : ℕ)
    → walk mem (indexes (floor va)) root ≡ some (q, l)
    → mem q l ≡ 0
    → (translate mem root (floor va) ≡ some 0) × (translate_va mem root va ≡ some (page_offset va))
unfolding find_pte translate translate_va page_offset entry_ppn
zero_entry mem root va q l e z =
    (rw (e, translate) (rw z), rw (e, translate_va) (rw z (ground arith)))

-- A translation does not look at the valid bit of the last level: once a page was mapped and
-- unmapped, its addresses still translate, to the physical frame 0.
pub unmapped_translates :
    (start root : ℕ) (frames : List ℕ) (k k' : Kernel) (owner : Owner) (live : List ℕ) (va : ℕ)
    → IsTree start root k owner live
    → floor va < 2 ^ 27
    → unmap (record { root_ppn = root; frames = frames }) k (floor va) ≡ ok k'
    → (translate k'.mem root (floor va) ≡ some 0)
      × (translate_va k'.mem root va ≡ some (page_offset va))
unfolding unmap find_pte
unmapped_translates start root frames k k' owner live va t h e =
    elim (Option-cases (walk k.mem (indexes (floor va)) root)) [
      | inl none_there ↦ cc (rw (none_there, unmap) at e)
      | inr ((q, l), there) ↦
          let still = walk-stored t (floor va) q l 0 h there in
          elim (Bool-cases (is_valid (k.mem q l))) [
            | inl v ↦
                let same : k' ≡ record k { mem = store k.mem q l 0 } = ground arith in
                subst
                  (λ (x : Kernel).
                    (translate x.mem root (floor va) ≡ some 0)
                    × (translate_va x.mem root va ≡ some (page_offset va)))
                  (sym same) (zero_entry (store k.mem q l 0) root va q l still (ground arith))
            | inr v ↦ cc (rw (there, v, unmap) at e)
          ]
    ]

-- A new table maps nothing, and is a tree of one frame.
pub new_lem :
    (start : ℕ) (k : Kernel) (live : List ℕ)
    → Tracks start k.frames live
    → 0 < available k.frames
    → (pt : PageTable) × (k' : Kernel) × (owner : Owner) × (live' : List ℕ) × (new k ≡ ok (pt, k'))
      × IsTree start pt.root_ppn k' owner live'
      × ((vpn : ℕ) → mapped k'.mem pt.root_ppn vpn ≡ none)
unfolding new alloc_frame leaf
new_lem start k live t room = made (frame_alloc-some start k.frames live k.mem t room)
  where
    Result : Type 0
    Result =
        (pt : PageTable) × (k' : Kernel) × (owner : Owner) × (live' : List ℕ) × (new k
          ≡ ok (pt, k'))
        × IsTree start pt.root_ppn k' owner live'
        × ((vpn : ℕ) → mapped k'.mem pt.root_ppn vpn ≡ none)

    made :
        (f : ℕ) × (b : StackFrameAllocator) × (n : Memory) × (frame_alloc k.frames k.mem
            ≡ some (f, b, n))
          × (suc (available b) ≡ available k.frames)
        → Result
    made (f, b, n, got, less) =
        let fresh = frame_alloc-IsFresh start k.frames b live k.mem n f t got in
        let blank = λ (j : ℕ).
          let zeroed : is_valid (n f j) ≡ false = rw (fresh.4 j) is_valid-zero in zeroed in
        (
          record { root_ppn = f; frames = f ∷ [] },
          record { frames = b; mem = n },
          λ p. if p == f then some [] else none,
          f ∷ live,
          rw got,
          record {
            tracks = fresh.3;
            rooted = ground arith;
            linked = λ p i path o short v.
                let at_root : p ≡ f = ground arith in cc (blank i, v, at_root);
            held = λ p path o. ground arith;
          },
          λ vpn. mapped-leaf n f vpn ∙ rw (indexes_eq vpn) (rw (leaf, blank (vpn / 2 ^ 18 % 512))),
        )
