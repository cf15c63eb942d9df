-- ===== src/Mm/Segment/Identical.antt =====
-- Mapping a segment whose pages are their own frames.
use Prim.Native.Nat.{bit_or}
use acore.Base.{
  ℕ, zero, suc, ◌+◌, ◌-◌, ◌*◌, ◌^◌, ◌<◌, ◌≤◌, ◌≡◌, refl, ◌∙◌, ◌⊎◌, inl, inr, List, none, some, ok,
  arith,
}
use acore.Mm.Frame.Laws.{available}
use acore.Mm.PageTable.{PageTable, Kernel, map, entry_new, flag_v}
use acore.Mm.PageTable.Owner.{Owner, IsTree}
use acore.Mm.PageTable.Map.{mapped, Changes, map_spends}
use native.Mathlib.Decide.{dec_lt}
use acore.Mm.Segment.{identical, MemorySegment, map_page, map_pages, segment_map}

map_page-identical :
    (segment : MemorySegment) (pt pt' : PageTable) (k k' : Kernel) (vpn : ℕ)
    → segment.map_type ≡ identical
    → map pt k vpn vpn segment.permission ≡ ok (pt', k')
    → map_page segment pt k vpn ≡ ok (segment, pt', k')
unfolding map_page
map_page-identical segment pt pt' k k' vpn i e = rw (i, e) refl

map_pages-step :
    (left : ℕ) (segment : MemorySegment) (pt pt' : PageTable) (k k' : Kernel) (vpn : ℕ)
    → map_page segment pt k vpn ≡ ok (segment, pt', k')
    → map_pages (suc left) segment pt k vpn ≡ map_pages left segment pt' k' (suc vpn)
unfolding map_pages
map_pages-step left segment pt pt' k k' vpn e = rw e refl

-- The tables after n pages from one on are mapped to themselves.
pub record IsIdentical (start root vpn n permission : ℕ) (k k' : Kernel) (owner' : Owner)
    (live' : List ℕ) : Type 0 where
  pub tree : IsTree start root k' owner' live'
  pub inside :
      (v : ℕ)
      → vpn ≤ v
      → v < vpn + n
      → mapped k'.mem root v ≡ some (entry_new v (bit_or permission flag_v))
  pub outside :
      (v : ℕ) → v < 2 ^ 27 → (v < vpn) ⊎ (vpn + n ≤ v) → mapped k'.mem root v ≡ mapped k.mem root v

-- The first page of the rest is mapped by the rest only if it was before.
module _ {start root vpn n permission : ℕ} {k k₁ k' : Kernel} {owner₁ owner' : Owner}
    {live₁ live' : List ℕ} (here : vpn < 2 ^ 27)
    (c : Changes start root vpn k k₁ owner₁ live₁ (some (entry_new vpn (bit_or permission flag_v))))
    (rest : IsIdentical start root (suc vpn) n permission k₁ k' owner' live') where
  add-inside :
      (v : ℕ)
      → vpn ≤ v
      → v < vpn + suc n
      → mapped k'.mem root v ≡ some (entry_new v (bit_or permission flag_v))
  add-inside v low high = elim (dec_lt vpn v) [
    | yes later ↦ rest.inside v (omega arith) (omega arith)
    | no stop ↦
        let at : v ≡ vpn = omega arith in rw at (rest.outside vpn here (inl (omega arith)) ∙ c.here)
  ]

  add-outside :
      (v : ℕ)
      → v < 2 ^ 27
      → (v < vpn) ⊎ (vpn + suc n ≤ v)
      → mapped k'.mem root v ≡ mapped k.mem root v
  add-outside v h (inl low) = rest.outside v h (inl (omega arith)) ∙ c.others v h (λ e. omega arith)
  add-outside v h (inr high) =
      rest.outside v h (inr (omega arith)) ∙ c.others v h (λ e. omega arith)

  add-IsIdentical : IsIdentical start root vpn (suc n) permission k k' owner' live'
  add-IsIdentical = record { tree = rest.tree; inside = add-inside; outside = add-outside }

pub map_pages_lem :
    (n start : ℕ) (segment : MemorySegment) (pt : PageTable) (k : Kernel) (owner : Owner)
    (live : List ℕ) (vpn : ℕ)
    → segment.map_type ≡ identical
    → segment.permission < 2 ^ 8
    → IsTree start pt.root_ppn k owner live
    → vpn + n ≤ 2 ^ 27
    → n * 2 ≤ available k.frames
    → ((v : ℕ) → vpn ≤ v → v < vpn + n → mapped k.mem pt.root_ppn v ≡ none)
    → (pt' : PageTable) × (k' : Kernel) × (owner' : Owner) × (live' : List ℕ) × (map_pages n segment
          pt k vpn
        ≡ ok (segment, pt', k'))
      × (pt'.root_ppn ≡ pt.root_ppn)
      × IsIdentical start pt.root_ppn vpn n segment.permission k k' owner' live'
unfolding map_pages
map_pages_lem zero start segment pt k owner live vpn i f t h room free = (
  pt,
  k,
  owner,
  live,
  refl,
  refl,
  record { tree = t; inside = λ v low high. ground arith; outside = λ v b o. refl },
)
map_pages_lem (suc n) start segment pt k owner live vpn i f t h room free =
    let (pt₁, k₁, owner₁, live₁, e, root, c, spent) =
      map_spends start pt k owner live vpn vpn segment.permission t (omega arith) (omega arith) f
        (omega arith) (free vpn (omega arith) (omega arith)) in
    let (pt', k', owner', live', e', root', rest) =
      map_pages_lem n start segment pt₁ k₁ owner₁ live₁ (suc vpn) i f (rw root c.tree) (omega arith)
        (omega arith)
        (λ v low high.
          rw root
            (c.others v (omega arith) (λ q. omega arith) ∙ free v (omega arith) (omega arith))) in
    (
      pt',
      k',
      owner',
      live',
      map_pages-step n segment pt pt₁ k k₁ vpn (map_page-identical segment pt pt₁ k k₁ vpn i e)
          ∙ e',
      root' ∙ root,
      add-IsIdentical (omega arith) c (rw root at rest),
    )

-- `map` of an identical segment whose range lies below 2 ^ 27, none of whose pages is mapped, with
-- two frames left for each page: it returns with the segment as it was, every page of the range
-- is then mapped to the frame of its own number with the permission and the valid bit, every other
-- page is mapped as before, and the tables are a tree over the same root. What a page is mapped to is
-- the entry that `translate` finds if that entry is valid, and nothing otherwise.
pub segment_map_lem :
    (start : ℕ) (segment : MemorySegment) (pt : PageTable) (k : Kernel) (owner : Owner)
    (live : List ℕ)
    → segment.map_type ≡ identical
    → segment.permission < 2 ^ 8
    → IsTree start pt.root_ppn k owner live
    → segment.vpn_range.l ≤ segment.vpn_range.r
    → segment.vpn_range.r ≤ 2 ^ 27
    → (segment.vpn_range.r - segment.vpn_range.l) * 2 ≤ available k.frames
    → ((v : ℕ)
        → segment.vpn_range.l ≤ v
        → v < segment.vpn_range.r
        → mapped k.mem pt.root_ppn v ≡ none)
    → (pt' : PageTable) × (k' : Kernel) × (owner' : Owner) × (live' : List ℕ) × (segment_map segment
          pt k
        ≡ ok (segment, pt', k'))
      × (pt'.root_ppn ≡ pt.root_ppn)
      × IsIdentical start pt.root_ppn segment.vpn_range.l
          (segment.vpn_range.r - segment.vpn_range.l)
          segment.permission
          k
          k'
          owner'
          live'
unfolding segment_map
segment_map_lem start segment pt k owner live i f t h top room free =
    map_pages_lem (segment.vpn_range.r - segment.vpn_range.l) start segment pt k owner live
      segment.vpn_range.l i f t (omega arith) room (λ v low high. free v low (omega arith))
