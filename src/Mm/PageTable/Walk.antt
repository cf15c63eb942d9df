-- ===== src/Mm/PageTable/Walk.antt =====
-- `find_pte_create` finds the place of a page number, making the tables on the way.
use acore.Base.{
  ℕ, suc, ◌+◌, ◌<◌, ◌≤◌, ◌≡◌, refl, ◌∙◌, List, [], ◌∷◌, length, true, false, Bool-cases, inl, inr,
  Option, some, arith, Outcome, ok,
}
use acore.Mm.Memory.{Memory}
use acore.Mm.Frame.{StackFrameAllocator, frame_alloc}
use acore.Mm.Frame.Laws.{available, frame_alloc-some}
use acore.Mm.PageTable.{
  Kernel, PageTable, entry_ppn, is_valid, walk, alloc_frame, next_table, walk_create,
}
use acore.Mm.PageTable.Owner.{Owner, IsTree}
use acore.Mm.PageTable.Grow.{
  Grows, Grows-refl, Grows-trans, own, grown, entry, at_hole, grown-Grows,
}

-- What `next_table` returns: the table that stands at the index, made if need be.
record NextTable (start root : ℕ) (pt : PageTable) (k : Kernel) (owner : Owner) (ppn i : ℕ)
    (path : List ℕ) (out : Outcome (ℕ × PageTable × Kernel)) : Type 0 where
  next : ℕ
  pt' : PageTable
  k' : Kernel
  owner' : Owner
  live : List ℕ
  returns : out ≡ ok (next, pt', k')
  same_root : pt'.root_ppn ≡ pt.root_ppn
  grows : Grows start root k k' owner owner' live
  below : owner' next ≡ some (i ∷ path)
  entered : is_valid (k'.mem ppn i) ≡ true
  leads : entry_ppn (k'.mem ppn i) ≡ next
  spent : available k.frames ≤ suc (available k'.frames)

next_table-NextTable :
    (start root : ℕ) (pt : PageTable) (k : Kernel) (owner : Owner) (live : List ℕ) (ppn i : ℕ)
    (path : List ℕ)
    → IsTree start root k owner live
    → owner ppn ≡ some path
    → length path < 2
    → 0 < available k.frames
    → NextTable start root pt k owner ppn i path (next_table pt k ppn i)
unfolding next_table alloc_frame
next_table-NextTable start root pt k owner live ppn i path t o short room =
    elim (Bool-cases (is_valid (k.mem ppn i))) [
      | inl v ↦ record {
        next = entry_ppn (k.mem ppn i);
        pt' = pt;
        k' = k;
        owner' = owner;
        live = live;
        returns = rw v;
        same_root = refl;
        grows = Grows-refl start root k owner live t;
        below = t.linked ppn i path o short v;
        entered = v;
        leads = refl;
        spent = omega arith;
      }
      | inr v ↦ made v (frame_alloc-some start k.frames live k.mem t.tracks room)
    ]
  where
    made :
        is_valid (k.mem ppn i) ≡ false
        → (f : ℕ) × (b : StackFrameAllocator) × (n : Memory) × (frame_alloc k.frames k.mem
            ≡ some (f, b, n))
          × (suc (available b) ≡ available k.frames)
        → NextTable start root pt k owner ppn i path (next_table pt k ppn i)
    made v (f, b, n, got, less) =
        let new = grown t ppn i path o short v f b n got in
        let hole = at_hole t ppn i path o short v f b n got in
        let fields = entry t ppn i path o short v f b n got in
        record {
          next = entry_ppn (new.mem ppn i);
          pt' = record pt { frames = f ∷ pt.frames };
          k' = new;
          owner' = own owner f (i ∷ path);
          live = f ∷ live;
          returns = rw (v, got);
          same_root = refl;
          grows = grown-Grows t ppn i path o short v f b n got;
          below = rw (hole, fields.0) (ground arith);
          entered = rw (hole, fields.1) refl;
          leads = refl;
          spent = omega arith;
        }

-- What `walk_create` returns: the place that the indexes lead to in the tables that are there now.
pub record Walked (start root : ℕ) (pt : PageTable) (k : Kernel) (owner : Owner) (ppn : ℕ)
    (is : List ℕ) (out : Outcome (Option (ℕ × ℕ) × PageTable × Kernel)) : Type 0 where
  pub frame : ℕ
  pub index : ℕ
  pub pt' : PageTable
  pub k' : Kernel
  pub owner' : Owner
  pub live : List ℕ
  pub returns : out ≡ ok (some (frame, index), pt', k')
  pub same_root : pt'.root_ppn ≡ pt.root_ppn
  pub grows : Grows start root k k' owner owner' live
  pub found : walk k'.mem is ppn ≡ some (frame, index)
  pub spent : available k.frames < available k'.frames + length is

Walked-cons :
    (start root : ℕ) (i j : ℕ) (r : List ℕ) (pt : PageTable) (k : Kernel) (owner : Owner) (ppn : ℕ)
    (path : List ℕ)
    → owner ppn ≡ some path
    → (a : NextTable start root pt k owner ppn i path (next_table pt k ppn i))
    → Walked start root a.pt' a.k' a.owner' a.next (j ∷ r) (walk_create (j ∷ r) a.pt' a.k' a.next)
    → Walked start root pt k owner ppn (i ∷ j ∷ r) (walk_create (i ∷ j ∷ r) pt k ppn)
unfolding walk_create walk
Walked-cons start root i j r pt k owner ppn path o a b =
    let upper = b.grows.links ppn i path (a.grows.kept ppn path o) a.entered in
    record {
      frame = b.frame;
      index = b.index;
      pt' = b.pt';
      k' = b.k';
      owner' = b.owner';
      live = b.live;
      returns = rw a.returns b.returns;
      same_root = b.same_root ∙ a.same_root;
      grows = Grows-trans a.grows b.grows;
      found = rw (upper, a.entered, a.leads) b.found;
      spent = omega (arith, a.spent, b.spent);
    }

-- With a frame left for each table that may be missing, the walk reaches its place.
pub walk_create-Walked :
    (start root : ℕ) (is : List ℕ) (pt : PageTable) (k : Kernel) (owner : Owner) (live : List ℕ)
    (ppn : ℕ) (path : List ℕ)
    → IsTree start root k owner live
    → owner ppn ≡ some path
    → 0 < length is
    → length is + length path ≡ 3
    → length is ≤ suc (available k.frames)
    → Walked start root pt k owner ppn is (walk_create is pt k ppn)
unfolding walk_create walk
walk_create-Walked start root [] pt k owner live ppn path t o some_left n room =
    absurd (omega arith)
walk_create-Walked start root (i ∷ []) pt k owner live ppn path t o some_left n room = record {
  frame = ppn;
  index = i;
  pt' = pt;
  k' = k;
  owner' = owner;
  live = live;
  returns = refl;
  same_root = refl;
  grows = Grows-refl start root k owner live t;
  found = refl;
  spent = omega arith;
}
walk_create-Walked start root (i ∷ j ∷ r) pt k owner live ppn path t o some_left n room =
    let a =
      next_table-NextTable start root pt k owner live ppn i path t o (omega arith) (omega arith) in
    Walked-cons start root i j r pt k owner ppn path o a (
      walk_create-Walked start root (j ∷ r) a.pt' a.k' a.owner' a.live a.next (i ∷ path)
        a.grows.tree a.below (omega arith) (omega arith) (omega (arith, a.spent)))
