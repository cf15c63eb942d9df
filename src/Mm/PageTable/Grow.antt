-- ===== src/Mm/PageTable/Grow.antt =====
-- Making a table on the way down keeps the tree, and every entry that was mapped.
use acore.Base.{
  ℕ, ◌+◌, ◌<◌, ◌≤◌, ◌≡◌, refl, ◌∙◌, ◌≢◌, List, [], ◌∷◌, length, count, true, false, Bool-cases, inl,
  inr, if◌then◌else◌, none, some, arith, ◌==◌,
}
use native.Mathlib.Decide.{ℕ_discrete}
use acore.Mm.Memory.{Memory, store}
use acore.Mm.Frame.{StackFrameAllocator, frame_alloc}
use acore.Mm.Frame.Laws.{Tracks, frame_alloc-IsFresh}
use acore.Mm.PageTable.{Kernel, entry_new, entry_ppn, is_valid, flag_v}
use acore.Mm.PageTable.Entry.{entry_roundtrip, is_valid-zero}
use acore.Mm.PageTable.Owner.{Owner, IsTree, leaf}

-- From `k` to `k'` tables were added, and nothing else has changed.
pub record Grows (start root : ℕ) (k k' : Kernel) (owner owner' : Owner) (live' : List ℕ)
    : Type 0 where
  pub tree : IsTree start root k' owner' live'
  pub kept : (p : ℕ) (path : List ℕ) → owner p ≡ some path → owner' p ≡ some path
  pub links :
      (p i : ℕ) (path : List ℕ)
      → owner p ≡ some path
      → is_valid (k.mem p i) ≡ true
      → k'.mem p i ≡ k.mem p i
  pub leaves :
      (is path : List ℕ) (p : ℕ)
      → owner p ≡ some path
      → length is + length path ≡ 3
      → leaf k'.mem is p ≡ leaf k.mem is p

pub Grows-refl :
    (start root : ℕ) (k : Kernel) (owner : Owner) (live : List ℕ)
    → IsTree start root k owner live
    → Grows start root k k owner owner live
Grows-refl start root k owner live t = record {
  tree = t;
  kept = λ p path o. o;
  links = λ p i path o e. refl;
  leaves = λ is path p o n. refl;
}

pub Grows-trans :
    {start root : ℕ} {k k' k'' : Kernel} {owner owner' owner'' : Owner} {live' live'' : List ℕ}
    → Grows start root k k' owner owner' live'
    → Grows start root k' k'' owner' owner'' live''
    → Grows start root k k'' owner owner'' live''
Grows-trans a b = record {
  tree = b.tree;
  kept = λ p path o. b.kept p path (a.kept p path o);
  links = λ p i path o v.
      let same = a.links p i path o v in b.links p i path (a.kept p path o) (rw same v) ∙ same;
  leaves = λ is path p o n. b.leaves is path p (a.kept p path o) n ∙ a.leaves is path p o n;
}

-- The owner map with a new table at the place `path`.
abbrev pub own : Owner → ℕ → List ℕ → Owner
own owner f path p = if p == f then some path else owner p

module _ {start root : ℕ} {k : Kernel} {owner : Owner} {live : List ℕ}
    (t : IsTree start root k owner live) (ppn i : ℕ) (path : List ℕ) (o : owner ppn ≡ some path)
    (short : length path < 2) (hole : is_valid (k.mem ppn i) ≡ false) (f : ℕ)
    (b : StackFrameAllocator) (n : Memory) (got : frame_alloc k.frames k.mem ≡ some (f, b, n)) where
  abbrev pub grown : Kernel
  grown = record { frames = b; mem = store n ppn i (entry_new f flag_v) }

  fresh :
      (count f live ≡ 0)
      × (start ≤ f)
      × (f < k.frames.end)
      × Tracks start b (f ∷ live)
      × ((j : ℕ) → n f j ≡ 0)
      × ((p j : ℕ) → (p ≡ f → ⊥) → n p j ≡ k.mem p j)
  fresh = frame_alloc-IsFresh start k.frames b live k.mem n f t.tracks got

  -- No table stands in the new frame.
  unowned : (p : ℕ) (q : List ℕ) → owner p ≡ some q → p ≢ f
  unowned p q e same = ground (arith, t.held p q e, fresh.0)

  pub entry : (entry_ppn (entry_new f flag_v) ≡ f) × (is_valid (entry_new f flag_v) ≡ true)
  entry =
      let fields =
        entry_roundtrip f flag_v (omega (arith, fresh.2, t.tracks.width)) (omega arith) in
      (fields.0, fields.2)

  zeroed : (j : ℕ) → is_valid (n f j) ≡ false
  zeroed j = rw (fresh.4 j) is_valid-zero

  pub at_hole : grown.mem ppn i ≡ entry_new f flag_v
  at_hole = ground arith

  at_fresh : (j : ℕ) → is_valid (grown.mem f j) ≡ false
  at_fresh j =
      let same : grown.mem f j ≡ n f j = ground (arith, unowned ppn path o) in rw same (zeroed j)

  elsewhere : (p j : ℕ) → p ≢ f → (p ≡ ppn → j ≢ i) → grown.mem p j ≡ k.mem p j
  elsewhere p j h g = elim (ℕ_discrete p ppn) [
    | yes e ↦ ground (arith, fresh.5 p j h, g e)
    | no e ↦ ground (arith, fresh.5 p j h)
  ]

  own-old : (p : ℕ) (q : List ℕ) → owner p ≡ some q → own owner f (i ∷ path) p ≡ some q
  own-old p q e = ground (arith, unowned p q e)

  grown-linked :
      (p j : ℕ) (q : List ℕ)
      → own owner f (i ∷ path) p ≡ some q
      → length q < 2
      → is_valid (grown.mem p j) ≡ true
      → own owner f (i ∷ path) (entry_ppn (grown.mem p j)) ≡ some (j ∷ q)
  grown-linked p j q e short' v = elim (ℕ_discrete p f) [
    | yes new ↦ cc (at_fresh j, v, new)
    | no old ↦ elim (ℕ_discrete p ppn) [
      | yes here ↦ elim (ℕ_discrete j i) [
        | yes at ↦
            let same : grown.mem p j ≡ entry_new f flag_v = ground arith in
            rw (same, entry.0) (ground arith)
        | no away ↦ carried old (λ _. away)
      ]
      | no there ↦ carried old (λ h. absurd (there h))
    ]
  ]
    where
      carried :
          p ≢ f
          → (p ≡ ppn → j ≢ i)
          → own owner f (i ∷ path) (entry_ppn (grown.mem p j)) ≡ some (j ∷ q)
      carried old apart =
          let same = elsewhere p j old apart in
          rw same (own-old _ _ (t.linked p j q (ground arith) short' (rw same at v)))

  grown-IsTree : IsTree start root grown (own owner f (i ∷ path)) (f ∷ live)
  grown-IsTree = record {
    tracks = fresh.3;
    rooted = own-old root [] t.rooted;
    linked = grown-linked;
    held = λ p q e. ground (arith, t.held p q, fresh.0);
  }

  dead : (c : ℕ) (r : List ℕ) → leaf grown.mem (c ∷ r) f ≡ none
  unfolding leaf
  dead c [] = rw (at_fresh c)
  dead c (d ∷ r) = rw (at_fresh c)

  grown-leaves :
      (is q : List ℕ) (p : ℕ)
      → owner p ≡ some q
      → length is + length q ≡ 3
      → leaf grown.mem is p ≡ leaf k.mem is p
  unfolding leaf
  grown-leaves [] q p e m = refl
  grown-leaves (a ∷ []) q p e m =
      let same : grown.mem p a ≡ k.mem p a =
        elsewhere p a (unowned p q e) (λ h. absurd (ground arith)) in
      rw same
  grown-leaves (a ∷ c ∷ r) q p e m =
      let rec = λ (v : is_valid (k.mem p a) ≡ true).
        grown-leaves (c ∷ r) (a ∷ q) (entry_ppn (k.mem p a)) (t.linked p a q e (omega arith) v)
          (omega arith) in
      elim (ℕ_discrete p ppn) [
        | yes here ↦ elim (ℕ_discrete a i) [
          | yes at ↦
              let new : grown.mem p a ≡ entry_new f flag_v = ground arith in
              let old : is_valid (k.mem p a) ≡ false = ground arith in
              rw (new, old, entry.0, entry.1) (dead c r)
          | no away ↦ carried rec (λ _. away)
        ]
        | no there ↦ carried rec (λ h. absurd (there h))
      ]
    where
      carried :
          (is_valid (k.mem p a) ≡ true
            → leaf grown.mem (c ∷ r) (entry_ppn (k.mem p a))
              ≡ leaf k.mem (c ∷ r) (entry_ppn (k.mem p a)))
          → (p ≡ ppn → a ≢ i)
          → leaf grown.mem (a ∷ c ∷ r) p ≡ leaf k.mem (a ∷ c ∷ r) p
      carried rec apart =
          let same = elsewhere p a (unowned p q e) apart in
          elim (Bool-cases (is_valid (k.mem p a))) [
            | inl v ↦ rw (same, v) (rec v)
            | inr v ↦ rw (same, v)
          ]

  pub grown-Grows : Grows start root k grown owner (own owner f (i ∷ path)) (f ∷ live)
  grown-Grows = record {
    tree = grown-IsTree;
    kept = own-old;
    links = λ p j q e v. elsewhere p j (unowned p q e) (λ here at.
        let open_there : is_valid (k.mem p j) ≡ false = ground arith in cc (open_there, v));
    leaves = grown-leaves;
  }
