-- ===== src/Mm/PageTable/Owner.antt =====
-- The tables of an address space form a tree: every table frame stands at one place of it, the
-- path of indexes that leads to it, the last index first.
use acore.Base.{
  ℕ, ◌+◌, ◌<◌, ◌≡◌, refl, ◌≢◌, List, [], ◌∷◌, length, count, true, Bool-cases, inl, inr,
  if◌then◌else◌, Option, none, some, arith,
}
use acore.Mm.Memory.{Memory, store}
use acore.Mm.Frame.Laws.{Tracks}
use acore.Mm.PageTable.{Kernel, entry_ppn, is_valid, walk}

abbrev pub Owner : Type 0
Owner = ℕ → Option (List ℕ)

-- Each valid entry of an upper table leads to the table that stands below it, and table frames
-- are in use.
pub record IsTree (start root : ℕ) (k : Kernel) (owner : Owner) (live : List ℕ) : Type 0 where
  pub tracks : Tracks start k.frames live
  pub rooted : owner root ≡ some []
  pub linked :
      (p i : ℕ) (path : List ℕ)
      → owner p ≡ some path
      → length path < 2
      → is_valid (k.mem p i) ≡ true
      → owner (entry_ppn (k.mem p i)) ≡ some (i ∷ path)
  pub held : (p : ℕ) (path : List ℕ) → owner p ≡ some path → 0 < count p live

-- An entry counts only if it is valid.
abbrev pub valid_only : Option ℕ → Option ℕ
valid_only none = none
valid_only (some e) = if is_valid e then some e else none

-- The valid entry at the end of the walk over the indexes.
unfoldable pub leaf : Memory → List ℕ → ℕ → Option ℕ
leaf mem [] p = none
leaf mem (i ∷ []) p = valid_only (some (mem p i))
leaf mem (i ∷ j ∷ r) p =
    let below = leaf mem (j ∷ r) (entry_ppn (mem p i)) in if is_valid (mem p i) then below else none

abbrev pub read_at : Memory → Option (ℕ × ℕ) → Option ℕ
read_at mem none = none
read_at mem (some (q, l)) = some (mem q l)

pub leaf-walk :
    (mem : Memory) (is : List ℕ) (p : ℕ) → leaf mem is p ≡ valid_only (read_at mem (walk mem is p))
unfolding leaf walk
leaf-walk mem [] p = refl
leaf-walk mem (i ∷ []) p = refl
leaf-walk mem (i ∷ j ∷ r) p = elim (Bool-cases (is_valid (mem p i))) [
  | inl e ↦ rw (e, walk) (leaf-walk mem (j ∷ r) (entry_ppn (mem p i)))
  | inr e ↦ rw (e, walk)
]

abbrev pub rev_onto : List ℕ → List ℕ → List ℕ
rev_onto [] path = path
rev_onto (i ∷ is) path = rev_onto is (i ∷ path)

module _ {start root : ℕ} {k : Kernel} {owner : Owner} {live : List ℕ}
    (t : IsTree start root k owner live) where
  -- A walk ends at the table that stands above the last index.
  pub walk-owner :
      (is path : List ℕ) (p q l : ℕ)
      → owner p ≡ some path
      → length is + length path ≡ 3
      → walk k.mem is p ≡ some (q, l)
      → (above : List ℕ) × (owner q ≡ some above)
        × (length above ≡ 2)
        × (rev_onto is path ≡ l ∷ above)
  unfolding walk
  walk-owner [] path p q l o n e = cc
  walk-owner (i ∷ []) path p q l o n e = (path, ground arith, omega arith, ground arith)
  walk-owner (i ∷ j ∷ r) path p q l o n e = elim (Bool-cases (is_valid (k.mem p i))) [
    | inl v ↦
        walk-owner (j ∷ r) (i ∷ path) (entry_ppn (k.mem p i)) q l
          (t.linked p i path o (omega arith) v) (omega arith) (rw (v, walk) at e)
    | inr v ↦ cc (rw (v, walk) at e)
  ]

  -- A store to a last-level table leaves every walk as it was,
  pub walk-store :
      (is path above : List ℕ) (p q l v : ℕ)
      → owner q ≡ some above
      → length above ≡ 2
      → owner p ≡ some path
      → length is + length path ≡ 3
      → walk (store k.mem q l v) is p ≡ walk k.mem is p
  unfolding walk
  walk-store [] path above p q l v oq nq o n = refl
  walk-store (i ∷ []) path above p q l v oq nq o n = refl
  walk-store (i ∷ j ∷ r) path above p q l v oq nq o n =
      let same : store k.mem q l v p i ≡ k.mem p i = ground arith in
      elim (Bool-cases (is_valid (k.mem p i))) [
        | inl e ↦
            rw (same, e)
              (walk-store (j ∷ r) (i ∷ path) above (entry_ppn (k.mem p i)) q l v oq nq
                (t.linked p i path o (omega arith) e) (omega arith))
        | inr e ↦ rw (same, e)
      ]

  -- changes the entry at its own place,
  pub leaf-store_self :
      (is path above : List ℕ) (p q l v : ℕ)
      → owner q ≡ some above
      → length above ≡ 2
      → owner p ≡ some path
      → length is + length path ≡ 3
      → walk k.mem is p ≡ some (q, l)
      → leaf (store k.mem q l v) is p ≡ valid_only (some v)
  leaf-store_self is path above p q l v oq nq o n e =
      rw (leaf-walk (store k.mem q l v) is p, walk-store is path above p q l v oq nq o n, e)
        (ground arith)

  -- and no entry at another place.
  pub leaf-store_other :
      (is path above : List ℕ) (p q l v : ℕ)
      → owner q ≡ some above
      → length above ≡ 2
      → owner p ≡ some path
      → length is + length path ≡ 3
      → rev_onto is path ≢ l ∷ above
      → leaf (store k.mem q l v) is p ≡ leaf k.mem is p
  unfolding leaf
  leaf-store_other [] path above p q l v oq nq o n ne = refl
  leaf-store_other (i ∷ []) path above p q l v oq nq o n ne =
      let same : store k.mem q l v p i ≡ k.mem p i = ground arith in rw same
  leaf-store_other (i ∷ j ∷ r) path above p q l v oq nq o n ne =
      let same : store k.mem q l v p i ≡ k.mem p i = ground arith in
      elim (Bool-cases (is_valid (k.mem p i))) [
        | inl e ↦
            rw (same, e)
              (leaf-store_other (j ∷ r) (i ∷ path) above (entry_ppn (k.mem p i)) q l v oq nq
                (t.linked p i path o (omega arith) e) (omega arith) ne)
        | inr e ↦ rw (same, e)
      ]

  -- The tree stands after such a store.
  pub store-IsTree :
      (above : List ℕ) (q l v : ℕ)
      → owner q ≡ some above
      → length above ≡ 2
      → IsTree start root (record k { mem = store k.mem q l v }) owner live
  store-IsTree above q l v oq nq = record {
    tracks = t.tracks;
    rooted = t.rooted;
    linked = λ p i path o n e.
        let same : store k.mem q l v p i ≡ k.mem p i = ground arith in
        rw same (t.linked p i path o n (rw same at e));
    held = t.held;
  }
