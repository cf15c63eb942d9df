-- ===== src/Mm/PageTable/Map.antt =====
-- Mapping and unmapping a page change what that page is mapped to, and nothing else.
use Prim.Native.Nat.{bit_or}
use acore.Base.{
  ℕ, ◌+◌, ◌*◌, ◌/◌, ◌%◌, ◌<◌, ◌≤◌, ◌^◌, ◌≡◌, sym, ap, ◌∙◌, ◌≢◌, List, [], ◌∷◌, length, true, false,
  Option, none, some, arith, ok, panic,
}
use acore.Base.Word.Digits.{or_split, or-zero}
use native.Mathlib.Decide.{dec_lt}
use acore.Mm.Memory.{Memory, store}
use acore.Mm.Address.{indexes}
use acore.Mm.Address.Laws.{indexes_eq}
use acore.Mm.Frame.Laws.{available}
use acore.Mm.PageTable.{
  Kernel, PageTable, entry_new, is_valid, walk, flag_v, find_pte, find_pte_create, walk_create, map,
  translate,
}
use acore.Mm.PageTable.Entry.{entry_roundtrip}
use acore.Mm.PageTable.Owner.{
  Owner, IsTree, leaf, valid_only, rev_onto, leaf-walk, read_at, walk-owner, walk-store,
  leaf-store_self, leaf-store_other, store-IsTree,
}
use acore.Mm.PageTable.Walk.{Walked, walk_create-Walked}

-- What a page number is mapped to: the entry that `translate` finds, if it is valid.
abbrev pub mapped : Memory → ℕ → ℕ → Option ℕ
mapped mem root vpn = valid_only (translate mem root vpn)

pub mapped-leaf : (mem : Memory) (root vpn : ℕ) → mapped mem root vpn ≡ leaf mem (indexes vpn) root
unfolding translate find_pte
mapped-leaf mem root vpn = ground (arith, leaf-walk mem (indexes vpn) root)

-- The flags of a mapped entry: the permission and the valid bit.
or_one : (a : ℕ) → bit_or a 1 ≡ a / 2 * 2 + 1
or_one a = elim (dec_lt (a % 2) 1) [
  | yes h ↦ ground (arith, or_split 1 (a / 2) 0 (a % 2) 1, or-zero (a / 2))
  | no h ↦ ground (arith, or_split 1 (a / 2) 0 (a % 2) 1, or-zero (a / 2))
]

length-indexes : (vpn : ℕ) → length (indexes vpn) ≡ 3
length-indexes vpn = rw (indexes_eq vpn)

-- Two pages at one place of the tree are one page.
place_injective :
    (vpn vpn' l : ℕ) (above : List ℕ)
    → vpn < 2 ^ 27
    → vpn' < 2 ^ 27
    → rev_onto (indexes vpn) [] ≡ l ∷ above
    → rev_onto (indexes vpn') [] ≡ l ∷ above
    → vpn ≡ vpn'
place_injective vpn vpn' l above h h' e e' =
    let a = rw (indexes_eq vpn) at e in
    let b = rw (indexes_eq vpn') at e' in
    let same : vpn % 512 ∷ vpn / 2 ^ 9 % 512 ∷ vpn / 2 ^ 18 % 512 ∷ []
        ≡ vpn' % 512 ∷ vpn' / 2 ^ 9 % 512 ∷ vpn' / 2 ^ 18 % 512 ∷ [] =
      a ∙ sym b in
    ground (arith, same)

-- After a store at the place of `vpn` that page is mapped by the new entry, if it is valid, and
-- every other page is mapped as before.
module _ {start root : ℕ} {k : Kernel} {owner : Owner} {live : List ℕ}
    (t : IsTree start root k owner live) (vpn q l v : ℕ) (h : vpn < 2 ^ 27)
    (found : walk k.mem (indexes vpn) root ≡ some (q, l)) where
  pub place :
      (above : List ℕ) × (owner q ≡ some above)
      × (length above ≡ 2)
      × (rev_onto (indexes vpn) [] ≡ l ∷ above)
  place = walk-owner t (indexes vpn) [] root q l t.rooted (omega (arith, length-indexes vpn)) found

  pub stored-IsTree : IsTree start root (record k { mem = store k.mem q l v }) owner live
  stored-IsTree = store-IsTree t place.0 q l v place.1 place.2

  pub walk-stored : walk (store k.mem q l v) (indexes vpn) root ≡ some (q, l)
  walk-stored =
      walk-store t (indexes vpn) [] place.0 root q l v place.1 place.2 t.rooted
        (omega (arith, length-indexes vpn))
      ∙ found

  pub mapped-store_self : mapped (store k.mem q l v) root vpn ≡ valid_only (some v)
  mapped-store_self =
      mapped-leaf (store k.mem q l v) root vpn
      ∙ leaf-store_self t (indexes vpn) [] place.0 root q l v place.1 place.2 t.rooted
          (omega (arith, length-indexes vpn)) found

  pub mapped-store_other :
      (vpn' : ℕ)
      → vpn' < 2 ^ 27
      → vpn' ≢ vpn
      → mapped (store k.mem q l v) root vpn' ≡ mapped k.mem root vpn'
  mapped-store_other vpn' h' ne =
      mapped-leaf (store k.mem q l v) root vpn'
      ∙ leaf-store_other t (indexes vpn') [] place.0 root q l v place.1 place.2 t.rooted
          (omega (arith, length-indexes vpn'))
          (λ e. ne (place_injective vpn' vpn l place.0 h' h e place.3))
      ∙ sym (mapped-leaf k.mem root vpn')

-- Another page table over the same root in which no page but `vpn` is mapped differently.
pub record Changes (start root vpn : ℕ) (k k' : Kernel) (owner' : Owner) (live' : List ℕ)
    (entry : Option ℕ) : Type 0 where
  pub tree : IsTree start root k' owner' live'
  pub here : mapped k'.mem root vpn ≡ entry
  pub others :
      (vpn' : ℕ) → vpn' < 2 ^ 27 → vpn' ≢ vpn → mapped k'.mem root vpn' ≡ mapped k.mem root vpn'

entry_valid :
    (ppn permission : ℕ)
    → ppn < 2 ^ 44
    → permission < 2 ^ 8
    → is_valid (entry_new ppn (bit_or permission flag_v)) ≡ true
entry_valid ppn permission h f =
    ground (arith, or_one permission, entry_roundtrip ppn (bit_or permission flag_v))

-- The walk of `find_pte_create` from the root.
abbrev RootWalk : ℕ → PageTable → Kernel → Owner → ℕ → Type 0
RootWalk start pt k owner vpn =
    Walked start pt.root_ppn pt k owner pt.root_ppn (indexes vpn)
      (walk_create (indexes vpn) pt k pt.root_ppn)

root_walk :
    (start : ℕ) (pt : PageTable) (k : Kernel) (owner : Owner) (live : List ℕ) (vpn : ℕ)
    → IsTree start pt.root_ppn k owner live
    → 2 ≤ available k.frames
    → RootWalk start pt k owner vpn
root_walk start pt k owner live vpn t room =
    walk_create-Walked start pt.root_ppn (indexes vpn) pt k owner live pt.root_ppn [] t t.rooted
      (omega (arith, length-indexes vpn)) (omega (arith, length-indexes vpn))
      (omega (arith, length-indexes vpn))

module _ {start : ℕ} {pt : PageTable} {k : Kernel} {owner : Owner} {live : List ℕ}
    (t : IsTree start pt.root_ppn k owner live) (vpn : ℕ) (w : RootWalk start pt k owner vpn) where
  walked-mapped : (vpn' : ℕ) → mapped w.k'.mem pt.root_ppn vpn' ≡ mapped k.mem pt.root_ppn vpn'
  walked-mapped vpn' =
      mapped-leaf w.k'.mem pt.root_ppn vpn'
      ∙ w.grows.leaves (indexes vpn') [] pt.root_ppn t.rooted (omega (arith, length-indexes vpn'))
      ∙ sym (mapped-leaf k.mem pt.root_ppn vpn')

  walked-entry : mapped k.mem pt.root_ppn vpn ≡ valid_only (some (w.k'.mem w.frame w.index))
  walked-entry =
      sym (walked-mapped vpn)
      ∙ mapped-leaf w.k'.mem pt.root_ppn vpn
      ∙ leaf-walk w.k'.mem (indexes vpn) pt.root_ppn
      ∙ ap (λ o. valid_only (read_at w.k'.mem o)) w.found

-- `map_lem` with the frames that it takes at most.
pub map_spends :
    (start : ℕ) (pt : PageTable) (k : Kernel) (owner : Owner) (live : List ℕ)
    (vpn ppn permission : ℕ)
    → IsTree start pt.root_ppn k owner live
    → vpn < 2 ^ 27
    → ppn < 2 ^ 44
    → permission < 2 ^ 8
    → 2 ≤ available k.frames
    → mapped k.mem pt.root_ppn vpn ≡ none
    → (pt' : PageTable) × (k' : Kernel) × (owner' : Owner) × (live' : List ℕ) × (map pt k vpn ppn
          permission
        ≡ ok (pt', k'))
      × (pt'.root_ppn ≡ pt.root_ppn)
      × Changes start pt.root_ppn vpn k k' owner' live'
          (some (entry_new ppn (bit_or permission flag_v)))
      × (available k.frames ≤ 2 + available k'.frames)
unfolding map find_pte_create
map_spends start pt k owner live vpn ppn permission t h hp hf room free = (
  w.pt',
  new,
  w.owner',
  w.live,
  rw (w.returns, unset),
  w.same_root,
  record {
    tree = stored-IsTree w.grows.tree vpn w.frame w.index bits h w.found;
    here =
        mapped-store_self w.grows.tree vpn w.frame w.index bits h w.found
        ∙ rw (entry_valid ppn permission hp hf);
    others = λ vpn' h' ne.
        mapped-store_other w.grows.tree vpn w.frame w.index bits h w.found vpn' h' ne
        ∙ walked-mapped t vpn w vpn';
  },
  omega (arith, w.spent, length-indexes vpn),
)
  where
    bits : ℕ
    bits = entry_new ppn (bit_or permission flag_v)

    w : RootWalk start pt k owner vpn
    w = root_walk start pt k owner live vpn t room

    new : Kernel
    new = record (w.k') { mem = store w.k'.mem w.frame w.index bits }

    unset : is_valid (w.k'.mem w.frame w.index) ≡ false
    unset = ground (arith, walked-entry t vpn w)

-- `map` of a page that is not mapped, with two frames left for the tables that may be missing:
-- it returns, the page is then mapped to the frame with the permission and the valid bit, every
-- other page is mapped as before, and the tables are a tree over the same root. What a page is mapped
-- to is the entry that `translate` finds if that entry is valid, and nothing otherwise; that
-- `translate` finds an invalid entry where it found none before, in a new table, is not excluded.
pub map_lem :
    (start : ℕ) (pt : PageTable) (k : Kernel) (owner : Owner) (live : List ℕ)
    (vpn ppn permission : ℕ)
    → IsTree start pt.root_ppn k owner live
    → vpn < 2 ^ 27
    → ppn < 2 ^ 44
    → permission < 2 ^ 8
    → 2 ≤ available k.frames
    → mapped k.mem pt.root_ppn vpn ≡ none
    → (pt' : PageTable) × (k' : Kernel) × (owner' : Owner) × (live' : List ℕ) × (map pt k vpn ppn
          permission
        ≡ ok (pt', k'))
      × (pt'.root_ppn ≡ pt.root_ppn)
      × Changes start pt.root_ppn vpn k k' owner' live'
          (some (entry_new ppn (bit_or permission flag_v)))
map_lem start pt k owner live vpn ppn permission t h hp hf room free =
    let (pt', k', owner', live', r, same, changes, spent) =
      map_spends start pt k owner live vpn ppn permission t h hp hf room free in
    (pt', k', owner', live', r, same, changes)

-- `map` of a page that is mapped panics.
pub map_twice :
    (start : ℕ) (pt : PageTable) (k : Kernel) (owner : Owner) (live : List ℕ)
    (vpn ppn permission entry : ℕ)
    → IsTree start pt.root_ppn k owner live
    → 2 ≤ available k.frames
    → mapped k.mem pt.root_ppn vpn ≡ some entry
    → map pt k vpn ppn permission ≡ panic
unfolding map find_pte_create
map_twice start pt k owner live vpn ppn permission entry t room set = rw (w.returns, present)
  where
    w : RootWalk start pt k owner vpn
    w = root_walk start pt k owner live vpn t room

    present : is_valid (w.k'.mem w.frame w.index) ≡ true
    present = ground (arith, walked-entry t vpn w)
