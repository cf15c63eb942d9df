-- ===== src/Efs/Directory/Lookup.antt =====
-- A directory as a list of names and numbers of inodes.
use acore.Base.{
  ◌+◌, ◌-◌, ◌*◌, ◌%◌, ◌^◌, ◌<◌, ◌≤◌, zero, count, take, get_or, replicate, length-append,
  length-replicate, Bool-cases, ◌++◌, length, sym, ◌≢◌, ◌⊎◌, ap₂, ◌==◌, ℕ, suc, ◌/◌, ◌≡◌, refl, ap,
  ◌∙◌, List, [], ◌∷◌, true, false, if◌then◌else◌, Option, none, some, Outcome, ok, arith, inl, inr,
}
use acore.Efs.Layout.{DiskInode, is_dir, DirEntry, dir_entry_name, is_utf8}
use acore.Efs.Layout.Laws.{until_zero-append}
use acore.Efs.Content.{Device, read_at}
use acore.Efs.Directory.{
  dirent_size, entry_of_bytes, read_entry, same_name, find_from, find_inode_id, ls_from, ls,
}

-- An entry as its 32 bytes: the name, padded with zeros to 28 bytes, and the four bytes of the number
-- of the inode, the lowest first.
abbrev pub entry_bytes : List ℕ → ℕ → List ℕ
entry_bytes name id =
    (name ++ replicate (28 - length name) 0)
    ++ (id % 256 ∷ id / 256 % 256 ∷ id / 65536 % 256 ∷ id / 16777216 % 256 ∷ [])

-- A name that an entry can hold.
pub record IsName (name : List ℕ) : Type 0 where
  pub short : length name ≤ 27
  pub no_zero : count 0 name ≡ 0
  pub utf8 : is_utf8 name ≡ true

-- The bytes of the file from an entry on are those of a list of names and numbers.
abbrev pub Holds : DiskInode → Device → ℕ → List (List ℕ × ℕ) → Type 0
Holds inode device i [] = Unit
Holds inode device i ((name, id) ∷ rest) =
    (IsName name × (id < 2 ^ 32) × (read_at inode device (i * 32) 32 ≡ ok (entry_bytes name id)))
    × Holds inode device (suc i) rest

take-append : (n : ℕ) (xs ys : List ℕ) → length xs ≡ n → take n (xs ++ ys) ≡ xs
take-append zero [] [] h = refl
take-append zero [] (y ∷ ys) h = refl
take-append zero (x ∷ xs) ys h = absurd (omega arith)
take-append (suc n) [] ys h = absurd (omega arith)
take-append (suc n) (x ∷ xs) ys h = ap (λ l. x ∷ l) (take-append n xs ys (omega arith))

get_or-append :
    (n k : ℕ) (xs ys : List ℕ) → length xs ≡ n → get_or (xs ++ ys) (k + n) 0 ≡ get_or ys k 0
get_or-append zero k [] ys h = ap (λ j. get_or ys j 0) (omega arith)
get_or-append zero k (x ∷ xs) ys h = absurd (omega arith)
get_or-append (suc n) k [] ys h = absurd (omega arith)
get_or-append (suc n) k (x ∷ xs) ys h =
    let next : k + suc n ≡ suc (k + n) = omega arith in
    rw next (get_or-append n k xs ys (omega arith))

length-padded :
    (name : List ℕ) → length name ≤ 27 → length (name ++ replicate (28 - length name) 0) ≡ 28
length-padded name h = omega (
  arith,
  h,
  length-append {A = ℕ} name (replicate (28 - length name) 0),
  length-replicate {A = ℕ} (28 - length name) 0,
)

entry_read :
    (name : List ℕ) (id : ℕ)
    → IsName name
    → id < 2 ^ 32
    → entry_of_bytes (entry_bytes name id)
      ≡ record { name = name ++ replicate (28 - length name) 0; inode_id = id }
entry_read name id is h =
    let padded = name ++ replicate (28 - length name) 0 in
    let four = id % 256 ∷ id / 256 % 256 ∷ id / 65536 % 256 ∷ id / 16777216 % 256 ∷ [] in
    let n = length-padded name is.short in
    let byte = λ (k : ℕ). get_or-append 28 k padded four n in
    let sum : id % 256
          + 256 * (id / 256 % 256)
          + 65536 * (id / 65536 % 256)
          + 16777216 * (id / 16777216 % 256)
        ≡ id =
      omega (arith, h) in
    rw (take-append 28 padded four n, byte 0, byte 1, byte 2, byte 3, sum) refl

length-entry_bytes : (name : List ℕ) (id : ℕ) → IsName name → length (entry_bytes name id) ≡ 32
length-entry_bytes name id is = omega (
  arith,
  length-padded name is.short,
  length-append {A = ℕ} (name ++ replicate (28 - length name) 0)
      (id % 256 ∷ id / 256 % 256 ∷ id / 65536 % 256 ∷ id / 16777216 % 256 ∷ []),
)

-- What the loops read of such an entry.
abbrev Reads : DiskInode → Device → ℕ → List ℕ → ℕ → Type 0
Reads inode device i name id =
    (e : DirEntry) × (read_entry inode device i ≡ ok e)
    × (dir_entry_name e ≡ ok name)
    × (e.inode_id ≡ id)

held-Reads :
    (inode : DiskInode) (device : Device) (i : ℕ) (name : List ℕ) (id : ℕ)
    → IsName name
    → id < 2 ^ 32
    → read_at inode device (i * 32) 32 ≡ ok (entry_bytes name id)
    → Reads inode device i name id
unfolding read_entry dir_entry_name
held-Reads inode device i name id is h e =
    let zeros : 28 - length name ≡ suc (27 - length name) = omega (arith, is.short) in
    (
      record { name = name ++ replicate (28 - length name) 0; inode_id = id },
      rw (e, length-entry_bytes name id is, entry_read name id is h) refl,
      rw (zeros, until_zero-append name (27 - length name) is.no_zero, is.utf8) refl,
      refl,
    )

abbrev pub Absent : List ℕ → List (List ℕ × ℕ) → Type 0
Absent name [] = Unit
Absent name ((n, id) ∷ rest) = (n ≢ name) × Absent name rest

-- What a search by name finds in a list of entries: the first entry of that name.
abbrev pub Finds : Outcome (Option ℕ) → List ℕ → List (List ℕ × ℕ) → Type 0
Finds found name es =
    ((found ≡ ok none) × Absent name es)
    ⊎ ((before after : List (List ℕ × ℕ)) × (id : ℕ) × (found ≡ ok (some id))
        × (es ≡ before ++ (name, id) ∷ after)
        × Absent name before)

abbrev pub names : List (List ℕ × ℕ) → List (List ℕ)
names [] = []
names ((n, id) ∷ rest) = n ∷ names rest

same_name-true : (xs ys : List ℕ) → same_name xs ys ≡ true → xs ≡ ys
same_name-true [] [] h = refl
same_name-true [] (y ∷ ys) h = absurd (ground (arith, h))
same_name-true (x ∷ xs) [] h = absurd (ground (arith, h))
same_name-true (x ∷ xs) (y ∷ ys) h = elim (Bool-cases (x == y)) [
  | inl e ↦
      let first : x ≡ y = ground (arith, e) in
      let rest : same_name xs ys ≡ true = ground (arith, h, e) in
      ap₂ (λ z zs. z ∷ zs) first (same_name-true xs ys rest)
  | inr e ↦ absurd (ground (arith, h, e))
]

same_name_self : (xs : List ℕ) → same_name xs xs ≡ true
same_name_self [] = refl
same_name_self (x ∷ xs) = ground (arith, same_name_self xs)

same_name-false : (xs ys : List ℕ) → same_name xs ys ≡ false → xs ≢ ys
same_name-false xs ys h e = absurd (ground (arith, h, ap (same_name xs) e, same_name_self xs))

find_from-step :
    (left : ℕ) (inode : DiskInode) (device : Device) (i : ℕ) (name n : List ℕ) (e : DirEntry)
    → read_entry inode device i ≡ ok e
    → dir_entry_name e ≡ ok n
    → find_from (suc left) inode device i name ≡ (
        if same_name n name then ok (some e.inode_id) else find_from left inode device (suc i) name)
unfolding find_from
find_from-step left inode device i name n e r d = rw (r, d) refl

find_from_lem :
    (es : List (List ℕ × ℕ)) (inode : DiskInode) (device : Device) (i : ℕ) (name : List ℕ)
    → Holds inode device i es
    → Finds (find_from (length es) inode device i name) name es
unfolding find_from
find_from_lem [] inode device i name h = inl (refl, tt)
find_from_lem ((n, id) ∷ es) inode device i name ((is, low, held), h) =
    let (e, r, d, k) = held-Reads inode device i n id is low held in
    let step = find_from-step (length es) inode device i name n e r d in
    elim (Bool-cases (same_name n name)) [
      | inl t ↦
          let same = same_name-true n name t in
          inr ([], es, id, step ∙ rw t (ap (λ x. ok (some x)) k), ap (λ x. (x, id) ∷ es) same, tt)
      | inr t ↦
          let other = same_name-false n name t in
          let here : find_from (suc (length es)) inode device i name
              ≡ find_from (length es) inode device (suc i) name =
            step ∙ rw t refl in
          elim (find_from_lem es inode device (suc i) name h) [
            | inl (f, absent) ↦ inl (here ∙ f, (other, absent))
            | inr (before, after, id', f, split, absent) ↦ inr (
              (n, id) ∷ before,
              after,
              id',
              here ∙ f,
              ap (λ xs. (n, id) ∷ xs) split,
              (other, absent),
            )
          ]
    ]

ls_from_lem :
    (es : List (List ℕ × ℕ)) (inode : DiskInode) (device : Device) (i : ℕ)
    → Holds inode device i es
    → ls_from (length es) inode device i ≡ ok (names es)
unfolding ls_from
ls_from_lem [] inode device i h = refl
ls_from_lem ((n, id) ∷ es) inode device i ((is, low, held), h) =
    let (e, r, d, k) = held-Reads inode device i n id is low held in
    rw (r, d, ls_from_lem es inode device (suc i) h) refl

-- A directory whose bytes are those of a list of entries, as many as its size says, each a name in
-- UTF-8 of at most 27 bytes without a zero and a number of 32 bits, is listed as their names in order,
-- and a search finds the number of the first entry of the name, or none if there is no such entry.
pub directory_lem :
    (inode : DiskInode) (device : Device) (es : List (List ℕ × ℕ)) (name : List ℕ)
    → is_dir inode ≡ true
    → length es ≡ inode.size / dirent_size
    → Holds inode device 0 es
    → (ls inode device ≡ ok (names es)) × Finds (find_inode_id inode device name) name es
unfolding ls find_inode_id
directory_lem inode device es name d n h =
    let listed = ls_from_lem es inode device 0 h in
    let found = find_from_lem es inode device 0 name h in rw (d, sym n) (listed, found)
