-- ===== src/Efs/Directory/Tests.antt =====
-- A directory of two entries, in block 10.
use acore.Base.{arith, true, ℕ, ◌≡◌, refl, List, [], ◌∷◌, some, ok, ◌==◌, if◌then◌else◌, replicate}
use acore.Efs.Layout.{is_utf8, DiskInode, directory, is_dir, get_disk_id}
use acore.Efs.Content.{Device, read_at}
use acore.Efs.Directory.{find_inode_id, ls}
use acore.Efs.Directory.Lookup.{Holds, Finds, names, directory_lem}

abbrev two_entries : DiskInode
two_entries = record {
  size = 64;
  direct = 10 ∷ replicate 27 0;
  indirect1 = 0;
  indirect2 = 0;
  type_of = directory;
}

abbrev entries : Device
entries b j =
    if j == 0
    then 97
    else if j == 28
    then 1
    else if j == 32
    then 98
    else if j == 33
    then 99
    else if j == 60
    then 2
    else 0

abbrev listed : List (List ℕ × ℕ)
listed = (97 ∷ [], 1) ∷ (98 ∷ 99 ∷ [], 2) ∷ []

two_entries-Holds : Holds two_entries entries 0 listed
unfolding is_utf8 read_at get_disk_id
two_entries-Holds = (
  (record { short = omega arith; no_zero = refl; utf8 = refl }, omega arith, refl),
  ((record { short = omega arith; no_zero = refl; utf8 = refl }, omega arith, refl), tt),
)

two_entries-IsDir : is_dir two_entries ≡ true
unfolding is_dir
two_entries-IsDir = refl

directory_lem_example :
    (ls two_entries entries ≡ ok (names listed))
    × Finds (find_inode_id two_entries entries (98 ∷ 99 ∷ [])) (98 ∷ 99 ∷ []) listed
directory_lem_example =
    directory_lem two_entries entries listed (98 ∷ 99 ∷ []) two_entries-IsDir refl two_entries-Holds

found_bc : find_inode_id two_entries entries (98 ∷ 99 ∷ []) ≡ ok (some 2)
unfolding find_inode_id get_disk_id
found_bc = refl
