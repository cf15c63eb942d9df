-- ===== src/Efs/Directory.antt =====
-- Directories: the entries of easy-fs/src/vfs.rs, find_inode_id, find and ls. A directory is a file of
-- entries of 32 bytes: 28 of the name and four of the number of the inode.
pub mod Lookup
mod Tests
use acore.Base.{
  ℕ, zero, suc, ◌+◌, ◌*◌, ◌/◌, List, [], ◌∷◌, Bool, true, false, ◌==◌, ◌&&◌, if◌then◌else◌, Option,
  none, some, Outcome, ok, ◌>>=◌, ◌>>◌, assert, length, take, get_or,
}
use acore.Efs.Layout.{DiskInode, is_dir, DirEntry, dir_entry_name}
use acore.Efs.Content.{Device, read_at}

abbrev pub dirent_size : ℕ
dirent_size = 32

abbrev pub entry_of_bytes : List ℕ → DirEntry
entry_of_bytes bytes = record {
  name = take 28 bytes;
  inode_id =
      get_or bytes 28 0
      + 256 * get_or bytes 29 0
      + 65536 * get_or bytes 30 0
      + 16777216 * get_or bytes 31 0;
}

-- The read of one entry, with its assertion.
unfoldable pub read_entry : DiskInode → Device → ℕ → Outcome DirEntry
unfolding read_at
read_entry inode device i = do
  bytes ← read_at inode device (i * dirent_size) dirent_size
  assert (length bytes == dirent_size)
  ok (entry_of_bytes bytes)

abbrev pub same_name : List ℕ → List ℕ → Bool
same_name [] [] = true
same_name [] (b ∷ bs) = false
same_name (a ∷ others) [] = false
same_name (a ∷ others) (b ∷ bs) = a == b && same_name others bs

-- The loop of `find_inode_id`, over the entries that are left.
unfoldable pub find_from : ℕ → DiskInode → Device → ℕ → List ℕ → Outcome (Option ℕ)
unfolding read_entry dir_entry_name
find_from zero inode device i name = ok none
find_from (suc left) inode device i name =
    let rest = find_from left inode device (suc i) name in
    do
      entry ← read_entry inode device i
      found ← dir_entry_name entry
      (if same_name found name then ok (some entry.inode_id) else rest)

unfoldable pub find_inode_id : DiskInode → Device → List ℕ → Outcome (Option ℕ)
unfolding is_dir find_from
find_inode_id inode device name = do
  assert (is_dir inode)
  find_from (inode.size / dirent_size) inode device 0 name

-- The loop of `ls`, over the entries that are left.
unfoldable pub ls_from : ℕ → DiskInode → Device → ℕ → Outcome (List (List ℕ))
unfolding read_entry dir_entry_name
ls_from zero inode device i = ok []
ls_from (suc left) inode device i =
    let rest = ls_from left inode device (suc i) in
    do
      entry ← read_entry inode device i
      name ← dir_entry_name entry
      names ← rest
      ok (name ∷ names)

unfoldable pub ls : DiskInode → Device → Outcome (List (List ℕ))
unfolding is_dir ls_from
ls inode device = do assert (is_dir inode); ls_from (inode.size / dirent_size) inode device 0
