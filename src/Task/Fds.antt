-- ===== src/Task/Fds.antt =====
-- The file descriptors of a process: `alloc_fd` of os/src/task/process/mod.rs and
-- os/src/syscall/fs.rs. A file is any type with the methods of the trait `File`.
pub mod Laws
mod Tests
use acore.Base.{
  ℕ, ◌-◌, ◌^◌, List, [], ◌∷◌, ◌++◌, Bool, not, leb, if◌then◌else◌, Option, none, some, Outcome, ok,
  ◌>>=◌, unwrap, length, get_elem?, set,
}
use acore.Task.Slots.{first_free}

-- -1 as 64 bits of an `isize`.
abbrev pub failed : ℕ
failed = 2 ^ 64 - 1

module _ {ℓ} {A : Type ℓ} where
  -- `alloc_fd`: the first free descriptor, behind the last if there is none.
  unfoldable pub alloc_fd : List (Option A) → ℕ × List (Option A)
  alloc_fd fd_table = elim (first_free fd_table) [
    | some fd ↦ (fd, fd_table)
    | none ↦ (length (fd_table ++ (none ∷ [])) - 1, fd_table ++ (none ∷ []))
  ]

  -- `fd_table[fd]`, none when it is out of range or free.
  abbrev pub file_at : List (Option A) → ℕ → Option A
  file_at fd_table fd = elim (get_elem? fd_table fd) [ none ↦ none | some file ↦ file ]

  unfoldable pub open_fd : List (Option A) → A → ℕ × List (Option A)
  unfolding alloc_fd
  open_fd fd_table file = let (fd, t) = alloc_fd fd_table in (fd, set t fd (some file))

  unfoldable pub sys_dup : List (Option A) → ℕ → ℕ × List (Option A)
  unfolding open_fd
  sys_dup fd_table fd = elim (file_at fd_table fd) [
    | none ↦ (failed, fd_table)
    | some file ↦ open_fd fd_table file
  ]

  -- The inode is what `open_file` returns.
  unfoldable pub sys_open : List (Option A) → Option A → ℕ × List (Option A)
  unfolding open_fd
  sys_open fd_table inode = elim inode [
    | none ↦ (failed, fd_table)
    | some file ↦ open_fd fd_table file
  ]

  unfoldable pub sys_close : List (Option A) → ℕ → ℕ × List (Option A)
  sys_close fd_table fd = elim (file_at fd_table fd) [
    | none ↦ (failed, fd_table)
    | some _ ↦ (0, set fd_table fd none)
  ]

  -- The two ends are what `make_pipe` returns; the descriptors go to user memory.
  unfoldable pub sys_pipe : List (Option A) → A → A → ℕ × ℕ × List (Option A)
  unfolding open_fd
  sys_pipe fd_table pipe_read pipe_write =
      let (read_fd, t) = open_fd fd_table pipe_read in
      let (write_fd, t') = open_fd t pipe_write in (read_fd, write_fd, t')

-- The trait `File` over a state S of the kernel: `read` and `write` return a count and change S.
pub record File {ℓ} (A S : Type ℓ) : Type ℓ where
  pub readable : A → Bool
  pub writable : A → Bool
  pub read : A → List ℕ → S → ℕ × S
  pub write : A → List ℕ → S → ℕ × S

module _ {ℓ} {A S : Type ℓ} (ops : File A S) where
  unfoldable pub sys_write : List (Option A) → ℕ → List ℕ → S → ℕ × S
  sys_write fd_table fd buffer s = elim (file_at fd_table fd) [
    | none ↦ (failed, s)
    | some file ↦ if not (ops.writable file) then (failed, s) else ops.write file buffer s
  ]

  unfoldable pub sys_read : List (Option A) → ℕ → List ℕ → S → ℕ × S
  sys_read fd_table fd buffer s = elim (file_at fd_table fd) [
    | none ↦ (failed, s)
    | some file ↦ if not (ops.readable file) then (failed, s) else ops.read file buffer s
  ]
