-- ===== src/Base/Word.antt =====
-- `usize` on a 64-bit target: sums, differences and shifts to the left wrap.
pub mod Digits
pub mod Flags
use Prim.Native.Nat.{ℕ, ◌+◌, ◌-◌, ◌*◌, ◌/◌, ◌%◌, ◌^◌}

abbrev pub usize_mod : ℕ
usize_mod = 2 ^ 64

abbrev pub add64 : ℕ → ℕ → ℕ
add64 a b = (a + b) % usize_mod

abbrev pub sub64 : ℕ → ℕ → ℕ
sub64 a b = (a + usize_mod - b) % usize_mod

-- `a << k` and `a >> k`.
abbrev pub shl64 : ℕ → ℕ → ℕ
shl64 a k = a * 2 ^ k % usize_mod

abbrev pub shr : ℕ → ℕ → ℕ
shr a k = a / 2 ^ k
