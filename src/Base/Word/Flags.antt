-- ===== src/Base/Word/Flags.antt =====
-- A word as a set of flags, each of which is one binary digit.
use Prim.Native.Nat.{
  ℕ, zero, suc, ◌+◌, ◌*◌, ◌/◌, ◌%◌, ◌^◌, ◌<◌, max, differ, bit_or, bit_and, bit_xor,
}
use mathlib.Core.Path.{◌≡◌, refl, ap}
use mathlib.Core.Bool.{Bool}
use native.Mathlib.Nat.{pow-suc, one-le-pow}
use native.Mathlib.Omega.{arith}
use acore.Base.Tests.{◌==◌, ind}
use acore.Base.Word.Digits.{or_digit, and_digit, xor_digit, and-zero, twice_pow}

-- The binary digit at a place.
abbrev pub digit : ℕ → ℕ → ℕ
digit zero a = a % 2
digit (suc i) a = digit i (a / 2)

-- `contains` of a set of flags: all digits of the flag are there.
abbrev pub contains_flag : ℕ → ℕ → Bool
contains_flag a flag = bit_and a flag == flag

half : (q r n : ℕ) → r < 2 → n ≡ q * 2 + r → n / 2 ≡ q
half q r n h e = omega arith

differ_lt : (a b : ℕ) → a < 2 → b < 2 → differ a b < 2
differ_lt zero b p q = q
differ_lt (suc zero) zero p q = omega arith
differ_lt (suc zero) (suc zero) p q = omega arith
differ_lt (suc zero) (suc (suc b)) p q = absurd (omega arith)
differ_lt (suc (suc a)) b p q = absurd (omega arith)

digit-zero : (i : ℕ) → digit i 0 ≡ 0
digit-zero zero = refl
digit-zero (suc i) = digit-zero i

pub digit-or : (i a b : ℕ) → digit i (bit_or a b) ≡ max (digit i a) (digit i b)
digit-or zero a b = ground (arith, or_digit a b)
digit-or (suc i) a b =
    rw
      (half (bit_or (a / 2) (b / 2)) (max (a % 2) (b % 2)) (bit_or a b) (omega (arith))
        (or_digit a b))
      (digit-or i (a / 2) (b / 2))

pub digit-xor : (i a b : ℕ) → digit i (bit_xor a b) ≡ differ (digit i a) (digit i b)
digit-xor zero a b =
    ground (arith, xor_digit a b, differ_lt (a % 2) (b % 2) (omega arith) (omega arith))
digit-xor (suc i) a b =
    rw
      (half (bit_xor (a / 2) (b / 2)) (differ (a % 2) (b % 2)) (bit_xor a b)
        (differ_lt (a % 2) (b % 2) (omega arith) (omega arith)) (xor_digit a b))
      (digit-xor i (a / 2) (b / 2))

pub digit-pow : (i j : ℕ) → digit i (2 ^ j) ≡ ind (i == j)
digit-pow zero zero = refl
digit-pow (suc i) zero = ground (arith, digit-zero i)
digit-pow zero (suc j) = ground (arith, pow-suc 2 j)
digit-pow (suc i) (suc j) =
    rw (half (2 ^ j) 0 (2 ^ suc j) (omega arith) (omega (arith, pow-suc 2 j)))
      (ground (arith, digit-pow i j))

pub digit-lt : (i a : ℕ) → digit i a < 2
digit-lt zero a = omega arith
digit-lt (suc i) a = digit-lt i (a / 2)

pow_injective : (i j : ℕ) → 2 ^ i ≡ 2 ^ j → i ≡ j
pow_injective i j e = ground (arith, digit-pow i i, digit-pow i j, ap (digit i) e)

pub and-pow : (a j : ℕ) → bit_and a (2 ^ j) ≡ digit j a * 2 ^ j
and-pow a zero = ground (arith, and_digit a 1, and-zero (a / 2))
and-pow a (suc j) = ground (
  arith,
  and_digit a (2 ^ suc j),
  half (2 ^ j) 0 (2 ^ suc j) (omega arith) (omega (arith, pow-suc 2 j)),
  pow-suc 2 j,
  and-pow (a / 2) j,
  twice_pow (digit j (a / 2)) j,
)

pub contains_flag-eq : (a j : ℕ) → contains_flag a (2 ^ j) ≡ (digit j a == 1)
contains_flag-eq a j = ground (arith, and-pow a j, digit-lt j a, one-le-pow j 2)

pub pow_eq : (i j : ℕ) → (2 ^ i == 2 ^ j) ≡ (i == j)
pow_eq i j = ground (arith, pow_injective i j)
