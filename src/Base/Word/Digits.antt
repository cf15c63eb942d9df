-- ===== src/Base/Word/Digits.antt =====
-- `|`, `&` and `^` work on each binary digit alone, so they split at any position of the word.
use Prim.Native.Nat.{
  ℕ, zero, suc, ◌+◌, ◌-◌, ◌*◌, ◌/◌, ◌%◌, ◌^◌, ◌<◌, ◌≤◌, min, max, differ, bit_or, bit_and, bit_xor,
  digits, bit_or-bitwise, bit_and-bitwise, bit_xor-bitwise,
}
use mathlib.Core.Path.{◌≡◌, refl, ap, ◌∙◌}
use native.Mathlib.Nat.{pow-suc, one-le-pow}
use native.Mathlib.Decide.{ℕ_discrete}
use native.Mathlib.Omega.{arith}

-- One equation for the lowest digit of an operation.
abbrev pub DigitLaw : (ℕ → ℕ → ℕ) → (ℕ → ℕ → ℕ) → Type 0
DigitLaw op f = (x y : ℕ) → op x y ≡ op (x / 2) (y / 2) * 2 + f (x % 2) (y % 2)

-- The recursion that the native operations mean is settled once its fuel reaches the number.
module _ (z : ℕ → ℕ) (f : ℕ → ℕ → ℕ) where
  more_fuel : (n x y : ℕ) → x ≤ n → digits z f (suc n) x y ≡ digits z f n x y
  more_fuel zero zero y h = refl
  more_fuel (suc n) zero y h = refl
  more_fuel zero (suc x) y h = absurd (omega arith)
  more_fuel (suc n) (suc x) y h = omega (arith, more_fuel n (suc x / 2) (y / 2) (omega arith))

  settled : (n x y : ℕ) → x ≤ n → digits z f n x y ≡ digits z f x x y
  settled zero zero y h = refl
  settled zero (suc x) y h = absurd (omega arith)
  settled (suc n) x y h = elim (ℕ_discrete x (suc n)) [
    | yes e ↦ rw e refl
    | no e ↦ more_fuel n x y (omega (arith, e)) ∙ settled n x y (omega (arith, e))
  ]

pub or_digit : DigitLaw bit_or max
or_digit zero y = omega (arith, bit_or-bitwise 0 y, bit_or-bitwise 0 (y / 2))
or_digit (suc x) y = omega (
  arith,
  bit_or-bitwise (suc x) y,
  bit_or-bitwise (suc x / 2) (y / 2),
  settled (λ r. r) max x (suc x / 2) (y / 2) (omega arith),
)

pub and_digit : DigitLaw bit_and min
and_digit zero y = omega (arith, bit_and-bitwise 0 y, bit_and-bitwise 0 (y / 2))
and_digit (suc x) y = omega (
  arith,
  bit_and-bitwise (suc x) y,
  bit_and-bitwise (suc x / 2) (y / 2),
  settled (λ r. 0) min x (suc x / 2) (y / 2) (omega arith),
)

pub xor_digit : DigitLaw bit_xor differ
xor_digit zero y = omega (arith, bit_xor-bitwise 0 y, bit_xor-bitwise 0 (y / 2))
xor_digit (suc x) y = omega (
  arith,
  bit_xor-bitwise (suc x) y,
  bit_xor-bitwise (suc x / 2) (y / 2),
  settled (λ r. r) differ x (suc x / 2) (y / 2) (omega arith),
)

-- `2 ^ (k + 1)` times a number, as twice a multiple of `2 ^ k`.
pub twice_pow : (q k : ℕ) → q * 2 ^ suc k ≡ 2 * (q * 2 ^ k)
twice_pow q k = omega (arith, ap (λ (t : ℕ). q * t) (pow-suc 2 k))

module _ (op f : ℕ → ℕ → ℕ) (none : op 0 0 ≡ 0) (digit : DigitLaw op f) where
  split_op :
      (k a b x y : ℕ)
      → x < 2 ^ k
      → y < 2 ^ k
      → op (a * 2 ^ k + x) (b * 2 ^ k + y) ≡ op a b * 2 ^ k + op x y
  split_op zero a b x y hx hy = ground (arith, none)
  split_op (suc k) a b x y hx hy = ground (
    arith,
    digit (a * 2 ^ suc k + x) (b * 2 ^ suc k + y),
    digit x y,
    twice_pow a k,
    twice_pow b k,
    twice_pow (op a b) k,
    pow-suc 2 k,
    split_op k a b (x / 2) (y / 2),
  )

  -- A right operand 0 acts on every digit alike.
  op-zero :
      (g : ℕ → ℕ)
      → ((a : ℕ) → g a ≡ g (a / 2) * 2 + f (a % 2) 0)
      → g 0 ≡ 0
      → (n a : ℕ) → a ≤ n
      → op a 0 ≡ g a
  op-zero g law base n zero h = omega (arith, none)
  op-zero g law base zero (suc a) h = absurd (omega arith)
  op-zero g law base (suc n) (suc a) h =
      omega (arith, digit (suc a) 0, law (suc a), op-zero g law base n (suc a / 2) (omega arith))

pub or-zero : (a : ℕ) → bit_or a 0 ≡ a
or-zero a = op-zero bit_or max refl or_digit (λ a. a) (λ a. omega arith) refl a a (omega arith)

pub differ-zero : (d : ℕ) → differ d 0 ≡ d
differ-zero zero = refl
differ-zero (suc d) = refl

pub xor-zero : (a : ℕ) → bit_xor a 0 ≡ a
xor-zero a =
    op-zero bit_xor differ refl xor_digit (λ a. a) (λ a. omega (arith, differ-zero (a % 2))) refl a
      a (omega arith)

pub and-zero : (a : ℕ) → bit_and a 0 ≡ 0
and-zero a = op-zero bit_and min refl and_digit (λ a. 0) (λ a. omega arith) refl a a (omega arith)

pub zero-or : (a : ℕ) → bit_or 0 a ≡ a
zero-or a = bit_or-bitwise 0 a

pub zero-and : (a : ℕ) → bit_and 0 a ≡ 0
zero-and a = bit_and-bitwise 0 a

pub zero-xor : (a : ℕ) → bit_xor 0 a ≡ a
zero-xor a = bit_xor-bitwise 0 a

pub or_split :
    (k a b x y : ℕ)
    → x < 2 ^ k
    → y < 2 ^ k
    → bit_or (a * 2 ^ k + x) (b * 2 ^ k + y) ≡ bit_or a b * 2 ^ k + bit_or x y
or_split = split_op bit_or max refl or_digit

pub and_split :
    (k a b x y : ℕ)
    → x < 2 ^ k
    → y < 2 ^ k
    → bit_and (a * 2 ^ k + x) (b * 2 ^ k + y) ≡ bit_and a b * 2 ^ k + bit_and x y
and_split = split_op bit_and min refl and_digit

pub xor_split :
    (k a b x y : ℕ)
    → x < 2 ^ k
    → y < 2 ^ k
    → bit_xor (a * 2 ^ k + x) (b * 2 ^ k + y) ≡ bit_xor a b * 2 ^ k + bit_xor x y
xor_split = split_op bit_xor differ refl xor_digit

mask_fits : (k q x : ℕ) → x < 2 ^ k → bit_and (q * 2 ^ k + x) (2 ^ k - 1) ≡ x
mask_fits zero q x h = omega (arith, and-zero (q * 1 + x))
mask_fits (suc k) q x h = ground (
  arith,
  and_digit (q * 2 ^ suc k + x) (2 ^ suc k - 1),
  pow-suc 2 k,
  one-le-pow k 2,
  twice_pow q k,
  mask_fits k q (x / 2),
)

-- A mask of `k` ones keeps the low `k` digits.
pub and_mask : (k a : ℕ) → bit_and a (2 ^ k - 1) ≡ a % 2 ^ k
and_mask k a = ground (arith, one-le-pow k 2, mask_fits k (a / 2 ^ k) (a % 2 ^ k))
