-- ===== src/Base/Count.antt =====
-- How often a number occurs in a list: an equation of counts is an equation of multisets, and
-- linear arithmetic reads it.
use Prim.Native.Nat.{ℕ, ◌+◌, ◌<◌}
use mathlib.Core.Path.{◌≡◌, refl}
use mathlib.Core.Bool.{Bool, false, ◌||◌}
use mathlib.Core.List.{List, [], ◌∷◌, ◌++◌}
use native.Mathlib.Omega.{arith}
use acore.Base.Tests.{◌==◌, ltb, if◌then◌else◌, ind}

abbrev pub count : ℕ → List ℕ → ℕ
count i [] = 0
count i (j ∷ rest) = ind (i == j) + count i rest

-- `iter().any(|x| *x == a)`, and `iter().find(..).is_some()`.
abbrev pub contains : List ℕ → ℕ → Bool
contains [] a = false
contains (x ∷ xs) a = x == a || contains xs a

-- The list without the first occurrence of a number.
abbrev pub erase : ℕ → List ℕ → List ℕ
erase a [] = []
erase a (x ∷ xs) = if a == x then xs else x ∷ erase a xs

pub count-append : (i : ℕ) (l r : List ℕ) → count i (l ++ r) ≡ count i l + count i r
count-append i [] r = omega arith
count-append i (j ∷ l) r = ground (arith, count-append i l r)

pub contains-eq-ltb : (xs : List ℕ) (a : ℕ) → contains xs a ≡ ltb 0 (count a xs)
contains-eq-ltb [] a = refl
contains-eq-ltb (x ∷ xs) a = ground (arith, contains-eq-ltb xs a)

pub count-erase :
    (b a : ℕ) (xs : List ℕ) → 0 < count a xs → count b (erase a xs) + ind (b == a) ≡ count b xs
count-erase b a [] h = absurd (omega arith)
count-erase b a (x ∷ xs) h = ground (arith, count-erase b a xs)
