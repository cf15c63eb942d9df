-- ===== src/Base/Gather.antt =====
-- Results one at a time over a range of numbers, and runs of them at once.
use Prim.Native.Nat.{ℕ, zero, suc, ◌+◌, ◌<◌}
use mathlib.Core.Path.{◌≡◌, refl, ap, ◌∙◌}
use mathlib.Core.List.{List, [], ◌∷◌, ◌++◌}
use native.Mathlib.Omega.{arith}
use acore.Base.Panic.{Outcome, ok, panic, ◌>>=◌}

module _ {ℓ} {A : Type ℓ} where
  abbrev pub gather : (ℕ → Outcome A) → ℕ → ℕ → Outcome (List A)
  gather f zero cur = ok []
  gather f (suc n) cur = let rest = gather f n (suc cur) in do a ← f cur; rs ← rest; ok (a ∷ rs)

  -- The values at n places from one on.
  abbrev pub each : (ℕ → A) → ℕ → ℕ → List A
  each g at zero = []
  each g at (suc n) = g at ∷ each g (suc at) n

module _ {ℓ} {A : Type ℓ} where
  bind_cons :
      (x : A) (xs : List A) (rest : Outcome (List A))
      → ((rest >>= λ r. ok (xs ++ r)) >>= λ r. ok (x ∷ r)) ≡ (rest >>= λ r. ok ((x ∷ xs) ++ r))
  bind_cons x xs (ok r) = refl
  bind_cons x xs panic = refl

  bind_ok : (rest : Outcome (List A)) → rest ≡ (rest >>= λ r. ok ([] ++ r))
  bind_ok (ok r) = refl
  bind_ok panic = refl

  -- A run of results that are known, and what follows it.
  pub gather-run :
      (n m k : ℕ) (f : ℕ → Outcome A) (g : ℕ → A) (cur at next : ℕ)
      → k ≡ n + m
      → next ≡ cur + n
      → ((i : ℕ) → i < n → f (cur + i) ≡ ok (g (at + i)))
      → gather f k cur ≡ (gather f m next >>= λ r. ok (each g at n ++ r))
  gather-run zero m k f g cur at next h e run =
      let a : k ≡ m = omega (arith, h) in
      let b : next ≡ cur = omega (arith, e) in rw (a, b) (bind_ok (gather f m cur))
  gather-run (suc n) m k f g cur at next h e run =
      let a : k ≡ suc (n + m) = omega (arith, h) in
      let first : f cur ≡ ok (g at) =
        ap f (omega arith) ∙ run 0 (omega arith) ∙ ap (λ i. ok (g i)) (omega arith) in
      let tail = gather-run n m (n + m) f g (suc cur) (suc at) next refl (omega (arith, e)) (λ i p.
        ap f (omega arith) ∙ run (suc i) (omega (arith, p)) ∙ ap (λ j. ok (g j)) (omega arith)) in
      rw (a, first, tail) (bind_cons (g at) (each g (suc at) n) (gather f m next))

  pub gather-panic :
      (n : ℕ) (f : ℕ → Outcome A) (cur : ℕ) → f cur ≡ panic → 0 < n → gather f n cur ≡ panic
  gather-panic zero f cur e h = absurd (omega (arith, h))
  gather-panic (suc n) f cur e h = rw e refl
