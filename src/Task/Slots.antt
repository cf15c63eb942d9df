-- ===== src/Task/Slots.antt =====
-- The tables of a process that reuse their first free slot: `alloc_fd` of os/src/task/process/mod.rs
-- and the create calls of os/src/syscall/sync.rs.
use acore.Base.{
  ℕ, zero, suc, ◌<◌, ◌≡◌, ◌≢◌, refl, ap, sym, ◌∙◌, ◌⊎◌, inl, inr, List, [], ◌∷◌, ◌++◌, Option, none,
  some, Outcome, ok, ◌>>=◌, unwrap, length, get_elem?, set, arith, Option-cases,
}

module _ {ℓ} {A : Type ℓ} where
  -- `iter().enumerate().find(|(_, x)| x.is_none())`.
  abbrev pub first_free : List (Option A) → Option ℕ
  first_free [] = none
  first_free (none ∷ xs) = some 0
  first_free (some a ∷ xs) = elim (first_free xs) [ none ↦ none | some i ↦ some (suc i) ]

  abbrev pub install : List (Option A) → A → ℕ × List (Option A)
  install xs a = elim (first_free xs) [
    | some i ↦ (i, set xs i (some a))
    | none ↦ (length xs, xs ++ (some a ∷ []))
  ]

  -- `list[i].as_ref().unwrap()`.
  abbrev pub slot : List (Option A) → ℕ → Outcome A
  slot xs i = do o ← unwrap (get_elem? xs i); unwrap o

  abbrev pub pushed : ℕ × List (Option A) → A → ℕ × List (Option A)
  pushed (n, xs) a = (suc n, some a ∷ xs)

  install_cons :
      (b a : A) (xs : List (Option A)) → install (some b ∷ xs) a ≡ pushed (install xs a) b
  install_cons b a xs = elim (Option-cases (first_free xs)) [
    | inl e ↦ rw (e, install) refl
    | inr (i, e) ↦ rw (e, install) refl
  ]

  pub install_self :
      (xs : List (Option A)) (a : A) → get_elem? (install xs a).1 (install xs a).0 ≡ some (some a)
  install_self [] a = refl
  install_self (none ∷ xs) a = refl
  install_self (some b ∷ xs) a = rw (install_cons b a xs) (install_self xs a)

  pub install_free :
      (xs : List (Option A)) (a : A)
      → (get_elem? xs (install xs a).0 ≡ some none) ⊎ ((install xs a).0 ≡ length xs)
  install_free [] a = inr refl
  install_free (none ∷ xs) a = inl refl
  install_free (some b ∷ xs) a =
      rw (install_cons b a xs) (elim (install_free xs a) [ inl e ↦ inl e | inr e ↦ inr (ap suc e) ])

  pub install_smallest :
      (xs : List (Option A)) (a : A) (j : ℕ)
      → j < (install xs a).0
      → (b : A) × (get_elem? xs j ≡ some (some b))
  install_smallest [] a j h = absurd (omega arith)
  install_smallest (none ∷ xs) a j h = absurd (omega arith)
  install_smallest (some b ∷ xs) a zero h = (b, refl)
  install_smallest (some b ∷ xs) a (suc j) h =
      install_smallest xs a j (omega (arith, ap (λ p. p.0) (install_cons b a xs)))

  pub install_other :
      (xs : List (Option A)) (a : A) (j : ℕ)
      → j ≢ (install xs a).0
      → get_elem? (install xs a).1 j ≡ get_elem? xs j
  install_other [] a zero h = absurd (h refl)
  install_other [] a (suc j) h = refl
  install_other (none ∷ xs) a zero h = absurd (h refl)
  install_other (none ∷ xs) a (suc j) h = refl
  install_other (some b ∷ xs) a zero h = rw (install_cons b a xs) refl
  install_other (some b ∷ xs) a (suc j) h =
      rw (install_cons b a xs)
        (install_other xs a j (λ e. h (ap suc e ∙ sym (ap (λ p. p.0) (install_cons b a xs)))))

-- A table after an object was put into it: it stands at its number, which was the smallest free
-- one or the end of the table, and nothing else changes.
abbrev pub Installed {ℓ} : {A : Type ℓ} → List (Option A) → A → ℕ → List (Option A) → Type ℓ
Installed {A = A} xs a i ys =
    (get_elem? ys i ≡ some (some a))
    × ((get_elem? xs i ≡ some none) ⊎ (i ≡ length xs))
    × ((j : ℕ) → j < i → (b : A) × (get_elem? xs j ≡ some (some b)))
    × ((j : ℕ) → j ≢ i → get_elem? ys j ≡ get_elem? xs j)

pub install_lem {ℓ} :
    {A : Type ℓ} (xs : List (Option A)) (a : A) → Installed xs a (install xs a).0 (install xs a).1
install_lem xs a = (install_self xs a, install_free xs a, install_smallest xs a, install_other xs a)

pub slot-some {ℓ} :
    {A : Type ℓ} (xs : List (Option A)) (i : ℕ) (a : A)
    → get_elem? xs i ≡ some (some a)
    → slot xs i ≡ ok a
slot-some xs i a e = rw (e, slot) refl
