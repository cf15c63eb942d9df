-- ===== src/Task/Wait/Laws.antt =====
-- What waitpid answers, and whom it removes.
use acore.Base.{
  ℕ, ◌≡◌, refl, ap, ◌⊎◌, inl, inr, List, [], ◌∷◌, ◌++◌, true, false, ◌&&◌, none, some, ok, panic,
  arith, Bool-cases, Outcome-cases,
}
use acore.Mm.Memory.{Memory}
use acore.Mm.Buffer.{translated_ref}
use acore.Task.Wait.{Child, matches, any_child, take_zombie, sys_waitpid, minus}

-- No child in the list matches and is a zombie.
abbrev pub NoZombie : List Child → ℕ → Type 0
NoZombie [] pid = Unit {0}
NoZombie (c ∷ cs) pid = ((c.is_zombie && matches pid c) ≡ false) × NoZombie cs pid

-- A zombie has no other references.
abbrev pub Reapable : List Child → Type 0
Reapable [] = Unit {0}
Reapable (c ∷ cs) = (c.is_zombie ≡ true → c.other_refs ≡ 0) × Reapable cs

-- The first zombie that matches stands between two parts of the list.
abbrev pub Reaped : List Child → ℕ → Child → List Child → Type 0
Reaped children pid c rest =
    (before : List Child) × (after : List Child) × (children ≡ before ++ (c ∷ after))
    × (rest ≡ before ++ after)
    × NoZombie before pid
    × (c.is_zombie ≡ true)
    × (matches pid c ≡ true)
    × (c.other_refs ≡ 0)

take_zombie-cases :
    (cs : List Child) (pid : ℕ)
    → Reapable cs
    → ((take_zombie cs pid ≡ none) × NoZombie cs pid)
      ⊎ ((c : Child) × (rest : List Child) × (take_zombie cs pid ≡ some (c, rest))
          × Reaped cs pid c rest
          × (any_child cs pid ≡ true))
take_zombie-cases [] pid r = inl (refl, tt)
take_zombie-cases (c ∷ cs) pid r = elim (Bool-cases (c.is_zombie && matches pid c)) [
  | inl e ↦ inr (
    c,
    cs,
    rw (e, take_zombie) refl,
    ([], cs, refl, refl, tt, ground arith, ground arith, ground (arith, r.0)),
    ground arith,
  )
  | inr e ↦ elim (take_zombie-cases cs pid r.1) [
    | inl (n, z) ↦ inl (rw (e, n, take_zombie) refl, (e, z))
    | inr (d, rest, t, (before, after, p, q, z, f, g, h), y) ↦ inr (
      d,
      c ∷ rest,
      rw (e, t, take_zombie) refl,
      (c ∷ before, after, ap (λ l. c ∷ l) p, ap (λ l. c ∷ l) q, (e, z), f, g, h),
      ground (arith, y),
    )
  ]
]

-- Waiting for a child answers -1 if no child matches, -2 if none that matches has exited, and both
-- leave the children alone. Otherwise, when zombies have no other references, it concerns the first
-- zombie that matches: if the address for the exit code translates, the zombie is removed, its exit
-- code is written there and its pid is returned; if the address does not translate, the kernel
-- panics.
pub waitpid_lem :
    (mem : Memory) (satp : ℕ) (children : List Child) (pid ptr : ℕ)
    → Reapable children
    → ((any_child children pid ≡ false)
        × (sys_waitpid mem satp children pid ptr ≡ ok (minus 1, none, children)))
      ⊎ ((any_child children pid ≡ true)
          × NoZombie children pid
          × (sys_waitpid mem satp children pid ptr ≡ ok (minus 2, none, children)))
      ⊎ ((c : Child) × (rest : List Child) × Reaped children pid c rest
          × (((place : ℕ) × (translated_ref mem satp ptr ≡ ok place)
                × (sys_waitpid mem satp children pid ptr
                    ≡ ok (c.pid, some (place, c.exit_code), rest)))
              ⊎ ((translated_ref mem satp ptr ≡ panic)
                  × (sys_waitpid mem satp children pid ptr ≡ panic))))
unfolding sys_waitpid
waitpid_lem mem satp children pid ptr r = elim (Bool-cases (any_child children pid)) [
  | inr e ↦ inl (e, rw (e, sys_waitpid) refl)
  | inl e ↦ elim (take_zombie-cases children pid r) [
    | inl (n, z) ↦ inr (inl (e, z, rw (e, n, sys_waitpid) refl))
    | inr (c, rest, t, (before, after, p, q, z, f, g, h), y) ↦ inr (
        inr (
          c,
          rest,
          (before, after, p, q, z, f, g, h),
          elim (Outcome-cases (translated_ref mem satp ptr)) [
            | inr bad ↦ inr (bad, rw (e, t, sys_waitpid) (rw (h, bad) refl))
            | inl (place, good) ↦ inl (place, good, rw (e, t, sys_waitpid) (rw (h, good) refl))
          ],
        ))
  ]
]
