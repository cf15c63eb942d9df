-- ===== src/Sync/Semaphore/Laws.antt =====
-- The semaphore against its specification: a number of permits and a queue of blocked threads.
use acore.Base.{
  ℕ, zero, suc, ◌+◌, ◌^◌, ◌<◌, ◌≡◌, refl, ◌⊎◌, inl, inr, List, [], ◌∷◌, ◌++◌, length, length-append,
  some, none, Outcome, ok, ◌>>=◌, arith, List-cases,
}
use acore.Base.Word.{sub64}
use acore.Task.Sched.{Sched, blocked, set_status, block_current, wakeup_task}
use acore.Sync.Semaphore.{Semaphore, up, down}

-- The specification: who waits does so because there is no permit.
pub record Permits : Type 0 where
  pub permits : ℕ
  pub waiters : List ℕ

abbrev pub spec_up : Permits → Sched → Permits × Sched
spec_up p s = elim p.waiters [
  | [] ↦ (record p { permits = suc p.permits }, s)
  | t ∷ rest ↦ (record p { waiters = rest }, wakeup_task s t)
]

abbrev pub spec_down : Permits → Sched → ℕ → Outcome (Permits × Sched)
spec_down p s t = elim p.permits [
  | suc n ↦ ok (record p { permits = n }, s)
  | zero ↦ (do s' ← block_current s; ok (record p { waiters = p.waiters ++ (t ∷ []) }, s'))
]

-- The count is the number of permits less the number of waiters.
pub record Refines (sem : Semaphore) (p : Permits) : Type 0 where
  pub queue : sem.waiter_queue ≡ p.waiters
  pub balance : sem.count ≡ sub64 p.permits (length p.waiters)
  pub idle : (p.permits ≡ 0) ⊎ (p.waiters ≡ [])
  pub small : p.permits + length p.waiters < 2 ^ 62

ℕ_cases : (n : ℕ) → (n ≡ 0) ⊎ ((m : ℕ) × (n ≡ suc m))
ℕ_cases zero = inl refl
ℕ_cases (suc m) = inr (m, refl)

-- A permit given back wakes the longest waiter and no other; it is kept when nobody waits.
pub up-Refines :
    (sem : Semaphore) (p : Permits) (s : Sched)
    → Refines sem p
    → p.permits + 1 < 2 ^ 62
    → Refines (up sem s).0 (spec_up p s).0 × ((up sem s).1 ≡ (spec_up p s).1)
unfolding up
up-Refines sem p s r h = elim (List-cases p.waiters) [
  | inl e ↦ (
    record {
      queue = ground (arith, r.queue);
      balance = ground (arith, r.queue, r.balance);
      idle = ground (arith);
      small = ground (arith);
    },
    ground (arith, r.queue, r.balance),
  )
  | inr (t, rest, e) ↦ (
    record {
      queue = ground (arith, r.queue, r.balance, r.idle, r.small);
      balance = ground (arith, r.queue, r.balance, r.idle, r.small);
      idle = ground (arith, r.idle);
      small = ground (arith, r.small);
    },
    ground (arith, r.queue, r.balance, r.idle, r.small),
  )
]

-- Taking a permit takes one if there is one; otherwise the running thread waits, blocked, behind
-- the others.
pub down-Refines :
    (sem : Semaphore) (p : Permits) (s : Sched) (t : ℕ)
    → Refines sem p
    → p.permits + length p.waiters + 1 < 2 ^ 62
    → s.current ≡ some t
    → (sem' : Semaphore) × (p' : Permits) × (s' : Sched) × (down sem s ≡ ok (sem', s'))
      × (spec_down p s t ≡ ok (p', s'))
      × Refines sem' p'
unfolding down block_current
down-Refines sem p s t r h cur = elim (ℕ_cases p.permits) [
  | inl e ↦ (
    record { count = sub64 sem.count 1; waiter_queue = sem.waiter_queue ++ (t ∷ []) },
    record p { waiters = p.waiters ++ (t ∷ []) },
    record s { current = none; status = set_status s.status t blocked },
    ground (arith, r.queue, r.balance, r.small),
    ground arith,
    record {
      queue = ground (arith, r.queue);
      balance = ground (arith, r.balance, r.small, length-append p.waiters (t ∷ []));
      idle = ground arith;
      small = ground (arith, length-append p.waiters (t ∷ []));
    },
  )
  | inr (n, e) ↦ (
    record sem { count = sub64 sem.count 1 },
    record p { permits = n },
    s,
    ground (arith, r.queue, r.balance, r.small, r.idle),
    ground (arith),
    record {
      queue = r.queue;
      balance = ground (arith, r.balance, r.small, r.idle);
      idle = ground (arith, r.idle);
      small = ground (arith, r.small);
    },
  )
]
