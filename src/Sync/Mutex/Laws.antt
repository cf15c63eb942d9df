-- ===== src/Sync/Mutex/Laws.antt =====
-- Mutual exclusion: the threads that hold a blocking mutex, over any sequence of its calls and of
-- thread switches.
use acore.Base.{
  ℕ, suc, ◌<◌, ◌≤◌, ◌≡◌, refl, ◌⊎◌, inl, inr, List, [], ◌∷◌, Bool, true, false, ltb, count,
  count-append, count-erase, erase, length, length-append, some, none, ok, arith, ind, List-cases,
  Bool-cases,
}
use acore.Task.Sched.{Sched, blocked, block_current, suspend_current, wakeup_task, run_next}
use acore.Task.Sched.Laws.{
  block_current-IsConsistent, suspend_current-IsConsistent, wakeup_task-IsConsistent,
  run_next-IsConsistent,
}
use acore.Sync.Mutex.{MutexBlocking, lock, unlock}
use acore.Sync.Mutex.World.{
  World, returns, called, Step, locks, unlocks, yields, blocks, wakes, runs, IsSafe,
}

length-erase : (a : ℕ) (xs : List ℕ) → 0 < count a xs → suc (length (erase a xs)) ≡ length xs
length-erase a [] h = absurd (omega arith)
length-erase a (x ∷ xs) h = ground (arith, length-erase a xs)

erase_absent : (a : ℕ) (xs : List ℕ) → count a xs ≡ 0 → erase a xs ≡ xs
erase_absent a [] h = refl
erase_absent a (x ∷ xs) h = ground (arith, erase_absent a xs)

-- A list that has each element no more often than another is no longer.
length-le : (xs ys : List ℕ) → ((a : ℕ) → count a xs ≤ count a ys) → length xs ≤ length ys
length-le [] ys h = omega arith
length-le (x ∷ xs) ys h =
    let there : 0 < count x ys = ground (arith, h x) in
    omega (
      arith,
      length-erase x ys there,
      length-le xs (erase x ys) (λ a. ground (arith, h a, count-erase a x ys there)),
    )

-- Two threads never hold the mutex, and none does while it is free.
pub IsSafe-exclusive : (w : World) → IsSafe w → length w.holders ≤ ind w.mutex.locked
IsSafe-exclusive w safe =
    omega (arith, safe.balance, length-le w.mutex.waiter_queue w.locking safe.waits)

locks-IsSafe :
    (w : World) (t : ℕ) (m : MutexBlocking) (returned : Bool) (s : Sched)
    → IsSafe w
    → w.sched.current ≡ some t
    → lock w.mutex w.sched ≡ ok (m, returned, s)
    → IsSafe (record {
      mutex = m;
      sched = s;
      holders = (called returned w t).0;
      locking = (called returned w t).1;
    })
unfolding lock block_current
locks-IsSafe w t m returned s safe cur e = elim (Bool-cases w.mutex.locked) [
  | inl l ↦
      let (s₁, e₁, c₁, st, _, _) = block_current-IsConsistent w.sched t safe.consistent cur in
      record {
        consistent = ground (arith, c₁);
        balance = ground (arith, safe.balance, length-append {A = ℕ} w.mutex.waiter_queue (t ∷ []));
        nobody = ground arith;
        waits = λ u. ground (arith, safe.waits u, count-append u w.mutex.waiter_queue (t ∷ []));
        asleep = λ u. ground (arith, safe.asleep u, count-append u w.mutex.waiter_queue (t ∷ []));
        once = λ u. ground (arith, safe.once u);
      }
  | inr l ↦ record {
    consistent = ground (arith, safe.consistent);
    balance = ground (arith, safe.balance, safe.nobody l);
    nobody = ground arith;
    waits = λ u. ground (arith, safe.waits u);
    asleep = λ u. ground (arith, safe.asleep u);
    once = λ u. ground (arith, safe.once u);
  }
]

unlocks-IsSafe :
    (w : World) (t : ℕ) (m : MutexBlocking) (s : Sched)
    → IsSafe w
    → 0 < count t w.holders
    → unlock w.mutex w.sched ≡ ok (m, s)
    → IsSafe (record { mutex = m; sched = s; holders = erase t w.holders; locking = w.locking })
unfolding unlock wakeup_task
unlocks-IsSafe w t m s safe h e = elim (Bool-cases w.mutex.locked) [
  | inr l ↦ absurd (ground arith)
  | inl l ↦ elim (List-cases w.mutex.waiter_queue) [
    | inl q ↦ record {
      consistent = ground (arith, safe.consistent);
      balance = ground (arith, safe.balance, length-erase t w.holders);
      nobody = ground arith;
      waits = λ u. ground (arith, safe.waits u);
      asleep = λ u. ground (arith, safe.asleep u);
      once = λ u. ground (arith, safe.once u);
    }
    | inr (u, r, q) ↦
        let front : w.sched.status u ≡ blocked = ground (arith, safe.asleep u) in
        record {
          consistent = ground (arith, wakeup_task-IsConsistent w.sched u safe.consistent front);
          balance = ground (arith, safe.balance, length-erase t w.holders);
          nobody = ground arith;
          waits = λ v. ground (arith, safe.waits v);
          asleep = λ v. ground (arith, safe.asleep v, safe.waits v, safe.once v);
          once = λ v. ground (arith, safe.once v);
        }
  ]
]

yields-IsSafe :
    (w : World) (t : ℕ) (s : Sched)
    → IsSafe w
    → w.sched.current ≡ some t
    → suspend_current w.sched ≡ ok s
    → IsSafe (record w { sched = s })
unfolding suspend_current
yields-IsSafe w t s safe cur e =
    let (s₁, e₁, c₁, st, _, _) = suspend_current-IsConsistent w.sched t safe.consistent cur in
    record {
      consistent = ground (arith, c₁);
      balance = safe.balance;
      nobody = safe.nobody;
      waits = safe.waits;
      asleep =
          λ u. ground (arith, safe.asleep u, safe.consistent.stands t, safe.waits u, safe.once u);
      once = λ u. ground (arith, safe.once u);
    }

blocks-IsSafe :
    (w : World) (t : ℕ) (s : Sched)
    → IsSafe w
    → w.sched.current ≡ some t
    → block_current w.sched ≡ ok s
    → IsSafe (record w { sched = s })
unfolding block_current
blocks-IsSafe w t s safe cur e =
    let (s₁, e₁, c₁, st, _, _) = block_current-IsConsistent w.sched t safe.consistent cur in
    record {
      consistent = ground (arith, c₁);
      balance = safe.balance;
      nobody = safe.nobody;
      waits = safe.waits;
      asleep = λ u. ground (arith, safe.asleep u);
      once = λ u. ground (arith, safe.once u);
    }

wakes-IsSafe :
    (w : World) (t : ℕ)
    → IsSafe w
    → w.sched.status t ≡ blocked
    → count t w.mutex.waiter_queue ≡ 0
    → IsSafe (record w { sched = wakeup_task w.sched t })
unfolding wakeup_task
wakes-IsSafe w t safe b absent = record {
  consistent = wakeup_task-IsConsistent w.sched t safe.consistent b;
  balance = safe.balance;
  nobody = safe.nobody;
  waits = safe.waits;
  asleep = λ u. ground (arith, safe.asleep u, absent);
  once = safe.once;
}

runs-IsSafe :
    (w : World) (t : ℕ) (s : Sched)
    → IsSafe w
    → w.sched.current ≡ none
    → run_next w.sched ≡ some s
    → s.current ≡ some t
    → IsSafe
        (record { mutex = w.mutex; sched = s; holders = returns w t; locking = erase t w.locking })
unfolding run_next
runs-IsSafe w t s safe idle e cur = elim (List-cases w.sched.ready_queue) [
  | inl q ↦ absurd (ground arith)
  | inr (u, r, q) ↦
      let awake : count t w.mutex.waiter_queue ≡ 0 =
        ground (arith, safe.asleep t, safe.consistent.stands t) in
      elim (Bool-cases (ltb 0 (count t w.locking))) [
        | inl b ↦
            let there : 0 < count t w.locking = ground (arith, b) in
            record {
              consistent = run_next-IsConsistent w.sched s safe.consistent idle e;
              balance = ground (arith, b, safe.balance, length-erase t w.locking there);
              nobody = safe.nobody;
              waits = λ v. ground (arith, safe.waits v, awake, count-erase v t w.locking there);
              asleep = λ v. ground (arith, safe.asleep v, awake);
              once = λ v. ground (arith, cur, safe.once v, count-erase v t w.locking there);
            }
        | inr b ↦
            let same : erase t w.locking ≡ w.locking =
              erase_absent t w.locking (ground (arith, b)) in
            record {
              consistent = run_next-IsConsistent w.sched s safe.consistent idle e;
              balance = ground (arith, b, same, safe.balance);
              nobody = safe.nobody;
              waits = λ v. ground (arith, same, safe.waits v);
              asleep = λ v. ground (arith, safe.asleep v, awake);
              once = λ v. ground (arith, b, cur, same, safe.once v);
            }
      ]
]

-- Every call of `lock`, every `unlock` by a holder, and every switch, block and wake-up of threads in
-- between keeps the mutex safe, and afterwards at most one thread holds it, which means that a call of
-- `lock` has returned to it and it has not called `unlock` since; none does if the mutex is free. The
-- waiters stay blocked, inside their calls, and there are none when the mutex is free.
pub Step-IsSafe :
    {w w' : World} → IsSafe w → Step w w' → IsSafe w' × (length w'.holders ≤ ind w'.mutex.locked)
Step-IsSafe {w = w} {w' = w'} safe st =
    let kept = step_kept safe st in (kept, IsSafe-exclusive w' kept)
  where
    step_kept : {w w' : World} → IsSafe w → Step w w' → IsSafe w'
    step_kept {w = w} safe (locks {t = t} {m = m} {returned = r} {s = s} cur e) =
        locks-IsSafe w t m r s safe cur e
    step_kept {w = w} safe (unlocks {t = t} {m = m} {s = s} cur h e) =
        unlocks-IsSafe w t m s safe h e
    step_kept {w = w} safe (yields {t = t} {s = s} cur e) = yields-IsSafe w t s safe cur e
    step_kept {w = w} safe (blocks {t = t} {s = s} cur e) = blocks-IsSafe w t s safe cur e
    step_kept {w = w} safe (wakes {t = t} b absent) = wakes-IsSafe w t safe b absent
    step_kept {w = w} safe (runs {t = t} {s = s} idle e cur) = runs-IsSafe w t s safe idle e cur

-- An unlock by a holder always succeeds. The longest waiter is handed the mutex and becomes ready; the
-- mutex is free if nobody waits.
pub unlock_lem :
    (w : World) (t : ℕ)
    → IsSafe w
    → 0 < count t w.holders
    → ((w.mutex.waiter_queue ≡ [])
        × (unlock w.mutex w.sched ≡ ok (record { locked = false; waiter_queue = [] }, w.sched)))
      ⊎ ((u : ℕ) × (rest : List ℕ) × (w.mutex.waiter_queue ≡ u ∷ rest)
          × (unlock w.mutex w.sched
              ≡ ok (record { locked = true; waiter_queue = rest }, wakeup_task w.sched u))
          × (count u w.sched.ready_queue ≡ 0)
          × (w.sched.status u ≡ blocked))
unfolding unlock
unlock_lem w t safe h =
    let taken : w.mutex.locked ≡ true =
      ground (arith, IsSafe-exclusive w safe, length-erase t w.holders h) in
    elim (List-cases w.mutex.waiter_queue) [
      | inl q ↦ inl (q, ground (arith, taken))
      | inr (u, r, q) ↦
          let front : w.sched.status u ≡ blocked = ground (arith, safe.asleep u) in
          inr (u, r, q, ground (arith, taken), ground (arith, safe.consistent.stands u), front)
    ]
