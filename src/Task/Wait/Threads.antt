-- ===== src/Task/Wait/Threads.antt =====
-- The table of threads of a process: a new thread in its slot, and waiting for a thread.
use acore.Base.{
  ℕ, zero, suc, ◌+◌, ◌<◌, ◌≤◌, ◌≡◌, ◌≢◌, refl, sym, ◌∙◌, inl, inr, List, [], ◌∷◌, ◌++◌, Option,
  none, some, ok, panic, arith, ltb, Bool-cases, length, get_elem?, set, length-append,
  get_elem?-set_self, get_elem?-set_ne, get_elem?-eq-none,
}
use acore.Task.Recycle.{RecycleAllocator, dealloc}
use acore.Task.Wait.{Thread, ThreadTable, sys_waittid, push_until, add_thread, minus}

-- A slot past the end of the table is as good as an empty one.
abbrev pub thread_at : List (Option Thread) → ℕ → Option Thread
thread_at tasks tid = elim (get_elem? tasks tid) [ none ↦ none | some t ↦ t ]

thread_at-snoc :
    (tasks : List (Option Thread)) (i : ℕ) → thread_at (tasks ++ (none ∷ [])) i ≡ thread_at tasks i
thread_at-snoc [] zero = refl
thread_at-snoc [] (suc i) = refl
thread_at-snoc (t ∷ ts) zero = refl
thread_at-snoc (t ∷ ts) (suc i) = thread_at-snoc ts i

push_until-length :
    (fuel : ℕ) (tasks : List (Option Thread)) (len : ℕ)
    → len ≤ length tasks + fuel
    → (len ≤ length (push_until fuel tasks len))
      × ((i : ℕ) → thread_at (push_until fuel tasks len) i ≡ thread_at tasks i)
unfolding push_until
push_until-length zero tasks len h = (omega arith, λ i. refl)
push_until-length (suc fuel) tasks len h = elim (Bool-cases (ltb (length tasks) len)) [
  | inr e ↦ rw (e, push_until) (ground arith, λ i. refl)
  | inl e ↦
      let (l, k) =
        push_until-length fuel (tasks ++ (none ∷ [])) len
          (omega (arith, length-append {A = Option Thread} tasks (none ∷ []))) in
      rw (e, push_until) (l, λ i. k i ∙ thread_at-snoc tasks i)
]

-- A new thread stands at its number, whatever the length of the table was, and no other thread is
-- touched.
pub add_thread_lem :
    (tasks : List (Option Thread)) (tid : ℕ) (task : Thread)
    → (thread_at (add_thread tasks tid task) tid ≡ some task)
      × ((i : ℕ) → i ≢ tid → thread_at (add_thread tasks tid task) i ≡ thread_at tasks i)
unfolding add_thread
add_thread_lem tasks tid task =
    let (l, k) = push_until-length (tid + 1) tasks (tid + 1) (omega arith) in
    (
      rw
          (
            get_elem?-set_self (push_until (tid + 1) tasks (tid + 1)) tid (some task)
                (omega (arith, l)),
            thread_at,
          )
          refl,
      λ i n.
          rw
            (
              get_elem?-set_ne (push_until (tid + 1) tasks (tid + 1)) (some task) (λ e. n (sym e)),
              thread_at,
            )
            (k i),
    )

-- Waiting for a thread that has exited returns its code once: its slot and its number are free
-- afterwards, so a second wait finds no such thread.
pub waittid_once :
    (p : ThreadTable) (current tid code : ℕ) (task : Thread) (tids : RecycleAllocator)
    → current ≢ tid
    → get_elem? p.tasks tid ≡ some (some task)
    → task.exit_code ≡ some code
    → dealloc p.tid_allocator tid ≡ ok tids
    → tid < length p.tasks
    → (p' : ThreadTable) × (sys_waittid p current tid ≡ ok (code, p'))
      × (p'.tid_allocator ≡ tids)
      × ((i : ℕ) → i ≢ tid → get_elem? p'.tasks i ≡ get_elem? p.tasks i)
      × (sys_waittid p' current tid ≡ ok (minus 1, p'))
unfolding sys_waittid
waittid_once p current tid code task tids n g x d l = (
  record { tasks = set p.tasks tid none; tid_allocator = tids },
  ground (arith, n, g, x, d, l),
  refl,
  (λ i m. get_elem?-set_ne p.tasks none (λ e. m (sym e))),
  ground (arith, n, l, get_elem?-set_self p.tasks tid none l),
)

-- Waiting for the number right behind the last slot panics: the test lets it through, and there is
-- no such slot.
pub waittid_past_end :
    (p : ThreadTable) (current : ℕ)
    → current ≢ length p.tasks
    → sys_waittid p current (length p.tasks) ≡ panic
unfolding sys_waittid
waittid_past_end p current n =
    ground (arith, n, get_elem?-eq-none p.tasks (length p.tasks) (omega arith))
