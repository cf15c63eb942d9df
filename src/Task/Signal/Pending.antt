-- ===== src/Task/Signal/Pending.antt =====
-- The loop of check_pending_signals: it never fails, a stopped process stays stopped, and what keeps
-- a signal from being looked at.
use Prim.Native.Nat.{bit_xor}
use acore.Base.{
  ℕ, zero, suc, ◌+◌, ◌<◌, ◌≤◌, ◌≡◌, refl, subst, ◌⊎◌, inl, inr, Bool, true, false, not, ◌&&◌, ◌||◌,
  none, some, ok, arith, ◌==◌, get_elem?, get_or, get_elem?-eq-get_or, set, length, Bool-cases,
}
use acore.Base.Word.Flags.{digit, contains_flag, contains_flag-eq, pow_eq}
use acore.Task.Signal.{
  Signals, SignalAction, flag_of, sig_cnt, call_user_signal_handler, call_kernel_signal_handler,
  check_signal, check_from, check_pending_signals, lets_through, is_kernel_signal,
  handle_signals_turn, default_action,
}
use acore.Task.Signal.Laws.{xor-OnlyDiffers}

-- The table has an action for every signal, and a handler that runs is one of them.
pub record IsWellFormed (s : Signals) : Type 0 where
  pub all_actions : length s.signal_actions ≡ 32
  pub is_signal : (s.handling_signal ≡ none) ⊎ ((n : ℕ) × (n < 32) × (s.handling_signal ≡ some n))

-- A process that SIGSTOP stopped, and that has neither a SIGCONT nor a signal that kills it.
pub record IsStopped (s : Signals) : Type 0 where
  pub frozen : s.frozen ≡ true
  pub alive : s.killed ≡ false
  pub no_sigdef : digit 0 s.signals ≡ 0
  pub no_sigkill : digit 9 s.signals ≡ 0
  pub no_sigcont : digit 18 s.signals ≡ 0

action_found :
    (s : Signals) (n : ℕ)
    → IsWellFormed s
    → n < 32
    → get_elem? s.signal_actions n ≡ some (get_or s.signal_actions n default_action)
action_found s n wf h =
    get_elem?-eq-get_or s.signal_actions n default_action (omega (arith, wf.all_actions))

lets_through_total :
    (s : Signals) (signal : ℕ) → IsWellFormed s → (b : Bool) × (lets_through s signal ≡ ok b)
unfolding lets_through
lets_through_total s signal wf = elim wf.is_signal [
  | inl e ↦ (true, rw (e, lets_through) refl)
  | inr (n, h, e) ↦ (
    not (contains_flag (get_or s.signal_actions n default_action).mask signal),
    rw (e, action_found s n wf h, lets_through) refl,
  )
]

kernel_signal : (n : ℕ) → is_kernel_signal (flag_of n) ≡ (n == 9 || n == 19 || n == 18 || n == 0)
kernel_signal n = rw (pow_eq n 9, pow_eq n 19, pow_eq n 18, pow_eq n 0) refl

-- What a visit of one signal keeps.
abbrev Keeps : Signals → Signals → Type 0
Keeps s s' = IsWellFormed s' × (IsStopped s → IsStopped s')

user-Keeps :
    (s : Signals) (n : ℕ)
    → IsWellFormed s
    → n < 32
    → is_kernel_signal (flag_of n) ≡ false
    → (s' : Signals) × (call_user_signal_handler s n (flag_of n) ≡ ok s') × Keeps s s'
unfolding call_user_signal_handler
user-Keeps s n wf h k =
    elim (Bool-cases ((get_or s.signal_actions n default_action).handler == 0)) [
      | inl e ↦ (s, rw (action_found s n wf h, e, call_user_signal_handler) refl, (wf, λ st. st))
      | inr e ↦
          let s' = record s {
            handling_signal = some n;
            signals = bit_xor s.signals (flag_of n);
            trap_cx_backup = some s.trap_cx;
            trap_cx = record s.trap_cx {
              sepc = (get_or s.signal_actions n default_action).handler;
              gprs = set s.trap_cx.gprs 10 n;
            };
          } in
          (
            s',
            rw (action_found s n wf h, e, call_user_signal_handler) refl,
            (
              record { all_actions = wf.all_actions; is_signal = inr (n, h, refl) },
              λ st. record {
                frozen = st.frozen;
                alive = st.alive;
                no_sigdef =
                    ground (arith, kernel_signal n, xor-OnlyDiffers n s.signals 0, st.no_sigdef);
                no_sigkill =
                    ground (arith, kernel_signal n, xor-OnlyDiffers n s.signals 9, st.no_sigkill);
                no_sigcont =
                    ground (arith, kernel_signal n, xor-OnlyDiffers n s.signals 18, st.no_sigcont);
              },
            ),
          )
    ]

kernel-Keeps :
    (s : Signals) (n : ℕ)
    → IsWellFormed s
    → digit n s.signals ≡ 1
    → is_kernel_signal (flag_of n) ≡ true
    → Keeps s (call_kernel_signal_handler s (flag_of n))
unfolding call_kernel_signal_handler
kernel-Keeps s n wf d k = (
  record { all_actions = ground (arith, wf.all_actions); is_signal = ground (arith, wf.is_signal) },
  λ st. record {
    frozen = ground (arith, kernel_signal n, pow_eq n 19, pow_eq n 18, st.frozen, st.no_sigcont);
    alive = ground (
      arith,
      kernel_signal n,
      pow_eq n 19,
      pow_eq n 18,
      st.alive,
      st.no_sigdef,
      st.no_sigkill,
      st.no_sigcont,
    );
    no_sigdef = ground (
      arith,
      pow_eq n 19,
      pow_eq n 18,
      xor-OnlyDiffers 19 s.signals 0,
      xor-OnlyDiffers 18 s.signals 0,
      st.no_sigdef,
    );
    no_sigkill = ground (
      arith,
      pow_eq n 19,
      pow_eq n 18,
      xor-OnlyDiffers 19 s.signals 9,
      xor-OnlyDiffers 18 s.signals 9,
      st.no_sigkill,
    );
    no_sigcont = ground (
      arith,
      kernel_signal n,
      pow_eq n 19,
      pow_eq n 18,
      xor-OnlyDiffers 19 s.signals 18,
      st.no_sigcont,
    );
  },
)

check_signal-Keeps :
    (s : Signals) (n : ℕ)
    → IsWellFormed s
    → n < 32
    → (b : Bool) × (s' : Signals) × (check_signal s n ≡ ok (b, s')) × Keeps s s'
unfolding check_signal
check_signal-Keeps s n wf h =
    elim (Bool-cases
      (contains_flag s.signals (flag_of n) && not (contains_flag s.signal_mask (flag_of n)))) [
        | inr e ↦ (false, s, rw (e, check_signal) refl, (wf, λ st. st))
        | inl e ↦
            let (b, t) = lets_through_total s (flag_of n) wf in
            elim (Bool-cases b) [
              | inr f ↦ (false, s, rw (e, t, f, check_signal) refl, (wf, λ st. st))
              | inl f ↦ elim (Bool-cases (is_kernel_signal (flag_of n))) [
                | inl k ↦ (
                  false,
                  call_kernel_signal_handler s (flag_of n),
                  rw (e, t, f, k, check_signal) refl,
                  kernel-Keeps s n wf (ground (arith, contains_flag-eq s.signals n)) k,
                )
                | inr k ↦
                    let (s', u, keeps) = user-Keeps s n wf h k in
                    (true, s', rw (e, t, f, k, u, check_signal) refl, keeps)
              ]
            ]
      ]

check_from-Keeps :
    (left n : ℕ) (s : Signals)
    → IsWellFormed s
    → n + left ≤ 32
    → (s' : Signals) × (check_from left n s ≡ ok s') × Keeps s s'
unfolding check_from
check_from-Keeps zero n s wf h = (s, refl, (wf, λ st. st))
check_from-Keeps (suc left) n s wf h =
    let (b, s₁, e, keeps) = check_signal-Keeps s n wf (omega arith) in
    elim (Bool-cases b) [
      | inl f ↦ (s₁, rw (e, f) refl, keeps)
      | inr f ↦
          let (s₂, e₂, keeps₂) = check_from-Keeps left (suc n) s₁ keeps.0 (omega arith) in
          (s₂, rw (e, f, e₂) refl, (keeps₂.0, λ st. keeps₂.1 (keeps.1 st)))
    ]

-- Looking at the pending signals always succeeds and keeps the tables well formed.
pub check_pending_signals_total :
    (s : Signals)
    → IsWellFormed s
    → (s' : Signals) × (check_pending_signals s ≡ ok s') × IsWellFormed s'
unfolding check_pending_signals
check_pending_signals_total s wf =
    let (s', e, keeps) = check_from-Keeps sig_cnt 0 s wf (omega arith) in (s', e, keeps.0)

-- A stopped process stays in the loop of handle_signals, stopped and not killed, whatever other signals are
-- pending, as long as none of SIGCONT, SIGKILL and SIGDEF is.
pub handle_signals_turn-IsStopped :
    (s : Signals)
    → IsWellFormed s
    → IsStopped s
    → (s' : Signals) × (handle_signals_turn s ≡ ok (false, s')) × IsStopped s'
unfolding handle_signals_turn check_pending_signals
handle_signals_turn-IsStopped s wf st =
    let (s', e, keeps) = check_from-Keeps sig_cnt 0 s wf (omega arith) in
    let st' = keeps.1 st in (s', rw e (rw (st'.frozen, st'.alive) refl), st')

quiet : (s : Signals) (n : ℕ) → digit n s.signals ≡ 0 → check_signal s n ≡ ok (false, s)
unfolding check_signal
quiet s n d = ground (arith, contains_flag-eq s.signals n)

-- A pending signal that nothing masks, with no handler and no meaning for the kernel.
pub record IsIgnored (s : Signals) (n : ℕ) : Type 0 where
  pub no_kernel_signal : is_kernel_signal (flag_of n) ≡ false
  pub pending : digit n s.signals ≡ 1
  pub unmasked : digit n s.signal_mask ≡ 0
  pub idle : s.handling_signal ≡ none
  pub action : SignalAction
  pub in_table : get_elem? s.signal_actions n ≡ some action
  pub no_handler : action.handler ≡ 0

ignored : (s : Signals) (n : ℕ) → IsIgnored s n → check_signal s n ≡ ok (true, s)
unfolding check_signal lets_through call_user_signal_handler
ignored s n g = ground (
  arith,
  contains_flag-eq s.signals n,
  contains_flag-eq s.signal_mask n,
  g.no_kernel_signal,
  g.pending,
  g.unmasked,
  g.idle,
  g.in_table,
  g.no_handler,
)

starves_from :
    (s : Signals) (n : ℕ)
    → IsIgnored s n
    → ((i : ℕ) → i < n → digit i s.signals ≡ 0)
    → (left k : ℕ) → k ≤ n
    → n < k + left
    → check_from left k s ≡ ok s
unfolding check_from
starves_from s n g lower zero k p q = absurd (omega arith)
starves_from s n g lower (suc left) k p q = elim (Bool-cases (k == n)) [
  | inl e ↦
      let here : check_signal s k ≡ ok (true, s) =
        subst (λ j. check_signal s j ≡ ok (true, s)) (ground arith) (ignored s n g) in
      rw here refl
  | inr e ↦
      rw (quiet s k (lower k (ground arith)))
        (starves_from s n g lower left (suc k) (ground arith) (omega arith))
]

-- A pending unmasked signal that the kernel does not treat itself and whose handler is 0, while no
-- handler runs and no smaller signal is pending: `check_pending_signals` leaves the process as it is,
-- whatever larger signals are pending. The signal stays pending, and a larger one is neither given
-- to its handler nor, as SIGSTOP or SIGCONT, to the kernel.
pub ignored_signal_starves :
    (s : Signals) (n : ℕ)
    → n < 32
    → IsIgnored s n
    → ((i : ℕ) → i < n → digit i s.signals ≡ 0)
    → check_pending_signals s ≡ ok s
unfolding check_pending_signals
ignored_signal_starves s n h g lower =
    starves_from s n g lower sig_cnt 0 (omega arith) (omega arith)
