-- ===== src/Task/Signal/Laws.antt =====
-- Sending a signal, and running a handler and returning from it.
use Prim.Native.Nat.{bit_or, bit_xor}
use acore.Base.{
  ℕ, ◌^◌, ◌<◌, ◌≤◌, ◌≡◌, ◌≢◌, refl, ◌⊎◌, inl, inr, Option, none, some, ok, arith, ◌==◌, get_elem?,
  set, length, Bool-cases, get_elem?-set_self,
}
use acore.Base.Word.Flags.{digit, digit-or, digit-xor, digit-pow, digit-lt, contains_flag-eq}
use acore.Base.Word.Digits.{differ-zero}
use acore.Task.Signal.{
  Signals, SignalAction, flag_of, minus_one, sys_kill, call_user_signal_handler, sys_sigreturn,
}

-- A set of signals after one was put in or taken out.
abbrev pub OnlyDiffers : ℕ → ℕ → ℕ → Type 0
OnlyDiffers signum signals signals' = (i : ℕ) → i ≢ signum → digit i signals' ≡ digit i signals

pub or-OnlyDiffers : (n a : ℕ) → OnlyDiffers n a (bit_or a (flag_of n))
or-OnlyDiffers n a i h = ground (arith, digit-or i a (2 ^ n), digit-pow i n)

pub xor-OnlyDiffers : (n a : ℕ) → OnlyDiffers n a (bit_xor a (flag_of n))
xor-OnlyDiffers n a i h =
    ground (arith, digit-xor i a (2 ^ n), digit-pow i n, differ-zero (digit i a))

pub digit-or_self : (n a : ℕ) → digit n (bit_or a (flag_of n)) ≡ 1
digit-or_self n a = ground (arith, digit-or n a (2 ^ n), digit-pow n n, digit-lt n a)

pub digit-xor_self : (n a : ℕ) → digit n a ≡ 1 → digit n (bit_xor a (flag_of n)) ≡ 0
digit-xor_self n a h = ground (arith, digit-xor n a (2 ^ n), digit-pow n n)

-- Sending one of the 32 signals to a living process: it is refused, with nothing changed, if the
-- signal is pending already; otherwise exactly this signal becomes pending in exactly this process.
pub kill_lem :
    (processes : ℕ → Option Signals) (pid signum : ℕ) (s : Signals)
    → signum < 32
    → processes pid ≡ some s
    → ((digit signum s.signals ≡ 1) × (sys_kill processes pid signum ≡ (minus_one, processes)))
      ⊎ ((digit signum s.signals ≡ 0)
          × (s' : Signals) × ((sys_kill processes pid signum).0 ≡ 0)
          × ((sys_kill processes pid signum).1 pid ≡ some s')
          × (digit signum s'.signals ≡ 1)
          × OnlyDiffers signum s.signals s'.signals
          × (s' ≡ record s { signals = s'.signals })
          × ((q : ℕ) → q ≢ pid → (sys_kill processes pid signum).1 q ≡ processes q))
unfolding sys_kill
kill_lem processes pid signum s h e = elim (Bool-cases (digit signum s.signals == 1)) [
  | inl d ↦ inl (ground arith, ground (arith, contains_flag-eq s.signals signum))
  | inr d ↦ inr (
    ground (arith, digit-lt signum s.signals),
    record s { signals = bit_or s.signals (flag_of signum) },
    ground (arith, contains_flag-eq s.signals signum),
    ground (arith, contains_flag-eq s.signals signum),
    digit-or_self signum s.signals,
    or-OnlyDiffers signum s.signals,
    refl,
    λ q n. ground (arith, contains_flag-eq s.signals signum),
  )
]

-- Sending to a number that is no signal, or to nobody, changes nothing.
pub kill_refused :
    (processes : ℕ → Option Signals) (pid signum : ℕ)
    → ((32 ≤ signum) ⊎ (processes pid ≡ none))
    → sys_kill processes pid signum ≡ (minus_one, processes)
unfolding sys_kill
kill_refused processes pid signum h = ground arith

-- A signal with a handler: the thread goes on in the handler with the signal's number as argument, and
-- the signal is no longer pending. Whatever the handler does to the process and to the thread's
-- context, if it leaves the saved context alone, its return puts the whole context back as it was
-- before the signal, ends the handling, and changes nothing else.
pub handler_roundtrip :
    (s : Signals) (signum a0 : ℕ) (action : SignalAction) (run : Signals → Signals)
    → digit signum s.signals ≡ 1
    → get_elem? s.signal_actions signum ≡ some action
    → action.handler ≢ 0
    → get_elem? s.trap_cx.gprs 10 ≡ some a0
    → 10 < length s.trap_cx.gprs
    → ((u : Signals) → (run u).trap_cx_backup ≡ u.trap_cx_backup)
    → (s' : Signals) × (call_user_signal_handler s signum (flag_of signum) ≡ ok s')
      × (s'.trap_cx.sepc ≡ action.handler)
      × (get_elem? s'.trap_cx.gprs 10 ≡ some signum)
      × (s'.handling_signal ≡ some signum)
      × (digit signum s'.signals ≡ 0)
      × OnlyDiffers signum s.signals s'.signals
      × (sys_sigreturn (run s')
          ≡ ok (a0, record (run s') { handling_signal = none; trap_cx = s.trap_cx }))
unfolding call_user_signal_handler sys_sigreturn
handler_roundtrip s signum a0 action run d e h g l kept =
    let s' = record s {
      handling_signal = some signum;
      signals = bit_xor s.signals (flag_of signum);
      trap_cx_backup = some s.trap_cx;
      trap_cx = record s.trap_cx { sepc = action.handler; gprs = set s.trap_cx.gprs 10 signum };
    } in
    (
      s',
      ground arith,
      refl,
      get_elem?-set_self s.trap_cx.gprs 10 signum l,
      refl,
      digit-xor_self signum s.signals d,
      xor-OnlyDiffers signum s.signals,
      rw (kept s', g) refl,
    )
