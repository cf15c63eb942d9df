-- ===== src/Task/Signal.antt =====
-- Signals: os/src/task/signal, the signal part of os/src/task/mod.rs, and sys_kill, sys_sigaction,
-- sys_sigprocmask and sys_sigreturn of os/src/syscall/process.rs. All 32 bits of `SignalFlags` are
-- flags, so `from_bits` never fails.
pub mod Laws
pub mod Pending
mod Tests
use Prim.Native.Nat.{bit_or, bit_xor}
use acore.Base.{
  ℕ, zero, suc, ◌-◌, ◌^◌, List, [], ◌∷◌, Bool, true, false, not, ◌&&◌, ◌||◌, leb, ◌==◌,
  if◌then◌else◌, Option, none, some, Outcome, ok, ◌>>=◌, unwrap, get_elem?, set, replicate,
}
use acore.Base.Word.Flags.{contains_flag}

abbrev pub sig_cnt : ℕ
sig_cnt = 32

-- The numbers of the signals the kernel knows by name.
abbrev pub sigdef : ℕ
sigdef = 0

abbrev pub sigkill : ℕ
sigkill = 9

abbrev pub sigcont : ℕ
sigcont = 18

abbrev pub sigstop : ℕ
sigstop = 19

abbrev pub flag_of : ℕ → ℕ
flag_of signum = 2 ^ signum

-- Codes are the 32 bits of an `i32`; the messages are left out.
unfoldable pub check_error : ℕ → Option ℕ
check_error signals =
    if contains_flag signals (flag_of 2)
    then some (2 ^ 32 - 2)
    else if contains_flag signals (flag_of 4)
    then some (2 ^ 32 - 4)
    else if contains_flag signals (flag_of 6)
    then some (2 ^ 32 - 6)
    else if contains_flag signals (flag_of 8)
    then some (2 ^ 32 - 8)
    else if contains_flag signals (flag_of 9)
    then some (2 ^ 32 - 9)
    else if contains_flag signals (flag_of 11)
    then some (2 ^ 32 - 11)
    else none

pub record SignalAction : Type 0 where
  pub handler : ℕ
  pub mask : ℕ

-- `SIGQUIT | SIGTRAP`.
abbrev pub default_action : SignalAction
default_action = record { handler = 0; mask = bit_or (flag_of 3) (flag_of 5) }

pub record TrapContext : Type 0 where
  pub gprs : List ℕ
  pub sstatus : ℕ
  pub sepc : ℕ
  pub kernel_satp : ℕ
  pub kernel_stack_top : ℕ
  pub trap_handler : ℕ

-- The signal fields of a process, and the trap contexts of its running thread. `handling_signal`
-- is none for -1.
pub record Signals : Type 0 where
  pub signals : ℕ
  pub signal_actions : List SignalAction
  pub signal_mask : ℕ
  pub handling_signal : Option ℕ
  pub killed : Bool
  pub frozen : Bool
  pub trap_cx : TrapContext
  pub trap_cx_backup : Option TrapContext

-- Over the registers of the machine: `sstatus` is what `sstatus::read` gives, and `set_spp_user` what
-- `set_spp` does to it.
unfoldable pub app_initial_context : (ℕ → ℕ) → ℕ → ℕ → ℕ → ℕ → ℕ → ℕ → TrapContext
app_initial_context set_spp_user sstatus entry_point user_sp kernel_satp kernel_stack_top
      trap_handler =
    record {
      gprs = set (replicate 32 0) 2 user_sp;
      sstatus = set_spp_user sstatus;
      sepc = entry_point;
      kernel_satp = kernel_satp;
      kernel_stack_top = kernel_stack_top;
      trap_handler = trap_handler;
    }

unfoldable pub check_signals_of_current : Signals → Option ℕ
unfolding check_error
check_signals_of_current s = check_error s.signals

unfoldable pub current_add_signal : Signals → ℕ → Signals
current_add_signal s signal = record s { signals = bit_or s.signals signal }

unfoldable pub call_kernel_signal_handler : Signals → ℕ → Signals
call_kernel_signal_handler s signal =
    if signal == flag_of sigstop
    then record s { frozen = true; signals = bit_xor s.signals (flag_of sigstop) }
    else if signal == flag_of sigcont
    then record s { frozen = false; signals = bit_xor s.signals (flag_of sigcont) }
    else record s { killed = true }

unfoldable pub call_user_signal_handler : Signals → ℕ → ℕ → Outcome Signals
call_user_signal_handler s signum signal = do
  action ← unwrap (get_elem? s.signal_actions signum)
  ok (
      if action.handler == 0 then s else record s {
        handling_signal = some signum;
        signals = bit_xor s.signals signal;
        trap_cx_backup = some s.trap_cx;
        trap_cx = record s.trap_cx { sepc = action.handler; gprs = set s.trap_cx.gprs 10 signum };
      })

-- `handling_signal == -1 || !table[handling_signal].mask.contains(signal)`.
unfoldable pub lets_through : Signals → ℕ → Outcome Bool
lets_through s signal = elim s.handling_signal [
  | none ↦ ok true
  | some handling ↦ (do
    action ← unwrap (get_elem? s.signal_actions handling)
    ok (not (contains_flag action.mask signal)))
]

abbrev pub is_kernel_signal : ℕ → Bool
is_kernel_signal signal =
    signal == flag_of sigkill
    || signal == flag_of sigstop
    || signal == flag_of sigcont
    || signal == flag_of sigdef

-- The body of the loop of `check_pending_signals`; the flag tells that it returns.
unfoldable pub check_signal : Signals → ℕ → Outcome (Bool × Signals)
unfolding lets_through call_kernel_signal_handler call_user_signal_handler
check_signal s signum =
    if contains_flag s.signals (flag_of signum)
      && not (contains_flag s.signal_mask (flag_of signum))
    then (do
      through ← lets_through s (flag_of signum)
      (if not through
          then ok (false, s)
          else if is_kernel_signal (flag_of signum)
          then ok (false, call_kernel_signal_handler s (flag_of signum))
          else (do s' ← call_user_signal_handler s signum (flag_of signum); ok (true, s'))))
    else ok (false, s)

-- The loop from a signal on, over the signals that are left.
unfoldable pub check_from : ℕ → ℕ → Signals → Outcome Signals
unfolding check_signal
check_from zero signum s = ok s
check_from (suc left) signum s = check_signal s signum >>= λ r. elim r.0 [
  | true ↦ ok r.1
  | false ↦ check_from left (suc signum) r.1
]

unfoldable pub check_pending_signals : Signals → Outcome Signals
unfolding check_from
check_pending_signals s = check_from sig_cnt 0 s

-- One turn of the loop of `handle_signals`; the flag tells that it leaves the loop, otherwise the
-- thread gives the processor away and comes back.
unfoldable pub handle_signals_turn : Signals → Outcome (Bool × Signals)
unfolding check_pending_signals
handle_signals_turn s = do s' ← check_pending_signals s; ok (s'.killed || not s'.frozen, s')

-- What a call returns: 64 bits of an `isize`.
abbrev pub minus_one : ℕ
minus_one = 2 ^ 64 - 1

-- `signum` is the `i32` as a `usize`; the processes are looked up by pid.
unfoldable pub sys_kill : (ℕ → Option Signals) → ℕ → ℕ → ℕ × (ℕ → Option Signals)
sys_kill processes pid signum =
    if leb sig_cnt signum then (minus_one, processes) else elim (processes pid) [
      | none ↦ (minus_one, processes)
      | some s ↦ if contains_flag s.signals (flag_of signum) then (minus_one, processes) else (
        0,
        λ p.
            if p == pid
            then some (record s { signals = bit_or s.signals (flag_of signum) })
            else processes p,
      )
    ]

unfoldable pub check_sigaction_error : ℕ → ℕ → ℕ → Bool
check_sigaction_error flag action old_action =
    action == 0 || old_action == 0 || flag == flag_of sigkill || flag == flag_of sigstop

-- User memory holds an action at an address.
unfoldable pub sys_sigaction :
    (ℕ → SignalAction) → Signals → ℕ → ℕ → ℕ → Outcome (ℕ × (ℕ → SignalAction) × Signals)
unfolding check_sigaction_error
sys_sigaction memory s signum action old_action =
    if leb sig_cnt signum
    then ok (minus_one, memory, s)
    else if check_sigaction_error (flag_of signum) action old_action
    then ok (minus_one, memory, s)
    else (do
      old ← unwrap (get_elem? s.signal_actions signum)
      let memory' = λ (a : ℕ). if a == old_action then old else memory a
      ok (0, memory', record s { signal_actions = set s.signal_actions signum (memory' action) }))

unfoldable pub sys_sigprocmask : Signals → ℕ → ℕ × Signals
sys_sigprocmask s mask = (s.signal_mask, record s { signal_mask = mask })

unfoldable pub sys_sigreturn : Signals → Outcome (ℕ × Signals)
sys_sigreturn s = do
  trap_cx ← unwrap s.trap_cx_backup
  a0 ← unwrap (get_elem? trap_cx.gprs 10)
  ok (a0, record s { handling_signal = none; trap_cx = trap_cx })
