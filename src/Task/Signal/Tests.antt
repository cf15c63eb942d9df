-- ===== src/Task/Signal/Tests.antt =====
-- Signals at concrete states.
use acore.Base.{
  ℕ, ◌≡◌, ◌≢◌, refl, ◌⊎◌, inl, true, false, Option, none, some, ok, arith, ◌==◌, if◌then◌else◌,
  get_elem?, replicate, set,
}
use acore.Base.Word.Flags.{digit}
use acore.Task.Signal.{
  Signals, SignalAction, TrapContext, default_action, flag_of, minus_one, sys_kill,
  call_user_signal_handler, sys_sigreturn, check_pending_signals, handle_signals_turn,
}
use acore.Task.Signal.Laws.{OnlyDiffers, kill_lem, handler_roundtrip}
use acore.Task.Signal.Pending.{
  IsWellFormed, IsStopped, IsIgnored, handle_signals_turn-IsStopped, ignored_signal_starves,
}

abbrev user_code : TrapContext
user_code = record {
  gprs = replicate 32 7;
  sstatus = 0;
  sepc = 4096;
  kernel_satp = 0;
  kernel_stack_top = 0;
  trap_handler = 0;
}

abbrev handle_usr1 : SignalAction
handle_usr1 = record { handler = 65536; mask = 0 }

-- Stopped, with SIGUSR1 (10) pending, which has a handler.
abbrev stopped : Signals
stopped = record {
  signals = 1024;
  signal_actions = set (replicate 32 default_action) 10 handle_usr1;
  signal_mask = 0;
  handling_signal = none;
  killed = false;
  frozen = true;
  trap_cx = user_code;
  trap_cx_backup = none;
}

stopped-IsWellFormed : IsWellFormed stopped
stopped-IsWellFormed = record { all_actions = refl; is_signal = inl refl }

stopped-IsStopped : IsStopped stopped
stopped-IsStopped = record {
  frozen = refl;
  alive = refl;
  no_sigdef = refl;
  no_sigkill = refl;
  no_sigcont = refl;
}

handle_signals_turn-IsStopped_example :
    (s' : Signals) × (handle_signals_turn stopped ≡ ok (false, s')) × IsStopped s'
handle_signals_turn-IsStopped_example =
    handle_signals_turn-IsStopped stopped stopped-IsWellFormed stopped-IsStopped

abbrev processes : ℕ → Option Signals
processes pid = if pid == 3 then some stopped else none

kill_lem_example :
    ((digit 9 stopped.signals ≡ 1) × (sys_kill processes 3 9 ≡ (minus_one, processes)))
    ⊎ ((digit 9 stopped.signals ≡ 0)
        × (s' : Signals) × ((sys_kill processes 3 9).0 ≡ 0)
        × ((sys_kill processes 3 9).1 3 ≡ some s')
        × (digit 9 s'.signals ≡ 1)
        × OnlyDiffers 9 stopped.signals s'.signals
        × (s' ≡ record stopped { signals = s'.signals })
        × ((q : ℕ) → q ≢ 3 → (sys_kill processes 3 9).1 q ≡ processes q))
kill_lem_example = kill_lem processes 3 9 stopped (omega arith) refl

-- A handler that leaves other registers and another status, and gets a SIGKILL.
abbrev spoils : Signals → Signals
spoils u = record u {
  signals = 512;
  trap_cx = record {
    gprs = replicate 32 99;
    sstatus = 1;
    sepc = 65600;
    kernel_satp = 2;
    kernel_stack_top = 3;
    trap_handler = 4;
  };
}

handler_roundtrip_example :
    (s' : Signals) × (call_user_signal_handler stopped 10 (flag_of 10) ≡ ok s')
    × (s'.trap_cx.sepc ≡ 65536)
    × (get_elem? s'.trap_cx.gprs 10 ≡ some 10)
    × (s'.handling_signal ≡ some 10)
    × (digit 10 s'.signals ≡ 0)
    × OnlyDiffers 10 stopped.signals s'.signals
    × (sys_sigreturn (spoils s')
        ≡ ok (7, record (spoils s') { handling_signal = none; trap_cx = user_code }))
handler_roundtrip_example =
    handler_roundtrip stopped 10 7 handle_usr1 spoils refl refl (omega arith) refl (omega arith)
      (λ u. refl)

-- SIGHUP (1) has no handler, and SIGKILL (9) is pending too.
abbrev stuck : Signals
stuck = record stopped { signals = 514 }

stuck-IsIgnored : IsIgnored stuck 1
stuck-IsIgnored = record {
  no_kernel_signal = refl;
  pending = refl;
  unmasked = refl;
  idle = refl;
  action = default_action;
  in_table = refl;
  no_handler = refl;
}

ignored_signal_starves_example : check_pending_signals stuck ≡ ok stuck
ignored_signal_starves_example =
    ignored_signal_starves stuck 1 (omega arith) stuck-IsIgnored λ i h. ground arith
