-- ===== src/Exception/Report.antt =====
-- source/exception.c: what an exception carries, the state that its handler changes, what it prints,
-- and the writes through the pointer to a thread.
use iosdbg.Base.{ℕ, zero, suc, Bool, true, false, List, [], ◌∷◌, ◌++◌}
use iosdbg.Debuggee.{MachThread, Debuggee, StepKind, inst_step_over}

-- What is printed.
pub data Line : Type 0 where
  thread_line : (id tid : ℕ) → Line
  fake_stop : (nosigs : Bool) → Line
  signal_line : (subcode : ℕ) → Line
  resuming : Line
  watchpoint_line : (id location hits : ℕ) (before after : List ℕ) → Line
  breakpoint_line : (id location hits : ℕ) → Line
  step_line : StepKind → Line
  disassembly : (location : ℕ) → Line
  stop_reason : (exception code subcode : ℕ) → Line

-- The state of the debugger, the two flags of the caller, and what was printed.
pub record Outcome (W : Type 0) : Type 0 where
  pub debuggee : Debuggee W
  pub should_auto_resume : Bool
  pub should_print : Bool
  pub desc : List Line

-- What is read of `Request`: the port of the thread and the codes.
pub record Request : Type 0 where
  pub thread : ℕ
  pub exception : ℕ
  pub code_cnt : ℕ
  pub code : ℕ
  pub subcode : ℕ

-- The numbers that the headers of the kernel give to the exceptions and their codes.
pub record Codes : Type 0 where
  pub exc_software : ℕ
  pub exc_soft_signal : ℕ
  pub exc_arm_da_debug : ℕ
  pub exc_breakpoint : ℕ
  pub exc_arm_breakpoint : ℕ

unfoldable pub update_at : ℕ → (MachThread → MachThread) → List MachThread → List MachThread
update_at i f [] = []
update_at zero f (t ∷ ts) = f t ∷ ts
update_at (suc i) f (t ∷ ts) = t ∷ update_at i f ts

abbrev pub is_over : StepKind → Bool
is_over inst_step_over = true
is_over _ = false

module _ {W : Type 0} where
  -- A write through the pointer to a thread.
  abbrev pub write_thread : ℕ → (MachThread → MachThread) → Debuggee W → Debuggee W
  write_thread i f d = record d { threads = update_at i f d.threads }

  abbrev pub print : List Line → Outcome W → Outcome W
  print lines o = record o { desc = o.desc ++ lines }

  abbrev pub quiet : Outcome W → Outcome W
  quiet o = record o { should_print = false }

  abbrev pub stay : Outcome W → Outcome W
  stay o = record o { should_auto_resume = false }

  abbrev pub with_debuggee : Debuggee W → Outcome W → Outcome W
  with_debuggee d o = record o { debuggee = d }
