-- ===== src/Launcher/Calls.antt =====
-- The calls of Windows and of std::filesystem in launcher/inject.h, with exceptions as outcomes.
use opensamp.Prelude.{ℕ, List, ◌∷◌}

-- What the launcher asks for. Handles, addresses and process ids are the numbers answered before.
pub data Call : Type 0 where
  module_file_name exe_exists dll_exists absolute_path create_process tick_count : Call
  module_handle message_box : Call
  proc_address : ℕ → Call
  open_process create_snapshot sleep : ℕ → Call
  module_first close terminate exit_code_process exit_code_thread : ℕ → Call
  wait alloc : ℕ → ℕ → Call
  free : ℕ → ℕ → Call
  write_memory : ℕ → ℕ → ℕ → Call
  remote_thread : ℕ → ℕ → ℕ → Call

-- The result, and what the call writes through its pointers.
pub record Answer : Type 0 where
  pub result : ℕ
  pub out : ℕ
  pub out2 : ℕ
  pub out3 : ℕ

abbrev pub Log : Type 0
Log = List (Call × Answer)

-- Windows answers each call by all that went before; the last call stands first.
abbrev pub Windows : Type 0
Windows = Log → Call → Answer

-- The messages of the exceptions.
pub data Failure : Type 0 where
  filesystem_error no_module_name no_exe no_dll not_started exited_early : Failure
  empty_path not_opened not_allocated not_written no_kernel32 no_load_library no_thread : Failure
  timed_out unexpected_wait no_exit_code not_loaded : Failure

-- How a function ends: it returns, it throws, or its loop is still going when the rounds allowed
-- are used up.
pub data Outcome (A : Type 0) : Type 0 where
  returns : A → Outcome A
  throws : Failure → Outcome A
  going : Outcome A

abbrev pub Step : Type 0 → Type 0
Step A = Log → Outcome A × Log

module _ {A : Type 0} where
  unfoldable pub pure : A → Step A
  pure a l = (returns a, l)

  unfoldable pub throw : Failure → Step A
  throw e l = (throws e, l)

  unfoldable pub exhausted : Step A
  exhausted l = (going, l)

module _ {A B : Type 0} where
  abbrev pub continue : Outcome A × Log → (A → Step B) → Outcome B × Log
  continue (returns a, l) f = f a l
  continue (throws e, l) f = (throws e, l)
  continue (going, l) f = (going, l)

  infixl 10 ◌>>=◌
  unfoldable pub ◌>>=◌ : Step A → (A → Step B) → Step B
  ◌>>=◌ m f l = continue (m l) f

module _ {B : Type 0} where
  infixl 10 ◌>>◌
  unfoldable pub ◌>>◌ : Step Unit → Step B → Step B
  ◌>>◌ m k l = continue (m l) (λ u. k)

module _ {A : Type 0} where
  abbrev pub handle_outcome : Outcome A × Log → Step A → Outcome A × Log
  handle_outcome (returns a, l) h = (returns a, l)
  handle_outcome (throws e, l) h = h l
  handle_outcome (going, l) h = (going, l)

  -- try and catch.
  unfoldable pub catch : Step A → Step A → Step A
  catch m h l = handle_outcome (m l) h

module _ (os : Windows) where
  unfoldable pub ask : Call → Step Answer
  ask c l = (returns (os l c), (c, os l c) ∷ l)

  -- A call whose answer is not looked at.
  unfoldable pub tell : Call → Step Unit
  tell c l = (returns tt, (c, os l c) ∷ l)
