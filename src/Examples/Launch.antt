-- ===== src/Examples/Launch.antt =====
-- A Windows that answers as it does when the game starts well, and one on which the library is refused.
use opensamp.Prelude.{if◌then◌else◌, ◌==◌, ℕ, ◌+◌, ◌%◌, ◌^◌, ◌≤◌, ◌≡◌, refl, [], ◌∷◌, some, arith}
use opensamp.Launcher.Calls.{
  Windows, module_file_name, exe_exists, dll_exists, absolute_path, create_process, tick_count,
  module_handle, message_box, proc_address, open_process, create_snapshot, sleep, module_first,
  close, terminate, exit_code_process, exit_code_thread, wait, alloc, free, write_memory,
  remote_thread, Answer, Outcome, returns, Log, pure, throw, ◌>>=◌, ◌>>◌, catch, ask, tell,
}
use opensamp.Launcher.Resources.{live, holds, release, effect}
use opensamp.Launcher.{
  try_kill_process, has_module, check_running, wait_rounds, wait_for_process_ready, ask_last_error,
  await_load, start_load, inject_dll, require, give_up, start_game, run_injection, run_from,
  run_game,
}
use opensamp.Launcher.Release.{run_game-releases}
use opensamp.Launcher.Clock.{Clock}
use opensamp.Launcher.Waiting.{run_game-ends}

abbrev answer : ℕ → ℕ → Answer
answer r o = record { result = r; out = o; out2 = 8; out3 = 100 }

-- A millisecond for each call.
abbrev calls : Log → ℕ
calls [] = 0
calls (c ∷ l) = calls l + 1

-- The module address with which LoadLibraryW ends, or 0 when it refuses the library.
abbrev windows : ℕ → Windows
windows loaded l create_process = answer 1 4
windows loaded l (open_process pid) = answer 12 0
windows loaded l (create_snapshot pid) = answer 16 0
windows loaded l (alloc p n) = answer 0x10000 0
windows loaded l (remote_thread p f m) = answer 20 0
windows loaded l (write_memory p m n) = answer 1 n
windows loaded l (exit_code_thread t) = answer 1 loaded
windows loaded l (exit_code_process t) = answer 1 259
windows loaded l (module_first s) = answer 1 0
windows loaded l (wait h ms) = if h == 20 then answer 0 0 else answer 0x102 0
windows loaded l module_file_name = answer 20 0
windows loaded l exe_exists = answer 1 0
windows loaded l dll_exists = answer 1 0
windows loaded l absolute_path = answer 30 0
windows loaded l tick_count = answer (calls l % 2 ^ 32) 0
windows loaded l module_handle = answer 0x70000000 0
windows loaded l (proc_address m) = answer 0x70001000 0
windows loaded l (close h) = answer 1 0
windows loaded l (terminate h) = answer 1 0
windows loaded l (free p m) = answer 1 0
windows loaded l (sleep ms) = answer 0 0
windows loaded l message_box = answer 1 0

-- LoadLibraryW answers null, and the game is killed again.
refused : Outcome ℕ × Log
refused = run_game (windows 0) 3 []

run_game-releases_example : live refused.1 ≡ some []
unfolding refused run_game run_from start_game require give_up run_injection inject_dll start_load
    await_load wait_for_process_ready wait_rounds check_running has_module try_kill_process ask tell
    catch pure throw ◌>>=◌ ◌>>◌ ask_last_error effect holds release
run_game-releases_example =
    run_game-releases (windows 0) 3 [] {n = 1} {m = refused.1} (λ l e. refl) refl refl

clock : Clock (windows 0x10000000)
clock = record {
  now = calls;
  ticks = λ l. refl;
  forward = λ l c a. omega arith;
  soon = λ l c a p. omega arith;
  sleeps = λ l ms a. omega arith;
}

run_game-ends_example :
    (n : ℕ) × (m : Log) × (n ≤ 1) × (run_game (windows 0x10000000) 15001 [] ≡ (returns n, m))
run_game-ends_example = run_game-ends (windows 0x10000000) [] clock
