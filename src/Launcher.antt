-- ===== src/Launcher.antt =====
-- launcher/inject.h: the start of the game and the injection of the library into it.
pub mod Calls
pub mod Resources
mod Harmless
mod Rules
mod Balance
pub mod Release
mod Ending
pub mod Clock
pub mod Waiting
use Calls.{
  Windows, Call, module_file_name, exe_exists, dll_exists, absolute_path, create_process,
  tick_count, module_handle, message_box, proc_address, open_process, create_snapshot, sleep,
  module_first, close, terminate, exit_code_process, exit_code_thread, wait, alloc, free,
  write_memory, remote_thread, Answer, filesystem_error, no_module_name, no_exe, no_dll,
  not_started, exited_early, empty_path, not_opened, not_allocated, not_written, no_kernel32,
  no_load_library, no_thread, timed_out, unexpected_wait, no_exit_code, not_loaded, Failure,
  Outcome, returns, throws, going, Log, Step, pure, throw, exhausted, ◌>>=◌, ◌>>◌, catch, ask, tell,
}
use opensamp.Prelude.{ℕ, zero, suc, ◌+◌, ◌*◌, Bool, ◌&&◌, ◌||◌, not, ltb, leb, ◌==◌, if◌then◌else◌}
use opensamp.Bridge.Senders.{sub32}

-- WAIT_OBJECT_0, WAIT_TIMEOUT, INVALID_HANDLE_VALUE, STILL_ACTIVE and MAX_PATH.
abbrev pub wait_object_0 : ℕ
wait_object_0 = 0

abbrev pub wait_timeout : ℕ
wait_timeout = 0x102

abbrev pub invalid_handle : ℕ
invalid_handle = 0xffffffff

abbrev pub still_active : ℕ
still_active = 259

abbrev pub max_path : ℕ
max_path = 260

module _ (os : Windows) where
  -- try_kill_process.
  unfoldable pub try_kill_process : ℕ → Step Unit
  try_kill_process h_process = if h_process == 0 then pure tt else (do
    code ← ask os (exit_code_process h_process)
    if code.result == 0 || not (code.out == still_active)
        then pure tt
        else do tell os (terminate h_process); tell os (wait h_process 3000))

  -- One look at the modules of the process; whether there is one.
  unfoldable pub has_module : ℕ → Step Bool
  has_module pid = do
    snap ← ask os (create_snapshot pid)
    if snap.result == invalid_handle then pure Bool.false else do
      found ← ask os (module_first snap.result)
      tell os (close snap.result)
      pure (not (found.result == 0))

  -- The test at the start of a round of wait_for_process_ready.
  unfoldable pub check_running : ℕ → Step Unit
  check_running pid = do
    h ← ask os (open_process pid)
    if h.result == 0 then throw exited_early else do
      waited ← ask os (wait h.result 0)
      tell os (close h.result)
      if waited.result == wait_object_0 then throw exited_early else pure tt

  -- The loop of wait_for_process_ready, for so many rounds at most.
  unfoldable pub wait_rounds : ℕ → ℕ → ℕ → ℕ → Step Unit
  wait_rounds zero pid timeout start = exhausted
  wait_rounds (suc rounds) pid timeout start =
      let rest = wait_rounds rounds pid timeout start in
      (do
        now ← ask os tick_count
        if ltb (sub32 now.result start) timeout
            then (do
              check_running pid
              found ← has_module pid
              if found then pure tt else do tell os (sleep 100); rest)
            else pure tt)

  -- wait_for_process_ready.
  unfoldable pub wait_for_process_ready : ℕ → ℕ → ℕ → Step Unit
  wait_for_process_ready rounds pid timeout = do
    start ← ask os tick_count
    wait_rounds rounds pid timeout start.result

  -- try_get_remote_last_error, whose result ends up in a text that nothing shows.
  unfoldable pub ask_last_error : ℕ → Step Unit
  ask_last_error h_process = do
    kernel ← ask os module_handle
    if kernel.result == 0 then pure tt else do
      proc ← ask os (proc_address kernel.result)
      if proc.result == 0 then pure tt else do
        thread ← ask os (remote_thread h_process proc.result 0)
        if thread.result == 0 then pure tt else do
          waited ← ask os (wait thread.result 5000)
          if waited.result == wait_object_0
              then tell os (exit_code_thread thread.result)
              else pure tt
          tell os (close thread.result)

  -- The end of inject_dll_load_library_w, behind the start of the thread.
  unfoldable pub await_load : ℕ → ℕ → ℕ → Step Unit
  await_load h_process memory h_thread = do
    waited ← ask os (wait h_thread 10000)
    if waited.result == wait_timeout || not (waited.result == wait_object_0)
        then (do
          tell os (close h_thread)
          tell os (free h_process memory)
          tell os (close h_process)
          throw (if waited.result == wait_timeout then timed_out else unexpected_wait))
        else do
          code ← ask os (exit_code_thread h_thread)
          tell os (close h_thread)
          tell os (free h_process memory)
          if code.result == 0
              then (do tell os (close h_process); throw no_exit_code)
              else if code.out == 0
              then (do
                ask_last_error h_process
                try_kill_process h_process
                tell os (close h_process)
                throw not_loaded)
              else tell os (close h_process)

  -- The middle of inject_dll_load_library_w, behind the allocation.
  unfoldable pub start_load : ℕ → ℕ → ℕ → Step Unit
  start_load size h_process memory = do
    written ← ask os (write_memory h_process memory size)
    if written.result == 0 || not (written.out == size)
        then (do tell os (free h_process memory); tell os (close h_process); throw not_written)
        else do
          kernel ← ask os module_handle
          if kernel.result == 0
              then (do
                tell os (free h_process memory)
                tell os (close h_process)
                throw no_kernel32)
              else do
                proc ← ask os (proc_address kernel.result)
                if proc.result == 0
                    then (do
                      tell os (free h_process memory)
                      tell os (close h_process)
                      throw no_load_library)
                    else do
                      thread ← ask os (remote_thread h_process proc.result memory)
                      if thread.result == 0
                          then (do
                            tell os (free h_process memory)
                            tell os (close h_process)
                            throw no_thread)
                          else await_load h_process memory thread.result

  -- inject_dll_load_library_w. The absolute path is answered by its length, and whether
  -- std::filesystem throws.
  unfoldable pub inject_dll : ℕ → Step Unit
  inject_dll pid = do
    path ← ask os absolute_path
    if not (path.out == 0)
        then throw filesystem_error
        else if path.result == 0
        then throw empty_path
        else do
          process ← ask os (open_process pid)
          if process.result == 0 then throw not_opened else do
            memory ← ask os (alloc process.result ((path.result + 1) * 2))
            if memory.result == 0
                then (do tell os (close process.result); throw not_allocated)
                else start_load ((path.result + 1) * 2) process.result memory.result

  -- fs::exists, answered by whether the file is there and whether the call throws.
  unfoldable pub require : Call → Failure → Step Unit
  require c e = do
    found ← ask os c
    if not (found.out == 0)
        then throw filesystem_error
        else if found.result == 0
        then throw e
        else pure tt

  -- The handler of run_game.
  unfoldable pub give_up : ℕ → ℕ → Step ℕ
  give_up h_process h_thread = do
    try_kill_process h_process
    if h_thread == 0 then pure tt else tell os (close h_thread)
    if h_process == 0 then pure tt else tell os (close h_process)
    tell os message_box
    pure 1

  -- The try block of run_game up to the start of the game: the handles and the process id.
  unfoldable pub start_game : Step Answer
  start_game = do
    name ← ask os module_file_name
    if name.result == 0 || leb max_path name.result then throw no_module_name else do
      require exe_exists no_exe
      require dll_exists no_dll
      started ← ask os create_process
      if started.result == 0 then throw not_started else pure started

  -- The rest of the try block.
  unfoldable pub run_injection : ℕ → Answer → Step ℕ
  run_injection rounds started = do
    tell os (close started.out2)
    wait_for_process_ready rounds started.out3 15000
    inject_dll started.out3
    tell os (close started.out)
    pure 0

  -- run_game behind its start: up to there no handle is kept, and then only the process's.
  unfoldable pub run_from : ℕ → Outcome Answer × Log → Outcome ℕ × Log
  run_from rounds (returns started, l) =
      catch (run_injection rounds started) (give_up started.out 0) l
  run_from rounds (throws e, l) = give_up 0 0 l
  run_from rounds (going, l) = (going, l)

  -- run_game.
  unfoldable pub run_game : ℕ → Step ℕ
  run_game rounds l = run_from rounds (start_game l)
