-- ===== src/Launcher/Balance.antt =====
-- What the functions of launcher/inject.h hold at their ends.
use opensamp.Prelude.{ℕ, zero, suc, List, ◌∷◌, some}
use opensamp.Launcher.Calls.{Windows, Call, Answer, Failure, pure}
use opensamp.Launcher.Resources.{Resource, handle, memory, Leads, Leads-pure, Leads-exhausted}
use opensamp.Launcher.Harmless.{Harmless, Holds}
use opensamp.Launcher.Rules.{leads_rules}
use opensamp.Launcher.{
  try_kill_process, has_module, check_running, wait_rounds, wait_for_process_ready, ask_last_error,
  await_load, start_load, inject_dll, require, start_game, run_injection,
}

module _ (os : Windows) {xs zs : List Resource} where
  pub try_kill_process-Leads :
      {h : ℕ} → Holds (handle h) xs → Leads (some xs) (try_kill_process os h) (λ u. xs) zs
  unfolding try_kill_process
  try_kill_process-Leads h = search (leads_rules) depth 20

  has_module-Leads : (pid : ℕ) → Leads (some xs) (has_module os pid) (λ b. xs) zs
  unfolding has_module
  has_module-Leads pid = search (leads_rules) depth 20

  ask_last_error-Leads :
      {h : ℕ} → Holds (handle h) xs → Leads (some xs) (ask_last_error os h) (λ u. xs) zs
  unfolding ask_last_error
  ask_last_error-Leads h = search (leads_rules) depth 30

module _ (os : Windows) {xs : List Resource} where
  check_running-Leads : (pid : ℕ) → Leads (some xs) (check_running os pid) (λ u. xs) xs
  unfolding check_running
  check_running-Leads pid = search (leads_rules) depth 20

  wait_rounds-Leads :
      (rounds pid timeout start : ℕ)
      → Leads (some xs) (wait_rounds os rounds pid timeout start) (λ u. xs) xs
  unfolding wait_rounds
  wait_rounds-Leads zero pid timeout start = Leads-exhausted
  wait_rounds-Leads (suc rounds) pid timeout start =
      let rest = wait_rounds-Leads rounds pid timeout start in
      search (leads_rules, check_running-Leads, has_module-Leads) depth 20

  wait_for_process_ready-Leads :
      (rounds pid timeout : ℕ)
      → Leads (some xs) (wait_for_process_ready os rounds pid timeout) (λ u. xs) xs
  unfolding wait_for_process_ready
  wait_for_process_ready-Leads rounds pid timeout = search (leads_rules, wait_rounds-Leads) depth 20

  await_load-Leads :
      (h m t : ℕ)
      → Leads (some (handle t ∷ memory h m ∷ handle h ∷ xs)) (await_load os h m t) (λ u. xs) xs
  unfolding await_load
  await_load-Leads h m t =
      search (leads_rules, ask_last_error-Leads, try_kill_process-Leads) depth 30

  start_load-Leads :
      (size h m : ℕ)
      → Leads (some (memory h m ∷ handle h ∷ xs)) (start_load os size h m) (λ u. xs) xs
  unfolding start_load
  start_load-Leads size h m = search (leads_rules, await_load-Leads) depth 30

  inject_dll-Leads : (pid : ℕ) → Leads (some xs) (inject_dll os pid) (λ u. xs) xs
  unfolding inject_dll
  inject_dll-Leads pid = search (leads_rules, start_load-Leads) depth 30

  require-Leads :
      {c : Call} (e : Failure) → Harmless c xs → Leads (some xs) (require os c e) (λ u. xs) xs
  unfolding require
  require-Leads e h = search (leads_rules) depth 20

module _ (os : Windows) {xs : List Resource} where
  started-Leads :
      (a : Answer)
      → Leads
          (some (handle a.out2 ∷ handle a.out ∷ xs))
          (pure a)
          (λ b. handle b.out2 ∷ handle b.out ∷ xs)
          xs
  started-Leads a = Leads-pure a

  pub start_game-Leads : Leads (some xs) (start_game os) (λ a. handle a.out2 ∷ handle a.out ∷ xs) xs
  unfolding start_game
  start_game-Leads = search (leads_rules, require-Leads, started-Leads) depth 20

  pub run_injection-Leads :
      (rounds : ℕ) (a : Answer)
      → Leads
          (some (handle a.out2 ∷ handle a.out ∷ xs))
          (run_injection os rounds a)
          (λ n. xs)
          (handle a.out ∷ xs)
  unfolding run_injection
  run_injection-Leads rounds a =
      search (leads_rules, wait_for_process_ready-Leads, inject_dll-Leads) depth 20
