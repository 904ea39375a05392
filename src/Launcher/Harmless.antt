-- ===== src/Launcher/Harmless.antt =====
-- The calls of launcher/inject.h that only use what is held.
use opensamp.Prelude.{ℕ, ◌≡◌, refl, ap, Bool, true, false, ◌||◌, List, ◌∷◌, some, ◌==◌, ==_iff}
use opensamp.Launcher.Calls.{
  Call, module_file_name, exe_exists, dll_exists, absolute_path, tick_count, module_handle,
  message_box, proc_address, sleep, module_first, terminate, exit_code_process, exit_code_thread,
  wait, write_memory, Answer,
}
use opensamp.Launcher.Resources.{Resource, handle, memory, same, holds, release, needing, effect}

==_refl : (n : ℕ) → (n == n) ≡ true
==_refl n = (==_iff n n).1 refl

same_refl : (r : Resource) → same r r ≡ true
same_refl (handle h) = ==_refl h
same_refl (memory p m) = rw (==_refl p, ==_refl m)

-- What is held, as a derivation.
pub data Holds (r : Resource) : List Resource → Type 0 where
  here : {xs : List Resource} → Holds r (r ∷ xs)
  there : {x : Resource} {xs : List Resource} → Holds r xs → Holds r (x ∷ xs)

pub or_true : (b : Bool) {c : Bool} → c ≡ true → (b || c) ≡ true
or_true true h = refl
or_true false h = h

pub held : {r : Resource} {xs : List Resource} → Holds r xs → holds r xs ≡ true
unfolding holds
held {r} (Holds.here {xs = xs}) = ap (λ b. b || holds r xs) (same_refl r)
held {r} (Holds.there {x = x} h) = or_true (same r x) (held h)

pub release_first : (r : Resource) (xs : List Resource) → release r (r ∷ xs) ≡ some xs
unfolding release
release_first r xs = rw (same_refl r)

-- A call that neither acquires nor releases, and uses only what is held.
pub record Harmless (c : Call) (xs : List Resource) : Type 0 where
  pub run : (a : Answer) → effect c a xs ≡ some xs

module _ {xs : List Resource} where
  pub needed : {b : Bool} → b ≡ true → needing b xs ≡ some xs
  needed h = rw h

  pub wait-Harmless : {h ms : ℕ} → Holds (handle h) xs → Harmless (wait h ms) xs
  unfolding effect
  wait-Harmless h = record { run = λ a. needed (held h) }

  pub exit_code_process-Harmless : {h : ℕ} → Holds (handle h) xs → Harmless (exit_code_process h) xs
  unfolding effect
  exit_code_process-Harmless h = record { run = λ a. needed (held h) }

  pub exit_code_thread-Harmless : {h : ℕ} → Holds (handle h) xs → Harmless (exit_code_thread h) xs
  unfolding effect
  exit_code_thread-Harmless h = record { run = λ a. needed (held h) }

  pub terminate-Harmless : {h : ℕ} → Holds (handle h) xs → Harmless (terminate h) xs
  unfolding effect
  terminate-Harmless h = record { run = λ a. needed (held h) }

  pub module_first-Harmless : {h : ℕ} → Holds (handle h) xs → Harmless (module_first h) xs
  unfolding effect
  module_first-Harmless h = record { run = λ a. needed (held h) }

  pub write_memory-Harmless :
      {p m n : ℕ} → Holds (handle p) xs → Holds (memory p m) xs → Harmless (write_memory p m n) xs
  unfolding effect
  write_memory-Harmless h k = record { run = λ a. needed (rw (held h, held k)) }

  pub module_file_name-Harmless : Harmless module_file_name xs
  unfolding effect
  module_file_name-Harmless = record { run = λ a. refl }

  pub exe_exists-Harmless : Harmless exe_exists xs
  unfolding effect
  exe_exists-Harmless = record { run = λ a. refl }

  pub dll_exists-Harmless : Harmless dll_exists xs
  unfolding effect
  dll_exists-Harmless = record { run = λ a. refl }

  pub absolute_path-Harmless : Harmless absolute_path xs
  unfolding effect
  absolute_path-Harmless = record { run = λ a. refl }

  pub tick_count-Harmless : Harmless tick_count xs
  unfolding effect
  tick_count-Harmless = record { run = λ a. refl }

  pub module_handle-Harmless : Harmless module_handle xs
  unfolding effect
  module_handle-Harmless = record { run = λ a. refl }

  pub message_box-Harmless : Harmless message_box xs
  unfolding effect
  message_box-Harmless = record { run = λ a. refl }

  pub proc_address-Harmless : {m : ℕ} → Harmless (proc_address m) xs
  unfolding effect
  proc_address-Harmless = record { run = λ a. refl }

  pub sleep-Harmless : {ms : ℕ} → Harmless (sleep ms) xs
  unfolding effect
  sleep-Harmless = record { run = λ a. refl }
