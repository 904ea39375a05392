-- ===== src/Launcher/Ending.antt =====
-- How the functions of launcher/inject.h without a loop end.
use opensamp.Prelude.{ℕ, ◌≡◌, Bool, true, false, if◌then◌else◌}
use opensamp.Launcher.Calls.{
  Windows, Call, Answer, Failure, Outcome, returns, throws, going, Log, Step, pure, throw, ◌>>=◌,
  ◌>>◌, continue, ask, tell,
}
use opensamp.Launcher.{
  try_kill_process, has_module, check_running, ask_last_error, await_load, start_load, inject_dll,
  require, give_up, start_game,
}

-- A function that ends: what it returns, and whether it may throw.
abbrev pub EndsIn : {A : Type 0} → (A → Type 0) → Type 0 → Outcome A × Log → Type 0
EndsIn P Q (returns a, l) = P a
EndsIn P Q (throws e, l) = Q
EndsIn P Q (going, l) = ⊥

pub record Ending {A : Type 0} (P : A → Type 0) (Q : Type 0) (m : Step A) : Type 0 where
  pub at : (l : Log) → EndsIn P Q (m l)

-- It returns, or throws.
abbrev pub Stops : {A : Type 0} → Step A → Type 0
Stops m = Ending (λ a. Unit) Unit m

-- It returns.
abbrev pub Completes : Step Unit → Type 0
Completes m = Ending (λ a. Unit) ⊥ m

module _ {A : Type 0} {P : A → Type 0} {Q : Type 0} where
  pub Ending-pure : (a : A) → P a → Ending P Q (pure a)
  unfolding pure
  Ending-pure a h = record { at = λ l. h }

  pub Ending-throw : (e : Failure) → Q → Ending P Q (throw e)
  unfolding throw
  Ending-throw e h = record { at = λ l. h }

  pub Ending-if :
      (b : Bool) (m n : Step A) → Ending P Q m → Ending P Q n → Ending P Q (if b then m else n)
  Ending-if true m n h k = h
  Ending-if false m n h k = k

  pub Ending-ask :
      (os : Windows) (c : Call) (k : Answer → Step A)
      → ((a : Answer) → Ending P Q (k a))
      → Ending P Q (ask os c >>= k)
  unfolding ask ◌>>=◌
  Ending-ask os c k h = record { at = λ l. (h _).at _ }

  pub Ending-tell :
      (os : Windows) (c : Call) (k : Step A) → Ending P Q k → Ending P Q (tell os c >> k)
  unfolding tell ◌>>◌
  Ending-tell os c k h = record { at = λ l. h.at _ }

pub Ending-tell_last : {Q : Type 0} (os : Windows) (c : Call) → Ending (λ u. Unit) Q (tell os c)
unfolding tell
Ending-tell_last os c = record { at = λ l. tt }

module _ {A B : Type 0} where
  pub EndsIn-continue :
      {P : A → Type 0} (R : B → Type 0) (Q : Type 0) (r : Outcome A × Log) (k : A → Step B)
      → EndsIn P Q r
      → ((a : A) (l : Log) → P a → EndsIn R Q (k a l))
      → EndsIn R Q (continue r k)
  EndsIn-continue R Q (returns a, l) k h g = g a l h
  EndsIn-continue R Q (throws e, l) k h g = h
  EndsIn-continue R Q (going, l) k h g = elim h [ ]

module _ {B : Type 0} {R : B → Type 0} {Q : Type 0} where
  pub Ending-then :
      (m : Step Unit) (k : Step B) → Ending (λ u. Unit) Q m → Ending R Q k → Ending R Q (m >> k)
  unfolding ◌>>◌
  Ending-then m k h g = record {
    at = λ l. EndsIn-continue R Q (m l) (λ u. k) (h.at l) (λ u n e. g.at n);
  }

module _ {A B : Type 0} {R : B → Type 0} {Q : Type 0} where
  pub Ending-bind :
      (m : Step A) (k : A → Step B)
      → Ending (λ a. Unit) Q m
      → ((a : A) → Ending R Q (k a))
      → Ending R Q (m >>= k)
  unfolding ◌>>=◌
  Ending-bind m k h g = record {
    at = λ l. EndsIn-continue R Q (m l) k (h.at l) (λ a n e. (g a).at n);
  }

pub ruleset ending_rules = (
  tt, Ending-pure, Ending-throw, Ending-if, Ending-ask, Ending-tell, Ending-tell_last, Ending-then,
)

module _ (os : Windows) where
  pub try_kill_process-Ending : {Q : Type 0} (h : ℕ) → Ending (λ u. Unit) Q (try_kill_process os h)
  unfolding try_kill_process
  try_kill_process-Ending h = search (ending_rules) depth 20

  pub has_module-Stops : (pid : ℕ) → Stops (has_module os pid)
  unfolding has_module
  has_module-Stops pid = search (ending_rules) depth 20

  pub check_running-Stops : (pid : ℕ) → Stops (check_running os pid)
  unfolding check_running
  check_running-Stops pid = search (ending_rules) depth 20

  ask_last_error-Stops : (h : ℕ) → Stops (ask_last_error os h)
  unfolding ask_last_error
  ask_last_error-Stops h = search (ending_rules) depth 30

  await_load-Stops : (h m t : ℕ) → Stops (await_load os h m t)
  unfolding await_load
  await_load-Stops h m t =
      search (ending_rules, ask_last_error-Stops, try_kill_process-Ending) depth 30

  start_load-Stops : (size h m : ℕ) → Stops (start_load os size h m)
  unfolding start_load
  start_load-Stops size h m = search (ending_rules, await_load-Stops) depth 30

  pub inject_dll-Stops : (pid : ℕ) → Stops (inject_dll os pid)
  unfolding inject_dll
  inject_dll-Stops pid = search (ending_rules, start_load-Stops) depth 30

  require-Stops : (c : Call) (e : Failure) → Stops (require os c e)
  unfolding require
  require-Stops c e = search (ending_rules) depth 20

  pub start_game-Stops : Stops (start_game os)
  unfolding start_game
  start_game-Stops = search (ending_rules, require-Stops) depth 20

  pub give_up-Ending : (h t : ℕ) → Ending (λ n. n ≡ 1) ⊥ (give_up os h t)
  unfolding give_up
  give_up-Ending h t = search (ending_rules, try_kill_process-Ending) depth 20
