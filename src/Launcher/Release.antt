-- ===== src/Launcher/Release.antt =====
-- run_game of launcher/inject.h gives back what it acquires, however it ends.
use mathlib.Core.Path.{subst}
use opensamp.Prelude.{
  ℕ, ◌≡◌, sym, Bool, true, false, List, ◌∷◌, some, ◌==◌, if_cases, if◌then◌else◌,
}
use opensamp.Launcher.Calls.{
  Windows, Call, create_process, close, Answer, Failure, Outcome, returns, throws, going, Log, Step,
  pure, throw, ◌>>=◌, ◌>>◌, catch, continue, handle_outcome, ask, tell,
}
use opensamp.Launcher.Resources.{Resource, handle, live, Ends, Leads, Leads-then}
use opensamp.Launcher.Rules.{leads_rules}
use opensamp.Launcher.{try_kill_process, give_up, start_game, run_injection, run_from, run_game}
use opensamp.Launcher.Balance.{try_kill_process-Leads, start_game-Leads, run_injection-Leads}

module _ (os : Windows) {xs zs : List Resource} where
  close_if-Leads :
      (h : ℕ)
      → (h == 0) ≡ false
      → Leads (some (handle h ∷ xs)) (if h == 0 then pure tt else tell os (close h)) (λ u. xs) zs
  close_if-Leads h e =
      subst
        (λ b. Leads (some (handle h ∷ xs)) (if b then pure tt else tell os (close h)) (λ u. xs) zs)
        (sym e) (search (leads_rules))

  close_if_then-Leads :
      {B : Type 0} {ys : B → List Resource} (h : ℕ) (k : Step B)
      → (h == 0) ≡ false
      → Leads (some xs) k ys zs
      → Leads (some (handle h ∷ xs)) ((if h == 0 then pure tt else tell os (close h)) >> k) ys zs
  close_if_then-Leads h k e g = Leads-then xs _ k (close_if-Leads h e) g

  give_up-Leads :
      (h : ℕ) → (h == 0) ≡ false → Leads (some (handle h ∷ xs)) (give_up os h 0) (λ n. xs) zs
  unfolding give_up
  give_up-Leads h e = search (leads_rules, close_if_then-Leads, try_kill_process-Leads) depth 20

  give_up_null-Leads : Leads (some xs) (give_up os 0 0) (λ n. xs) zs
  unfolding give_up try_kill_process
  give_up_null-Leads = search (leads_rules) depth 20

-- What a function returns when it returns.
abbrev Returning : {A : Type 0} → (A → Type 0) → Outcome A × Log → Type 0
Returning P (returns a, l) = P a
Returning P (throws e, l) = Unit
Returning P (going, l) = Unit

Returning-continue :
    {A B : Type 0} (P : B → Type 0) (r : Outcome A × Log) (k : A → Step B)
    → ((a : A) (l : Log) → Returning P (k a l))
    → Returning P (continue r k)
Returning-continue P (returns a, l) k h = h a l
Returning-continue P (throws e, l) k h = tt
Returning-continue P (going, l) k h = tt

record Gives {A : Type 0} (P : A → Type 0) (m : Step A) : Type 0 where
  at : (l : Log) → Returning P (m l)

module _ {A : Type 0} {P : A → Type 0} where
  Gives-throw : (e : Failure) → Gives P (throw e)
  unfolding throw
  Gives-throw e = record { at = λ l. tt }

  Gives-pure : (a : A) → P a → Gives P (pure a)
  unfolding pure
  Gives-pure a h = record { at = λ l. h }

  Gives-if :
      (b : Bool) (m n : Step A)
      → (b ≡ true → Gives P m)
      → (b ≡ false → Gives P n)
      → Gives P (if b then m else n)
  Gives-if b m n h k = if_cases (Gives P) b h k

  Gives-then : (m : Step Unit) (k : Step A) → Gives P k → Gives P (m >> k)
  unfolding ◌>>◌
  Gives-then m k h = record { at = λ l. Returning-continue P (m l) (λ u. k) (λ u. h.at) }

  Gives-ask :
      (os : Windows) (c : Call) (k : Answer → Step A)
      → ((l : Log) → Gives P (k (os l c)))
      → Gives P (ask os c >>= k)
  unfolding ask ◌>>=◌
  Gives-ask os c k h = record { at = λ l. (h l).at _ }

-- CreateProcessW that succeeds answers a process handle that is not null.
abbrev pub GivesHandle : Windows → Type 0
GivesHandle os =
    (l : Log)
    → ((os l create_process).result == 0) ≡ false
    → ((os l create_process).out == 0) ≡ false

abbrev Started : Answer → Type 0
Started a = (a.out == 0) ≡ false

module _ (os : Windows) (valid : GivesHandle os) where
  start_game-Started : Gives Started (start_game os)
  unfolding start_game
  start_game-Started =
      search (Gives-throw, Gives-pure, Gives-if, Gives-then, Gives-ask, valid) depth 20

  -- What is held when run_game returns, which it does unless the rounds are used up.
  abbrev Clears : List Resource → Outcome ℕ × Log → Type 0
  Clears xs (returns n, l) = live l ≡ some xs
  Clears xs (throws e, l) = live l ≡ some xs
  Clears xs (going, l) = Unit

  Ends-Clears : (xs : List Resource) (r : Outcome ℕ × Log) → Ends r (λ n. xs) xs → Clears xs r
  Ends-Clears xs (returns n, l) h = h
  Ends-Clears xs (throws e, l) h = h
  Ends-Clears xs (going, l) h = tt

  handle_outcome-Clears :
      {xs ws : List Resource} (r : Outcome ℕ × Log) (g : Step ℕ)
      → Ends r (λ n. xs) ws
      → Leads (some ws) g (λ n. xs) xs
      → Clears xs (handle_outcome r g)
  handle_outcome-Clears (returns n, l) g h k = h
  handle_outcome-Clears (throws e, l) g h k = Ends-Clears _ (g l) (k.at l h)
  handle_outcome-Clears (going, l) g h k = tt

  run_from-Clears :
      (xs : List Resource) (rounds : ℕ) (r : Outcome Answer × Log)
      → Returning Started r
      → Ends r (λ a. handle a.out2 ∷ handle a.out ∷ xs) xs
      → Clears xs (run_from os rounds r)
  unfolding run_from catch
  run_from-Clears xs rounds (returns a, l) v h =
      handle_outcome-Clears (run_injection os rounds a l) (give_up os a.out 0)
        ((run_injection-Leads os rounds a).at l h) (give_up-Leads os a.out v)
  run_from-Clears xs rounds (throws e, l) v h = Ends-Clears xs _ ((give_up_null-Leads os).at l h)
  run_from-Clears xs rounds (going, l) v h = tt

  run_game-Clears :
      (rounds : ℕ) {xs : List Resource} (l : Log)
      → live l ≡ some xs
      → Clears xs (run_game os rounds l)
  unfolding run_game
  run_game-Clears rounds l h =
      run_from-Clears _ rounds (start_game os l) (start_game-Started.at l)
        ((start_game-Leads os).at l h)

-- Suppose that a CreateProcessW that succeeds gives a process handle that is not null. When
-- run_game returns, with 0 or with 1, then each handle that it has opened and all memory that it has
-- allocated in the game's process has been released, each exactly once and none of them used
-- afterwards: the calls leave held just what was held before.
pub run_game-releases :
    (os : Windows) (rounds : ℕ) {xs : List Resource} (l : Log) {n : ℕ} {m : Log}
    → GivesHandle os
    → live l ≡ some xs
    → run_game os rounds l ≡ (returns n, m)
    → live m ≡ some xs
run_game-releases os rounds {xs} l valid h e =
    subst (Clears os valid xs) e (run_game-Clears os valid rounds l h)
