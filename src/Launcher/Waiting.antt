-- ===== src/Launcher/Waiting.antt =====
-- wait_for_process_ready of launcher/inject.h, whose loop ends by the clock, and run_game above it.
use mathlib.Core.Path.{subst}
use opensamp.Prelude.{
  ℕ, zero, suc, ◌+◌, ◌-◌, ◌*◌, ◌%◌, ◌^◌, ◌≤◌, ◌<◌, ◌≡◌, refl, sym, true, ◌∷◌, ltb, if_cases,
  if◌then◌else◌, arith,
}
use opensamp.Launcher.Calls.{
  Windows, sleep, tick_count, close, Answer, Outcome, returns, throws, going, Log, Step, pure,
  exhausted, ◌>>=◌, ◌>>◌, catch, continue, handle_outcome, ask, tell,
}
use opensamp.Launcher.{
  has_module, check_running, wait_rounds, wait_for_process_ready, give_up, start_game,
  run_injection, run_from, run_game,
}
use opensamp.Launcher.Ending.{
  EndsIn, Ending, Stops, Ending-pure, Ending-then, Ending-tell, has_module-Stops,
  check_running-Stops, inject_dll-Stops, start_game-Stops, give_up-Ending,
}
use opensamp.Bridge.Senders.{sub32}
use opensamp.Launcher.Clock.{Clock, Polls, day, Within, check_running-Takes, has_module-Takes}

-- GetTickCount() - start, for the counter's last 32 bits.
elapsed : (s d : ℕ) → d < 2 ^ 32 → sub32 ((s + d) % 2 ^ 32) (s % 2 ^ 32) ≡ d
elapsed s d h = grind arith

below : (a b : ℕ) → ltb a b ≡ true → a < b
below a b h = ground arith

late : (t d : ℕ) → t ≤ d + 0 → d < t → ⊥
late t d h k = omega arith

-- A round of the loop behind the test of the time.
abbrev one_round : Windows → ℕ → Step Unit → Step Unit
one_round os pid rest = do
  check_running os pid
  found ← has_module os pid
  if found then pure tt else do tell os (sleep 100); rest

module _ (os : Windows) (clock : Clock os) where
  EndsIn-later :
      {A B : Type 0} (n : ℕ) (l : Log) (r : Outcome A × Log) (k : A → Step B)
      → EndsIn (λ a. Unit) Unit r
      → Within os clock n l r.1
      → ((a : A) (m : Log) → Within os clock n l m → EndsIn (λ b. Unit) Unit (k a m))
      → EndsIn (λ b. Unit) Unit (continue r k)
  EndsIn-later n l (returns a, m) k h w g = g a m w
  EndsIn-later n l (throws e, m) k h w g = tt
  EndsIn-later n l (going, m) k h w g = elim h [ ]

  module _ (pid timeout : ℕ) (short : timeout ≤ 2 ^ 31) where
    measured :
        (s d : ℕ) (l : Log)
        → clock.now l ≡ s + d
        → d < timeout + 8 * day
        → sub32 (os l tick_count).result (s % 2 ^ 32) ≡ d
    measured s d l e h =
        subst (λ t. sub32 t (s % 2 ^ 32) ≡ d) (sym (rw (clock.ticks l, e)))
          (elapsed s d (omega arith))

    -- One round, behind its test.
    round-Ends :
        (l : Log) (rest : Step Unit)
        → ((m : Log)
            → clock.now l + 1 ≤ clock.now m
            → clock.now m ≤ clock.now l + 7 * day
            → EndsIn (λ u. Unit) Unit (rest m))
        → EndsIn (λ u. Unit) Unit (one_round os pid rest l)
    unfolding ◌>>◌ ◌>>=◌ tell pure
    round-Ends l rest h =
        EndsIn-later 3 l (check_running os pid l) _ ((check_running-Stops os pid).at l)
          ((check_running-Takes os clock pid).at l)
          (λ u m w.
            EndsIn-later 3 m (has_module os pid m) _ ((has_module-Stops os pid).at m)
              ((has_module-Takes os clock pid).at m)
              (λ found n v.
                if_cases {A = Step Unit} (λ t. EndsIn (λ u. Unit) Unit (t n)) found (λ y. tt)
                  (λ y.
                    let i = clock.sleeps n 99 (os n (sleep 100)) in
                    let j = clock.soon n (sleep 100) (os n (sleep 100)) Polls.sleeping in
                    h _ (omega (arith, w.0, v.0)) (omega (arith, w.1, v.1)))))

    -- The test of the time at the start of a round.
    tested-Ends :
        (s d : ℕ) (l : Log) (rest : Step Unit)
        → clock.now l ≡ s + d
        → d < timeout + 8 * day
        → (d < timeout
            → EndsIn (λ u. Unit) Unit (one_round os pid rest ((tick_count, os l tick_count) ∷ l)))
        → EndsIn
            (λ u. Unit)
            Unit
            ((do
              now ← ask os tick_count
              if ltb (sub32 now.result (s % 2 ^ 32)) timeout
                  then one_round os pid rest
                  else pure tt)
              l)
    unfolding ◌>>=◌ ask pure
    tested-Ends s d l rest e h g =
        if_cases {A = Step Unit}
          (λ t. EndsIn (λ u. Unit) Unit (t ((tick_count, os l tick_count) ∷ l)))
          (ltb (sub32 (os l tick_count).result (s % 2 ^ 32)) timeout)
          (λ y. g (subst (λ t. t < timeout) (measured s d l e h) (below _ _ y))) (λ y. tt)

    wait_rounds-Ends :
        (rounds s d : ℕ) (l : Log)
        → clock.now l ≡ s + d
        → d < timeout + 8 * day
        → timeout ≤ d + rounds
        → EndsIn (λ u. Unit) Unit (wait_rounds os (suc rounds) pid timeout (s % 2 ^ 32) l)
    unfolding wait_rounds
    wait_rounds-Ends zero s d l e h k =
        tested-Ends s d l exhausted e h (λ y. elim (late timeout d k y) [ ])
    wait_rounds-Ends (suc rounds) s d l e h k =
        let i = clock.forward l tick_count (os l tick_count) in
        let j = clock.soon l tick_count (os l tick_count) Polls.counting in
        tested-Ends s d l (wait_rounds os (suc rounds) pid timeout (s % 2 ^ 32)) e h (λ y.
          round-Ends ((tick_count, os l tick_count) ∷ l) _ (λ m f g.
            wait_rounds-Ends rounds s (clock.now m - s) m (omega arith) (omega arith)
              (omega arith)))

    wait_for_process_ready-Stops : Stops (wait_for_process_ready os (suc timeout) pid timeout)
    unfolding wait_for_process_ready ◌>>=◌ ask
    wait_for_process_ready-Stops = record {
      at = λ l.
          let i = clock.forward l tick_count (os l tick_count) in
          let j = clock.soon l tick_count (os l tick_count) Polls.counting in
          subst
            (λ t.
              EndsIn (λ u. Unit) Unit
                (wait_rounds os (suc timeout) pid timeout t ((tick_count, os l tick_count) ∷ l)))
            (sym (clock.ticks l))
            (wait_rounds-Ends timeout (clock.now l)
              (clock.now ((tick_count, os l tick_count) ∷ l) - clock.now l) _ (omega arith)
              (omega arith) (omega arith));
    }

  run_injection-Ends : (a : Answer) → Ending (λ n. n ≡ 0) Unit (run_injection os 15001 a)
  unfolding run_injection
  run_injection-Ends a = Ending-tell os (close a.out2) _ (
      Ending-then _ _ (wait_for_process_ready-Stops a.out3 15000 (omega arith)) (
        Ending-then _ _ (inject_dll-Stops os a.out3)
          (Ending-tell os (close a.out) _ (Ending-pure 0 refl))))

  -- run_game returns 0 or 1.
  abbrev Settled : Outcome ℕ × Log → Type 0
  Settled r = EndsIn (λ n. n ≤ 1) ⊥ r

  one-Settled : (r : Outcome ℕ × Log) → EndsIn (λ n. n ≡ 1) ⊥ r → Settled r
  one-Settled (returns n, l) e = omega (arith, e)
  one-Settled (throws e, l) h = h
  one-Settled (going, l) h = h

  give_up-Settled : (h t : ℕ) (l : Log) → Settled (give_up os h t l)
  give_up-Settled h t l = one-Settled _ ((give_up-Ending os h t).at l)

  handle_outcome-Settled :
      (r : Outcome ℕ × Log) (h t : ℕ)
      → EndsIn (λ n. n ≡ 0) Unit r
      → Settled (handle_outcome r (give_up os h t))
  handle_outcome-Settled (returns n, l) h t e = omega (arith, e)
  handle_outcome-Settled (throws e, l) h t u = give_up-Settled h t l
  handle_outcome-Settled (going, l) h t e = elim e [ ]

  run_from-Settled :
      (r : Outcome Answer × Log) → EndsIn (λ a. Unit) Unit r → Settled (run_from os 15001 r)
  unfolding run_from catch
  run_from-Settled (returns a, l) h =
      handle_outcome-Settled (run_injection os 15001 a l) a.out 0 ((run_injection-Ends a).at l)
  run_from-Settled (throws e, l) h = give_up-Settled 0 0 l
  run_from-Settled (going, l) h = elim h [ ]

  run_game-Settled : (l : Log) → Settled (run_game os 15001 l)
  unfolding run_game
  run_game-Settled l = run_from-Settled (start_game os l) ((start_game-Stops os).at l)

settled :
    (r : Outcome ℕ × Log)
    → EndsIn (λ n. n ≤ 1) ⊥ r
    → (n : ℕ) × (m : Log) × (n ≤ 1) × (r ≡ (returns n, m))
settled (returns n, m) h = (n, m, h, refl)
settled (throws e, m) h = elim h [ ]
settled (going, m) h = elim h [ ]

-- Suppose that the tick counter is the last 32 bits of a time that no call turns back, that Sleep
-- takes at least a millisecond, and that no call of the loop takes more than a day. Then run_game
-- ends, within 15001 rounds of the loop that waits for the game, whatever else Windows answers: it
-- returns 0 or 1, and no exception leaves it.
pub run_game-ends :
    (os : Windows) (l : Log)
    → Clock os
    → (n : ℕ) × (m : Log) × (n ≤ 1) × (run_game os 15001 l ≡ (returns n, m))
run_game-ends os l clock = settled _ (run_game-Settled os clock l)
