-- ===== src/Engine/Game/Polling.antt =====
-- native/game/game.h: how long EnsureModelLoaded asks, and what its answer is worth.
use opensamp.Prelude.{
  ℕ, zero, suc, ◌+◌, ◌*◌, ◌^◌, ◌≤◌, ◌<◌, ◌≡◌, refl, Bool, true, false, not, ◌&&◌, ◌||◌, List, [],
  ◌∷◌, length, leb, ◌==◌, ==_iff, if_cases, arith,
}
use opensamp.Engine.Game.{Routine, at, sleep, Called, Game, Machine, call, answer}
use opensamp.Engine.Game.Streaming.{
  is_yes, func_has_model_loaded, ask_loaded, request_model, load_all_requested_models, await_model,
  ensure_model_loaded,
}

-- The question of HasModelLoaded for a model.
abbrev pub asks : Routine → List ℕ → ℕ → Bool
asks (at a) (n ∷ []) model_id = a == func_has_model_loaded && n == model_id
asks _ _ model_id = false

-- The last call is that question, and the game said yes.
abbrev pub Confirmed : ℕ → List Called → Type 0
Confirmed model_id [] = ⊥
Confirmed model_id (c ∷ cs) = (asks c.routine c.args model_id ≡ true) × (is_yes c.result ≡ true)

abbrev one_if : Bool → ℕ
one_if true = 1
one_if false = 0

-- How often the game has said no.
unfoldable pub refusals : ℕ → List Called → ℕ
refusals model_id [] = 0
refusals model_id (c ∷ cs) =
    one_if (asks c.routine c.args model_id && not (is_yes c.result)) + refusals model_id cs

-- A wait of so many rounds, from one state of the game on: it is confirmed, or refused each time.
record Waited (rounds most model_id : ℕ) (g : Game) (r : Bool × Game) : Type 0 where
  confirmed : r.0 ≡ true → Confirmed model_id r.1.calls
  refused : r.0 ≡ false → refusals model_id r.1.calls ≡ rounds + refusals model_id g.calls
  few : length r.1.calls ≤ most + length g.calls

same : (n : ℕ) → (n == n) ≡ true
same n = (==_iff n n).1 refl

is_positive : (n : ℕ) → 0 < n → n < 2 ^ 31 → (n == 0 || leb (2 ^ 31) n) ≡ true → ⊥
is_positive n low high e = ground arith

module _ (m : Machine) (model_id : ℕ) where
  abbrev asked : Game → Game
  asked g = (ask_loaded m model_id g).1

  length-call :
      (r : Routine) (args : List ℕ) (g : Game)
      → length (call m r args g).calls ≡ suc (length g.calls)
  unfolding call
  length-call r args g = refl

  yes-Confirmed :
      (g : Game) → (ask_loaded m model_id g).0 ≡ true → Confirmed model_id (asked g).calls
  unfolding call answer
  yes-Confirmed g e = (same model_id, e)

  refusals-asked :
      (g : Game)
      → (ask_loaded m model_id g).0 ≡ false
      → refusals model_id (asked g).calls ≡ suc (refusals model_id g.calls)
  unfolding call answer refusals
  refusals-asked g e = counted _ _ (refusals model_id g.calls) (same model_id) e
    where
      counted : (a b : Bool) (n : ℕ) → a ≡ true → b ≡ false → one_if (a && not b) + n ≡ suc n
      counted true false n p q = omega arith
      counted true true n p q = cc
      counted false b n p q = cc

  refusals-sleep :
      (g : Game) → refusals model_id (call m sleep (1 ∷ []) g).calls ≡ refusals model_id g.calls
  unfolding call refusals
  refusals-sleep g = omega arith

  await_model-Waited :
      (left : ℕ) (g : Game) → Waited left (2 * left) model_id g (await_model m left model_id g)
  unfolding await_model
  await_model-Waited zero g = record {
    confirmed = cc;
    refused = λ e. omega arith;
    few = omega arith;
  }
  await_model-Waited (suc left) g =
      let h = asked g in
      let slept = call m sleep (1 ∷ []) h in
      let k = await_model-Waited left slept in
      let p = length-call (at func_has_model_loaded) (model_id ∷ []) g in
      let q = length-call sleep (1 ∷ []) h in
      if_cases (Waited (suc left) (2 * suc left) model_id g) (ask_loaded m model_id g).0
        (λ e. record { confirmed = λ f. yes-Confirmed g e; refused = cc; few = omega (arith, p) })
        (λ e. record {
          confirmed = k.confirmed;
          refused = λ f. omega (arith, k.refused f, refusals-sleep h, refusals-asked g e);
          few = omega (arith, k.few, p, q);
        })

  -- The two requests between the first question and the loop.
  abbrev requested : Game → Game
  requested g = load_all_requested_models m 0 (request_model m model_id 2 (asked g))

  refusals-requested :
      (g : Game) → refusals model_id (requested g).calls ≡ refusals model_id (asked g).calls
  unfolding request_model load_all_requested_models call refusals
  refusals-requested g = omega arith

  length-requested : (g : Game) → length (requested g).calls ≡ 3 + length g.calls
  unfolding request_model load_all_requested_models call
  length-requested g = omega arith

  ensure_model_loaded-Waited :
      (most : ℕ) (g : Game)
      → 0 < model_id
      → model_id < 2 ^ 31
      → Waited (suc most) (3 + 2 * most) model_id g (ensure_model_loaded m model_id most g)
  unfolding ensure_model_loaded
  ensure_model_loaded-Waited most g low high =
      let k = await_model-Waited most (requested g) in
      let p = length-call (at func_has_model_loaded) (model_id ∷ []) g in
      if_cases (Waited (suc most) (3 + 2 * most) model_id g)
        (model_id == 0 || leb (2 ^ 31) model_id) (λ e. elim (is_positive model_id low high e) [ ])
        (λ e.
          if_cases (Waited (suc most) (3 + 2 * most) model_id g) (ask_loaded m model_id g).0
            (λ f. record {
              confirmed = λ u. yes-Confirmed g f;
              refused = cc;
              few = omega (arith, p);
            })
            (λ f. record {
              confirmed = k.confirmed;
              refused = λ u. omega (arith, k.refused u, refusals-requested g, refusals-asked g f);
              few = omega (arith, k.few, length-requested g);
            }))

  -- For a model id that is positive, EnsureModelLoaded makes at most 3 calls and 2 for each iteration. If
  -- it returns true, its last call was the question whether the model is loaded, answered with yes; if
  -- it returns false, it was answered with no one time more than there are iterations.
  pub ensure_model_loaded-answer :
      (most : ℕ) (g : Game)
      → 0 < model_id
      → model_id < 2 ^ 31
      → let r = ensure_model_loaded m model_id most g in
        (r.0 ≡ true → Confirmed model_id r.1.calls)
        × (r.0 ≡ false → refusals model_id r.1.calls ≡ suc most + refusals model_id g.calls)
        × (length r.1.calls ≤ 3 + 2 * most + length g.calls)
  ensure_model_loaded-answer most g low high =
      let k = ensure_model_loaded-Waited most g low high in (k.confirmed, k.refused, k.few)
