-- ===== src/Engine/Game/Rebuild.antt =====
-- native/game/game.h: how often the player is rebuilt, and as what.
use mathlib.Core.Path.{subst}
use opensamp.Prelude.{
  ℕ, suc, ◌+◌, ◌≤◌, ◌≡◌, refl, sym, ap, ◌⊎◌, inr, Bool, true, false, not, ◌||◌, List, [], ◌∷◌, ◌==◌,
  ==_iff, if_cases, arith,
}
use opensamp.Engine.Game.{Routine, at, sleep, Called, Game, Machine, call, local_player_ped}
use opensamp.Engine.Game.Skin.{
  func_rebuild_player, model_index, request_player_rebuild, process_pending_player_rebuild,
}

-- What happens around the rebuild: a request, a frame of TickGameReady with its number, or the game
-- itself, which leaves a memory.
pub data Step : Type 0 where
  request : Step
  frame : ℕ → Step
  play : (ℕ → ℕ) → Step

abbrev pub step : Machine → Step → Game → Game
step m request g = request_player_rebuild g
step m (frame n) g = process_pending_player_rebuild m n g
step m (play memory) g = record g { memory = memory }

abbrev pub run : Machine → List Step → Game → Game
run m [] g = g
run m (s ∷ ss) g = run m ss (step m s g)

abbrev one_if : Bool → ℕ
one_if true = 1
one_if false = 0

abbrev is_rebuild : Routine → Bool
is_rebuild (at a) = a == func_rebuild_player
is_rebuild sleep = false

-- How often CClothes::RebuildPlayer has been called.
abbrev pub rebuilds : List Called → ℕ
rebuilds [] = 0
rebuilds (c ∷ cs) = one_if (is_rebuild c.routine) + rebuilds cs

abbrev pub requests : List Step → ℕ
requests [] = 0
requests (request ∷ ss) = suc (requests ss)
requests (_ ∷ ss) = requests ss

-- The call is none of that routine, or it found a ped with model 0.
abbrev IsForCj : Routine → List ℕ → (ℕ → ℕ) → Type 0
IsForCj r (ped ∷ _) f = (is_rebuild r ≡ false) ⊎ (model_index ped f ≡ 0)
IsForCj r [] f = is_rebuild r ≡ false

abbrev pub AllForCj : List Called → Type 0
AllForCj [] = Unit
AllForCj (c ∷ cs) = IsForCj c.routine c.args c.found × AllForCj cs

-- Every frame among the steps has this number.
abbrev pub AllIn : ℕ → List Step → Type 0
AllIn n [] = Unit
AllIn n (frame k ∷ ss) = (k ≡ n) × AllIn n ss
AllIn n (_ ∷ ss) = AllIn n ss

-- From one state to a later one: no more rebuilds than were asked for, and each for the model 0.
pub record Paid (asked : ℕ) (g h : Game) : Type 0 where
  pub owed :
      rebuilds h.calls + one_if h.rebuild_pending
      ≤ asked + rebuilds g.calls + one_if g.rebuild_pending
  pub all_for_cj : AllForCj g.calls → AllForCj h.calls

-- The rebuilds so far, and one more unless this frame has had it.
abbrev budget : ℕ → Game → ℕ
budget n g = rebuilds g.calls + one_if (not (g.rebuild_last_frame == n))

due : (pending here : Bool) → (not pending || here) ≡ false → (pending ≡ true) × (here ≡ false)
due true false e = (refl, refl)
due true true e = cc
due false here e = cc

is_zero : (v : ℕ) → not (v == 0) ≡ false → v ≡ 0
is_zero v e = ground arith

used : (n : ℕ) → one_if (not (n == n)) ≡ 0
used n = ap (λ c. one_if (not c)) ((==_iff n n).1 refl)

one_more : (b : Bool) → b ≡ true → one_if b ≡ 1
one_more b e = ap one_if e

spent : (b : Bool) → b ≡ false → one_if (not b) ≡ 1
spent b e = ap (λ c. one_if (not c)) e

at_most_one : (b : Bool) → one_if b ≤ 1
at_most_one true = omega arith
at_most_one false = omega arith

requests_cons : (s : Step) (ss : List Step) → requests (s ∷ ss) ≡ requests (s ∷ []) + requests ss
requests_cons request ss = omega arith
requests_cons (frame n) ss = omega arith
requests_cons (play memory) ss = omega arith

module _ (m : Machine) where
  -- A frame that is due, without and with the rebuild.
  abbrev settled : ℕ → Game → Game
  settled n g = record g { rebuild_pending = false; rebuild_last_frame = n }

  abbrev rebuilt : ℕ → Game → Game
  rebuilt n g = call m (at func_rebuild_player) (local_player_ped g ∷ 0 ∷ []) (settled n g)

  frame_cases :
      (P : Game → Type 0) (n : ℕ) (g : Game)
      → P g
      → ((g.rebuild_pending ≡ true) × ((g.rebuild_last_frame == n) ≡ false) → P (settled n g))
      → ((g.rebuild_pending ≡ true)
            × ((g.rebuild_last_frame == n) ≡ false)
            × (model_index (local_player_ped g) g.memory ≡ 0)
          → P (rebuilt n g))
      → P (process_pending_player_rebuild m n g)
  unfolding process_pending_player_rebuild
  frame_cases P n g kept set made =
      let ped = local_player_ped g in
      if_cases P (not g.rebuild_pending || g.rebuild_last_frame == n) (λ e. kept)
        (λ e.
          let d = due g.rebuild_pending (g.rebuild_last_frame == n) e in
          if_cases P (ped == 0) (λ f. kept)
            (λ f.
              if_cases P (not (model_index ped g.memory == 0)) (λ k. set d)
                (λ k. made (d.0, d.1, is_zero (model_index ped g.memory) k))))

  frame-Paid : (n : ℕ) (g : Game) → Paid 0 g (process_pending_player_rebuild m n g)
  unfolding call
  frame-Paid n g =
      frame_cases (Paid 0 g) n g (record { owed = omega arith; all_for_cj = λ h. h })
        (λ d. record { owed = omega arith; all_for_cj = λ h. h })
        (λ d. record {
          owed = omega (arith, one_more g.rebuild_pending d.0);
          all_for_cj = λ h. (inr d.2, h);
        })

  frame-budget : (n : ℕ) (g : Game) → budget n (process_pending_player_rebuild m n g) ≤ budget n g
  unfolding call
  frame-budget n g =
      frame_cases (λ h. budget n h ≤ budget n g) n g (omega arith)
        (λ d. omega (arith, used n, spent (g.rebuild_last_frame == n) d.1))
        (λ d. omega (arith, used n, spent (g.rebuild_last_frame == n) d.1))

  step-Paid : (s : Step) (g : Game) → Paid (requests (s ∷ [])) g (step m s g)
  unfolding request_player_rebuild
  step-Paid request g = record {
    owed = omega (arith, at_most_one g.rebuild_pending);
    all_for_cj = λ h. h;
  }
  step-Paid (frame n) g = frame-Paid n g
  step-Paid (play memory) g = record { owed = omega arith; all_for_cj = λ h. h }

  -- Whatever the game does between them, over any requests and frames the player is rebuilt no more often
  -- than it was asked for, a pending request counted, and each time as model 0.
  pub run-Paid : (ss : List Step) (g : Game) → Paid (requests ss) g (run m ss g)
  run-Paid [] g = record { owed = omega arith; all_for_cj = λ h. h }
  run-Paid (s ∷ ss) g =
      let now = step-Paid s g in
      let later = run-Paid ss (step m s g) in
      record {
        owed = omega (arith, now.owed, later.owed, requests_cons s ss);
        all_for_cj = λ h. later.all_for_cj (now.all_for_cj h);
      }

  run-budget : (n : ℕ) (ss : List Step) (g : Game) → AllIn n ss → budget n (run m ss g) ≤ budget n g
  unfolding request_player_rebuild
  run-budget n [] g h = omega arith
  run-budget n (request ∷ ss) g h = run-budget n ss (step m request g) h
  run-budget n (frame k ∷ ss) g h =
      let here : budget n (step m (frame k) g) ≤ budget n g =
        subst (λ j. budget n (step m (frame j) g) ≤ budget n g) (sym h.0) (frame-budget n g) in
      omega (arith, here, run-budget n ss (step m (frame k) g) h.1)
  run-budget n (play memory ∷ ss) g h = run-budget n ss (step m (play memory) g) h

  -- Within one frame, however often it is processed and whatever is asked for, the player is rebuilt at
  -- most once.
  pub run_once :
      (n : ℕ) (ss : List Step) (g : Game)
      → AllIn n ss
      → rebuilds (run m ss g).calls ≤ suc (rebuilds g.calls)
  run_once n ss g h =
      omega (arith, run-budget n ss g h, at_most_one (not (g.rebuild_last_frame == n)))
