-- ===== src/Engine/Boot/Once.antt =====
-- What happens once while the game starts, in native/hooks.cpp.
use opensamp.Prelude.{
  ℕ, suc, ◌*◌, ◌%◌, ◌≤◌, ◌<◌, ◌≡◌, refl, sym, ap, ◌∙◌, Bool, true, false, not, ◌&&◌, List, [], ◌∷◌,
  ltb, ◌==◌, if◌then◌else◌, if_cases, arith,
}
use opensamp.Engine.Boot.{
  Act, kick, swap_model, exit_process, dump, rebuild, request_model, load_models, setup_ped,
  place_ped, Boot, act, on_game_ready_once, ready_frame, counted_frame, tick_game_ready,
  bootstrap_start, running_script_process, Call, frame, script, perform, gs_frontend,
  gs_init_playing_game,
}

abbrev pub number : Bool → ℕ
number true = 1
number false = 0

-- How often the game has been kicked, made ready, and given its player.
abbrev pub kicks : List Act → ℕ
kicks [] = 0
kicks (kick ∷ rest) = suc (kicks rest)
kicks (swap_model ∷ rest) = kicks rest
kicks (exit_process ∷ rest) = kicks rest
kicks (dump ∷ rest) = kicks rest
kicks (rebuild n ∷ rest) = kicks rest
kicks (request_model ∷ rest) = kicks rest
kicks (load_models ∷ rest) = kicks rest
kicks (setup_ped ∷ rest) = kicks rest
kicks (place_ped ∷ rest) = kicks rest

abbrev pub swaps : List Act → ℕ
swaps [] = 0
swaps (swap_model ∷ rest) = suc (swaps rest)
swaps (kick ∷ rest) = swaps rest
swaps (exit_process ∷ rest) = swaps rest
swaps (dump ∷ rest) = swaps rest
swaps (rebuild n ∷ rest) = swaps rest
swaps (request_model ∷ rest) = swaps rest
swaps (load_models ∷ rest) = swaps rest
swaps (setup_ped ∷ rest) = swaps rest
swaps (place_ped ∷ rest) = swaps rest

abbrev pub setups : List Act → ℕ
setups [] = 0
setups (setup_ped ∷ rest) = suc (setups rest)
setups (kick ∷ rest) = setups rest
setups (swap_model ∷ rest) = setups rest
setups (exit_process ∷ rest) = setups rest
setups (dump ∷ rest) = setups rest
setups (rebuild n ∷ rest) = setups rest
setups (request_model ∷ rest) = setups rest
setups (load_models ∷ rest) = setups rest
setups (place_ped ∷ rest) = setups rest

-- Each has happened rest often rest its flag says, and the chat is allowed once the game is ready, not
-- before the player's ped has been there for 31 frames.
pub record Booted (b : Boot) : Type 0 where
  pub kicked_once : kicks b.acts ≡ number b.kicked
  pub ready_once : swaps b.acts ≡ number b.allow_chat
  pub player_once : setups b.acts ≡ number b.boot_done
  pub same_once : b.once ≡ b.boot_done
  pub same_done : b.done ≡ b.allow_chat
  pub settled : number b.allow_chat * 31 ≤ b.settle

on_game_ready_once-Booted :
    (b : Boot) → Booted b → 30 < b.settle → Booted (on_game_ready_once true b)
unfolding on_game_ready_once
on_game_ready_once-Booted b h s =
    if_cases Booted b.done (λ e. h)
      (λ e. record {
        kicked_once = h.kicked_once;
        ready_once = ap suc (h.ready_once ∙ ap number (sym h.same_done ∙ e));
        player_once = h.player_once;
        same_once = h.same_once;
        same_done = refl;
        settled = omega (arith, s);
      })

-- An act that is none of the three.
rebuild-Booted : (n : ℕ) (b : Boot) → Booted b → Booted (act (rebuild n) b)
rebuild-Booted n b h = record {
  kicked_once = h.kicked_once;
  ready_once = h.ready_once;
  player_once = h.player_once;
  same_once = h.same_once;
  same_done = h.same_done;
  settled = h.settled;
}

dump-Booted : (b : Boot) → Booted b → Booted (act dump b)
dump-Booted b h = record {
  kicked_once = h.kicked_once;
  ready_once = h.ready_once;
  player_once = h.player_once;
  same_once = h.same_once;
  same_done = h.same_done;
  settled = h.settled;
}

ready_frame-Booted : (b : Boot) → Booted b → 30 < b.settle → Booted (ready_frame true b)
unfolding ready_frame
ready_frame-Booted b h s =
    let r = on_game_ready_once true b in
    let k = rebuild-Booted r.total_frames r (on_game_ready_once-Booted b h s) in
    if_cases Booted (r.total_frames % 120 == 0) (λ e. dump-Booted _ k) (λ e. k)

settle-Booted : (b : Boot) → Booted b → Booted (record b { settle = suc b.settle })
settle-Booted b h = record {
  kicked_once = h.kicked_once;
  ready_once = h.ready_once;
  player_once = h.player_once;
  same_once = h.same_once;
  same_done = h.same_done;
  settled = omega (arith, h.settled);
}

count-Booted : (b : Boot) → Booted b → Booted (record b { total_frames = suc b.total_frames })
count-Booted b h = record {
  kicked_once = h.kicked_once;
  ready_once = h.ready_once;
  player_once = h.player_once;
  same_once = h.same_once;
  same_done = h.same_done;
  settled = h.settled;
}

kick-Booted :
    (b : Boot)
    → Booted b
    → b.kicked ≡ false
    → Booted (record b { kicked = true; acts = kick ∷ b.acts })
kick-Booted b h e = record {
  kicked_once = ap suc (h.kicked_once ∙ ap number e);
  ready_once = h.ready_once;
  player_once = h.player_once;
  same_once = h.same_once;
  same_done = h.same_done;
  settled = h.settled;
}

not_kicked : (b c : Bool) → (not b && c) ≡ true → b ≡ false
not_kicked true c e = cc
not_kicked false c e = refl

waited : (n : ℕ) → ltb n 30 ≡ false → 30 < suc n
waited n e = ground arith

counted_frame-Booted :
    (state : ℕ) (ped : Bool) (b : Boot) → Booted b → Booted (counted_frame state ped b)
unfolding counted_frame
counted_frame-Booted state ped b h =
    if_cases Booted (ltb b.total_frames 5) (λ e. h)
      (λ e.
        if_cases Booted (not b.kicked && state == gs_frontend)
          (λ f. kick-Booted b h (not_kicked b.kicked (state == gs_frontend) f)) (λ f. with_ped ped))
  where
    with_ped :
        (ped : Bool)
        → Booted (
            if not ped
            then b
            else if ltb b.settle 30
            then record b { settle = suc b.settle }
            else ready_frame ped (record b { settle = suc b.settle }))
    with_ped false = h
    with_ped true =
        if_cases Booted (ltb b.settle 30) (λ e. settle-Booted b h)
          (λ e. ready_frame-Booted _ (settle-Booted b h) (waited b.settle e))

running_script_process-Booted :
    (state : ℕ) (b : Boot) → Booted b → Booted (running_script_process state b)
unfolding running_script_process bootstrap_start
running_script_process-Booted state b h =
    if_cases Booted b.boot_done (λ e. h)
      (λ e.
        if_cases Booted (ltb state gs_init_playing_game) (λ f. h)
          (λ f.
            if_cases Booted b.once (λ g. h)
              (λ g. record {
                kicked_once = h.kicked_once;
                ready_once = h.ready_once;
                player_once = ap suc (h.player_once ∙ ap number e);
                same_once = refl;
                same_done = h.same_done;
                settled = h.settled;
              })))

-- From a state in which it holds, and so from the start of the library, whatever states the game is in
-- and whenever there is a ped: the game is kicked out of its frontend once where the flag says so and
-- never otherwise, its player is made once in the same way, and so is the first change of the skin,
-- with which the chat is allowed, not before 31 frames with a ped.
pub perform-Booted : (calls : List Call) (b : Boot) → Booted b → Booted (perform calls b)
unfolding perform tick_game_ready
perform-Booted [] b h = h
perform-Booted (frame state ped ∷ cs) b h =
    perform-Booted cs _ (counted_frame-Booted state ped _ (count-Booted b h))
perform-Booted (script state ∷ cs) b h =
    perform-Booted cs _ (running_script_process-Booted state b h)
