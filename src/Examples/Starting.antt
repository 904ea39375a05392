-- ===== src/Examples/Starting.antt =====
-- The game leaves its frontend, and its player's ped is there from the third call on.
use opensamp.Prelude.{◌+◌, ◌≡◌, some, none, not, ◌==◌, refl, true, false, List, [], ◌∷◌, arith}
use opensamp.Engine.Hooks.{Hooks, MinHook, game_ready_install}
use opensamp.Engine.Hooks.Installed.{AllBacked, game_ready_install-AllBacked}
use opensamp.Engine.Boot.{Call, frame, script, initial, perform}
use opensamp.Engine.Boot.Once.{Booted, perform-Booted}

abbrev first_calls : List Call
first_calls =
    frame 7 false
    ∷ frame 7 false
    ∷ frame 7 false
    ∷ frame 7 false
    ∷ frame 7 false
    ∷ script 8
    ∷ frame 8 true
    ∷ script 9
    ∷ frame 9 true
    ∷ []

initial-Booted : Booted initial
initial-Booted = record {
  kicked_once = refl;
  ready_once = refl;
  player_once = refl;
  same_once = refl;
  same_done = refl;
  settled = omega arith;
}

perform-Booted_example : Booted (perform first_calls initial)
perform-Booted_example = perform-Booted first_calls initial initial-Booted

-- MinHook refuses the second guard of the table, and user32.dll lacks a function.
abbrev no_guards : MinHook
no_guards = record {
  creates = λ h target. some (target + 0x10000000);
  enables = λ h target. not (target == 0x732b00);
  key_state_proc = none;
  cursor_pos_proc = some 0x77000000;
}

abbrev no_hooks : Hooks
no_hooks = record { originals = []; enabled = []; net_game = false }

game_ready_install-AllBacked_example :
    let r = game_ready_install no_guards (λ a. 0xe8) no_hooks in
    AllBacked r.1.enabled r.1.originals
    × (r.0 ≡ true → r.1.net_game ≡ true)
    × (r.0 ≡ false → (r.1.enabled ≡ []) × (r.1.net_game ≡ false))
game_ready_install-AllBacked_example =
    game_ready_install-AllBacked no_guards (λ a. 0xe8) no_hooks tt
