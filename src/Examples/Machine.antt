-- ===== src/Examples/Machine.antt =====
-- A game in which every routine answers yes and leaves the memory as it is.
use opensamp.Prelude.{
  ℕ, ◌≤◌, ◌≡◌, refl, true, false, [], ◌∷◌, some, replicate, take, length, arith, if◌then◌else◌,
  ◌==◌,
}
use opensamp.Engine.Script.{
  reset, Script, Interpreter, select_interior, link_actor_to_interior, refresh_streaming_at,
}
use opensamp.Engine.Script.Handed.{IsProcessed, commands-IsProcessed}
use opensamp.Engine.Script.Command.{push_all, int, float, read_command, read_command-push_all}
use opensamp.Engine.Game.{value_of, call, answer, Game, Machine}
use opensamp.Engine.Game.Streaming.{ensure_model_loaded}
use opensamp.Engine.Game.Scene.{clock, weather, unforced, gravity, set_all, view, view-set_all}
use opensamp.Engine.Game.Skin.{safe_set_player_ped_model}
use opensamp.Engine.Game.Polling.{Confirmed, refusals, ensure_model_loaded-answer}
use opensamp.Engine.Game.Swap.{IsSwap, safe_set_player_ped_model-IsSwap}
use opensamp.Engine.Game.Rebuild.{request, frame, run, rebuilds, Paid, run-Paid, run_once}

abbrev blank : Script
blank = record {
  thread = record {
    script_ip = 0;
    local_vars = replicate 18 7;
    if_flag = 1;
    index_something = 0;
    has_local_copy = 0;
  };
  buffer = replicate 256 0;
  buffer_pos = 0;
}

abbrev quiet_interpreter : Interpreter (ℕ → ℕ)
quiet_interpreter = record {
  process_one_command = λ s f. record { faulted = false; script = s; game = f };
  address = 0x10001000;
}

abbrev agreeable : Machine
agreeable = record { run = λ r args g. (1, g.memory); interpreter = quiet_interpreter }

-- The local player's ped is at 0x1000.
abbrev memory_with_ped : ℕ → ℕ
memory_with_ped x = if x == 0xb6f5f1 then 0x10 else 0

abbrev game : Game
game = record {
  memory = memory_with_ped;
  calls = [];
  script = blank;
  rebuild_pending = false;
  rebuild_last_frame = 0xffffffff;
}

read_command-push_all_example :
    let t = push_all (float 0x42280000 ∷ int 5 ∷ []) (reset 0x04e4 blank) in
    (read_command (take t.buffer_pos t.buffer) ≡ some (0x04e4, float 0x42280000 ∷ int 5 ∷ []))
    × (t.buffer_pos ≤ 256)
    × (length t.buffer ≡ 256)
read_command-push_all_example =
    read_command-push_all 0x04e4 (float 0x42280000 ∷ int 5 ∷ []) blank (omega arith)
      (omega arith, (omega arith, tt)) (omega arith) refl

commands-IsProcessed_example :
    IsProcessed quiet_interpreter 0x04bb
      (int 5 ∷ [])
      memory_with_ped
      (select_interior quiet_interpreter 5 blank memory_with_ped)
    × IsProcessed quiet_interpreter 0x0860
        (int 5 ∷ int 7 ∷ [])
        memory_with_ped
        (link_actor_to_interior quiet_interpreter 5 7 blank memory_with_ped)
    × IsProcessed quiet_interpreter 0x04e4
        (float 5 ∷ float 7 ∷ [])
        memory_with_ped
        (refresh_streaming_at quiet_interpreter 5 7 blank memory_with_ped)
commands-IsProcessed_example =
    commands-IsProcessed quiet_interpreter 5 7 blank memory_with_ped (omega arith) (omega arith)
      (record { buffer_size = refl; vars_size = refl })

view-set_all_example :
    view (set_all (clock 23 59 ∷ weather 8 ∷ clock 24 0 ∷ unforced ∷ gravity 0x3c03126f ∷ []) game)
    ≡ record { hour = 23; minute = 59; forced = 0xffff; old = 8; new = 8; pull = 0x3c03126f }
unfolding view value_of
view-set_all_example =
    view-set_all (clock 23 59 ∷ weather 8 ∷ clock 24 0 ∷ unforced ∷ gravity 0x3c03126f ∷ []) game
      (omega arith, (omega arith, tt))

ensure_model_loaded-answer_example :
    let r = ensure_model_loaded agreeable 7 200 game in
    (r.0 ≡ true → Confirmed 7 r.1.calls)
    × (r.0 ≡ false → refusals 7 r.1.calls ≡ 201)
    × (length r.1.calls ≤ 403)
unfolding refusals
ensure_model_loaded-answer_example =
    ensure_model_loaded-answer agreeable 7 200 game (omega arith) (omega arith)

safe_set_player_ped_model-IsSwap_example :
    let h = safe_set_player_ped_model agreeable 0x1000 7 game in
    IsSwap 0 0x1000 7 h.calls × (h.rebuild_pending ≡ true)
unfolding ensure_model_loaded call answer value_of
safe_set_player_ped_model-IsSwap_example =
    safe_set_player_ped_model-IsSwap agreeable 0x1000 7 game (omega arith)

run-Paid_example :
    Paid 2 game (run agreeable (request ∷ frame 36 ∷ frame 36 ∷ request ∷ frame 37 ∷ []) game)
run-Paid_example = run-Paid agreeable (request ∷ frame 36 ∷ frame 36 ∷ request ∷ frame 37 ∷ []) game

run_once_example :
    rebuilds (run agreeable (request ∷ frame 36 ∷ request ∷ frame 36 ∷ []) game).calls ≤ 1
run_once_example =
    run_once agreeable 36 (request ∷ frame 36 ∷ request ∷ frame 36 ∷ []) game (refl, (refl, tt))
