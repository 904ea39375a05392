-- ===== src/Engine/Boot.antt =====
-- native/hooks.cpp: the frames of TickGameReady, from the frontend of the game to the game that is
-- ready, and the script hook that makes the player. Lines for the log are left out.
pub mod Once
use opensamp.Prelude.{
  ℕ, suc, ◌+◌, ◌%◌, ◌^◌, Bool, true, false, not, ◌&&◌, ◌||◌, List, [], ◌∷◌, ltb, ◌==◌,
  if◌then◌else◌,
}

-- gs_frontend and gs_init_playing_game.
abbrev pub gs_frontend : ℕ
gs_frontend = 7

abbrev pub gs_init_playing_game : ℕ
gs_init_playing_game = 8

-- What is done to the game.
pub data Act : Type 0 where
  kick swap_model exit_process dump : Act
  rebuild : ℕ → Act
  request_model load_models setup_ped place_ped : Act

-- g_totalFrames, g_kickedToPlaying, the statics of TickGameReady, OnGameReadyOnce and
-- BootstrapStart_NoScm, allow_chat, g_bootDone, and the acts, the last one first.
pub record Boot : Type 0 where
  pub total_frames : ℕ
  pub kicked : Bool
  pub settle : ℕ
  pub done : Bool
  pub once : Bool
  pub boot_done : Bool
  pub allow_chat : Bool
  pub acts : List Act

abbrev pub initial : Boot
initial = record {
  total_frames = 0;
  kicked = false;
  settle = 0;
  done = false;
  once = false;
  boot_done = false;
  allow_chat = false;
  acts = [];
}

abbrev pub act : Act → Boot → Boot
act a b = record b { acts = a ∷ b.acts }

-- OnGameReadyOnce, with whether there is a ped of the local player.
unfoldable pub on_game_ready_once : Bool → Boot → Boot
on_game_ready_once ped b =
    if b.done
    then b
    else if ped
    then record b { done = true; allow_chat = true; acts = swap_model ∷ b.acts }
    else record b { done = true; acts = exit_process ∷ b.acts }

-- TickGameReady behind the frames in which it waits.
unfoldable pub ready_frame : Bool → Boot → Boot
ready_frame ped b =
    let r = on_game_ready_once ped b in
    let c = act (rebuild r.total_frames) r in if c.total_frames % 120 == 0 then act dump c else c

-- TickGameReady behind the count of the frames.
unfoldable pub counted_frame : ℕ → Bool → Boot → Boot
counted_frame state ped b =
    if ltb b.total_frames 5
    then b
    else if not b.kicked && state == gs_frontend
    then record b { kicked = true; acts = kick ∷ b.acts }
    else if not ped
    then b
    else if ltb b.settle 30
    then record b { settle = suc b.settle }
    else ready_frame ped (record b { settle = suc b.settle })

-- TickGameReady, for the state of the game and whether there is a ped of the local player.
unfoldable pub tick_game_ready : ℕ → Bool → Boot → Boot
tick_game_ready state ped b =
    counted_frame state ped (record b { total_frames = suc b.total_frames })

-- BootstrapStart_NoScm.
unfoldable pub bootstrap_start : Boot → Boot
bootstrap_start b = if b.once then b else record b {
  once = true;
  boot_done = true;
  acts = place_ped ∷ setup_ped ∷ load_models ∷ request_model ∷ b.acts;
}

-- hkRunningScriptProcess.
unfoldable pub running_script_process : ℕ → Boot → Boot
running_script_process state b =
    if b.boot_done then b else if ltb state gs_init_playing_game then b else bootstrap_start b

-- A call of one of the two hooks.
pub data Call : Type 0 where
  frame : ℕ → Bool → Call
  script : ℕ → Call

unfoldable pub perform : List Call → Boot → Boot
perform [] b = b
perform (frame state ped ∷ cs) b = perform cs (tick_game_ready state ped b)
perform (script state ∷ cs) b = perform cs (running_script_process state b)
