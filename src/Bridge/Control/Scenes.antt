-- ===== src/Bridge/Control/Scenes.antt =====
-- The RPC handlers for the scene in native/sampraknet_bridge.cpp leave the control of the
-- connection alone.
use opensamp.Prelude.{Bool, ℕ}
use opensamp.Prelude.Action.{Keeps, Keeps-if}
use opensamp.World.Wire.{Platform}
use opensamp.Bridge.Call.{when_inited}
use opensamp.Bridge.Scenery.{
  set_checkpoint, disable_checkpoint, change_gravity, set_bounds, change_weather, world_time,
  set_time_ex, toggle_clock, set_camera_pos, camera_behind, show_game_text, play_audio_stream,
  read_draw_text, show_text_draw, edit_text_draw, read_dialog_box, dialog_box_call, death_message,
}
use opensamp.Bridge.Dispatch.{scene_handler}
use opensamp.Bridge.Control.{Control, Controlled, control_rules}
use opensamp.Bridge.Control.Locals.{local_handler-Controlled}

module _ (p : Platform) (c : Control) where
  pub set_checkpoint-Controlled : Keeps (Controlled c) (set_checkpoint p)
  unfolding set_checkpoint when_inited
  set_checkpoint-Controlled = search (control_rules) depth 40

  pub disable_checkpoint-Controlled : Keeps (Controlled c) (disable_checkpoint p)
  unfolding disable_checkpoint when_inited
  disable_checkpoint-Controlled = search (control_rules) depth 40

  pub change_gravity-Controlled : Keeps (Controlled c) (change_gravity p)
  unfolding change_gravity when_inited
  change_gravity-Controlled = search (control_rules) depth 40

  pub set_bounds-Controlled : Keeps (Controlled c) (set_bounds p)
  unfolding set_bounds when_inited
  set_bounds-Controlled = search (control_rules) depth 40

  pub change_weather-Controlled : Keeps (Controlled c) (change_weather p)
  unfolding change_weather when_inited
  change_weather-Controlled = search (control_rules) depth 40

  pub world_time-Controlled : Keeps (Controlled c) (world_time p)
  unfolding world_time when_inited
  world_time-Controlled = search (control_rules) depth 40

  pub set_time_ex-Controlled : Keeps (Controlled c) (set_time_ex p)
  unfolding set_time_ex when_inited
  set_time_ex-Controlled = search (control_rules) depth 40

  pub toggle_clock-Controlled : Keeps (Controlled c) (toggle_clock p)
  unfolding toggle_clock when_inited
  toggle_clock-Controlled = search (control_rules) depth 40

  pub set_camera_pos-Controlled : Keeps (Controlled c) (set_camera_pos p)
  unfolding set_camera_pos when_inited
  set_camera_pos-Controlled = search (control_rules) depth 40

  pub camera_behind-Controlled : Keeps (Controlled c) (camera_behind p)
  unfolding camera_behind when_inited
  camera_behind-Controlled = search (control_rules) depth 40

  pub show_game_text-Controlled : Keeps (Controlled c) (show_game_text p)
  unfolding show_game_text when_inited
  show_game_text-Controlled = search (control_rules) depth 40

  pub play_audio_stream-Controlled : Keeps (Controlled c) (play_audio_stream p)
  unfolding play_audio_stream when_inited
  play_audio_stream-Controlled = search (control_rules) depth 40

  pub read_draw_text-Controlled :
      (selectable : Bool) (id : ℕ) → Keeps (Controlled c) (read_draw_text p selectable id)
  unfolding read_draw_text
  read_draw_text-Controlled selectable id = search (control_rules) depth 40

  pub show_text_draw-Controlled : Keeps (Controlled c) (show_text_draw p)
  unfolding show_text_draw
  show_text_draw-Controlled = search (control_rules, read_draw_text-Controlled) depth 40

  pub edit_text_draw-Controlled : Keeps (Controlled c) (edit_text_draw p)
  unfolding edit_text_draw
  edit_text_draw-Controlled = search (control_rules, read_draw_text-Controlled) depth 40

  pub dialog_box_call-Controlled : Keeps (Controlled c) (dialog_box_call p)
  unfolding dialog_box_call read_dialog_box
  dialog_box_call-Controlled = search (control_rules) depth 40

  pub death_message-Controlled : Keeps (Controlled c) (death_message p)
  unfolding death_message
  death_message-Controlled = search (control_rules) depth 40

  pub scene_handler-Controlled : (id : ℕ) → Keeps (Controlled c) (scene_handler p id)
  unfolding scene_handler
  scene_handler-Controlled id =
      search
        (
          Keeps-if, local_handler-Controlled, set_checkpoint-Controlled,
          disable_checkpoint-Controlled, change_gravity-Controlled, set_bounds-Controlled,
          change_weather-Controlled, world_time-Controlled, set_time_ex-Controlled,
          toggle_clock-Controlled, set_camera_pos-Controlled, camera_behind-Controlled,
          show_game_text-Controlled, play_audio_stream-Controlled, show_text_draw-Controlled,
          edit_text_draw-Controlled, dialog_box_call-Controlled, death_message-Controlled,
        )
        depth 26
