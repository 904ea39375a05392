-- ===== src/Bridge/Bounds/Scenes.antt =====
-- The RPC handlers for the scene in native/sampraknet_bridge.cpp and the player table.
use opensamp.Prelude.{Bool, ℕ}
use opensamp.Prelude.Action.{Keeps, Keeps-if}
use opensamp.World.Wire.{Platform}
use opensamp.Bridge.Call.{when_inited}
use opensamp.Bridge.Scenery.{
  set_checkpoint, disable_checkpoint, change_gravity, set_bounds, change_weather, world_time,
  set_time_ex, toggle_clock, set_camera_pos, camera_behind, show_game_text, play_audio_stream,
  read_draw_text, show_text_draw, edit_text_draw, read_dialog_box, dialog_box_call, death_message,
}
use opensamp.Bridge.Dispatch.{scene_handler}
use opensamp.Bridge.Bounds.{InBounds}
use opensamp.Bridge.Bounds.Rules.{bounds_rules}
use opensamp.Bridge.Bounds.Locals.{local_handler-Bounded}

module _ (p : Platform) where
  pub set_checkpoint-Bounded : Keeps InBounds (set_checkpoint p)
  unfolding set_checkpoint when_inited
  set_checkpoint-Bounded = search (bounds_rules) depth 40

  pub disable_checkpoint-Bounded : Keeps InBounds (disable_checkpoint p)
  unfolding disable_checkpoint when_inited
  disable_checkpoint-Bounded = search (bounds_rules) depth 40

  pub change_gravity-Bounded : Keeps InBounds (change_gravity p)
  unfolding change_gravity when_inited
  change_gravity-Bounded = search (bounds_rules) depth 40

  pub set_bounds-Bounded : Keeps InBounds (set_bounds p)
  unfolding set_bounds when_inited
  set_bounds-Bounded = search (bounds_rules) depth 40

  pub change_weather-Bounded : Keeps InBounds (change_weather p)
  unfolding change_weather when_inited
  change_weather-Bounded = search (bounds_rules) depth 40

  pub world_time-Bounded : Keeps InBounds (world_time p)
  unfolding world_time when_inited
  world_time-Bounded = search (bounds_rules) depth 40

  pub set_time_ex-Bounded : Keeps InBounds (set_time_ex p)
  unfolding set_time_ex when_inited
  set_time_ex-Bounded = search (bounds_rules) depth 40

  pub toggle_clock-Bounded : Keeps InBounds (toggle_clock p)
  unfolding toggle_clock when_inited
  toggle_clock-Bounded = search (bounds_rules) depth 40

  pub set_camera_pos-Bounded : Keeps InBounds (set_camera_pos p)
  unfolding set_camera_pos when_inited
  set_camera_pos-Bounded = search (bounds_rules) depth 40

  pub camera_behind-Bounded : Keeps InBounds (camera_behind p)
  unfolding camera_behind when_inited
  camera_behind-Bounded = search (bounds_rules) depth 40

  pub show_game_text-Bounded : Keeps InBounds (show_game_text p)
  unfolding show_game_text when_inited
  show_game_text-Bounded = search (bounds_rules) depth 40

  pub play_audio_stream-Bounded : Keeps InBounds (play_audio_stream p)
  unfolding play_audio_stream when_inited
  play_audio_stream-Bounded = search (bounds_rules) depth 40

  pub read_draw_text-Bounded :
      (selectable : Bool) (id : ℕ) → Keeps InBounds (read_draw_text p selectable id)
  unfolding read_draw_text
  read_draw_text-Bounded selectable id = search (bounds_rules) depth 40

  pub show_text_draw-Bounded : Keeps InBounds (show_text_draw p)
  unfolding show_text_draw
  show_text_draw-Bounded = search (bounds_rules, read_draw_text-Bounded) depth 40

  pub edit_text_draw-Bounded : Keeps InBounds (edit_text_draw p)
  unfolding edit_text_draw
  edit_text_draw-Bounded = search (bounds_rules, read_draw_text-Bounded) depth 40

  pub dialog_box_call-Bounded : Keeps InBounds (dialog_box_call p)
  unfolding dialog_box_call read_dialog_box
  dialog_box_call-Bounded = search (bounds_rules) depth 40

  pub death_message-Bounded : Keeps InBounds (death_message p)
  unfolding death_message
  death_message-Bounded = search (bounds_rules) depth 40

  pub scene_handler-Bounded : (id : ℕ) → Keeps InBounds (scene_handler p id)
  unfolding scene_handler
  scene_handler-Bounded id =
      search
        (
          Keeps-if, local_handler-Bounded, set_checkpoint-Bounded, disable_checkpoint-Bounded,
          change_gravity-Bounded, set_bounds-Bounded, change_weather-Bounded, world_time-Bounded,
          set_time_ex-Bounded, toggle_clock-Bounded, set_camera_pos-Bounded, camera_behind-Bounded,
          show_game_text-Bounded, play_audio_stream-Bounded, show_text_draw-Bounded,
          edit_text_draw-Bounded, dialog_box_call-Bounded, death_message-Bounded,
        )
        depth 26
