-- ===== src/Bridge/Dispatch.antt =====
-- UpdateNetwork of native/sampraknet_bridge.cpp, and the table of RegisterRPCs. RPCs that only
-- write to the log, or do nothing, are not in the table.
use mathlib.Core.Option
use opensamp.Prelude.{
  ℕ, List, [], ◌∷◌, Option, none, some, get_elem?, get_or, length, ltb, ◌==◌, if◌then◌else◌,
}
use opensamp.Prelude.Action.{pure}
use opensamp.World.{World, emit}
use opensamp.World.Wire.{Platform, rpc}
use opensamp.Bridge.Read.{Handler}
use opensamp.Bridge.Call.{Parameters, on_call, on_exact_call}
use opensamp.Bridge.Sync.{
  run_on, player_sync, vehicle_sync, aim_sync, unoccupied_sync, markers_sync, bullet_sync,
}
use opensamp.Bridge.Join.{auth_key, connection_succeeded, init_game, connection_rejected}
use opensamp.Bridge.Players.{
  server_join, server_quit, world_player_add, world_player_remove, update_scores, set_player_name,
  show_client_message, show_chat,
}
use opensamp.Bridge.Local.{
  set_player_pos, set_facing_angle, set_spawn_info, request_class, set_player_health,
  set_player_armour, set_player_skin, set_player_interior, set_drunk_level, have_some_money,
  reset_money, give_weapon, reset_weapons, set_pos_find_z, put_in_vehicle, remove_from_vehicle,
  toggle_spectating, game_mode_restart,
}
use opensamp.Bridge.Scenery.{
  set_checkpoint, disable_checkpoint, change_gravity, set_bounds, change_weather, world_time,
  set_time_ex, toggle_clock, set_camera_pos, camera_behind, show_game_text, play_audio_stream,
  show_text_draw, edit_text_draw, dialog_box_call, death_message,
}
use opensamp.Bridge.Senders.{sub32}

-- The id of a packet is its first byte, or the one behind the time stamp; none for a packet that
-- ends before it. RakNet delivers no packet without a byte.
unfoldable pub packet_id : List ℕ → Option ℕ
packet_id bytes =
    let first = get_or (get_elem? bytes 0) 0 in
    if first == 40 then if ltb 5 (length bytes) then get_elem? bytes 5 else none else some first

-- What Receive brings: a packet, or an RPC that it hands to its handler.
pub data Event : Type 0 where
  packet : List ℕ → Event
  call : ℕ → Parameters → Event

module _ (p : Platform) where
  -- The switch of UpdateNetwork. The passenger and the trailer handler read and keep nothing.
  unfoldable pub on_packet : ℕ → List ℕ → World → World
  on_packet id bytes w =
      if id == 34
      then run_on p (connection_succeeded p) bytes w
      else if id == 12
      then auth_key p bytes w
      else if id == 207
      then run_on p (player_sync p) bytes w
      else if id == 200
      then run_on p (vehicle_sync p) bytes w
      else if id == 203
      then run_on p (aim_sync p) bytes w
      else if id == 209
      then run_on p (unoccupied_sync p) bytes w
      else if id == 208
      then run_on p (markers_sync p) bytes w
      else if id == 206
      then run_on p (bullet_sync p) bytes w
      else w

  -- RegisterRPCs: the handlers that act on the local player.
  unfoldable pub local_handler : ℕ → Handler p Unit
  local_handler id =
      if id == 35
      then set_drunk_level p
      else if id == 18
      then have_some_money p
      else if id == 20
      then reset_money p
      else if id == 12
      then set_player_pos p
      else if id == 19
      then set_facing_angle p
      else if id == 68
      then set_spawn_info p
      else if id == 14
      then set_player_health p
      else if id == 66
      then set_player_armour p
      else if id == 153
      then set_player_skin p
      else if id == 156
      then set_player_interior p
      else if id == 124
      then toggle_spectating p
      else if id == 40
      then game_mode_restart p
      else if id == 22
      then give_weapon p
      else if id == 21
      then reset_weapons p
      else if id == 13
      then set_pos_find_z p
      else if id == 70
      then put_in_vehicle p
      else if id == 71
      then remove_from_vehicle p
      else if id == 128
      then request_class p
      else pure tt

  -- RegisterRPCs: the handlers that act on the scene.
  unfoldable pub scene_handler : ℕ → Handler p Unit
  scene_handler id =
      if id == 107
      then set_checkpoint p
      else if id == 37
      then disable_checkpoint p
      else if id == 61
      then dialog_box_call p
      else if id == 73
      then show_game_text p
      else if id == 41
      then play_audio_stream p
      else if id == 134
      then show_text_draw p
      else if id == 105
      then edit_text_draw p
      else if id == 146
      then change_gravity p
      else if id == 17
      then set_bounds p
      else if id == 152
      then change_weather p
      else if id == 94
      then world_time p
      else if id == 255
      then set_time_ex p
      else if id == 30
      then toggle_clock p
      else if id == 157
      then set_camera_pos p
      else if id == 162
      then camera_behind p
      else if id == 55
      then death_message p
      else local_handler id

  -- RegisterRPCs: the handlers that keep the player table, and all the others behind them.
  unfoldable pub handler_of : ℕ → ℕ → Handler p Unit
  handler_of id bits =
      if id == 137
      then server_join p
      else if id == 138
      then server_quit p
      else if id == 32
      then world_player_add p
      else if id == 163
      then world_player_remove p
      else if id == 130
      then connection_rejected p
      else if id == 93
      then show_client_message p
      else if id == 101
      then show_chat p
      else if id == 155
      then update_scores p bits
      else if id == 11
      then set_player_name p
      else scene_handler id

  unfoldable pub on_rpc : ℕ → Parameters → World → World
  on_rpc id c w =
      if id == 139 then on_exact_call p (init_game p) c w else on_call p (handler_of id c.bits) c w

  -- One round of the loop: none for the early return at a packet that is cut short.
  unfoldable pub on_event : Event → World → Option World
  on_event (packet bytes) w = Option.map (λ id. on_packet id bytes w) (packet_id bytes)
  on_event (call id c) w = some (on_rpc id c w)

-- UpdatePlayerScoresAndPings as it is called, with its two readings of the clock.
unfoldable pub ask_scores : ℕ → ℕ → World → World
ask_scores test stamp w =
    if ltb 3000 (sub32 test w.last_scores_tick)
    then emit (rpc 155 []) (record w { last_scores_tick = stamp })
    else w

module _ (p : Platform) where
  -- UpdateNetwork, over what Receive brings until it has nothing.
  unfoldable pub update_network : ℕ → ℕ → List Event → World → World
  update_network test stamp [] w = ask_scores test stamp w
  update_network test stamp (e ∷ es) w = elim (on_event p e w) [
    | none ↦ w
    | some w' ↦ update_network test stamp es w'
  ]
