-- ===== src/Bridge/Control.antt =====
-- What no packet and no RPC of native/sampraknet_bridge.cpp touches: the bridge's own control of
-- the connection.
pub mod Packets
pub mod Locals
pub mod Scenes
pub mod Network
use mathlib.Core.List.{append-nil}
use opensamp.Prelude.{
  ℕ, zero, suc, ◌≡◌, refl, ap, Bool, true, false, List, [], ◌∷◌, ◌++◌, Option, none, some, arith,
  not, leb, ◌==◌, if_cases, ◌&&◌, if◌then◌else◌, ◌∙◌, take, drop, ◌+◌, ◌/◌,
}
use opensamp.Prelude.Bytes.{fits, c_str}
use opensamp.Prelude.Action.{Keeps, Keeps-if, Keeps-bind, Keeps-modify}
use opensamp.World.{
  World, Ped, SpawnStage, Player, EngineCall, Line, set_model, set_player, emit, call_engine, say,
  set_ped, hang, max_players,
}
use opensamp.World.Wire.{Platform, Vec, Field, ClientCall, rpc, send, connect, disconnect}
use opensamp.Bridge.Read.{Handler, read_word, junk, read_packed_bool}
use opensamp.Bridge.Reads.{reads_keep, mark_all-Keeps, score_entries-Keeps}
use opensamp.Bridge.Call.{when_inited, on_call, on_exact_call, Parameters}
use opensamp.Bridge.Players.{
  copy_name, server_join, server_quit, world_player_add, world_player_remove, update_scores,
  set_player_name, show_client_message, show_chat,
}
use opensamp.Bridge.Join.{
  answer_auth, auth_key, rename, reset_pools, on_session, connection_succeeded, read_init,
  read_host_name, finish_init, init_game, connection_rejected,
}
use opensamp.Bridge.Local.{
  with_ped, place_ped, samp_spawn, wear, set_player_pos, set_facing_angle, set_spawn_info,
  request_class, set_player_health, set_player_armour, set_player_skin, set_player_interior,
  set_drunk_level, have_some_money, reset_money, give_weapon, reset_weapons, set_pos_find_z,
  put_in_vehicle, remove_from_vehicle, toggle_spectating, game_mode_restart,
}
use opensamp.Bridge.Scenery.{
  on_scene, set_checkpoint, disable_checkpoint, change_gravity, set_bounds, change_weather,
  world_time, set_time_ex, toggle_clock, set_camera_pos, camera_behind, show_game_text,
  play_audio_stream, read_draw_text, show_text_draw, edit_text_draw, read_dialog_box,
  dialog_box_call,
}
use opensamp.Bridge.Dispatch.{
  on_packet, local_handler, scene_handler, handler_of, on_rpc, Event, packet, call, packet_id,
  on_event,
}
use opensamp.Bridge.Sync.{
  player_sync, unoccupied_sync, aim_sync, vehicle_sync, bullet_sync, mark, mark_all, markers_sync,
  run_on,
}

-- The calls of RakNet's Connect, with their arguments.
abbrev pub connects : List ClientCall → List ClientCall
connects [] = []
connects (connect h port pw ∷ cs) = connect h port pw ∷ connects cs
connects (c ∷ cs) = connects cs

pub record Control : Type 0 where
  pub initialized : Bool
  pub connect_queued : Bool
  pub connection_requested : Bool
  pub spawn_stage : SpawnStage
  pub spawn_stage_ms : ℕ
  pub connected : Bool
  pub server_host : List ℕ
  pub server_port : ℕ
  pub server_password : List ℕ
  pub dialed : List ClientCall

abbrev pub control : World → Control
control w = record {
  initialized = w.initialized;
  connect_queued = w.connect_queued;
  connection_requested = w.connection_requested;
  spawn_stage = w.spawn_stage;
  spawn_stage_ms = w.spawn_stage_ms;
  connected = w.connected;
  server_host = w.server_host;
  server_port = w.server_port;
  server_password = w.server_password;
  dialed = connects w.sent;
}

abbrev pub Controlled : Control → World → Type 0
Controlled c w = control w ≡ c

-- As before, but that the connection may have come up.
pub data Later (c : Control) (w : World) : Type 0 where
  same : control w ≡ c → Later c w
  risen : control w ≡ record c { connected = true } → Later c w

pub lift-Later :
    {c : Control} (w w' : World)
    → ((d : Control) → Controlled d w → Controlled d w')
    → Later c w
    → Later c w'
lift-Later w w' k (same e) = same (k _ e)
lift-Later w w' k (risen e) = risen (k _ e)

pub connects-append : (cs ds : List ClientCall) → connects (cs ++ ds) ≡ connects cs ++ connects ds
connects-append [] ds = refl
connects-append (connect h port pw ∷ cs) ds =
    ap (λ r. connect h port pw ∷ r) (connects-append cs ds)
connects-append (rpc i b ∷ cs) ds = connects-append cs ds
connects-append (send b ∷ cs) ds = connects-append cs ds
connects-append (disconnect ∷ cs) ds = connects-append cs ds

module _ {c : Control} where
  pub set_player-Controlled :
      (id : ℕ) (f : Player → Player) (w : World) → Controlled c w → Controlled c (set_player id f w)
  unfolding set_player
  set_player-Controlled id f w h = ground arith

  pub rpc-Controlled :
      (id : ℕ) (b : List Field) (w : World) → Controlled c w → Controlled c (emit (rpc id b) w)
  unfolding emit
  rpc-Controlled id b w h =
      ap (λ (n : List ClientCall). record (control w) { dialed = n })
        (connects-append w.sent (rpc id b ∷ []) ∙ append-nil (connects w.sent))
      ∙ h

  pub send-Controlled :
      (b : List Field) (w : World) → Controlled c w → Controlled c (emit (send b) w)
  unfolding emit
  send-Controlled b w h =
      ap (λ (n : List ClientCall). record (control w) { dialed = n })
        (connects-append w.sent (send b ∷ []) ∙ append-nil (connects w.sent))
      ∙ h

  pub copy_name-Controlled :
      (id : ℕ) (name : List ℕ) (w : World) → Controlled c w → Controlled c (copy_name id name w)
  unfolding copy_name
  copy_name-Controlled id name w h =
      if_cases (Controlled c) (fits (w.players id).name name) (λ e. set_player-Controlled id _ w h)
        (λ e. ground arith)

  pub rename-Controlled :
      (name : List ℕ) (w : World) → Controlled c w → Controlled c (rename name w)
  unfolding rename
  rename-Controlled name w h = ground arith

  pub say-Controlled : (l : Line) (w : World) → Controlled c w → Controlled c (say l w)
  unfolding say
  say-Controlled l w h = ground arith

  pub call_engine-Controlled :
      (e : EngineCall) (w : World) → Controlled c w → Controlled c (call_engine e w)
  unfolding call_engine
  call_engine-Controlled e w h = ground arith

  pub hang-Controlled : (w : World) → Controlled c w → Controlled c (hang w)
  unfolding hang
  hang-Controlled w h = h

  pub set_ped-Controlled : (f : Ped → Ped) (w : World) → Controlled c w → Controlled c (set_ped f w)
  unfolding set_ped
  set_ped-Controlled f w h = ground arith

  pub reset_pools-Controlled : (w : World) → Controlled c w → Controlled c (reset_pools w)
  unfolding reset_pools
  reset_pools-Controlled w h = set_player-Controlled 0 _ w h

  pub if-Controlled :
      (b : Bool) (v w : World) → Controlled c v → Controlled c w → Controlled c (if b then v else w)
  if-Controlled b v w h k = if_cases (Controlled c) b (λ e. h) (λ e. k)

  pub place_ped-Controlled : (at : Vec) (w : World) → Controlled c w → Controlled c (place_ped at w)
  unfolding place_ped
  place_ped-Controlled at w h = set_ped-Controlled _ w h

  pub with_ped-Controlled :
      (f : World → World) (w : World)
      → ((v : World) → Controlled c v → Controlled c (f v))
      → Controlled c w
      → Controlled c (with_ped f w)
  unfolding with_ped
  with_ped-Controlled f w k h = present w.ped
    where
      present : (o : Option Ped) → Controlled c (elim o [ none ↦ w | some q ↦ f w ])
      present none = h
      present (some q) = k w h

  pub samp_spawn-Controlled : (w : World) → Controlled c w → Controlled c (samp_spawn w)
  unfolding samp_spawn
  samp_spawn-Controlled w h =
      set_ped-Controlled _ _
        (rpc-Controlled 52 [] _ (rpc-Controlled 129 [] _ (if-Controlled w.spawned w _ h h)))

pub ruleset control_rules = (
  reads_keep, set_player-Controlled, rpc-Controlled, send-Controlled, copy_name-Controlled,
  rename-Controlled, say-Controlled, call_engine-Controlled, set_ped-Controlled,
  reset_pools-Controlled, hang-Controlled, if-Controlled, place_ped-Controlled, with_ped-Controlled,
  samp_spawn-Controlled,
)
