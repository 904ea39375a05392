-- ===== src/World.antt =====
-- The globals of native/sampraknet_bridge.cpp as one state: the player table, the session flags,
-- the local player, the scene that the server sets, the dialog, and what the bridge has sent.
pub mod Wire
pub mod Players
pub use Players.{OnFoot, zero_on_foot, InCar, zero_in_car, Player, zero_player}
use Wire.{Vec, zero_vec, Quat, zero_quat, ClientCall}
use opensamp.Prelude.{
  ℕ, ◌+◌, ◌*◌, ◌^◌, Bool, true, false, ◌&&◌, List, [], ◌∷◌, ◌++◌, Option, none, some, get_elem?,
  get_or, replicate, length, ltb, ◌==◌, if◌then◌else◌,
}
use opensamp.Prelude.Bytes.{strcpy, fits}
use opensamp.Dialog.{Dialog}

-- MAX_PLAYERS, MAX_VEHICLES, MAX_PLAYER_NAME, INVALID_VEHICLE_ID.
abbrev pub max_players : ℕ
max_players = 1000

abbrev pub max_vehicles : ℕ
max_vehicles = 2000

abbrev pub max_player_name : ℕ
max_player_name = 24

abbrev pub invalid_vehicle_id : ℕ
invalid_vehicle_id = 0xffff

-- The local player's character in the game, when there is one.
pub record Ped : Type 0 where
  pub position : Vec
  pub heading : ℕ
  pub health : ℕ
  pub armour : ℕ
  pub is_driver : Bool
  pub weapons : List (ℕ × ℕ)

-- Calls into the game engine that leave no trace in the bridge's own state.
pub data EngineCall : Type 0 where
  load_scene : Vec → EngineCall
  refresh_streaming : ℕ → ℕ → EngineCall
  set_model : ℕ → EngineCall
  set_interior : ℕ → EngineCall
  set_gravity : ℕ → EngineCall
  set_weather : ℕ → EngineCall
  set_time : ℕ → ℕ → EngineCall
  camera_at : Vec → EngineCall
  camera_restore : EngineCall

-- Lines for the chat window that carry text of the server.
pub data Line : Type 0 where
  client_message : List ℕ → Line
  chat : List ℕ → List ℕ → Line
  game_text : List ℕ → Line
  audio_stream : List ℕ → Line
  text_draw : ℕ → List ℕ → Line
  selectable_text_draw : ℕ → List ℕ → Line
  killed_by : List ℕ → List ℕ → ℕ → Line
  died : List ℕ → ℕ → Line
  unnamed_death : ℕ → ℕ → ℕ → Line

-- stCheckpointData.
pub record Checkpoint : Type 0 where
  pub is_active : Bool
  pub position : Vec
  pub size : ℕ

-- WorldRpcState::worldBounds.
pub record Bounds : Type 0 where
  pub x_max : ℕ
  pub x_min : ℕ
  pub y_max : ℕ
  pub y_min : ℕ

-- WorldRpcState.
pub record Scene : Type 0 where
  pub weather : ℕ
  pub hour : ℕ
  pub minute : ℕ
  pub clock_enabled : ℕ
  pub gravity : ℕ
  pub bounds : Bounds
  pub time_known : Bool

-- stSAMPDialog: the buffers of the last dialog that the server sent, of 257 bytes but the last.
pub record DialogBox : Type 0 where
  pub id : ℕ
  pub style : ℕ
  pub title_length : ℕ
  pub title : List ℕ
  pub button1_length : ℕ
  pub button1 : List ℕ
  pub button2_length : ℕ
  pub button2 : List ℕ
  pub info : List ℕ

-- enum class SpawnStage.
pub data SpawnStage : Type 0 where
  idle waiting_class ready done : SpawnStage

-- The connection: iAreWeConnected, iConnectionRequested, iGameInited, iSpawned, g_myPlayerID (none
-- for -1), g_spawnInfoReceived, and the s_ variables of opensamp::bridge.
pub record Session : Type 0 where
  pub initialized : Bool
  pub connect_queued : Bool
  pub server_host : List ℕ
  pub server_port : ℕ
  pub server_password : List ℕ
  pub connected : Bool
  pub connection_requested : Bool
  pub game_inited : Bool
  pub spawned : Bool
  pub spawn_info_received : Bool
  pub my_id : Option ℕ
  pub spawn_stage : SpawnStage
  pub spawn_stage_ms : ℕ

pub record World : Type 0 where
  pub session : Session
  pub open session use *
  pub players : ℕ → Player
  -- A write has left the player table or a name buffer.
  pub overrun : Bool
  -- A loop that never ends has begun; what comes after it does not happen.
  pub hung : Bool
  pub nick : List ℕ
  pub host_name : List ℕ
  pub spawns_available : ℕ
  pub lag_compensation : Bool
  pub spawn_info : List ℕ
  pub local_skin : ℕ
  pub pos : Vec
  pub rot : ℕ
  pub health : ℕ
  pub armour : ℕ
  pub drunk_level : ℕ
  pub money : ℕ
  pub spectating : Bool
  pub vehicle_id : ℕ
  pub seat_id : ℕ
  pub checkpoint : Checkpoint
  pub scene : Scene
  pub dialog_box : DialogBox
  pub dialog : Dialog
  pub last_scores_tick : ℕ
  pub last_on_foot_tick : ℕ
  pub last_in_car_tick : ℕ
  pub last_aim_tick : ℕ
  pub last_sync_tick : ℕ
  pub ped : Option Ped
  pub sent : List ClientCall
  pub engine : List EngineCall
  pub lines : List Line

-- The player table after a write at an index. One outside the table is recorded as an overrun.
unfoldable pub set_player : ℕ → (Player → Player) → World → World
set_player id f w =
    if ltb id max_players
    then record w { players = λ j. if j == id then f (w.players j) else w.players j }
    else record w { overrun = true }

unfoldable pub hang : World → World
hang w = record w { hung = true }

unfoldable pub emit : ClientCall → World → World
emit c w = record w { sent = w.sent ++ c ∷ [] }

unfoldable pub call_engine : EngineCall → World → World
call_engine c w = record w { engine = w.engine ++ c ∷ [] }

unfoldable pub say : Line → World → World
say l w = record w { lines = w.lines ++ l ∷ [] }

unfoldable pub set_ped : (Ped → Ped) → World → World
set_ped f w = record w { ped = elim w.ped [ none ↦ none | some p ↦ some (f p) ] }

-- The four bytes of a little-endian word in a raw record.
unfoldable pub word_at : List ℕ → ℕ → ℕ
word_at bytes i = byte 0 + byte 1 * 2 ^ 8 + byte 2 * 2 ^ 16 + byte 3 * 2 ^ 24
  where
    byte : ℕ → ℕ
    byte k = get_or (get_elem? bytes (i + k)) 0

-- The fields of PLAYER_SPAWN_INFO that the client uses.
unfoldable pub spawn_skin : List ℕ → ℕ
unfolding word_at
spawn_skin bytes = word_at bytes 1

unfoldable pub spawn_pos : List ℕ → Vec
unfolding word_at
spawn_pos bytes = record { x = word_at bytes 6; y = word_at bytes 10; z = word_at bytes 14 }

unfoldable pub spawn_rotation : List ℕ → ℕ
unfolding word_at
spawn_rotation bytes = word_at bytes 18
