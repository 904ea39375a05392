-- ===== src/Examples.antt =====
-- A platform and a world for the examples: a network whose reads all fail, and the state of
-- native/sampraknet_bridge.cpp when the program starts.
mod Ticks
mod Game
mod Lines
mod Memory
mod Notices
mod Parts
mod Launch
mod Writes
mod Starting
mod Machine
mod Surfaces
mod Keys
mod Patching
mod Colours
use opensamp.Prelude.{
  ℕ, ◌≡◌, refl, sym, Bool, true, false, List, [], ◌∷◌, Option, none, some, replicate, length,
  length-replicate,
}
use opensamp.Dialog as Dialog
use opensamp.World.{
  World, Session, SpawnStage, idle, waiting_class, done, invalid_vehicle_id, zero_player,
}
use opensamp.World.Wire.{Platform, Vec, Quat, zero_vec}
use opensamp.Bridge.Dispatch.{Event, packet}
use opensamp.Bridge.Senders.{Clock}
use opensamp.Bridge.Session.{Frame}

abbrev no_read {ℓ} : {A : Type ℓ} → List ℕ → Option A × List ℕ
no_read s = (none, s)

abbrev nothing_read : {A : Type 0} {v : A} {P : Type 0} → none ≡ some v → P
nothing_read e = cc

abbrev pub quiet : Platform
quiet = record {
  Stream = List ℕ;
  open_stream = λ s. s;
  ignore_bits = λ n s. s;
  unread_bits = λ s. 0;
  read_bits = λ n s. (none, s);
  read_bool = λ s. (none, s);
  read_packed_bool = λ s. (none, s);
  read_chars = λ n s. (none, s);
  read_quat = λ q s. (q, s);
  read_vec = λ v s. (v, s);
  decode_string = λ n s. ([], s);
  code_pages = record { wide = λ _ s. s; narrow = λ _ s. s };
  float_of_word = λ n. n;
  float_of_short = λ n. n;
  int_of_float = λ n. n;
  add_half = λ n. n;
  random_chars = replicate 24 b'A';
  random_suffix = replicate 4 b'a';
  auth_keys = [];
  model_loads = λ n. true;
  landing_height = λ v. v.z;
  stack = λ k. 0;
  stack_flag = λ k. false;
  stack_chars = λ k n. replicate n 0;
  read_bits-lt = λ n s e. nothing_read e;
  read_chars-length = λ n s e. nothing_read e;
  stack_chars-length = λ k n. length-replicate n 0;
}

abbrev pub session_at : Bool → Bool → SpawnStage → Session
session_at up joined stage = record {
  initialized = true;
  connect_queued = false;
  server_host = [];
  server_port = 0;
  server_password = [];
  connected = up;
  connection_requested = false;
  game_inited = joined;
  spawned = false;
  spawn_info_received = false;
  my_id = none;
  spawn_stage = stage;
  spawn_stage_ms = 0;
}

-- The world around a session.
abbrev pub world_of : Session → World
world_of s = record {
  session = s;
  players = λ i. zero_player;
  overrun = false;
  hung = false;
  nick = replicate 24 0;
  host_name = [];
  spawns_available = 0;
  lag_compensation = false;
  spawn_info = [];
  local_skin = 0;
  pos = zero_vec;
  rot = 0;
  health = 0;
  armour = 0;
  drunk_level = 0;
  money = 0;
  spectating = false;
  vehicle_id = invalid_vehicle_id;
  seat_id = 0;
  checkpoint = record { is_active = false; position = zero_vec; size = 0 };
  scene = record {
    weather = 0;
    hour = 12;
    minute = 0;
    clock_enabled = 1;
    gravity = 0x3c03126f;
    bounds = record {
      x_max = 0x469c4000;
      x_min = 0xc69c4000;
      y_max = 0x469c4000;
      y_min = 0xc69c4000;
    };
    time_known = false;
  };
  dialog_box = record {
    id = 0;
    style = 0;
    title_length = 0;
    title = [];
    button1_length = 0;
    button1 = [];
    button2_length = 0;
    button2 = [];
    info = [];
  };
  dialog = Dialog.initial;
  last_scores_tick = 0;
  last_on_foot_tick = 0;
  last_in_car_tick = 0;
  last_aim_tick = 0;
  last_sync_tick = 0;
  ped = none;
  sent = [];
  engine = [];
  lines = [];
}

abbrev pub started : World
started = world_of (session_at false false idle)

abbrev pub joined : World
joined = world_of (session_at true true idle)

abbrev at_ms : ℕ → Clock
at_ms t = record { test = t; stamp = t }

-- A tick at a time, in which the events come in.
abbrev pub frame : ℕ → List Event → Frame
frame t es = record {
  events = es;
  scores = at_ms t;
  spawn_now = t;
  sync_now = t;
  on_foot = at_ms t;
  aim = at_ms t;
  in_car = at_ms t;
  vehicle = none;
}

-- The connection is accepted.
abbrev pub accepted : Event
accepted = packet (34 ∷ [])

-- The ticks of a session: the server accepts the connection, and then says nothing.
abbrev pub history : List Frame
history = frame 1000 (accepted ∷ []) ∷ frame 1016 [] ∷ []
