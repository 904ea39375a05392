-- ===== src/Engine/Game.antt =====
-- native/game/game.h: the variables of the game and the calls into it. A number is the pattern of its
-- bits, an int of C as well as a float; an address has 32 bits.
pub mod Streaming
pub mod Skin
pub mod Scene
pub mod Polling
pub mod Swap
pub mod Rebuild
use opensamp.Prelude.{
  ℕ, ◌+◌, ◌*◌, ◌/◌, ◌%◌, ◌^◌, Bool, true, false, not, ◌&&◌, ◌||◌, List, [], ◌∷◌, Option, none, some,
  ltb, ◌==◌, if◌then◌else◌,
}
use opensamp.Prelude.Bytes.{word_bytes}
use opensamp.Engine.Memory.{store, bytes_at}
use opensamp.Engine.Script.{Script, Interpreter}

-- A routine outside the library: at an address in the game, or Sleep of Windows.
pub data Routine : Type 0 where
  at : ℕ → Routine
  sleep : Routine

-- A call that was made: its arguments (with the object of a method first, and a vector by its three
-- numbers), what it returned, and the memory that it found.
pub record Called : Type 0 where
  pub routine : Routine
  pub args : List ℕ
  pub result : ℕ
  pub found : ℕ → ℕ

-- The memory, the calls with the last one first, scm::g_thread with its buffer, g_rebuildPending and
-- g_rebuildLastFrame.
pub record Game : Type 0 where
  pub memory : ℕ → ℕ
  pub calls : List Called
  pub script : Script
  pub rebuild_pending : Bool
  pub rebuild_last_frame : ℕ

-- What the routines return and leave in the memory, and what the interpreter of scripts does to it.
pub record Machine : Type 0 where
  pub run : Routine → List ℕ → Game → ℕ × (ℕ → ℕ)
  pub interpreter : Interpreter (ℕ → ℕ)

-- Little-endian numbers in memory.
unfoldable pub value_of : List ℕ → ℕ
value_of [] = 0
value_of (b ∷ bs) = b + 256 * value_of bs

abbrev pub read_at : ℕ → ℕ → (ℕ → ℕ) → ℕ
read_at a n f = value_of (bytes_at f a n)

abbrev pub write_at : ℕ → List ℕ → Game → Game
write_at a bs g = record g { memory = store g.memory a bs }

abbrev pub half_bytes : ℕ → List ℕ
half_bytes v = v % 256 ∷ v / 256 % 256 ∷ []

-- VAR_LocalPlayerPed, VAR_PlayerPlaceable, VAR_TimeMinutes, VAR_TimeHours, VAR_WeatherForced,
-- VAR_WeatherOld, VAR_WeatherNew and VAR_Gravity.
abbrev pub var_local_player_ped : ℕ
var_local_player_ped = 0xb6f5f0

abbrev pub var_player_placeable : ℕ
var_player_placeable = 0xb7cd98

abbrev pub var_time_minutes : ℕ
var_time_minutes = 0xb70152

abbrev pub var_time_hours : ℕ
var_time_hours = 0xb70153

abbrev pub var_weather_forced : ℕ
var_weather_forced = 0xc81318

abbrev pub var_weather_old : ℕ
var_weather_old = 0xc81320

abbrev pub var_weather_new : ℕ
var_weather_new = 0xc8131c

abbrev pub var_gravity : ℕ
var_gravity = 0x863984

-- GetLocalPlayerPed and GetPlayerPlaceable: 0 is null.
abbrev pub local_player_ped : Game → ℕ
local_player_ped g = read_at var_local_player_ped 4 g.memory

abbrev pub player_placeable : Game → ℕ
player_placeable g = read_at var_player_placeable 4 g.memory

-- CPedInterface::CurrentVehicle, CVehicleInterface::Driver, IsInVehicle and IsDriver.
abbrev pub current_vehicle : ℕ → Game → ℕ
current_vehicle ped g = read_at (ped + 0x58c) 4 g.memory

abbrev pub driver : ℕ → Game → ℕ
driver vehicle g = read_at (vehicle + 0x460) 4 g.memory

unfoldable pub is_in_vehicle : ℕ → Game → Bool
is_in_vehicle ped g = not (current_vehicle ped g == 0)

unfoldable pub is_driver : ℕ → Game → Bool
is_driver ped g = let v = current_vehicle ped g in not (v == 0) && driver v g == ped

-- GetLocalVehicle.
unfoldable pub local_vehicle : Game → ℕ
local_vehicle g = let ped = local_player_ped g in if ped == 0 then 0 else current_vehicle ped g

-- CPedInterface::SetHeading.
unfoldable pub set_heading : ℕ → ℕ → Game → Game
set_heading ped radians g =
    write_at (ped + 0x55c) (word_bytes radians) (write_at (ped + 0x558) (word_bytes radians) g)

-- SetWorldTime. An int below 0 is a large pattern.
unfoldable pub set_world_time : ℕ → ℕ → Game → Game
set_world_time hour minute g =
    if ltb 23 hour
    then g
    else if ltb 59 minute
    then g
    else write_at var_time_minutes (minute % 256 ∷ []) (write_at var_time_hours (hour % 256 ∷ []) g)

-- SetWeather, ReleaseForcedWeather and SetGravity. The id of the weather has 8 bits.
unfoldable pub set_weather : ℕ → Game → Game
set_weather weather_id g =
    write_at var_weather_new (half_bytes weather_id)
      (write_at var_weather_old (half_bytes weather_id) g)

unfoldable pub release_forced_weather : Game → Game
release_forced_weather g = write_at var_weather_forced (half_bytes 0xffff) g

unfoldable pub set_gravity : ℕ → Game → Game
set_gravity v g = write_at var_gravity (word_bytes v) g

-- A call of a routine, and what it returns.
module _ (m : Machine) where
  unfoldable pub call : Routine → List ℕ → Game → Game
  call r args g =
      let (result, memory) = m.run r args g in
      record g {
        memory = memory;
        calls = record { routine = r; args = args; result = result; found = g.memory } ∷ g.calls;
      }

  unfoldable pub answer : Routine → List ℕ → Game → ℕ
  answer r args g = (m.run r args g).0

  -- PlaceableSetPosition.
  unfoldable pub placeable_set_position : ℕ → ℕ → ℕ → ℕ → Game → Game
  placeable_set_position placeable x y z g =
      if placeable == 0 then g else call (at 0x420b80) (placeable ∷ x ∷ y ∷ z ∷ []) g
