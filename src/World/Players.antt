-- ===== src/World/Players.antt =====
-- The player table of native/sampraknet_bridge.cpp: stPlayerInfo and the sync records in it.
use opensamp.Prelude.{ℕ, Bool, false, List, replicate}
use opensamp.World.Wire.{Vec, zero_vec, Quat, zero_quat}

-- ONFOOT_SYNC_DATA.
pub record OnFoot : Type 0 where
  pub lr_analog : ℕ
  pub ud_analog : ℕ
  pub keys : ℕ
  pub pos : Vec
  pub rotation : Quat
  pub health : ℕ
  pub armour : ℕ
  pub weapon : ℕ
  pub special_action : ℕ
  pub move_speed : Vec
  pub surf_offsets : Vec
  pub surf_info : ℕ
  pub animation : ℕ

abbrev pub zero_on_foot : OnFoot
zero_on_foot = record {
  lr_analog = 0;
  ud_analog = 0;
  keys = 0;
  pos = zero_vec;
  rotation = zero_quat;
  health = 0;
  armour = 0;
  weapon = 0;
  special_action = 0;
  move_speed = zero_vec;
  surf_offsets = zero_vec;
  surf_info = 0;
  animation = 0;
}

-- INCAR_SYNC_DATA.
pub record InCar : Type 0 where
  pub vehicle_id : ℕ
  pub lr_analog : ℕ
  pub ud_analog : ℕ
  pub keys : ℕ
  pub rotation : Quat
  pub pos : Vec
  pub move_speed : Vec
  pub car_health : ℕ
  pub player_health : ℕ
  pub player_armour : ℕ
  pub weapon : ℕ
  pub siren_on : ℕ
  pub landing_gear : ℕ
  pub trailer_or_thrust : ℕ
  pub train_speed : ℕ

abbrev pub zero_in_car : InCar
zero_in_car = record {
  vehicle_id = 0;
  lr_analog = 0;
  ud_analog = 0;
  keys = 0;
  rotation = zero_quat;
  pos = zero_vec;
  move_speed = zero_vec;
  car_health = 0;
  player_health = 0;
  player_armour = 0;
  weapon = 0;
  siren_on = 0;
  landing_gear = 0;
  trailer_or_thrust = 0;
  train_speed = 0;
}

-- stPlayerInfo, without the fields that nothing writes. The raw records are their bytes.
pub record Player : Type 0 where
  pub name : List ℕ
  pub is_connected : Bool
  pub on_foot : OnFoot
  pub in_car : InCar
  pub unoccupied : List ℕ
  pub aim : List ℕ
  pub bullet : List ℕ
  pub got_markers : Bool
  pub is_streamed_in : Bool
  pub score : ℕ
  pub ping : ℕ

abbrev pub zero_player : Player
zero_player = record {
  name = replicate 24 0;
  is_connected = false;
  on_foot = zero_on_foot;
  in_car = zero_in_car;
  unoccupied = replicate 67 0;
  aim = replicate 31 0;
  bullet = replicate 40 0;
  got_markers = false;
  is_streamed_in = false;
  score = 0;
  ping = 0;
}
