-- ===== src/Bridge/Sync.antt =====
-- The handlers of synchronisation packets in native/sampraknet_bridge.cpp. A handler writes the
-- record of a player field by field as it reads; nothing looks at the table in between, so the
-- fields are collected here and written once.
pub mod Nibble
use opensamp.Prelude.{
  ℕ, zero, suc, ◌/◌, ◌%◌, ◌^◌, Bool, true, false, List, Option, none, some, ltb, leb, replicate,
  not, if◌then◌else◌, ◌||◌,
}
use opensamp.Prelude.Action.{pure, modify, gets, ◌>>=◌, ◌>>◌}
use opensamp.World.{
  World, Player, OnFoot, InCar, zero_on_foot, zero_in_car, max_players, max_vehicles, set_player,
}
use opensamp.World.Wire.{Platform, Vec, zero_vec, zero_quat}
use opensamp.Bridge.Read.{
  Handler, ignore_bits, read_word, read_bool, read_packed_bool, read_chars, read_quat, read_vec,
  read_floats, junk,
}
use Nibble.{decode4}

-- A handler applied to a packet.
unfoldable pub run_on : (p : Platform) → Handler p Unit → List ℕ → World → World
run_on p h bytes w = (h (w, p.open_stream bytes)).1.0

module _ (p : Platform) where
  -- The player id behind the packet's own id byte.
  unfoldable pub packet_player : Handler p ℕ
  packet_player = do ignore_bits p 8; read_word p 16 (junk p 0 16)

  -- A read that is made only when a flag is set; the target was cleared to zero.
  unfoldable pub read_word_if : Bool → ℕ → Handler p ℕ
  read_word_if flag n = if flag then read_word p n 0 else pure 0

  -- The end of Packet_PlayerSync: where the player surfs, if anywhere.
  unfoldable pub read_surf : Bool → Handler p (ℕ × Vec)
  read_surf flag =
      if flag
      then (do info ← read_word p 16 0; offsets ← read_floats p zero_vec; pure (info, offsets))
      else pure (0xffff, zero_vec)

  unfoldable pub read_on_foot : Handler p OnFoot
  read_on_foot = do
    has_lr ← read_bool p (p.stack_flag 0)
    lr ← read_word_if has_lr 16
    has_ud ← read_bool p (p.stack_flag 1)
    ud ← read_word_if has_ud 16
    keys ← read_word p 16 0
    pos ← read_floats p zero_vec
    rotation ← read_quat p zero_quat
    health_armour ← read_word p 8 (junk p 1 8)
    weapon ← read_word p 8 0
    action ← read_word p 8 0
    speed ← read_vec p zero_vec
    has_surf ← read_bool p (p.stack_flag 2)
    surf ← read_surf has_surf
    has_animation ← read_bool p (p.stack_flag 3)
    animation ← read_word_if has_animation 32
    pure (record {
      lr_analog = lr;
      ud_analog = ud;
      keys = keys;
      pos = pos;
      rotation = rotation;
      health = decode4 (health_armour / 2 ^ 4);
      armour = decode4 (health_armour % 2 ^ 4);
      weapon = weapon;
      special_action = action;
      move_speed = speed;
      surf_offsets = surf.1;
      surf_info = surf.0;
      animation = animation;
    })

  -- Packet_PlayerSync.
  unfoldable pub player_sync : Handler p Unit
  player_sync = do
    id ← packet_player
    if leb max_players id
        then pure tt
        else do data' ← read_on_foot; modify (set_player id (λ q. record q { on_foot = data' }))

  -- Packet_UnoccupiedSync: the record is cleared, then read whole.
  unfoldable pub unoccupied_sync : Handler p Unit
  unoccupied_sync = do
    id ← packet_player
    if leb max_players id then pure tt else do
      bytes ← read_chars p 67 (replicate 67 0)
      modify (set_player id (λ q. record q { unoccupied = bytes }))

  -- Packet_AimSync.
  unfoldable pub aim_sync : Handler p Unit
  aim_sync = do
    id ← packet_player
    if leb max_players id then pure tt else do
      bytes ← read_chars p 31 (replicate 31 0)
      modify (set_player id (λ q. record q { aim = bytes }))

  unfoldable pub flag_byte : Bool → ℕ
  flag_byte flag = if flag then 1 else 0

  -- The train's speed, as a float, when there is one.
  unfoldable pub read_train : Bool → Handler p ℕ
  read_train flag =
      if flag
      then (do speed ← read_word p 16 (junk p 9 16); pure (p.float_of_word speed))
      else pure 0

  unfoldable pub read_in_car : Handler p InCar
  read_in_car = do
    lr ← read_word p 16 0
    ud ← read_word p 16 0
    keys ← read_word p 16 0
    rotation ← read_quat p zero_quat
    pos ← read_floats p zero_vec
    speed ← read_vec p zero_vec
    car_health ← read_word p 16 (junk p 2 16)
    health_armour ← read_word p 8 (junk p 1 8)
    weapon ← read_word p 8 0
    siren ← read_packed_bool p (p.stack_flag 4)
    gear ← read_packed_bool p (p.stack_flag 5)
    hydra ← read_packed_bool p (p.stack_flag 6)
    trailer ← read_packed_bool p (p.stack_flag 7)
    trailer_id ← read_word p 32 (junk p 3 32)
    train ← read_packed_bool p (p.stack_flag 8)
    speed_word ← read_train train
    pure (record {
      vehicle_id = 0;
      lr_analog = lr;
      ud_analog = ud;
      keys = keys;
      rotation = rotation;
      pos = pos;
      move_speed = speed;
      car_health = p.float_of_word car_health;
      player_health = decode4 (health_armour / 2 ^ 4);
      player_armour = decode4 (health_armour % 2 ^ 4);
      weapon = weapon;
      siren_on = flag_byte siren;
      landing_gear = flag_byte gear;
      trailer_or_thrust = trailer_id % 2 ^ 16;
      train_speed = speed_word;
    })

  -- Packet_VehicleSync. The vehicle id is checked and not stored.
  unfoldable pub vehicle_sync : Handler p Unit
  vehicle_sync = do
    id ← packet_player
    vehicle ← read_word p 16 (junk p 4 16)
    if leb max_players id || leb max_vehicles vehicle
        then pure tt
        else do data' ← read_in_car; modify (set_player id (λ q. record q { in_car = data' }))

  -- The end of a round of Packet_MarkersSync, with the position that the round before has read, and
  -- the one that it leaves for the next.
  unfoldable pub mark : ℕ → Bool → Vec → Handler p Vec
  mark id active before =
      if active
      then (do
        x ← read_word p 16 before.x
        y ← read_word p 16 before.y
        z ← read_word p 16 before.z
        modify (
            set_player id λ q. record q {
              got_markers = true;
              on_foot = record q.on_foot {
                pos = record {
                  x = p.float_of_short x;
                  y = p.float_of_short y;
                  z = p.float_of_short z;
                };
              };
            })
        pure (record { x = x; y = y; z = z }))
      else (do modify (set_player id (λ q. record q { got_markers = false })); pure before)

  -- The rounds that are left; a bad id ends them. The locals outlive the rounds: what a read leaves
  -- alone is what the round before had.
  unfoldable pub mark_all : ℕ → ℕ → Bool → Vec → Handler p Unit
  mark_all zero id active before = pure tt
  mark_all (suc n) id active before = do
    id' ← read_word p 16 id
    if leb max_players id' then pure tt else do
      active' ← read_packed_bool p active
      at ← mark id' active' before
      mark_all n id' active' at

  -- Packet_MarkersSync. A count with its sign bit set is negative, and too large here as well.
  unfoldable pub markers_sync : Handler p Unit
  markers_sync = do
    ignore_bits p 8
    count ← read_word p 32 (junk p 8 32)
    if ltb max_players count
        then pure tt
        else mark_all count (junk p 0 16) (p.stack_flag 9)
            (record { x = junk p 5 16; y = junk p 6 16; z = junk p 7 16 })

  -- Packet_BulletSync.
  unfoldable pub bullet_sync : Handler p Unit
  bullet_sync = do
    lag_compensation ← gets (λ w. w.lag_compensation)
    if not lag_compensation then pure tt else do
      id ← packet_player
      if leb max_players id then pure tt else do
        bytes ← read_chars p 40 (replicate 40 0)
        modify (set_player id (λ q. record q { bullet = bytes }))
