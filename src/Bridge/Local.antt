-- ===== src/Bridge/Local.antt =====
-- The RPC handlers of native/sampraknet_bridge.cpp that act on the local player: place, health,
-- skin, money, weapons, vehicle, and spawning.
use opensamp.Prelude.{
  ℕ, ◌+◌, ◌%◌, ◌^◌, Bool, true, false, ◌&&◌, not, [], ◌∷◌, Option, none, some, leb, ◌==◌,
  if◌then◌else◌,
}
use opensamp.Prelude.Action.{pure, modify, gets, ◌>>=◌, ◌>>◌}
use opensamp.World.{
  World, Ped, max_players, max_vehicles, invalid_vehicle_id, emit, call_engine, set_ped, load_scene,
  refresh_streaming, set_model, set_interior, spawn_skin, spawn_pos, spawn_rotation,
}
use opensamp.World.Wire.{Platform, Vec, rpc}
use opensamp.Bridge.Read.{Handler, read_word, read_chars, read_floats, junk}
use opensamp.Bridge.Join.{on_session}

-- `if (auto* ped = gta::sa::GetLocalPlayerPed())`.
unfoldable pub with_ped : (World → World) → World → World
with_ped f w = elim w.ped [ none ↦ w | some q ↦ f w ]

unfoldable pub place_ped : Vec → World → World
place_ped at = set_ped (λ q. record q { position = at })

-- The pattern of 100.0f.
abbrev pub float_hundred : ℕ
float_hundred = 0x42c80000

-- sampSpawn, when the client exists.
unfoldable pub samp_spawn : World → World
unfolding with_ped place_ped
samp_spawn w =
    let w' = if w.spawned then w else record w {
      local_skin = spawn_skin w.spawn_info;
      pos = spawn_pos w.spawn_info;
      rot = spawn_rotation w.spawn_info;
    } in
    let w'' = emit (rpc 52 []) (emit (rpc 129 []) w') in
    record (set_ped (dress w'.pos w'.rot) w'') { spectating = false }
  where
    dress : Vec → ℕ → Ped → Ped
    dress at angle q = record q {
      position = at;
      heading = angle;
      health = float_hundred;
      armour = 0;
    }

module _ (p : Platform) where
  -- ScrSetPlayerPos.
  unfoldable pub set_player_pos : Handler p Unit
  set_player_pos = do
    old ← gets (λ w. w.pos)
    at ← read_floats p old
    modify (λ w. record w { pos = at })
    modify (
        with_ped λ w.
          call_engine (refresh_streaming at.x at.y) (place_ped at (call_engine (load_scene at) w)))

  -- ScrSetPlayerFacingAngle.
  unfoldable pub set_facing_angle : Handler p Unit
  set_facing_angle = do
    old ← gets (λ w. w.rot)
    angle ← read_word p 32 old
    modify (λ w. set_ped (λ q. record q { heading = angle }) (record w { rot = angle }))

  -- ScrSetSpawnInfo.
  unfoldable pub set_spawn_info : Handler p Unit
  set_spawn_info = do
    old ← gets (λ w. w.spawn_info)
    bytes ← read_chars p 46 old
    modify λ w. record w {
      spawn_info = bytes;
      pos = spawn_pos bytes;
      rot = spawn_rotation bytes;
      local_skin = spawn_skin bytes;
    }

  -- RequestClass.
  unfoldable pub request_class : Handler p Unit
  request_class = do
    outcome ← read_word p 8 0
    if outcome == 0 then pure tt else do
      old ← gets (λ w. w.spawn_info)
      bytes ← read_chars p 46 old
      modify (λ w. record w { spawn_info = bytes; local_skin = spawn_skin bytes })
      modify (on_session (λ s. record s { spawn_info_received = true }))

  -- ScrSetPlayerHealth.
  unfoldable pub set_player_health : Handler p Unit
  set_player_health = do
    old ← gets (λ w. w.health)
    v ← read_word p 32 old
    modify (λ w. set_ped (λ q. record q { health = v }) (record w { health = v }))

  -- ScrSetPlayerArmour.
  unfoldable pub set_player_armour : Handler p Unit
  set_player_armour = do
    old ← gets (λ w. w.armour)
    v ← read_word p 32 old
    modify (λ w. set_ped (λ q. record q { armour = v }) (record w { armour = v }))

  -- The local player's part of ScrSetPlayerSkin.
  unfoldable pub wear : ℕ → World → World
  wear skin w =
      with_ped (if p.model_loads skin then call_engine (set_model skin) else (λ w. w))
        (record w { local_skin = skin })

  -- Whether an id, read as an int, is that of the local player.
  unfoldable pub is_me : ℕ → Option ℕ → Bool
  is_me id none = false
  is_me id (some me) = me == id

  -- ScrSetPlayerSkin. An id with its sign bit set is negative, and too large here as well.
  unfoldable pub set_player_skin : Handler p Unit
  set_player_skin = do
    id ← read_word p 32 (junk p 0 32)
    skin ← read_word p 32 (junk p 1 32)
    if leb max_players id
        then pure tt
        else modify (λ w. if w.game_inited && is_me id w.my_id then wear skin w else w)

  -- ScrSetInterior.
  unfoldable pub set_player_interior : Handler p Unit
  set_player_interior = do
    interior ← read_word p 8 (junk p 0 8)
    modify (with_ped (call_engine (set_interior interior)))

  -- ScrSetDrunkLevel.
  unfoldable pub set_drunk_level : Handler p Unit
  set_drunk_level = do
    old ← gets (λ w. w.drunk_level)
    v ← read_word p 32 old
    modify (λ w. record w { drunk_level = v })

  -- ScrHaveSomeMoney: an int, by its 32-bit pattern.
  unfoldable pub have_some_money : Handler p Unit
  have_some_money = do
    v ← read_word p 32 (junk p 0 32)
    modify (λ w. record w { money = (w.money + v) % 2 ^ 32 })

  -- ScrResetMoney.
  unfoldable pub reset_money : Handler p Unit
  reset_money = modify (λ w. record w { money = 0 })

  -- ScrGivePlayerWeapon.
  unfoldable pub give_weapon : Handler p Unit
  give_weapon = do
    weapon ← read_word p 32 0
    ammo ← read_word p 32 0
    modify (set_ped (λ q. record q { weapons = (weapon, ammo) ∷ q.weapons }))

  -- ScrResetPlayerWeapons.
  unfoldable pub reset_weapons : Handler p Unit
  reset_weapons = modify (set_ped (λ q. record q { weapons = [] }))

  -- ScrSetPlayerPosFindZ.
  unfoldable pub set_pos_find_z : Handler p Unit
  set_pos_find_z = do
    at ← read_floats p (record { x = 0; y = 0; z = 0 })
    let target : Vec = record at { z = p.landing_height at }
    modify (with_ped λ w. record (place_ped target w) { pos = target })

  -- ScrPutPlayerInVehicle.
  unfoldable pub put_in_vehicle : Handler p Unit
  put_in_vehicle = do
    vehicle ← read_word p 16 (junk p 0 16)
    seat ← read_word p 8 (junk p 1 8)
    if leb max_vehicles vehicle
        then pure tt
        else modify (λ w. record w { vehicle_id = vehicle; seat_id = seat })

  -- ScrRemovePlayerFromVehicle.
  unfoldable pub remove_from_vehicle : Handler p Unit
  remove_from_vehicle = modify (λ w. record w { vehicle_id = invalid_vehicle_id; seat_id = 0 })

  -- ScrTogglePlayerSpectating.
  unfoldable pub toggle_spectating : Handler p Unit
  toggle_spectating = do
    toggle ← read_word p 32 (junk p 0 32)
    modify λ w.
        if w.spectating && (toggle == 0) && not w.spawned
        then on_session (λ s. record s { spawned = true }) (samp_spawn w)
        else w
    modify (λ w. record w { spectating = not (toggle == 0) })

  -- GameModeRestart.
  unfoldable pub game_mode_restart : Handler p Unit
  game_mode_restart =
      modify (on_session (λ s. record s { spawned = false; spawn_info_received = false }))
