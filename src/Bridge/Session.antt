-- ===== src/Bridge/Session.antt =====
-- opensamp::bridge of native/sampraknet_bridge.cpp: the session's life, and its tick.
pub mod Body
pub mod Dial
pub mod Spawn
pub mod Stages
use opensamp.Prelude.{
  ℕ, Bool, true, false, ◌&&◌, ◌||◌, not, List, [], ◌∷◌, ◌++◌, Option, none, some, take, leb, ltb,
  if◌then◌else◌,
}
use opensamp.Prelude.Bytes.{strncpy}
use opensamp.Dialog.{hide}
use opensamp.World.{
  World, Ped, SpawnStage, idle, waiting_class, ready, done, invalid_vehicle_id, max_vehicles, emit,
  call_engine, set_time,
}
use opensamp.World.Wire.{Platform, connect, disconnect}
use opensamp.Bridge.Join.{on_session, reset_pools}
use opensamp.Bridge.Local.{samp_spawn}
use opensamp.Bridge.Senders.{
  sub32, Clock, Vehicle, request_class_call, on_foot_update, in_car_update,
}
use opensamp.Bridge.Dispatch.{Event, update_network}

-- bridge::Initialize. `made` is whether the factory gave a client.
unfoldable pub initialize : Bool → World → Bool × World
initialize made w =
    if w.initialized
    then (true, w)
    else if made
    then (true, on_session (λ s. record s { initialized = true }) (reset_pools w))
    else (false, w)

-- bridge::Shutdown.
unfoldable pub shutdown : World → World
shutdown w =
    if w.initialized
    then (let w' = if w.connected then emit disconnect w else w in
        record (on_session
          (λ s. record s {
            connected = false;
            game_inited = false;
            connection_requested = false;
            spawned = false;
            my_id = none;
            connect_queued = false;
            initialized = false;
          })
          w') { vehicle_id = invalid_vehicle_id; seat_id = 0 })
    else w

abbrev pub or_empty : Option (List ℕ) → List ℕ
or_empty none = []
or_empty (some s) = s

-- The part of bridge::Connect behind its guards.
unfoldable pub queue_connect : List ℕ → ℕ → List ℕ → Option (List ℕ) → World → World
queue_connect host port nickname password w =
    on_session
      (λ s. record s {
        server_host = take 127 host;
        server_port = port;
        server_password = take 63 (or_empty password);
        connect_queued = true;
        connection_requested = false;
        connected = false;
        game_inited = false;
        spawned = false;
      })
      (record w { nick = take 23 (strncpy w.nick nickname 23) ++ 0 ∷ [] })

-- The null tests of bridge::Connect.
unfoldable pub connect_to :
    Option (List ℕ) → ℕ → Option (List ℕ) → Option (List ℕ) → World → Bool × World
connect_to (some h) port (some n) password w = (true, queue_connect h port n password w)
connect_to (some h) port none password w = (false, w)
connect_to none port n password w = (false, w)

-- bridge::Connect. A text is none for a null pointer; `made` is for the call of Initialize.
unfoldable pub request_connect :
    Bool → Option (List ℕ) → ℕ → Option (List ℕ) → Option (List ℕ) → World → Bool × World
request_connect made host port nickname password w =
    let (up, w') = initialize made w in
    if up then connect_to host port nickname password w' else (false, w')

-- bridge::Disconnect.
unfoldable pub end_session : World → World
end_session w =
    if w.initialized
    then (let w' = if w.connected || w.connection_requested then emit disconnect w else w in
        record (on_session
          (λ s. record s {
            connected = false;
            connection_requested = false;
            game_inited = false;
            spawned = false;
            connect_queued = false;
            spawn_stage = idle;
            spawn_info_received = false;
            my_id = none;
          })
          w') { dialog = hide w'.dialog })
    else w

-- sampConnect, as bridge::Tick issues it for a queued request.
unfoldable pub issue_connect : World → World
issue_connect w =
    if w.connect_queued && not w.connection_requested
    then on_session (λ s. record s { connection_requested = true })
        (emit (connect w.server_host w.server_port w.server_password) w)
    else w

-- The switch over the spawn stage.
unfoldable pub spawn_step : ℕ → SpawnStage → World → World
spawn_step now idle w =
    on_session (λ s. record s { spawn_stage = waiting_class; spawn_stage_ms = now })
      (request_class_call (on_session (λ s. record s { spawn_info_received = false }) w))
spawn_step now waiting_class w =
    if w.spawn_info_received
    then on_session (λ s. record s { spawn_stage = ready }) w
    else if ltb 3000 (sub32 now w.spawn_stage_ms)
    then on_session (λ s. record s { spawn_stage = idle }) w
    else w
spawn_step now ready w =
    on_session (λ s. record s { spawned = true; spawn_stage = done }) (samp_spawn w)
spawn_step now done w = w

-- The guard before that switch.
unfoldable pub auto_spawn : ℕ → World → World
auto_spawn now w =
    if w.connected && w.game_inited && not w.spawned && not w.dialog.active
    then spawn_step now w.spawn_stage w
    else w

-- The server's time is set again in each tick.
unfoldable pub pin_time : World → World
pin_time w =
    if w.connected && w.game_inited && w.scene.time_known
    then call_engine (set_time w.scene.hour w.scene.minute) w
    else w

-- The readings of the clock, what the network brings, and the vehicle, in one tick.
pub record Frame : Type 0 where
  pub events : List Event
  pub scores : Clock
  pub spawn_now : ℕ
  pub sync_now : ℕ
  pub on_foot : Clock
  pub aim : Clock
  pub in_car : Clock
  pub vehicle : Option Vehicle

unfoldable pub take_live : Option Ped → World → World
take_live none w = w
take_live (some q) w = record w {
  pos = q.position;
  rot = q.heading;
  health = q.health;
  armour = q.armour;
}

abbrev pub drives : Option Ped → Bool
drives none = false
drives (some q) = q.is_driver

module _ (p : Platform) where
  -- The body sync of bridge::Tick, every 50 ms.
  unfoldable pub body_sync : Frame → World → World
  body_sync f w =
      if w.connected && w.game_inited && w.spawned && not w.spectating
      then (let w' = take_live w.ped w in
          if leb 50 (sub32 f.sync_now w'.last_sync_tick)
          then record (if drives w'.ped && ltb w'.vehicle_id max_vehicles
              then in_car_update p f.in_car f.vehicle w'
              else on_foot_update p f.on_foot f.aim w') { last_sync_tick = f.sync_now }
          else w')
      else w

  -- bridge::Tick.
  unfoldable pub tick : Frame → World → World
  tick f w =
      if w.initialized
      then body_sync f (
          pin_time (
            auto_spawn f.spawn_now
              (issue_connect (update_network p f.scores.test f.scores.stamp f.events w))))
      else w
