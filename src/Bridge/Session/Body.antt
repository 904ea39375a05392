-- ===== src/Bridge/Session/Body.antt =====
-- The last parts of bridge::Tick in native/sampraknet_bridge.cpp, the world time and the body sync,
-- leave the session, the dialog and all calls but Send alone, and so the control of the connection.
use mathlib.Core.List.{append-nil}
use opensamp.Prelude.{
  ℕ, Bool, false, ◌&&◌, not, leb, ltb, ◌==◌, Option, none, some, if_cases, List, [], ◌∷◌, ◌++◌, ◌≡◌,
  ap, ◌∙◌,
}
use opensamp.Dialog.{Dialog}
use opensamp.World.{
  World, Session, Ped, Player, max_vehicles, max_players, emit, set_player, call_engine,
}
use opensamp.World.Wire.{Platform, ClientCall, Field, send}
use opensamp.Bridge.Control.{Control, Controlled, connects, connects-append}
use opensamp.Bridge.Senders.{
  send_on_foot, send_aim, on_foot_update, in_car_update, drive, is_due, my_index, sub32, Clock,
  Vehicle,
}
use opensamp.Bridge.Session.{Frame, pin_time, body_sync, take_live, drives}

module _ (P : Session → Dialog → List ClientCall → Type 0)
    (sends : (s : Session) (d : Dialog) (l : List ClientCall) (b : List Field)
      → P s d l
      → P s d (l ++ send b ∷ [])) where
  -- The property, of the world.
  abbrev On : World → Type 0
  On w = P w.session w.dialog w.sent

  send-On : (b : List Field) (w : World) → On w → On (emit (send b) w)
  unfolding emit
  send-On b w h = sends w.session w.dialog w.sent b h

  set_player-On : (id : ℕ) (f : Player → Player) (w : World) → On w → On (set_player id f w)
  unfolding set_player
  set_player-On id f w h = if_cases On (ltb id max_players) (λ e. h) (λ e. h)

  pub pin_time-On : (w : World) → On w → On (pin_time w)
  unfolding pin_time call_engine
  pin_time-On w h =
      if_cases On (w.connected && w.game_inited && w.scene.time_known) (λ e. h) (λ e. h)

  send_aim-On :
      (t : Clock) (ammo : ℕ) (reloading : Bool) (w : World)
      → On w
      → On (send_aim t ammo reloading w)
  unfolding send_aim
  send_aim-On t ammo reloading w h =
      if_cases On (is_due w.last_aim_tick t.test 40)
        (λ e. send-On _ _ (set_player-On (my_index w) _ w h)) (λ e. h)

  take_live-On : (o : Option Ped) (w : World) → On w → On (take_live o w)
  unfolding take_live
  take_live-On none w h = h
  take_live-On (some q) w h = h

  send_on_foot-On : (p : Platform) (t : Clock) (w : World) → On w → On (send_on_foot p t w)
  unfolding send_on_foot
  send_on_foot-On p t w h =
      if_cases On (is_due w.last_on_foot_tick t.test 50) (λ e. send-On _ w h) (λ e. h)

  on_foot_update-On :
      (p : Platform) (t t' : Clock) (w : World) → On w → On (on_foot_update p t t' w)
  unfolding on_foot_update
  on_foot_update-On p t t' w h =
      send_aim-On t' 0 false _ (set_player-On _ _ (send_on_foot p t w) (send_on_foot-On p t w h))

  drive-On :
      (p : Platform) (t : Clock) (v : Vehicle) (q : Ped) (w : World) → On w → On (drive p t v q w)
  unfolding drive
  drive-On p t v q w h =
      if_cases On (not (w.last_in_car_tick == 0) && leb (sub32 t.test 40) w.last_in_car_tick)
        (λ e. h) (λ e. send-On _ w h)

  in_car_update-On :
      (p : Platform) (t : Clock) (o : Option Vehicle) (w : World)
      → On w
      → On (in_car_update p t o w)
  unfolding in_car_update
  in_car_update-On p t none w h = h
  in_car_update-On p t (some v) w h =
      if_cases On (leb max_vehicles w.vehicle_id) (λ e. h) (λ e. present w.ped)
    where
      present : (o : Option Ped) → On (elim o [ none ↦ w | some q ↦ drive p t v q w ])
      present none = h
      present (some q) = drive-On p t v q w h

  pub body_sync-On : (p : Platform) (f : Frame) (w : World) → On w → On (body_sync p f w)
  unfolding body_sync
  body_sync-On p f w h =
      if_cases On (w.connected && w.game_inited && w.spawned && not w.spectating)
        (λ e.
          let w' = take_live w.ped w in
          let h' : On w' = take_live-On w.ped w h in
          if_cases On (leb 50 (sub32 f.sync_now w'.last_sync_tick))
            (λ e'.
              if_cases On (drives w'.ped && ltb w'.vehicle_id max_vehicles)
                (λ i. in_car_update-On p f.in_car f.vehicle w' h')
                (λ i. on_foot_update-On p f.on_foot f.aim w' h'))
            (λ e'. h'))
        (λ e. h)

-- A property of the control of the connection is one of those.
abbrev control_of : Session → List ClientCall → Control
control_of s l = record {
  initialized = s.initialized;
  connect_queued = s.connect_queued;
  connection_requested = s.connection_requested;
  spawn_stage = s.spawn_stage;
  spawn_stage_ms = s.spawn_stage_ms;
  connected = s.connected;
  server_host = s.server_host;
  server_port = s.server_port;
  server_password = s.server_password;
  dialed = connects l;
}

abbrev KeepsControl : Control → Session → Dialog → List ClientCall → Type 0
KeepsControl c s d l = control_of s l ≡ c

send-KeepsControl :
    (c : Control) (s : Session) (d : Dialog) (l : List ClientCall) (b : List Field)
    → KeepsControl c s d l
    → KeepsControl c s d (l ++ send b ∷ [])
send-KeepsControl c s d l b h =
    ap (λ (n : List ClientCall). record (control_of s l) { dialed = n })
      (connects-append l (send b ∷ []) ∙ append-nil (connects l))
    ∙ h

pub pin_time-Controlled : {c : Control} (w : World) → Controlled c w → Controlled c (pin_time w)
pin_time-Controlled {c} w h = pin_time-On (KeepsControl c) (send-KeepsControl c) w h

pub body_sync-Controlled :
    (p : Platform) {c : Control} (f : Frame) (w : World)
    → Controlled c w
    → Controlled c (body_sync p f w)
body_sync-Controlled p {c} f w h = body_sync-On (KeepsControl c) (send-KeepsControl c) p f w h
