-- ===== src/Bridge/Control/Packets.antt =====
-- The packets of native/sampraknet_bridge.cpp leave the control of the connection alone.
use opensamp.Prelude.{ℕ, Bool, true, List, Option, none, some, ap, if_cases, if◌then◌else◌}
use opensamp.Prelude.Action.{Keeps}
use opensamp.World.{World, Player, set_player, emit}
use opensamp.World.Wire.{Platform, Vec, Field, rpc}
use opensamp.Bridge.Read.{Handler}
use opensamp.Bridge.Reads.{reads_keep, mark_all-Keeps}
use opensamp.Bridge.Players.{copy_name}
use opensamp.Bridge.Join.{
  on_session, answer_auth, auth_key, connection_succeeded, read_init, read_host_name, finish_init,
  init_game, connection_rejected,
}
use opensamp.Bridge.Dispatch.{on_packet}
use opensamp.Bridge.Sync.{
  player_sync, unoccupied_sync, aim_sync, vehicle_sync, bullet_sync, mark, markers_sync, run_on,
}
use opensamp.Bridge.Control.{
  Control, Controlled, Later, same, risen, lift-Later, copy_name-Controlled, rpc-Controlled,
  control_rules, set_player-Controlled, send-Controlled, if-Controlled,
}

module _ (p : Platform) (c : Control) where
  pub read_init-Controlled : Keeps (Controlled c) (read_init p)
  unfolding read_init
  read_init-Controlled = search (control_rules) depth 40

  pub read_host_name-Controlled : (len : ℕ) → Keeps (Controlled c) (read_host_name p len)
  unfolding read_host_name
  read_host_name-Controlled len = search (control_rules) depth 40

  pub finish_init-Controlled : (id : ℕ) → (lag : Bool) → Keeps (Controlled c) (finish_init p id lag)
  unfolding finish_init
  finish_init-Controlled id lag =
      search (control_rules, if-Controlled, read_host_name-Controlled) depth 40

  pub init_game-Controlled : Keeps (Controlled c) (init_game p)
  unfolding init_game
  init_game-Controlled =
      search (control_rules, if-Controlled, read_init-Controlled, finish_init-Controlled) depth 40

  set_player-Later :
      (id : ℕ) (f : Player → Player) (w : World) → Later c w → Later c (set_player id f w)
  set_player-Later id f w = lift-Later w _ (λ d. set_player-Controlled id f w)

  copy_name-Later : (id : ℕ) (name : List ℕ) (w : World) → Later c w → Later c (copy_name id name w)
  copy_name-Later id name w = lift-Later w _ (λ d. copy_name-Controlled id name w)

  rpc-Later : (id : ℕ) (b : List Field) (w : World) → Later c w → Later c (emit (rpc id b) w)
  rpc-Later id b w = lift-Later w _ (λ d. rpc-Controlled id b w)

  my_id-Later :
      (id : ℕ) (w : World) → Later c w → Later c (on_session (λ s. record s { my_id = some id }) w)
  my_id-Later id w = lift-Later w _ (λ d e. e)

  connected-Later :
      (w : World) → Later c w → Later c (on_session (λ s. record s { connected = true }) w)
  connected-Later w (same e) = risen (ap (λ (d : Control). record d { connected = true }) e)
  connected-Later w (risen e) = risen (ap (λ (d : Control). record d { connected = true }) e)

  connection_succeeded-Later : Keeps (Later c) (connection_succeeded p)
  unfolding connection_succeeded
  connection_succeeded-Later =
      search
        (reads_keep, set_player-Later, copy_name-Later, rpc-Later, my_id-Later, connected-Later)
        depth 40

  pub connection_rejected-Controlled : Keeps (Controlled c) (connection_rejected p)
  unfolding connection_rejected
  connection_rejected-Controlled = search (control_rules) depth 40

  pub player_sync-Controlled : Keeps (Controlled c) (player_sync p)
  unfolding player_sync
  player_sync-Controlled = search (reads_keep, set_player-Controlled) depth 30

  pub unoccupied_sync-Controlled : Keeps (Controlled c) (unoccupied_sync p)
  unfolding unoccupied_sync
  unoccupied_sync-Controlled = search (reads_keep, set_player-Controlled) depth 30

  pub aim_sync-Controlled : Keeps (Controlled c) (aim_sync p)
  unfolding aim_sync
  aim_sync-Controlled = search (reads_keep, set_player-Controlled) depth 30

  pub vehicle_sync-Controlled : Keeps (Controlled c) (vehicle_sync p)
  unfolding vehicle_sync
  vehicle_sync-Controlled = search (reads_keep, set_player-Controlled) depth 30

  pub bullet_sync-Controlled : Keeps (Controlled c) (bullet_sync p)
  unfolding bullet_sync
  bullet_sync-Controlled = search (reads_keep, set_player-Controlled) depth 30

  pub mark-Controlled :
      (id : ℕ) (active : Bool) (before : Vec) → Keeps (Controlled c) (mark p id active before)
  unfolding mark
  mark-Controlled id active before = search (reads_keep, set_player-Controlled) depth 30

  pub markers_sync-Controlled : Keeps (Controlled c) (markers_sync p)
  unfolding markers_sync
  markers_sync-Controlled = search (reads_keep, mark_all-Keeps, mark-Controlled) depth 30

  answer_auth-Controlled :
      (key : Option (List ℕ)) (w : World) → Controlled c w → Controlled c (answer_auth key w)
  unfolding answer_auth
  answer_auth-Controlled none w h = h
  answer_auth-Controlled (some key) w h = send-Controlled _ w h

  run_on-Later :
      (h : Handler p Unit) (bytes : List ℕ) (w : World)
      → Keeps (Later c) h
      → Later c w
      → Later c (run_on p h bytes w)
  unfolding run_on
  run_on-Later h bytes w k e = k.at w _ e

  if-Later : (b : Bool) (v w : World) → Later c v → Later c w → Later c (if b then v else w)
  if-Later b v w h k = if_cases (Later c) b (λ e. h) (λ e. k)

module _ (p : Platform) (c : Control) where
  late :
      {A : Type 0} (m : Handler p A) → ((d : Control) → Keeps (Controlled d) m) → Keeps (Later c) m
  late m k = record { at = λ w t. lift-Later w _ (λ d. (k d).at w t) }

  auth_key-Later : (bytes : List ℕ) (w : World) → Later c w → Later c (auth_key p bytes w)
  unfolding auth_key
  auth_key-Later bytes w = lift-Later w _ (λ d. answer_auth-Controlled p d _ w)

  pub on_packet-Later :
      (id : ℕ) (bytes : List ℕ) (w : World) → Later c w → Later c (on_packet p id bytes w)
  unfolding on_packet
  on_packet-Later id bytes w h =
      search
        (
          if-Later, run_on-Later, late, auth_key-Later, connection_succeeded-Later,
          player_sync-Controlled, vehicle_sync-Controlled, aim_sync-Controlled,
          unoccupied_sync-Controlled, markers_sync-Controlled, bullet_sync-Controlled,
        )
        depth 12
