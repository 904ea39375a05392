-- ===== src/Examples/Notices.antt =====
-- The notifications of native/sampraknet_bridge.cpp, run one after the other.
use opensamp.Prelude.{◌≡◌, refl, true, [], ◌∷◌, ◌++◌}
use opensamp.World.{set_player, emit}
use opensamp.World.Wire.{u8, u16, u32, rpc, send}
use opensamp.Bridge.Senders.Notices.{
  get_player_count, send_wasted_notification, send_damage_vehicle, send_enter_vehicle_notification,
  send_exit_vehicle_notification, send_spectator_data, spectator_update,
}
use opensamp.Bridge.Senders.{send_aim}
use opensamp.Examples.{started, joined}

notices_run :
    (send_exit_vehicle_notification 9 (
      send_enter_vehicle_notification 9 true (
        send_damage_vehicle 9 1 2 3 4
          (send_wasted_notification 51 0xffff (send_spectator_data [] started))))).sent
    ≡ send (u8 212 ∷ [])
      ∷ rpc 53 (u8 51 ∷ u16 0xffff ∷ [])
      ∷ rpc 106 (u16 9 ∷ u32 1 ∷ u32 2 ∷ u8 3 ∷ u8 4 ∷ [])
      ∷ rpc 26 (u16 9 ∷ u8 1 ∷ [])
      ∷ rpc 154 (u16 9 ∷ [])
      ∷ []
unfolding send_exit_vehicle_notification send_enter_vehicle_notification send_damage_vehicle
    send_wasted_notification send_spectator_data emit
notices_run = refl

-- Two players are there, one of them in the last entry.
counted_run :
    get_player_count (
      set_player 999
        (λ q. record q { is_connected = true })
        (set_player 3 (λ q. record q { is_connected = true }) started))
    ≡ 2
unfolding get_player_count set_player
counted_run = refl

-- The clock has not been read for the aim before, so only the packet of the spectator is sent.
spectator_run :
    (spectator_update (record { test = 5000; stamp = 5000 }) joined).sent
    ≡ joined.sent
      ++ send (
          u8 212
          ∷ u16 0
          ∷ u16 0
          ∷ u16 0
          ∷ u32 joined.pos.x
          ∷ u32 joined.pos.y
          ∷ u32 joined.pos.z
          ∷ [])
        ∷ []
unfolding spectator_update send_spectator_data send_aim set_player emit
spectator_run = refl
