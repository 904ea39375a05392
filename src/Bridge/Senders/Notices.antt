-- ===== src/Bridge/Senders/Notices.antt =====
-- The notifications of native/sampraknet_bridge.cpp, the sync of a spectator, and the count of the
-- players who are there.
use opensamp.Prelude.{ℕ, zero, suc, ◌+◌, Bool, false, List, [], ◌∷◌, if◌then◌else◌}
use opensamp.World.{World, Player, max_players, set_player, emit}
use opensamp.World.Wire.{Vec, Field, u8, u16, u32, rpc, send}
use opensamp.Bridge.Senders.{Clock, my_index, aim_ahead, send_aim}

-- The first entries of the player table, as many as told, counted as getPlayerCount does.
abbrev count_below : ℕ → (ℕ → Player) → ℕ
count_below zero players = 0
count_below (suc n) players =
    let rest = count_below n players in if (players n).is_connected then rest + 1 else rest

unfoldable pub get_player_count : World → ℕ
get_player_count w = count_below max_players w.players

unfoldable pub send_wasted_notification : ℕ → ℕ → World → World
send_wasted_notification reason responsible = emit (rpc 53 (u8 reason ∷ u16 responsible ∷ []))

unfoldable pub send_damage_vehicle : ℕ → ℕ → ℕ → ℕ → ℕ → World → World
send_damage_vehicle id panel door lights tires =
    emit (rpc 106 (u16 id ∷ u32 panel ∷ u32 door ∷ u8 lights ∷ u8 tires ∷ []))

unfoldable pub send_enter_vehicle_notification : ℕ → Bool → World → World
send_enter_vehicle_notification id passenger =
    emit (rpc 26 (u16 id ∷ u8 (if passenger then 1 else 0) ∷ []))

unfoldable pub send_exit_vehicle_notification : ℕ → World → World
send_exit_vehicle_notification id = emit (rpc 154 (u16 id ∷ []))

-- SPECTATOR_SYNC_DATA as spectatorUpdate fills it: the keys are zero.
abbrev spectator_fields : Vec → List Field
spectator_fields at = u16 0 ∷ u16 0 ∷ u16 0 ∷ u32 at.x ∷ u32 at.y ∷ u32 at.z ∷ []

unfoldable pub send_spectator_data : List Field → World → World
send_spectator_data fields = emit (send (u8 212 ∷ fields))

-- The aim goes ahead from the position, and its sync keeps to its own rate.
unfoldable pub spectator_update : Clock → World → World
spectator_update t w =
    let w' = send_spectator_data (spectator_fields w.pos) w in
    send_aim t 0 false
      (set_player (my_index w') (λ q. record q { aim = aim_ahead w'.pos q.aim }) w')
