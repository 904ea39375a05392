-- ===== src/Bridge/Control/Locals.antt =====
-- The RPC handlers for the local player in native/sampraknet_bridge.cpp leave the control of the
-- connection alone.
use opensamp.Prelude.{ℕ, Bool, true, false, if◌then◌else◌}
use opensamp.Prelude.Action.{Keeps, Keeps-pure, Keeps-if}
use opensamp.World.{World, set_model, call_engine}
use opensamp.World.Wire.{Platform}
use opensamp.Bridge.Local.{
  wear, set_player_pos, set_facing_angle, set_spawn_info, request_class, set_player_health,
  set_player_armour, set_player_skin, set_player_interior, set_drunk_level, have_some_money,
  reset_money, give_weapon, reset_weapons, set_pos_find_z, put_in_vehicle, remove_from_vehicle,
  toggle_spectating, game_mode_restart,
}
use opensamp.Bridge.Dispatch.{local_handler}
use opensamp.Bridge.Control.{
  Control, Controlled, control_rules, call_engine-Controlled, with_ped-Controlled,
}

module _ (p : Platform) (c : Control) where
  pub wear-Controlled : (skin : ℕ) (w : World) → Controlled c w → Controlled c (wear p skin w)
  unfolding wear
  wear-Controlled skin w h = with_ped-Controlled _ _ (λ v k. fit (p.model_loads skin) v k) h
    where
      fit :
          (b : Bool) (v : World)
          → Controlled c v
          → Controlled c ((if b then call_engine (set_model skin) else (λ w. w)) v)
      fit true v k = call_engine-Controlled _ v k
      fit false v k = k

  pub set_player_pos-Controlled : Keeps (Controlled c) (set_player_pos p)
  unfolding set_player_pos
  set_player_pos-Controlled = search (control_rules) depth 40

  pub set_facing_angle-Controlled : Keeps (Controlled c) (set_facing_angle p)
  unfolding set_facing_angle
  set_facing_angle-Controlled = search (control_rules) depth 40

  pub set_spawn_info-Controlled : Keeps (Controlled c) (set_spawn_info p)
  unfolding set_spawn_info
  set_spawn_info-Controlled = search (control_rules) depth 40

  pub request_class-Controlled : Keeps (Controlled c) (request_class p)
  unfolding request_class
  request_class-Controlled = search (control_rules) depth 40

  pub set_player_health-Controlled : Keeps (Controlled c) (set_player_health p)
  unfolding set_player_health
  set_player_health-Controlled = search (control_rules) depth 40

  pub set_player_armour-Controlled : Keeps (Controlled c) (set_player_armour p)
  unfolding set_player_armour
  set_player_armour-Controlled = search (control_rules) depth 40

  pub set_player_skin-Controlled : Keeps (Controlled c) (set_player_skin p)
  unfolding set_player_skin
  set_player_skin-Controlled = search (control_rules, wear-Controlled) depth 40

  pub set_player_interior-Controlled : Keeps (Controlled c) (set_player_interior p)
  unfolding set_player_interior
  set_player_interior-Controlled = search (control_rules) depth 40

  pub set_drunk_level-Controlled : Keeps (Controlled c) (set_drunk_level p)
  unfolding set_drunk_level
  set_drunk_level-Controlled = search (control_rules) depth 40

  pub have_some_money-Controlled : Keeps (Controlled c) (have_some_money p)
  unfolding have_some_money
  have_some_money-Controlled = search (control_rules) depth 40

  pub reset_money-Controlled : Keeps (Controlled c) (reset_money p)
  unfolding reset_money
  reset_money-Controlled = search (control_rules) depth 40

  pub give_weapon-Controlled : Keeps (Controlled c) (give_weapon p)
  unfolding give_weapon
  give_weapon-Controlled = search (control_rules) depth 40

  pub reset_weapons-Controlled : Keeps (Controlled c) (reset_weapons p)
  unfolding reset_weapons
  reset_weapons-Controlled = search (control_rules) depth 40

  pub set_pos_find_z-Controlled : Keeps (Controlled c) (set_pos_find_z p)
  unfolding set_pos_find_z
  set_pos_find_z-Controlled = search (control_rules) depth 40

  pub put_in_vehicle-Controlled : Keeps (Controlled c) (put_in_vehicle p)
  unfolding put_in_vehicle
  put_in_vehicle-Controlled = search (control_rules) depth 40

  pub remove_from_vehicle-Controlled : Keeps (Controlled c) (remove_from_vehicle p)
  unfolding remove_from_vehicle
  remove_from_vehicle-Controlled = search (control_rules) depth 40

  pub toggle_spectating-Controlled : Keeps (Controlled c) (toggle_spectating p)
  unfolding toggle_spectating
  toggle_spectating-Controlled = search (control_rules) depth 40

  pub game_mode_restart-Controlled : Keeps (Controlled c) (game_mode_restart p)
  unfolding game_mode_restart
  game_mode_restart-Controlled = search (control_rules) depth 40

  pub local_handler-Controlled : (id : ℕ) → Keeps (Controlled c) (local_handler p id)
  unfolding local_handler
  local_handler-Controlled id =
      search
        (
          Keeps-if, Keeps-pure, set_player_pos-Controlled, set_facing_angle-Controlled,
          set_spawn_info-Controlled, request_class-Controlled, set_player_health-Controlled,
          set_player_armour-Controlled, set_player_skin-Controlled, set_player_interior-Controlled,
          set_drunk_level-Controlled, have_some_money-Controlled, reset_money-Controlled,
          give_weapon-Controlled, reset_weapons-Controlled, set_pos_find_z-Controlled,
          put_in_vehicle-Controlled, remove_from_vehicle-Controlled, toggle_spectating-Controlled,
          game_mode_restart-Controlled,
        )
        depth 24
