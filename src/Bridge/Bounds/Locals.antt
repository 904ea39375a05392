-- ===== src/Bridge/Bounds/Locals.antt =====
-- The RPC handlers for the local player in native/sampraknet_bridge.cpp and the player table.
use opensamp.Prelude.{ℕ, Bool, true, false, if◌then◌else◌}
use opensamp.Prelude.Action.{Keeps, Keeps-pure, Keeps-if}
use opensamp.World.{World, set_model, call_engine}
use opensamp.World.Wire.{Platform}
use opensamp.Bridge.Local.{
  wear, set_player_pos, set_facing_angle, set_spawn_info, request_class, set_player_health,
  set_player_armour, set_player_skin, set_player_interior, set_drunk_level, have_some_money,
  reset_money, give_weapon, reset_weapons, set_pos_find_z, put_in_vehicle, remove_from_vehicle,
  toggle_spectating, game_mode_restart,
}
use opensamp.Bridge.Dispatch.{local_handler}
use opensamp.Bridge.Bounds.{InBounds}
use opensamp.Bridge.Bounds.Rules.{bounds_rules, call_engine-Bounded, with_ped-Bounded}

module _ (p : Platform) where
  pub wear-Bounded : (skin : ℕ) (w : World) → InBounds w → InBounds (wear p skin w)
  unfolding wear
  wear-Bounded skin w h = with_ped-Bounded _ _ (λ v k. fit (p.model_loads skin) v k) h
    where
      fit :
          (b : Bool) (v : World)
          → InBounds v
          → InBounds ((if b then call_engine (set_model skin) else (λ w. w)) v)
      fit true v k = call_engine-Bounded _ v k
      fit false v k = k

  pub set_player_pos-Bounded : Keeps InBounds (set_player_pos p)
  unfolding set_player_pos
  set_player_pos-Bounded = search (bounds_rules) depth 40

  pub set_facing_angle-Bounded : Keeps InBounds (set_facing_angle p)
  unfolding set_facing_angle
  set_facing_angle-Bounded = search (bounds_rules) depth 40

  pub set_spawn_info-Bounded : Keeps InBounds (set_spawn_info p)
  unfolding set_spawn_info
  set_spawn_info-Bounded = search (bounds_rules) depth 40

  pub request_class-Bounded : Keeps InBounds (request_class p)
  unfolding request_class
  request_class-Bounded = search (bounds_rules) depth 40

  pub set_player_health-Bounded : Keeps InBounds (set_player_health p)
  unfolding set_player_health
  set_player_health-Bounded = search (bounds_rules) depth 40

  pub set_player_armour-Bounded : Keeps InBounds (set_player_armour p)
  unfolding set_player_armour
  set_player_armour-Bounded = search (bounds_rules) depth 40

  pub set_player_skin-Bounded : Keeps InBounds (set_player_skin p)
  unfolding set_player_skin
  set_player_skin-Bounded = search (bounds_rules, wear-Bounded) depth 40

  pub set_player_interior-Bounded : Keeps InBounds (set_player_interior p)
  unfolding set_player_interior
  set_player_interior-Bounded = search (bounds_rules) depth 40

  pub set_drunk_level-Bounded : Keeps InBounds (set_drunk_level p)
  unfolding set_drunk_level
  set_drunk_level-Bounded = search (bounds_rules) depth 40

  pub have_some_money-Bounded : Keeps InBounds (have_some_money p)
  unfolding have_some_money
  have_some_money-Bounded = search (bounds_rules) depth 40

  pub reset_money-Bounded : Keeps InBounds (reset_money p)
  unfolding reset_money
  reset_money-Bounded = search (bounds_rules) depth 40

  pub give_weapon-Bounded : Keeps InBounds (give_weapon p)
  unfolding give_weapon
  give_weapon-Bounded = search (bounds_rules) depth 40

  pub reset_weapons-Bounded : Keeps InBounds (reset_weapons p)
  unfolding reset_weapons
  reset_weapons-Bounded = search (bounds_rules) depth 40

  pub set_pos_find_z-Bounded : Keeps InBounds (set_pos_find_z p)
  unfolding set_pos_find_z
  set_pos_find_z-Bounded = search (bounds_rules) depth 40

  pub put_in_vehicle-Bounded : Keeps InBounds (put_in_vehicle p)
  unfolding put_in_vehicle
  put_in_vehicle-Bounded = search (bounds_rules) depth 40

  pub remove_from_vehicle-Bounded : Keeps InBounds (remove_from_vehicle p)
  unfolding remove_from_vehicle
  remove_from_vehicle-Bounded = search (bounds_rules) depth 40

  pub toggle_spectating-Bounded : Keeps InBounds (toggle_spectating p)
  unfolding toggle_spectating
  toggle_spectating-Bounded = search (bounds_rules) depth 40

  pub game_mode_restart-Bounded : Keeps InBounds (game_mode_restart p)
  unfolding game_mode_restart
  game_mode_restart-Bounded = search (bounds_rules) depth 40

  pub local_handler-Bounded : (id : ℕ) → Keeps InBounds (local_handler p id)
  unfolding local_handler
  local_handler-Bounded id =
      search
        (
          Keeps-if, Keeps-pure, set_player_pos-Bounded, set_facing_angle-Bounded,
          set_spawn_info-Bounded, request_class-Bounded, set_player_health-Bounded,
          set_player_armour-Bounded, set_player_skin-Bounded, set_player_interior-Bounded,
          set_drunk_level-Bounded, have_some_money-Bounded, reset_money-Bounded,
          give_weapon-Bounded, reset_weapons-Bounded, set_pos_find_z-Bounded,
          put_in_vehicle-Bounded, remove_from_vehicle-Bounded, toggle_spectating-Bounded,
          game_mode_restart-Bounded,
        )
        depth 24
