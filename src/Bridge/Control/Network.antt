-- ===== src/Bridge/Control/Network.antt =====
-- Whatever UpdateNetwork of native/sampraknet_bridge.cpp receives, it leaves the control of the
-- connection alone.
use opensamp.Prelude.{
  ℕ, ◌≡◌, List, [], ◌∷◌, Option, none, some, ltb, inl, inr, Option-cases, ◌==◌, if_cases,
}
use mathlib.Core.Option
use mathlib.Core.Option.{some-injective}
use mathlib.Core.Path.{subst}
use opensamp.Prelude.Action.{Keeps, Keeps-if}
use opensamp.World.{World}
use opensamp.World.Wire.{Platform}
use opensamp.Bridge.Reads.{score_entries-Keeps}
use opensamp.Bridge.Call.{when_inited, on_call, on_exact_call, Parameters}
use opensamp.Bridge.Players.{
  server_join, server_quit, world_player_add, world_player_remove, update_scores, set_player_name,
  show_client_message, show_chat,
}
use opensamp.Bridge.Dispatch.{
  on_packet, handler_of, on_rpc, Event, packet, call, packet_id, on_event,
}
use opensamp.Bridge.Control.{Control, Controlled, Later, lift-Later, control_rules, rpc-Controlled}
use opensamp.Bridge.Control.Scenes.{scene_handler-Controlled}
use opensamp.Bridge.Control.Packets.{
  connection_rejected-Controlled, init_game-Controlled, on_packet-Later,
}
use opensamp.Bridge.Dispatch.{update_network, ask_scores}
use opensamp.Bridge.Senders.{sub32}

module _ (p : Platform) (c : Control) where
  pub server_join-Controlled : Keeps (Controlled c) (server_join p)
  unfolding server_join when_inited
  server_join-Controlled = search (control_rules) depth 40

  pub server_quit-Controlled : Keeps (Controlled c) (server_quit p)
  unfolding server_quit when_inited
  server_quit-Controlled = search (control_rules) depth 40

  pub world_player_add-Controlled : Keeps (Controlled c) (world_player_add p)
  unfolding world_player_add when_inited
  world_player_add-Controlled = search (control_rules) depth 40

  pub world_player_remove-Controlled : Keeps (Controlled c) (world_player_remove p)
  unfolding world_player_remove when_inited
  world_player_remove-Controlled = search (control_rules) depth 40

  pub set_player_name-Controlled : Keeps (Controlled c) (set_player_name p)
  unfolding set_player_name when_inited
  set_player_name-Controlled = search (control_rules) depth 40

  pub show_client_message-Controlled : Keeps (Controlled c) (show_client_message p)
  unfolding show_client_message when_inited
  show_client_message-Controlled = search (control_rules) depth 40

  pub show_chat-Controlled : Keeps (Controlled c) (show_chat p)
  unfolding show_chat when_inited
  show_chat-Controlled = search (control_rules) depth 40

  pub update_scores-Controlled : (bits : ℕ) → Keeps (Controlled c) (update_scores p bits)
  unfolding update_scores when_inited
  update_scores-Controlled bits =
      search (control_rules, rpc-Controlled, score_entries-Keeps) depth 40

  handler_of-Controlled : (id bits : ℕ) → Keeps (Controlled c) (handler_of p id bits)
  unfolding handler_of
  handler_of-Controlled id bits =
      search
        (
          Keeps-if, scene_handler-Controlled, connection_rejected-Controlled,
          server_join-Controlled, server_quit-Controlled, world_player_add-Controlled,
          world_player_remove-Controlled, set_player_name-Controlled,
          show_client_message-Controlled, show_chat-Controlled, update_scores-Controlled,
        )
        depth 24

  on_rpc-Controlled :
      (id : ℕ) (q : Parameters) (w : World) → Controlled c w → Controlled c (on_rpc p id q w)
  unfolding on_rpc on_call on_exact_call
  on_rpc-Controlled id q w h =
      if_cases (Controlled c) (id == 139) (λ e. (init_game-Controlled p c).at w _ h)
        (λ e. (handler_of-Controlled id q.bits).at w _ h)

  pub ask_scores-Controlled :
      (test stamp : ℕ) (w : World) → Controlled c w → Controlled c (ask_scores test stamp w)
  unfolding ask_scores
  ask_scores-Controlled test stamp w h =
      if_cases (Controlled c) (ltb 3000 (sub32 test w.last_scores_tick))
        (λ e. rpc-Controlled 155 [] _ h) (λ e. h)

module _ (p : Platform) (c : Control) where
  on_event-Later : (e : Event) (w w' : World) → on_event p e w ≡ some w' → Later c w → Later c w'
  unfolding on_event
  on_event-Later (packet bytes) w w' e h = at_id (packet_id bytes) e
    where
      at_id : (o : Option ℕ) → Option.map (λ id. on_packet p id bytes w) o ≡ some w' → Later c w'
      at_id none e = cc
      at_id (some id) e = subst (Later c) (some-injective _ _ e) (on_packet-Later p c id bytes w h)
  on_event-Later (call id q) w w' e h =
      subst (Later c) (some-injective _ _ e) (lift-Later w _ (λ d. on_rpc-Controlled p d id q w) h)

  -- Whatever arrives, in whatever order, neither the stage of the automatic spawn nor the queued
  -- request to connect changes, no connect is issued, and a connection that is up stays up.
  pub update_network-Later :
      (test stamp : ℕ) (es : List Event) (w : World)
      → Later c w
      → Later c (update_network p test stamp es w)
  unfolding update_network
  update_network-Later test stamp [] w h =
      lift-Later w _ (λ d. ask_scores-Controlled p d test stamp w) h
  update_network-Later test stamp (e ∷ es) w h = elim (Option-cases (on_event p e w)) [
    | inl q ↦ rw (q, update_network) h
    | inr (w', q) ↦
        rw (q, update_network) (update_network-Later test stamp es w' (on_event-Later e w w' q h))
  ]
