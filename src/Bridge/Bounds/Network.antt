-- ===== src/Bridge/Bounds/Network.antt =====
-- UpdateNetwork of native/sampraknet_bridge.cpp and the player table.
use opensamp.Prelude.{
  ℕ, ◌≡◌, ◌≢◌, ap, List, [], ◌∷◌, Option, none, some, ltb, inl, inr, Option-cases, Bool, true, ◌==◌,
  ==_iff, if_cases,
}
use mathlib.Core.Option
use mathlib.Core.Option.{some-injective}
use mathlib.Core.Path.{subst}
use opensamp.Prelude.Action.{Keeps, Keeps-if}
use opensamp.World.{World}
use opensamp.World.Wire.{Platform, rpc}
use opensamp.Bridge.Reads.{score_entries-Keeps}
use opensamp.Bridge.Call.{when_inited, on_call, on_exact_call, Parameters}
use opensamp.Bridge.Players.{
  server_quit, world_player_add, world_player_remove, update_scores, set_player_name,
  show_client_message, show_chat,
}
use opensamp.Bridge.Join.{read_init, read_host_name, finish_init, init_game, connection_rejected}
use opensamp.Bridge.Dispatch.{
  on_packet, handler_of, on_rpc, Event, packet, call, packet_id, on_event, update_network,
  ask_scores,
}
use opensamp.Bridge.Senders.{sub32}
use opensamp.Bridge.Bounds.{InBounds, emit-Bounded, on_packet-Bounded, server_join-Bounded}
use opensamp.Bridge.Bounds.Rules.{bounds_rules}
use opensamp.Bridge.Bounds.Scenes.{scene_handler-Bounded}

module _ (p : Platform) where
  server_quit-Bounded : Keeps InBounds (server_quit p)
  unfolding server_quit when_inited
  server_quit-Bounded = search (bounds_rules) depth 40

  world_player_add-Bounded : Keeps InBounds (world_player_add p)
  unfolding world_player_add when_inited
  world_player_add-Bounded = search (bounds_rules) depth 40

  world_player_remove-Bounded : Keeps InBounds (world_player_remove p)
  unfolding world_player_remove when_inited
  world_player_remove-Bounded = search (bounds_rules) depth 40

  set_player_name-Bounded : Keeps InBounds (set_player_name p)
  unfolding set_player_name
  set_player_name-Bounded = search (bounds_rules) depth 40

  show_client_message-Bounded : Keeps InBounds (show_client_message p)
  unfolding show_client_message
  show_client_message-Bounded = search (bounds_rules) depth 40

  show_chat-Bounded : Keeps InBounds (show_chat p)
  unfolding show_chat when_inited
  show_chat-Bounded = search (bounds_rules) depth 40

  update_scores-Bounded : (bits : ℕ) → Keeps InBounds (update_scores p bits)
  unfolding update_scores when_inited
  update_scores-Bounded bits = search (bounds_rules, score_entries-Keeps) depth 40

  read_init-Bounded : Keeps InBounds (read_init p)
  unfolding read_init
  read_init-Bounded = search (bounds_rules) depth 40

  read_host_name-Bounded : (len : ℕ) → Keeps InBounds (read_host_name p len)
  unfolding read_host_name
  read_host_name-Bounded len = search (bounds_rules) depth 40

  finish_init-Bounded : (id : ℕ) → (lag : Bool) → Keeps InBounds (finish_init p id lag)
  unfolding finish_init
  finish_init-Bounded id lag = search (bounds_rules, read_host_name-Bounded) depth 40

  init_game-Bounded : Keeps InBounds (init_game p)
  unfolding init_game
  init_game-Bounded = search (bounds_rules, read_init-Bounded, finish_init-Bounded) depth 40

  -- The one handler that is left out.
  not_rejected : (id : ℕ) → id ≢ 130 → (id == 130) ≡ true → Keeps InBounds (connection_rejected p)
  not_rejected id n e = absurd (n ((==_iff id 130).0 e))

  handler_of-Bounded : (id bits : ℕ) → id ≢ 130 → Keeps InBounds (handler_of p id bits)
  unfolding handler_of
  handler_of-Bounded id bits n =
      let rejected = not_rejected id n in
      search
        (
          Keeps-if, rejected, scene_handler-Bounded, server_join-Bounded, server_quit-Bounded,
          world_player_add-Bounded, world_player_remove-Bounded, set_player_name-Bounded,
          show_client_message-Bounded, show_chat-Bounded, update_scores-Bounded,
        )
        depth 24

  on_rpc-Bounded :
      (id : ℕ) (q : Parameters) (w : World) → id ≢ 130 → InBounds w → InBounds (on_rpc p id q w)
  unfolding on_rpc on_call on_exact_call
  on_rpc-Bounded id q w n b =
      if_cases InBounds (id == 139) (λ e. init_game-Bounded.at w _ b)
        (λ e. (handler_of-Bounded id q.bits n).at w _ b)

  ask_scores-Bounded :
      (test stamp : ℕ) (w : World) → InBounds w → InBounds (ask_scores test stamp w)
  unfolding ask_scores
  ask_scores-Bounded test stamp w b =
      if_cases InBounds (ltb 3000 (sub32 test w.last_scores_tick))
        (λ e. emit-Bounded (rpc 155 []) _ b) (λ e. b)

-- Any event but the acceptance of the connection and its rejection.
abbrev pub IsOrdinary : Event → Type 0
IsOrdinary (packet bytes) = packet_id bytes ≢ some 34
IsOrdinary (call id q) = id ≢ 130

abbrev pub AllOrdinary : List Event → Type 0
AllOrdinary [] = Unit
AllOrdinary (e ∷ es) = IsOrdinary e × AllOrdinary es

module _ (p : Platform) where
  on_event-Bounded :
      (e : Event) (w w' : World)
      → IsOrdinary e
      → on_event p e w ≡ some w'
      → InBounds w
      → InBounds w'
  unfolding on_event
  on_event-Bounded (packet bytes) w w' n e b = at_id (packet_id bytes) n e
    where
      at_id :
          (o : Option ℕ)
          → o ≢ some 34
          → Option.map (λ id. on_packet p id bytes w) o ≡ some w'
          → InBounds w'
      at_id none k e = cc
      at_id (some id) k e =
          subst InBounds (some-injective _ _ e)
            (on_packet-Bounded p id bytes w (λ q. k (ap some q)) b)
  on_event-Bounded (call id q) w w' n e b =
      subst InBounds (some-injective _ _ e) (on_rpc-Bounded p id q w n b)

  -- From a world in which no write has left the player table or a name in it, and each name has its
  -- 24 bytes, whatever UpdateNetwork receives leads to such a world: any packets but the acceptance of the
  -- connection, and any RPCs but its rejection, in any order, however they are cut or forged.
  pub update_network-Bounded :
      (test stamp : ℕ) (es : List Event) (w : World)
      → AllOrdinary es
      → InBounds w
      → InBounds (update_network p test stamp es w)
  unfolding update_network
  update_network-Bounded test stamp [] w n b = ask_scores-Bounded p test stamp w b
  update_network-Bounded test stamp (e ∷ es) w n b = elim (Option-cases (on_event p e w)) [
    | inl q ↦ rw (q, update_network) b
    | inr (w', q) ↦
        rw (q, update_network)
          (update_network-Bounded test stamp es w' n.1 (on_event-Bounded e w w' n.0 q b))
  ]
