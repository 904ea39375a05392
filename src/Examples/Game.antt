-- ===== src/Examples/Game.antt =====
-- The theorems on native/net/netgame.cpp at concrete inputs.
use opensamp.Prelude.{ℕ, false, ◌+◌, ◌%◌, ◌^◌, ◌≡◌, refl, true, List, [], ◌∷◌, arith}
use opensamp.Bridge.Session as Bridge
use opensamp.Bridge.Session.{Frame}
use opensamp.NetGame as NetGame
use opensamp.NetGame.{
  App, NetGame, await_join, connecting, connected, disconnected, ServerAddress, tick,
}
use opensamp.Bridge.Session.Stages.{ticks-connected}
use opensamp.World.{World}
use opensamp.Bridge.Dispatch.{update_network, ask_scores}
use opensamp.NetGame.Invariant.{Synced}
use opensamp.NetGame.History.{
  Op, initialized, ticked, connects, disconnects, perform_all, perform_all-Synced,
}
use opensamp.NetGame.Timeout.{play, bridge_after, outcome, aftermath, join-outcome}
use opensamp.Examples.{quiet, started, joined, frame, accepted}

abbrev fresh : App
fresh = (NetGame.initial, started)

fresh-Synced : Synced fresh
fresh-Synced = record { up = λ i. refl; live = tt }

abbrev calls : List Op
calls =
    initialized true 10
    ∷ connects true 20 (record { host = b'h' ∷ []; port = 7777; password = [] }) (b'n' ∷ [])
    ∷ ticked (frame 30 (accepted ∷ [])) 31 32
    ∷ disconnects 50
    ∷ []

perform_all-Synced_example : Synced (perform_all quiet calls fresh)
perform_all-Synced_example = perform_all-Synced quiet calls fresh fresh-Synced

abbrev playing : App
playing = (record NetGame.initial { state = connected; initialized = true }, joined)

abbrev dialled : NetGame
dialled = record NetGame.initial { state = connecting; initialized = true }

-- A tick after 15 ms that does not bring InitGame.
abbrev idle_tick : List (Frame × ℕ × ℕ)
idle_tick = (frame 115 [], 15, 116) ∷ []

abbrev lobby : World
lobby = record joined { session = record joined.session { game_inited = false } }

dialled-connected : (Bridge.tick quiet (frame 100 []) lobby).connected ≡ true
dialled-connected = ticks-connected quiet (frame 100 [] ∷ []) lobby refl

join-outcome_example :
    let waited = play quiet 100 idle_tick (tick quiet (frame 100 []) 100 100 (dialled, lobby)) in
    let a = tick quiet (frame 200 []) ((100 + 30000) % 2 ^ 32) 30200 waited in
    let w' =
      Bridge.tick quiet
        (frame 200 [])
        (bridge_after quiet idle_tick (Bridge.tick quiet (frame 100 []) lobby)) in
    (waited.0.state ≡ await_join)
    × (waited.0.state_enter_ms ≡ 100)
    × (a.0.state ≡ outcome w'.game_inited 30000)
    × (a.1 ≡ aftermath w'.game_inited 30000 w')
unfolding Bridge.tick update_network ask_scores Bridge.issue_connect Bridge.auto_spawn
    Bridge.pin_time Bridge.body_sync Bridge.spawn_step
join-outcome_example =
    join-outcome quiet (frame 100 []) (frame 200 []) idle_tick 100 100 30000 30200 dialled lobby
      refl refl dialled-connected (omega arith) (omega arith) (omega arith, refl, tt)
