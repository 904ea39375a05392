-- ===== src/NetGame.antt =====
-- CNetGame of native/net/netgame.cpp and netgame.h: the state machine of the networked game, over
-- the bridge whose calls it makes. Its lines for the log are left out.
pub mod History
pub mod Invariant
pub mod Timeout
pub mod Transition
use opensamp.Prelude.{
  ℕ, Bool, true, false, ◌&&◌, ◌||◌, not, List, [], Option, some, ltb, ◌==◌, if◌then◌else◌,
}
use opensamp.Prelude.Bytes.{c_str}
use opensamp.World.{World}
use opensamp.World.Wire.{Platform}
use opensamp.Bridge.Senders.{sub32}
use opensamp.Bridge.Session as Bridge
use opensamp.Bridge.Session.{Frame, request_connect, end_session}

-- enum class NetState.
pub data NetState : Type 0 where
  none connecting await_join connected disconnected restarting : NetState

abbrev pub number : NetState → ℕ
number none = 0
number connecting = 1
number await_join = 2
number connected = 3
number disconnected = 4
number restarting = 5

abbrev pub is : NetState → NetState → Bool
is s t = number s == number t

-- ServerAddress.
pub record ServerAddress : Type 0 where
  pub host : List ℕ
  pub port : ℕ
  pub password : List ℕ

-- The members of CNetGame.
pub record NetGame : Type 0 where
  pub state : NetState
  pub server : ServerAddress
  pub nickname : List ℕ
  pub initialized : Bool
  pub state_enter_ms : ℕ

abbrev pub initial : NetGame
initial = record {
  state = none;
  server = record { host = []; port = 7777; password = [] };
  nickname = [];
  initialized = false;
  state_enter_ms = 0;
}

-- The game and the bridge.
abbrev pub App : Type 0
App = NetGame × World

abbrev await_join_timeout_ms : ℕ
await_join_timeout_ms = 20000

-- CNetGame::TransitionTo. OnExit and OnEnter do nothing.
unfoldable pub transition_to : ℕ → NetState → NetGame → NetGame
transition_to now s g = if is s g.state then g else record g { state = s; state_enter_ms = now }

-- CNetGame::MsInState.
abbrev pub ms_in_state : ℕ → NetGame → ℕ
ms_in_state now g = sub32 now g.state_enter_ms

-- CNetGame::Initialize. `made` is whether the factory gave the bridge a client.
unfoldable pub initialize : Bool → ℕ → App → App
initialize made now (g, w) =
    if g.initialized
    then (g, w)
    else (let (up, w') = Bridge.initialize made w in
        if up
        then (record g { initialized = true; state = none; state_enter_ms = now }, w')
        else (g, w'))

-- CNetGame::Disconnect.
unfoldable pub disconnect : ℕ → App → App
disconnect now (g, w) =
    if is g.state none || is g.state disconnected
    then (g, w)
    else (transition_to now disconnected g, end_session w)

-- CNetGame::Shutdown.
unfoldable pub shutdown : ℕ → App → App
shutdown now (g, w) =
    if g.initialized
    then (let (g', w') =
          if not (is g.state none) && not (is g.state disconnected)
          then disconnect now (g, w)
          else (g, w) in
        (record g' { initialized = false }, Bridge.shutdown w'))
    else (g, w)

-- A session that is under way.
abbrev pub in_progress : NetState → Bool
in_progress s = is s connecting || is s await_join || is s connected || is s restarting

-- CNetGame::Connect, behind its two tests of m_initialized.
unfoldable pub connect_up : Bool → ℕ → ServerAddress → List ℕ → App → App
connect_up made now address nickname (g, w) =
    let g' = record g { server = address; nickname = nickname } in
    let w' = if in_progress g.state then end_session w else w in
    let (ok, w'') =
      request_connect made (some (c_str address.host)) address.port (some (c_str nickname))
        (some (c_str address.password)) w' in
    (if ok then transition_to now connecting g' else transition_to now disconnected g', w'')

-- CNetGame::Connect.
unfoldable pub connect : Bool → ℕ → ServerAddress → List ℕ → App → App
connect made now address nickname (g, w) =
    let (g', w') = if g.initialized then (g, w) else initialize made now (g, w) in
    if g'.initialized then connect_up made now address nickname (g', w') else (g', w')

-- CNetGame::TickConnecting, TickAwaitJoin, TickConnected and TickRestarting. `now` is for the
-- transition, and `test` for MsInState.
unfoldable pub tick_state : ℕ → ℕ → NetState → App → App
tick_state test now connecting (g, w) =
    (if w.connected then transition_to now await_join g else g, w)
tick_state test now await_join (g, w) =
    if w.game_inited
    then (transition_to now connected g, w)
    else if ltb await_join_timeout_ms (ms_in_state test g)
    then disconnect now (g, w)
    else (g, w)
tick_state test now connected (g, w) =
    (if w.connected then g else transition_to now disconnected g, w)
tick_state test now _ a = a

-- CNetGame::Tick.
unfoldable pub tick : Platform → Frame → ℕ → ℕ → App → App
tick p f test now (g, w) =
    if g.initialized then tick_state test now g.state (g, Bridge.tick p f w) else (g, w)
