-- ===== src/NetGame/Invariant.antt =====
-- CNetGame of native/net/netgame.cpp: what holds of its state and the bridge's after each call.
use opensamp.Prelude.{
  ℕ, ◌≡◌, refl, ap, ◌∙◌, sym, Bool, true, false, ◌&&◌, ◌||◌, not, List, Option, if_cases, arith,
  if◌then◌else◌, ltb, some,
}
use mathlib.Core.Path.{subst}
use opensamp.Prelude.Bytes.{c_str}
use opensamp.World.{World, emit, set_player}
use opensamp.World.Wire.{Platform}
use opensamp.Bridge.Join.{reset_pools}
use opensamp.Bridge.Session as Bridge
use opensamp.Bridge.Session.{Frame, request_connect, end_session}
use opensamp.Bridge.Session.Dial.{
  Dialing, dialing, tick-dialing, initialize-dialing, dial-initialized,
}
use opensamp.NetGame.Transition.{transition_to-state, transition_to-initialized}
use opensamp.NetGame.{
  NetGame, NetState, none, connecting, await_join, connected, disconnected, restarting, is, App,
  ServerAddress, transition_to, initialize, disconnect, shutdown, connect_up, connect, tick_state,
  ms_in_state, in_progress,
}

-- A state that waits for InitGame or that is joined has the bridge connected; no state is
-- Restarting.
abbrev pub Live : NetState → Bool → Type 0
Live none b = Unit
Live connecting b = Unit
Live await_join b = b ≡ true
Live connected b = b ≡ true
Live disconnected b = Unit
Live restarting b = ⊥

-- An initialized game has its bridge initialized, and its state is one that the bridge bears out.
pub record Synced (a : App) : Type 0 where
  pub up : a.0.initialized ≡ true → a.1.initialized ≡ true
  pub live : Live a.0.state a.1.connected

at_state :
    (now : ℕ) (s : NetState) (g : NetGame) (b : Bool)
    → Live s b
    → Live (transition_to now s g).state b
at_state now s g b h = subst (λ t. Live t b) (sym (transition_to-state now s g)) h

end_session-initialized : (w : World) → (end_session w).initialized ≡ w.initialized
unfolding end_session emit
end_session-initialized w =
    if_cases (λ (v : World). v.initialized ≡ w.initialized) w.initialized
      (λ e.
        if_cases (λ (v : World). v.initialized ≡ w.initialized)
          (w.connected || w.connection_requested) (λ c. refl) (λ c. refl))
      (λ e. refl)

initialize-connected :
    (made : Bool) (w : World) → (Bridge.initialize made w).1.connected ≡ w.connected
unfolding Bridge.initialize reset_pools set_player
initialize-connected made w =
    if_cases (λ (r : Bool × World). r.1.connected ≡ w.connected) w.initialized (λ e. refl)
      λ e. if_cases (λ (r : Bool × World). r.1.connected ≡ w.connected) made (λ i. refl) (λ i. refl)

request_connect-initialized :
    (made : Bool) (host nickname : List ℕ) (port : ℕ) (password : Option (List ℕ)) (w : World)
    → w.initialized ≡ true
    → ((request_connect made (some host) port (some nickname) password w).0 ≡ true)
      × ((request_connect made (some host) port (some nickname) password w).1.initialized ≡ true)
unfolding request_connect Bridge.initialize Bridge.connect_to Bridge.queue_connect
request_connect-initialized made host nickname port password w e =
    if_cases
      (λ (r : Bool × World).
        let q =
          if r.0
          then Bridge.connect_to (some host) port (some nickname) password r.1
          else (false, r.1) in
        (q.0 ≡ true) × (q.1.initialized ≡ true))
      w.initialized (λ i. (refl, e)) (λ i. cc)

pub tick-initialized :
    (p : Platform) (f : Frame) (w : World)
    → w.initialized ≡ true
    → (Bridge.tick p f w).initialized ≡ true
tick-initialized p f w e =
    ap (λ (d : Dialing). d.initialized) (tick-dialing p f w e) ∙ dial-initialized (dialing w) ∙ e

pub initialize-Synced :
    (made : Bool) (now : ℕ) (g : NetGame) (w : World)
    → Synced (g, w)
    → Synced (initialize made now (g, w))
unfolding initialize
initialize-Synced made now g w h =
    if_cases Synced g.initialized (λ e. h)
      λ e.
        if_cases Synced (Bridge.initialize made w).0
          (λ u. record { up = λ i. (initialize-dialing made w u).0; live = tt })
          (λ u. record {
            up = λ i. cc;
            live = subst (Live g.state) (sym (initialize-connected made w)) h.live;
          })

pub disconnect-Synced :
    (now : ℕ) (g : NetGame) (w : World) → Synced (g, w) → Synced (disconnect now (g, w))
unfolding disconnect
disconnect-Synced now g w h =
    if_cases Synced (is g.state none || is g.state disconnected) (λ e. h)
      λ e. record {
        up = λ i.
            end_session-initialized w
            ∙ h.up (sym (transition_to-initialized now disconnected g) ∙ i);
        live = at_state now disconnected g (end_session w).connected tt;
      }

bridge_shutdown-initialized : (w : World) → (Bridge.shutdown w).initialized ≡ false
unfolding Bridge.shutdown emit
bridge_shutdown-initialized w =
    if_cases (λ (v : World). v.initialized ≡ false) w.initialized (λ e. refl) (λ e. e)

-- A game without a session.
rests : (s : NetState) (b : Bool) → (is s none || is s disconnected) ≡ true → Live s b
rests none b i = tt
rests connecting b i = cc
rests await_join b i = cc
rests connected b i = cc
rests disconnected b i = tt
rests restarting b i = cc

disconnect-rests :
    (now : ℕ) (g : NetGame) (w : World) (b : Bool) → Live (disconnect now (g, w)).0.state b
unfolding disconnect
disconnect-rests now g w b =
    if_cases (λ (a : App). Live a.0.state b) (is g.state none || is g.state disconnected)
      (λ e. rests g.state b e) (λ e. at_state now disconnected g b tt)

pub shutdown-Synced :
    (now : ℕ) (g : NetGame) (w : World) → Synced (g, w) → Synced (shutdown now (g, w))
unfolding shutdown
shutdown-Synced now g w h =
    if_cases Synced g.initialized
      (λ e.
        if_cases (λ (a : App). Synced (record a.0 { initialized = false }, Bridge.shutdown a.1))
          (not (is g.state none) && not (is g.state disconnected))
          (λ i. closed (disconnect now (g, w)) (disconnect-rests now g w))
          (λ i. closed (g, w) (λ b. rests g.state b (ground arith))))
      (λ e. h)
  where
    closed :
        (a : App)
        → ((b : Bool) → Live a.0.state b)
        → Synced (record a.0 { initialized = false }, Bridge.shutdown a.1)
    closed a k = record { up = λ i. cc; live = k _ }

connect_up-Synced :
    (made : Bool) (now : ℕ) (address : ServerAddress) (nickname : List ℕ) (g : NetGame) (w : World)
    → w.initialized ≡ true
    → Synced (connect_up made now address nickname (g, w))
unfolding connect_up
connect_up-Synced made now address nickname g w e =
    let g' = record g { server = address; nickname = nickname } in
    let w' = if in_progress g.state then end_session w else w in
    let r =
      request_connect made (some (c_str address.host)) address.port (some (c_str nickname))
        (some (c_str address.password)) w' in
    let up' : r.1.initialized ≡ true =
      (request_connect-initialized made _ _ _ _ w' (
        if_cases (λ (v : World). v.initialized ≡ true) (in_progress g.state)
          (λ i. end_session-initialized w ∙ e) (λ i. e))).1 in
    record {
      up = λ i. up';
      live =
          if_cases (λ (k : NetGame). Live k.state r.1.connected) r.0
            (λ i. at_state now connecting g' r.1.connected tt)
            (λ i. at_state now disconnected g' r.1.connected tt);
    }

pub connect-Synced :
    (made : Bool) (now : ℕ) (address : ServerAddress) (nickname : List ℕ) (g : NetGame) (w : World)
    → Synced (g, w)
    → Synced (connect made now address nickname (g, w))
unfolding connect
connect-Synced made now address nickname g w h =
    let a = if g.initialized then (g, w) else initialize made now (g, w) in
    let k : Synced a =
      if_cases Synced g.initialized (λ e. h) (λ e. initialize-Synced made now g w h) in
    if_cases Synced a.0.initialized
      (λ e. connect_up-Synced made now address nickname a.0 a.1 (k.up e)) (λ e. k)

pub tick_state-Synced :
    (test now : ℕ) (s : NetState) (g : NetGame) (w : World)
    → g.state ≡ s
    → Synced (g, w)
    → Synced (tick_state test now s (g, w))
unfolding tick_state
tick_state-Synced test now none g w e h = h
tick_state-Synced test now connecting g w e h =
    if_cases (λ k. Synced (k, w)) w.connected
      (λ c. record {
        up = λ i. h.up (sym (transition_to-initialized now await_join g) ∙ i);
        live = at_state now await_join g w.connected c;
      })
      (λ c. h)
tick_state-Synced test now await_join g w e h =
    if_cases Synced w.game_inited
      (λ c. record {
        up = λ i. h.up (sym (transition_to-initialized now connected g) ∙ i);
        live = at_state now connected g w.connected (subst (λ s. Live s w.connected) e h.live);
      })
      λ c.
        if_cases Synced (ltb 20000 (ms_in_state test g)) (λ l. disconnect-Synced now g w h) (λ l. h)
tick_state-Synced test now connected g w e h =
    if_cases (λ k. Synced (k, w)) w.connected (λ c. h)
      (λ c. record {
        up = λ i. h.up (sym (transition_to-initialized now disconnected g) ∙ i);
        live = at_state now disconnected g w.connected tt;
      })
tick_state-Synced test now disconnected g w e h = h
tick_state-Synced test now restarting g w e h = h
