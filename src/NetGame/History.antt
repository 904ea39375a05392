-- ===== src/NetGame/History.antt =====
-- CNetGame of native/net/netgame.cpp over any history of calls.
use opensamp.Prelude.{ℕ, ◌≡◌, refl, sym, Bool, true, List, [], ◌∷◌, if_cases}
use mathlib.Core.Path.{subst}
use opensamp.World.{World}
use opensamp.World.Wire.{Platform}
use opensamp.Bridge.Session as Bridge
use opensamp.Bridge.Session.{Frame}
use opensamp.Bridge.Session.Stages.{tick-connected}
use opensamp.NetGame.{
  NetGame, NetState, none, connecting, await_join, connected, disconnected, restarting, App,
  ServerAddress, initialize, disconnect, shutdown, connect, tick_state, tick,
}
use opensamp.NetGame.Invariant.{
  Live, Synced, initialize-Synced, disconnect-Synced, shutdown-Synced, connect-Synced,
  tick_state-Synced, tick-initialized,
}

Live-up : (s : NetState) (b c : Bool) → (b ≡ true → c ≡ true) → Live s b → Live s c
Live-up none b c k h = tt
Live-up connecting b c k h = tt
Live-up await_join b c k h = k h
Live-up connected b c k h = k h
Live-up disconnected b c k h = tt
Live-up restarting b c k h = h

tick-Synced :
    (p : Platform) (f : Frame) (test now : ℕ) (g : NetGame) (w : World)
    → Synced (g, w)
    → Synced (tick p f test now (g, w))
unfolding tick
tick-Synced p f test now g w h =
    if_cases Synced g.initialized
      (λ e. tick_state-Synced test now g.state g (Bridge.tick p f w) refl (record {
        up = λ i. tick-initialized p f w (h.up i);
        live = Live-up g.state _ _ (tick-connected p f w) h.live;
      }))
      (λ e. h)

-- A call of the game.
pub data Op : Type 0 where
  initialized : Bool → ℕ → Op
  ticked : Frame → ℕ → ℕ → Op
  connects : Bool → ℕ → ServerAddress → List ℕ → Op
  disconnects : ℕ → Op
  shut_down : ℕ → Op

-- Ticks only, with their readings of the clock.
abbrev pub tick_ops : List (Frame × ℕ × ℕ) → List Op
tick_ops [] = []
tick_ops ((f, test, now) ∷ fs) = ticked f test now ∷ tick_ops fs

module _ (p : Platform) where
  unfoldable pub perform : Op → App → App
  perform (initialized made now) a = initialize made now a
  perform (ticked f test now) a = tick p f test now a
  perform (connects made now address nickname) a = connect made now address nickname a
  perform (disconnects now) a = disconnect now a
  perform (shut_down now) a = shutdown now a

  -- Any history of calls.
  abbrev pub perform_all : List Op → App → App
  perform_all [] a = a
  perform_all (o ∷ os) a = perform_all os (perform o a)

  perform-Synced : (o : Op) (g : NetGame) (w : World) → Synced (g, w) → Synced (perform o (g, w))
  unfolding perform
  perform-Synced (initialized made now) g w h = initialize-Synced made now g w h
  perform-Synced (ticked f test now) g w h = tick-Synced p f test now g w h
  perform-Synced (connects made now address nickname) g w h =
      connect-Synced made now address nickname g w h
  perform-Synced (disconnects now) g w h = disconnect-Synced now g w h
  perform-Synced (shut_down now) g w h = shutdown-Synced now g w h

  -- Whatever calls are made and whatever the network brings, from any state that the bridge bears
  -- out: an initialized game has its bridge initialized, a game that waits for InitGame or is
  -- joined has the bridge connected, and no game is in the state Restarting.
  pub perform_all-Synced : (os : List Op) (a : App) → Synced a → Synced (perform_all os a)
  perform_all-Synced [] a h = h
  perform_all-Synced (o ∷ os) a h = perform_all-Synced os (perform o a) (perform-Synced o a.0 a.1 h)

  tick-joined :
      (f : Frame) (test now : ℕ) (g : NetGame) (w : World)
      → w.connected ≡ true
      → g.state ≡ connected
      → (tick p f test now (g, w)).0.state ≡ connected
  unfolding tick tick_state
  tick-joined f test now g w c e =
      if_cases (λ (a : App). a.0.state ≡ connected) g.initialized
        (λ i.
          subst (λ s. (tick_state test now s (g, Bridge.tick p f w)).0.state ≡ connected) (sym e)
            (if_cases (λ (k : NetGame). k.state ≡ connected) (Bridge.tick p f w).connected (λ l. e)
              (λ l. cc (tick-connected p f w c))))
        (λ i. e)

  -- A game that is joined and that the bridge bears out is still joined after any ticks, whatever
  -- the network brings: no loss of the connection is noticed.
  ticks-joined :
      (fs : List (Frame × ℕ × ℕ)) (a : App)
      → Synced a
      → a.0.state ≡ connected
      → (perform_all (tick_ops fs) a).0.state ≡ connected
  unfolding perform
  ticks-joined [] a h e = e
  ticks-joined ((f, test, now) ∷ fs) a h e =
      ticks-joined fs (tick p f test now a) (tick-Synced p f test now a.0 a.1 h)
        (tick-joined f test now a.0 a.1 (subst (λ s. Live s a.1.connected) e h.live) e)
