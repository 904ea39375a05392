-- ===== src/NetGame/Timeout.antt =====
-- CNetGame of native/net/netgame.cpp: the wait for the server's answer to the join.
use opensamp.Prelude.{
  ℕ, ◌≤◌, List, [], ◌∷◌, arith, ◌+◌, ◌%◌, ◌^◌, ◌<◌, ◌≡◌, refl, ap, ◌∙◌, sym, Bool, true, false,
  if_cases, if◌then◌else◌, ltb,
}
use mathlib.Core.Path.{subst}
use opensamp.World.{World}
use opensamp.World.Wire.{Platform}
use opensamp.Bridge.Session as Bridge
use opensamp.Bridge.Session.{Frame, end_session}
use opensamp.Bridge.Session.Spawn.{sub32-elapsed}
use opensamp.NetGame.{
  NetGame, NetState, connecting, await_join, connected, disconnected, App, transition_to,
  disconnect, tick_state, tick, ms_in_state,
}
use opensamp.NetGame.Transition.{transition_to-state}

-- How the wait goes on, after so many milliseconds.
abbrev pub outcome : Bool → ℕ → NetState
outcome inited d = if inited then connected else if ltb 20000 d then disconnected else await_join

abbrev pub aftermath : Bool → ℕ → World → World
aftermath inited d w = if inited then w else if ltb 20000 d then end_session w else w

awaiting : ℕ → NetGame → NetGame
awaiting t g = record g { state = await_join; state_enter_ms = t }

disconnect-awaiting :
    (now : ℕ) (g : NetGame) (w : World)
    → g.state ≡ await_join
    → disconnect now (g, w) ≡ (transition_to now disconnected g, end_session w)
unfolding disconnect
disconnect-awaiting now g w e = rw e refl

choice :
    (now : ℕ) (g : NetGame) (w : World) (b l : Bool)
    → g.state ≡ await_join
    → let a =
        if b
        then (transition_to now connected g, w)
        else if l
        then disconnect now (g, w)
        else (g, w) in
      (a.0.state ≡ (if b then connected else if l then disconnected else await_join))
      × (a.1 ≡ (if b then w else if l then end_session w else w))
choice now g w true l e = (transition_to-state now connected g, refl)
choice now g w false true e = (
  ap (λ (a : App). a.0.state) (disconnect-awaiting now g w e)
      ∙ transition_to-state now disconnected g,
  ap (λ (a : App). a.1) (disconnect-awaiting now g w e),
)
choice now g w false false e = (e, refl)

tick_state-outcome :
    (test now : ℕ) (g : NetGame) (w : World)
    → g.state ≡ await_join
    → let a = tick_state test now await_join (g, w) in
      let d = ms_in_state test g in
      (a.0.state ≡ outcome w.game_inited d) × (a.1 ≡ aftermath w.game_inited d w)
unfolding tick_state
tick_state-outcome test now g w e = choice now g w w.game_inited (ltb 20000 (ms_in_state test g)) e

not_late : (d : ℕ) → d ≤ 20000 → ltb 20000 d ≡ false
not_late d h = ground arith

module _ (p : Platform) where
  enters :
      (f : Frame) (test t : ℕ) (g : NetGame) (w : World)
      → g.initialized ≡ true
      → g.state ≡ connecting
      → (Bridge.tick p f w).connected ≡ true
      → tick p f test t (g, w) ≡ (awaiting t g, Bridge.tick p f w)
  unfolding tick tick_state transition_to awaiting
  enters f test t g w i s c = rw (i, s, c) refl

  waits :
      (f : Frame) (t d now : ℕ) (g : NetGame) (w : World)
      → g.initialized ≡ true
      → t < 2 ^ 32
      → d < 2 ^ 32
      → let a = tick p f ((t + d) % 2 ^ 32) now (awaiting t g, w) in
        let w' = Bridge.tick p f w in
        (a.0.state ≡ outcome w'.game_inited d) × (a.1 ≡ aftermath w'.game_inited d w')
  unfolding tick awaiting
  waits f t d now g w i h k =
      let w' = Bridge.tick p f w in
      let q = tick_state-outcome ((t + d) % 2 ^ 32) now (awaiting t g) w' refl in
      if_cases
        (λ (a : App).
          (a.0.state ≡ outcome w'.game_inited d) × (a.1 ≡ aftermath w'.game_inited d w'))
        g.initialized
        (λ e. (
          q.0 ∙ ap (outcome w'.game_inited) (sub32-elapsed t d h k),
          q.1 ∙ ap (λ n. aftermath w'.game_inited n w') (sub32-elapsed t d h k),
        ))
        (λ e. cc)

  -- The game, after ticks: in each the frame of the bridge, the time since t at the test, and the
  -- reading of the clock for a transition.
  abbrev pub play : ℕ → List (Frame × ℕ × ℕ) → App → App
  play t [] a = a
  play t ((f, d, now) ∷ rest) a = play t rest (tick p f ((t + d) % 2 ^ 32) now a)

  -- The bridge alone, after the same ticks.
  abbrev pub bridge_after : List (Frame × ℕ × ℕ) → World → World
  bridge_after [] w = w
  bridge_after ((f, d, now) ∷ rest) w = bridge_after rest (Bridge.tick p f w)

  -- Each tick falls within 20000 ms, and does not bring InitGame.
  abbrev pub Unanswered : List (Frame × ℕ × ℕ) → World → Type 0
  Unanswered [] w = Unit
  Unanswered ((f, d, now) ∷ rest) w =
      (d ≤ 20000) × ((Bridge.tick p f w).game_inited ≡ false) × Unanswered rest (Bridge.tick p f w)

  still_waits :
      (f : Frame) (t d now : ℕ) (g : NetGame) (w : World)
      → g.initialized ≡ true
      → t < 2 ^ 32
      → d ≤ 20000
      → (Bridge.tick p f w).game_inited ≡ false
      → tick p f ((t + d) % 2 ^ 32) now (awaiting t g, w) ≡ (awaiting t g, Bridge.tick p f w)
  unfolding tick tick_state awaiting
  still_waits f t d now g w i h k e =
      rw (i, e, sub32-elapsed t d h (omega (arith, k)), not_late d k) refl

  play-waits :
      (fs : List (Frame × ℕ × ℕ)) (t : ℕ) (g : NetGame) (w : World)
      → g.initialized ≡ true
      → t < 2 ^ 32
      → Unanswered fs w
      → play t fs (awaiting t g, w) ≡ (awaiting t g, bridge_after fs w)
  play-waits [] t g w i h u = refl
  play-waits ((f, d, now) ∷ fs) t g w i h u =
      ap (play t fs) (still_waits f t d now g w i h u.0 u.1)
      ∙ play-waits fs t g (Bridge.tick p f w) i h u.2

  -- A game that is connecting waits for InitGame as soon as the bridge is connected. It goes on waiting
  -- through any ticks within 20000 ms of that time that do not bring InitGame, and the time stays the one
  -- from which it waits. In the tick after those it is joined if the bridge has InitGame; otherwise it
  -- goes on waiting if at most 20000 ms have gone by, and if more it is Disconnected and the bridge's
  -- session is ended. The clock may wrap around in between; the wait is below 2^32 ms.
  pub join-outcome :
      (f f' : Frame) (fs : List (Frame × ℕ × ℕ)) (test t d now : ℕ) (g : NetGame) (w : World)
      → g.initialized ≡ true
      → g.state ≡ connecting
      → (Bridge.tick p f w).connected ≡ true
      → t < 2 ^ 32
      → d < 2 ^ 32
      → Unanswered fs (Bridge.tick p f w)
      → let waited = play t fs (tick p f test t (g, w)) in
        let a = tick p f' ((t + d) % 2 ^ 32) now waited in
        let w' = Bridge.tick p f' (bridge_after fs (Bridge.tick p f w)) in
        (waited.0.state ≡ await_join)
        × (waited.0.state_enter_ms ≡ t)
        × (a.0.state ≡ outcome w'.game_inited d)
        × (a.1 ≡ aftermath w'.game_inited d w')
  unfolding awaiting
  join-outcome f f' fs test t d now g w i s c h k u =
      let v = Bridge.tick p f w in
      let e = ap (play t fs) (enters f test t g w i s c) ∙ play-waits fs t g v i h u in
      subst
        (λ (b : App).
          let a = tick p f' ((t + d) % 2 ^ 32) now b in
          let w' = Bridge.tick p f' (bridge_after fs v) in
          (b.0.state ≡ await_join)
          × (b.0.state_enter_ms ≡ t)
          × (a.0.state ≡ outcome w'.game_inited d)
          × (a.1 ≡ aftermath w'.game_inited d w'))
        (sym e)
        (let last = waits f' t d now g (bridge_after fs v) i h k in (refl, refl, last.0, last.1))
