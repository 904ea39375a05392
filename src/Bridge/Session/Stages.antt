-- ===== src/Bridge/Session/Stages.antt =====
-- The stage of the automatic spawn, and the connection, over the ticks of native/sampraknet_bridge.cpp.
use opensamp.Prelude.{ℕ, ◌≡◌, refl, ap, ◌∙◌, sym, true, ◌&&◌, not, List, [], ◌∷◌, if_cases, ltb}
use mathlib.Core.Path.{subst}
use opensamp.World.{World, SpawnStage, idle, waiting_class, ready, done, emit}
use opensamp.World.Wire.{Platform}
use opensamp.Bridge.Control.{Control, control, Later, same, risen, samp_spawn-Controlled}
use opensamp.Bridge.Control.Network.{update_network-Later}
use opensamp.Bridge.Dispatch.{update_network}
use opensamp.Bridge.Senders.{request_class_call, sub32}
use opensamp.Bridge.Session.{
  tick, Frame, issue_connect, auto_spawn, spawn_step, pin_time, body_sync,
}
use opensamp.Bridge.Session.Body.{body_sync-Controlled, pin_time-Controlled}
use opensamp.Bridge.Session.Dial.{ticks}
use opensamp.Bridge.Session.Spawn.{may_spawn}

-- One step of the stage, as the source's comments have it.
pub data Moves : SpawnStage → SpawnStage → Type 0 where
  stays : (s : SpawnStage) → Moves s s
  asks : Moves idle waiting_class
  gets_class : Moves waiting_class ready
  gives_up : Moves waiting_class idle
  spawns : Moves ready done

spawn_step-Moves :
    (now : ℕ) (s : SpawnStage) (w : World)
    → w.spawn_stage ≡ s
    → Moves s (spawn_step now s w).spawn_stage
unfolding spawn_step request_class_call emit
spawn_step-Moves now idle w e = asks
spawn_step-Moves now waiting_class w e =
    if_cases (λ (v : World). Moves waiting_class v.spawn_stage) w.spawn_info_received
      (λ i. gets_class)
      λ i.
        if_cases (λ (v : World). Moves waiting_class v.spawn_stage)
          (ltb 3000 (sub32 now w.spawn_stage_ms)) (λ l. gives_up) (λ l. rw e (stays waiting_class))
spawn_step-Moves now ready w e = spawns
spawn_step-Moves now done w e = rw e (stays done)

auto_spawn-Moves : (now : ℕ) (w : World) → Moves w.spawn_stage (auto_spawn now w).spawn_stage
unfolding auto_spawn
auto_spawn-Moves now w =
    if_cases (λ (v : World). Moves w.spawn_stage v.spawn_stage) (may_spawn w)
      (λ e. spawn_step-Moves now w.spawn_stage w refl) (λ e. stays _)

issue_connect-stage : (w : World) → (issue_connect w).spawn_stage ≡ w.spawn_stage
unfolding issue_connect emit
issue_connect-stage w =
    if_cases (λ (v : World). v.spawn_stage ≡ w.spawn_stage)
      (w.connect_queued && not w.connection_requested) (λ e. refl) (λ e. refl)

issue_connect-connected : (w : World) → (issue_connect w).connected ≡ w.connected
unfolding issue_connect emit
issue_connect-connected w =
    if_cases (λ (v : World). v.connected ≡ w.connected)
      (w.connect_queued && not w.connection_requested) (λ e. refl) (λ e. refl)

spawn_step-connected :
    (now : ℕ) (s : SpawnStage) (w : World) → (spawn_step now s w).connected ≡ w.connected
unfolding spawn_step request_class_call emit
spawn_step-connected now idle w = refl
spawn_step-connected now waiting_class w =
    if_cases (λ (v : World). v.connected ≡ w.connected) w.spawn_info_received (λ e. refl)
      λ e.
        if_cases (λ (v : World). v.connected ≡ w.connected) (ltb 3000 (sub32 now w.spawn_stage_ms))
          (λ e'. refl) (λ e'. refl)
spawn_step-connected now ready w = ap (λ (c : Control). c.connected) (samp_spawn-Controlled w refl)
spawn_step-connected now done w = refl

auto_spawn-connected : (now : ℕ) (w : World) → (auto_spawn now w).connected ≡ w.connected
unfolding auto_spawn
auto_spawn-connected now w =
    if_cases (λ (v : World). v.connected ≡ w.connected) (may_spawn w)
      (λ e. spawn_step-connected now w.spawn_stage w) (λ e. refl)

Later-stage : {c : Control} {w : World} → Later c w → w.spawn_stage ≡ c.spawn_stage
Later-stage (same e) = ap (λ (d : Control). d.spawn_stage) e
Later-stage (risen e) = ap (λ (d : Control). d.spawn_stage) e

Later-connected : {c : Control} {w : World} → Later c w → c.connected ≡ true → w.connected ≡ true
Later-connected (same e) h = ap (λ (d : Control). d.connected) e ∙ h
Later-connected (risen e) h = ap (λ (d : Control). d.connected) e

module _ (p : Platform) where
  network-Later :
      (f : Frame) (w : World)
      → Later (control w) (update_network p f.scores.test f.scores.stamp f.events w)
  network-Later f w =
      update_network-Later p (control w) f.scores.test f.scores.stamp f.events w (same refl)

  last-Controlled : (f : Frame) (w : World) → control (body_sync p f (pin_time w)) ≡ control w
  last-Controlled f w = body_sync-Controlled p f (pin_time w) (pin_time-Controlled w refl)

  -- In a tick, whatever the network brings, the automatic spawn moves at most one step along the
  -- stages: it asks for a class, gets it or gives up waiting, and spawns; once done it stays done.
  pub tick-Moves : (f : Frame) (w : World) → Moves w.spawn_stage (tick p f w).spawn_stage
  unfolding tick
  tick-Moves f w =
      if_cases (λ (v : World). Moves w.spawn_stage v.spawn_stage) w.initialized
        (λ e.
          let w1 = update_network p f.scores.test f.scores.stamp f.events w in
          let w2 = issue_connect w1 in
          let before : w2.spawn_stage ≡ w.spawn_stage =
            issue_connect-stage w1 ∙ Later-stage (network-Later f w) in
          let after : (auto_spawn f.spawn_now w2).spawn_stage
              ≡ (body_sync p f (pin_time (auto_spawn f.spawn_now w2))).spawn_stage =
            sym (
              ap (λ (c : Control). c.spawn_stage)
                (last-Controlled f (auto_spawn f.spawn_now w2))) in
          subst (Moves w.spawn_stage) after (
            subst (λ s. Moves s (auto_spawn f.spawn_now w2).spawn_stage) before
              (auto_spawn-Moves f.spawn_now w2)))
        (λ e. stays _)

  pub tick-connected : (f : Frame) (w : World) → w.connected ≡ true → (tick p f w).connected ≡ true
  unfolding tick
  tick-connected f w h =
      if_cases (λ (v : World). v.connected ≡ true) w.initialized
        (λ e.
          let w1 = update_network p f.scores.test f.scores.stamp f.events w in
          let w2 = issue_connect w1 in
          ap (λ (c : Control). c.connected) (last-Controlled f (auto_spawn f.spawn_now w2))
          ∙ auto_spawn-connected f.spawn_now w2
          ∙ issue_connect-connected w1
          ∙ Later-connected (network-Later f w) h)
        (λ e. h)

  -- Once up, the connection counts as up after any number of ticks, whatever the server sends:
  -- the loss of the connection is not noticed.
  pub ticks-connected :
      (fs : List Frame) (w : World) → w.connected ≡ true → (ticks p fs w).connected ≡ true
  ticks-connected [] w h = h
  ticks-connected (f ∷ fs) w h = ticks-connected fs (tick p f w) (tick-connected f w h)

  done-Moves : {s t : SpawnStage} → Moves s t → s ≡ done → t ≡ done
  done-Moves (stays s) h = h
  done-Moves asks h = cc
  done-Moves gets_class h = cc
  done-Moves gives_up h = cc
  done-Moves spawns h = refl

  -- Once the player has been spawned, no tick takes the automatic spawn up again, whatever the
  -- server sends, the restart of the game mode included.
  pub ticks-done :
      (fs : List Frame) (w : World) → w.spawn_stage ≡ done → (ticks p fs w).spawn_stage ≡ done
  ticks-done [] w h = h
  ticks-done (f ∷ fs) w h = ticks-done fs (tick p f w) (done-Moves (tick-Moves f w) h)
