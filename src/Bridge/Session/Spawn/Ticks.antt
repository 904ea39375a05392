-- ===== src/Bridge/Session/Spawn/Ticks.antt =====
-- Ticks of bridge::Tick in native/sampraknet_bridge.cpp in which nothing arrives, or the answer to the
-- request for a class.
use opensamp.Prelude.{
  ◌+◌, ◌/◌, ◌≡◌, refl, ap, ◌∙◌, sym, Bool, true, false, List, [], ◌∷◌, ◌++◌, if◌then◌else◌, take,
  get_or, ◌==◌,
}
use mathlib.Core.Path.{subst}
use opensamp.Prelude.Action.{◌>>=◌, ◌>>◌, pure, modify, gets, reads}
use opensamp.Dialog.{Dialog}
use opensamp.World.{World, Session}
use opensamp.World.Wire.{Platform, ClientCall, Field, send}
use opensamp.Bridge.Read.{Handler, read_word, read_chars}
use opensamp.Bridge.Call.{Parameters, on_call}
use opensamp.Bridge.Local.{request_class}
use opensamp.Bridge.Dispatch.{
  call, update_network, on_event, on_rpc, handler_of, scene_handler, local_handler,
}
use opensamp.Bridge.Session.{tick, Frame, pin_time, body_sync, auto_spawn, issue_connect}
use opensamp.Bridge.Session.Body.{pin_time-On, body_sync-On}
use opensamp.Bridge.Session.Dial.{Dialing, dialing, tick-dialing, dial-initialized}
use opensamp.Bridge.Session.Spawn.{
  Spawning, spawning_of, spawning, other_call, step, auto_spawn-spawning, issue_connect-spawning,
  ask_scores-spawning,
}

-- A state of the spawn, as a property that a sync keeps.
abbrev AtState : Spawning → Session → Dialog → List ClientCall → Type 0
AtState v s d l = spawning_of s d l ≡ v

send-AtState :
    (v : Spawning) (s : Session) (d : Dialog) (l : List ClientCall) (b : List Field)
    → AtState v s d l
    → AtState v s d (l ++ send b ∷ [])
send-AtState v s d l b h = other_call s d l (send b) refl ∙ h

module _ (p : Platform) where
  -- The tick, behind what the network has brought.
  tick-spawning :
      (f : Frame) (w : World) (v : Spawning)
      → w.initialized ≡ true
      → spawning (update_network p f.scores.test f.scores.stamp f.events w) ≡ v
      → spawning (tick p f w) ≡ step f.spawn_now v
  unfolding tick
  tick-spawning f w v i h =
      let w1 = update_network p f.scores.test f.scores.stamp f.events w in
      let w3 = auto_spawn f.spawn_now (issue_connect w1) in
      let moved : spawning w3 ≡ step f.spawn_now v =
        auto_spawn-spawning f.spawn_now (issue_connect w1)
        ∙ ap (step f.spawn_now) (issue_connect-spawning w1 ∙ h) in
      let P = AtState (step f.spawn_now v) in
      let k = send-AtState (step f.spawn_now v) in
      subst (λ b. spawning (if b then body_sync p f (pin_time w3) else w) ≡ step f.spawn_now v)
        (sym i) (body_sync-On P k p f (pin_time w3) (pin_time-On P k w3 moved))

  pub tick-initialized :
      (f : Frame) (w : World) → w.initialized ≡ true → (tick p f w).initialized ≡ true
  tick-initialized f w i =
      ap (λ (d : Dialing). d.initialized) (tick-dialing p f w i) ∙ dial-initialized (dialing w) ∙ i

  -- Nothing arrives.
  abbrev pub IsQuiet : Frame → Type 0
  IsQuiet f = f.events ≡ []

  -- The answer to the request for a class arrives, and does not refuse it.
  abbrev pub Accepts : Parameters → Type 0
  Accepts c =
      (get_or (p.read_bits 8 (p.open_stream (take (c.bits / 8 + 1) c.input))).0 0 == 0) ≡ false

  pub tick-quiet :
      (f : Frame) (w : World)
      → w.initialized ≡ true
      → IsQuiet f
      → spawning (tick p f w) ≡ step f.spawn_now (spawning w)
  unfolding update_network
  tick-quiet f w i q = tick-spawning f w (spawning w) i (
      ap (λ es. spawning (update_network p f.scores.test f.scores.stamp es w)) q
      ∙ ask_scores-spawning f.scores.test f.scores.stamp w)

  abbrev with_answer : Spawning → Spawning
  with_answer v = record v { answered = true }

  other_branch :
      (b : Bool) (m n : Handler p Unit) (t : World × p.Stream)
      → b ≡ false
      → (if b then m else n) t ≡ n t
  other_branch true m n t h = cc
  other_branch false m n t h = refl

  request_class-answer :
      (w : World) (t : p.Stream)
      → (get_or (p.read_bits 8 t).0 0 == 0) ≡ false
      → spawning (request_class p (w, t)).1.0 ≡ with_answer (spawning w)
  unfolding request_class read_word read_chars ◌>>=◌ ◌>>◌ pure modify gets reads
  request_class-answer w t h = ap (λ r. spawning r.1.0) (other_branch _ _ _ _ h)

  on_rpc-answer :
      (c : Parameters) (w : World)
      → Accepts c
      → spawning (on_rpc p 128 c w) ≡ with_answer (spawning w)
  unfolding on_rpc handler_of scene_handler local_handler on_call
  on_rpc-answer c w h = request_class-answer w (p.open_stream (take (c.bits / 8 + 1) c.input)) h

  pub tick-answered :
      (f : Frame) (c : Parameters) (w : World)
      → w.initialized ≡ true
      → f.events ≡ call 128 c ∷ []
      → Accepts c
      → spawning (tick p f w) ≡ step f.spawn_now (with_answer (spawning w))
  unfolding update_network on_event
  tick-answered f c w i q h = tick-spawning f w (with_answer (spawning w)) i (
      ap (λ es. spawning (update_network p f.scores.test f.scores.stamp es w)) q
      ∙ ask_scores-spawning f.scores.test f.scores.stamp (on_rpc p 128 c w)
      ∙ on_rpc-answer c w h)
