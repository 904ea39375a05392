-- ===== src/Bridge/Session/Dial.antt =====
-- bridge::Connect, Disconnect and Tick of native/sampraknet_bridge.cpp: the way of a connect request.
use mathlib.Core.List.{append-nil}
use opensamp.Prelude.{
  take, ◌++◌, ℕ, ◌≡◌, refl, ap, ◌∙◌, Bool, true, false, ◌&&◌, ◌||◌, not, List, [], ◌∷◌, Option,
  some, if_cases, Bool-cases, inl, inr, ltb, if◌then◌else◌,
}
use opensamp.World.{World, SpawnStage, idle, waiting_class, ready, done, emit, set_player}
use opensamp.World.Wire.{Platform, ClientCall, connect, disconnect, u32}
use opensamp.Bridge.Control.{
  same, risen, connects, connects-append, rpc-Controlled, samp_spawn-Controlled, Control, control,
}
use opensamp.Bridge.Session.Body.{body_sync-Controlled, pin_time-Controlled}
use opensamp.Bridge.Join.{on_session, reset_pools}
use opensamp.Bridge.Control.Network.{update_network-Later}
use opensamp.Bridge.Dispatch.{update_network}
use opensamp.Bridge.Senders.{request_class_call, sub32}
use opensamp.Bridge.Session.{
  tick, Frame, end_session, issue_connect, auto_spawn, spawn_step, pin_time, request_connect,
  initialize, connect_to, queue_connect, or_empty,
}

-- What the tick does to the connection, apart from the spawn stage: the flags, and the calls.
pub record Dialing : Type 0 where
  pub initialized : Bool
  pub queued : Bool
  pub requested : Bool
  pub host : List ℕ
  pub port : ℕ
  pub password : List ℕ
  pub dialed : List ClientCall

abbrev pub dialing : World → Dialing
dialing w = record {
  initialized = w.initialized;
  queued = w.connect_queued;
  requested = w.connection_requested;
  host = w.server_host;
  port = w.server_port;
  password = w.server_password;
  dialed = connects w.sent;
}

-- A request that is queued and not yet issued is issued once, to the server that was asked for.
abbrev pub dial : Dialing → Dialing
dial d =
    if d.queued && not d.requested
    then record d { requested = true; dialed = d.dialed ++ connect d.host d.port d.password ∷ [] }
    else d

pub dial-initialized : (d : Dialing) → (dial d).initialized ≡ d.initialized
dial-initialized d =
    if_cases (λ (c : Dialing). c.initialized ≡ d.initialized) (d.queued && not d.requested)
      (λ e. refl) (λ e. refl)

abbrev of_control : Control → Dialing
of_control c = record {
  initialized = c.initialized;
  queued = c.connect_queued;
  requested = c.connection_requested;
  host = c.server_host;
  port = c.server_port;
  password = c.server_password;
  dialed = c.dialed;
}

issue-dialing : (w : World) → dialing (issue_connect w) ≡ dial (dialing w)
unfolding issue_connect emit
issue-dialing w =
    if_cases (λ v. dialing v ≡ dial (dialing w)) (w.connect_queued && not w.connection_requested)
      (λ e. rw e (
        ap (λ (n : List ClientCall). record (dialing w) { requested = true; dialed = n })
          (connects-append w.sent (connect w.server_host w.server_port w.server_password ∷ []))))
      (λ e. rw e)

spawn_step-dialing :
    (now : ℕ) (s : SpawnStage) (w : World) → dialing (spawn_step now s w) ≡ dialing w
unfolding spawn_step request_class_call
spawn_step-dialing now idle w = ap of_control (
    rpc-Controlled 128 (u32 0 ∷ []) (on_session (λ s. record s { spawn_info_received = false }) w)
      refl)
spawn_step-dialing now waiting_class w =
    if_cases (λ v. dialing v ≡ dialing w) w.spawn_info_received (λ e. refl)
      λ e.
        if_cases (λ v. dialing v ≡ dialing w) (ltb 3000 (sub32 now w.spawn_stage_ms)) (λ e'. refl)
          (λ e'. refl)
spawn_step-dialing now ready w = ap of_control (samp_spawn-Controlled w refl)
spawn_step-dialing now done w = refl

auto_spawn-dialing : (now : ℕ) (w : World) → dialing (auto_spawn now w) ≡ dialing w
unfolding auto_spawn
auto_spawn-dialing now w =
    if_cases (λ v. dialing v ≡ dialing w)
      (w.connected && w.game_inited && not w.spawned && not w.dialog.active)
      (λ e. spawn_step-dialing now w.spawn_stage w) (λ e. refl)

-- A request that is queued and not yet issued.
abbrev requested : List ℕ → ℕ → List ℕ → List ClientCall → Dialing
requested h port pw n = record {
  initialized = true;
  queued = true;
  requested = false;
  host = h;
  port = port;
  password = pw;
  dialed = n;
}

-- The server, as Connect keeps it: 127 bytes of the host, and 63 of the password.
abbrev kept_request : List ℕ → ℕ → Option (List ℕ) → List ClientCall → Dialing
kept_request h port pw = requested (take 127 h) port (take 63 (or_empty pw))

pub initialize-dialing :
    (made : Bool) (w : World)
    → (initialize made w).0 ≡ true
    → ((initialize made w).1.initialized ≡ true)
      × (connects (initialize made w).1.sent ≡ connects w.sent)
unfolding initialize reset_pools set_player
initialize-dialing made w =
    if_cases
      (λ (r : Bool × World).
        r.0 ≡ true → (r.1.initialized ≡ true) × (connects r.1.sent ≡ connects w.sent))
      w.initialized (λ e h. (e, refl))
      λ e.
        if_cases
          (λ (r : Bool × World).
            r.0 ≡ true → (r.1.initialized ≡ true) × (connects r.1.sent ≡ connects w.sent))
          made (λ e' h. (refl, refl)) (λ e' h. cc)

pub request_connect-dialing :
    (made : Bool) (host nickname : List ℕ) (port : ℕ) (password : Option (List ℕ)) (w : World)
    → (request_connect made (some host) port (some nickname) password w).0 ≡ true
    → dialing (request_connect made (some host) port (some nickname) password w).1
      ≡ kept_request host port password (connects w.sent)
unfolding request_connect connect_to queue_connect
request_connect-dialing made host nickname port password w =
    let r = initialize made w in
    if_cases
      (λ (v : Bool × World).
        v.0 ≡ true → dialing v.1 ≡ kept_request host port password (connects w.sent))
      r.0
      (λ e h.
        ap
          (λ (b : Bool). record (kept_request host port password (connects r.1.sent)) {
            initialized = b;
          })
          (initialize-dialing made w e).0
        ∙ ap (kept_request host port password) (initialize-dialing made w e).1)
      (λ e h. cc)

-- No request, under way or queued, with the server of the last one.
abbrev closed : World → Bool → List ClientCall → Dialing
closed w b n = record {
  initialized = b;
  queued = false;
  requested = false;
  host = w.server_host;
  port = w.server_port;
  password = w.server_password;
  dialed = n;
}

end_session-dialing :
    (w : World) → w.initialized ≡ true → dialing (end_session w) ≡ closed w true (connects w.sent)
unfolding end_session emit
end_session-dialing w e =
    if_cases (λ v. dialing v ≡ closed w true (connects w.sent)) w.initialized
      (λ i.
        if_cases
          (λ (v : World).
            closed v v.initialized (connects v.sent) ≡ closed w true (connects w.sent))
          (w.connected || w.connection_requested)
          (λ c.
            ap (λ b. closed w b (connects (w.sent ++ disconnect ∷ []))) e
            ∙ ap (closed w true)
                (connects-append w.sent (disconnect ∷ []) ∙ append-nil (connects w.sent)))
          (λ c. ap (λ b. closed w b (connects w.sent)) e))
      (λ i. cc)

end_session-off : (w : World) → w.initialized ≡ false → end_session w ≡ w
unfolding end_session
end_session-off w e = rw e refl

module _ (p : Platform) where
  network-dialing :
      (f : Frame) (w : World)
      → dialing (update_network p f.scores.test f.scores.stamp f.events w) ≡ dialing w
  network-dialing f w =
      elim (update_network-Later p (control w) f.scores.test f.scores.stamp f.events w
        (same refl)) [ same e ↦ ap of_control e | risen e ↦ ap of_control e ]

  -- In a tick of an initialized bridge, whatever the network brings, a connect request that is
  -- queued and not yet issued is issued, exactly once; with none queued, or with one under way, no
  -- connect is issued.
  pub tick-dialing :
      (f : Frame) (w : World) → w.initialized ≡ true → dialing (tick p f w) ≡ dial (dialing w)
  unfolding tick
  tick-dialing f w h =
      if_cases (λ v. dialing v ≡ dial (dialing w)) w.initialized
        (λ e.
          let w1 = update_network p f.scores.test f.scores.stamp f.events w in
          let w2 = issue_connect w1 in
          let w3 = auto_spawn f.spawn_now w2 in
          ap of_control (body_sync-Controlled p f (pin_time w3) (pin_time-Controlled w3 refl))
          ∙ auto_spawn-dialing f.spawn_now w2
          ∙ issue-dialing w1
          ∙ ap dial (network-dialing f w))
        (λ e. cc)

  -- The ticks of a session, in their order.
  abbrev pub ticks : List Frame → World → World
  ticks [] w = w
  ticks (f ∷ fs) w = ticks fs (tick p f w)

  ticks-quiet :
      (fs : List Frame) (w : World) (d : Dialing)
      → dialing w ≡ d
      → d.initialized ≡ true
      → dial d ≡ d
      → dialing (ticks fs w) ≡ d
  ticks-quiet [] w d e i q = e
  ticks-quiet (f ∷ fs) w d e i q =
      ticks-quiet fs (tick p f w) d
        (tick-dialing f w (ap (λ (c : Dialing). c.initialized) e ∙ i) ∙ ap dial e ∙ q) i q

  tick-off : (f : Frame) (w : World) → w.initialized ≡ false → tick p f w ≡ w
  unfolding tick
  tick-off f w e = rw e refl

  ticks-off : (fs : List Frame) (w : World) → w.initialized ≡ false → ticks fs w ≡ w
  ticks-off [] w e = refl
  ticks-off (f ∷ fs) w e = ap (ticks fs) (tick-off f w e) ∙ ticks-off fs w e

  -- After Connect has accepted a request, the next tick calls RakNet's Connect with the host, cut to
  -- 127 bytes, the port and the password, cut to 63 bytes, that were asked for; no tick after that one
  -- issues another, whatever the network brings, as long as the loops over it end.
  pub connect-dialed :
      (made : Bool) (host nickname : List ℕ) (port : ℕ) (password : Option (List ℕ)) (f : Frame)
      (gs : List Frame) (w : World)
      → (request_connect made (some host) port (some nickname) password w).0 ≡ true
      → let w' =
          ticks (f ∷ gs) (request_connect made (some host) port (some nickname) password w).1 in
        (connects w'.sent
          ≡ connects w.sent ++ connect (take 127 host) port (take 63 (or_empty password)) ∷ [])
        × (w'.connection_requested ≡ true)
  connect-dialed made host nickname port password f gs w h =
      let v = (request_connect made (some host) port (some nickname) password w).1 in
      let at_v : dialing v ≡ kept_request host port password (connects w.sent) =
        request_connect-dialing made host nickname port password w h in
      let first : dialing (tick p f v) ≡ dial (kept_request host port password (connects w.sent)) =
        tick-dialing f v (ap (λ (d : Dialing). d.initialized) at_v) ∙ ap dial at_v in
      let rest : dialing (ticks gs (tick p f v))
          ≡ dial (kept_request host port password (connects w.sent)) =
        ticks-quiet gs (tick p f v) (dial (kept_request host port password (connects w.sent))) first
          refl refl in
      (ap (λ (d : Dialing). d.dialed) rest, ap (λ (d : Dialing). d.requested) rest)

  -- After Disconnect no tick issues a connect, whatever the network brings.
  pub end_session-silent :
      (fs : List Frame) (w : World) → connects (ticks fs (end_session w)).sent ≡ connects w.sent
  end_session-silent fs w = elim (Bool-cases w.initialized) [
    | inl e ↦
        ap (λ (d : Dialing). d.dialed)
          (ticks-quiet fs (end_session w) _ (end_session-dialing w e) refl refl)
    | inr e ↦
        ap (λ v. connects (ticks fs v).sent) (end_session-off w e)
        ∙ ap (λ (v : World). connects v.sent) (ticks-off fs w e)
  ]
