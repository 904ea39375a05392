-- ===== src/Bridge/Bounds.antt =====
-- The writes of native/sampraknet_bridge.cpp into the player table and its name buffers.
pub mod Rules
pub mod Locals
pub mod Scenes
pub mod Network
use opensamp.Prelude.{
  ℕ, suc, ◌<◌, ◌≤◌, ◌≡◌, ◌≢◌, refl, ◌∙◌, Bool, true, false, ◌||◌, List, [], ◌∷◌, Option, none, some,
  get_or, length, leb, ltb, ◌==◌, ==_iff, arith, if_cases, if◌then◌else◌,
}
use opensamp.Prelude.Bytes.{c_str, fits, length-strcpy}
use opensamp.Prelude.Action.{Keeps, reads, ◌>>=◌}
use opensamp.World.{World, Player, set_player, emit, max_players, max_vehicles}
use opensamp.World.Wire.{Platform, Vec, ClientCall}
use opensamp.Bridge.Read.{Handler, read_chars}
use opensamp.Bridge.Reads.{reads_keep, mark_all-Keeps}
use opensamp.Bridge.Call.{Parameters, on_call, when_inited}
use opensamp.Bridge.Players.{copy_name, server_join}
use opensamp.Bridge.Join.{answer_auth, auth_key}
use opensamp.Bridge.Sync.{
  player_sync, unoccupied_sync, aim_sync, vehicle_sync, bullet_sync, mark, markers_sync, run_on,
}
use opensamp.Bridge.Dispatch.{on_packet}

-- The memory that a write could overrun.
pub record Memory : Type 0 where
  pub overrun : Bool
  pub players : ℕ → Player

abbrev pub memory : World → Memory
memory w = record { overrun = w.overrun; players = w.players }

-- No write has left its buffer, and each name has its 24 bytes.
pub record Bounded (m : Memory) : Type 0 where
  pub inside : m.overrun ≡ false
  pub names : (i : ℕ) → length (m.players i).name ≡ 24

pub set_player-Bounded :
    (id : ℕ) (f : Player → Player) (w : World)
    → id < max_players
    → ((q : Player) → length (f q).name ≡ length q.name)
    → Bounded (memory w)
    → Bounded (memory (set_player id f w))
unfolding set_player
set_player-Bounded id f w h k b =
    if_cases (λ v. Bounded (memory v)) (ltb id max_players)
      (λ e. record {
        inside = b.inside;
        names = λ i.
            if_cases (λ (q : Player). length q.name ≡ 24) (i == id)
              (λ e'. k (w.players i) ∙ b.names i) (λ e'. b.names i);
      })
      (λ e. absurd (outside e))
  where
    outside : ltb id max_players ≡ false → ⊥
    outside e = ground arith

pub in_table : (id : ℕ) → leb max_players id ≡ false → id < max_players
in_table id e = ground arith

in_both_tables :
    (id vehicle : ℕ) → (leb max_players id || leb max_vehicles vehicle) ≡ false → id < max_players
in_both_tables id vehicle e = ground arith

-- A world whose memory is intact.
abbrev pub InBounds : World → Type 0
InBounds w = Bounded (memory w)

fitting : (s b : List ℕ) → length s < 24 → length b ≡ 24 → fits b s ≡ true
fitting s b h k = ground arith

copy_name-Bounded :
    (id : ℕ) (name : List ℕ) (w : World)
    → id < max_players
    → length name < 24
    → InBounds w
    → InBounds (copy_name id name w)
unfolding copy_name
copy_name-Bounded id name w h l b =
    if_cases InBounds (fits (w.players id).name name)
      (λ e. set_player-Bounded id _ w h (λ q. length-strcpy q.name name) b)
      (λ e. cc (fitting name (w.players id).name l (b.names id)))

pub emit-Bounded : (c : ClientCall) (w : World) → InBounds w → InBounds (emit c w)
unfolding emit
emit-Bounded c w b = b

pub if-Bounded : (b : Bool) (v w : World) → InBounds v → InBounds w → InBounds (if b then v else w)
if-Bounded b v w h k = if_cases InBounds b (λ e. h) (λ e. k)

module _ (p : Platform) where
  player_sync-Bounded : Keeps InBounds (player_sync p)
  unfolding player_sync
  player_sync-Bounded = search (reads_keep, set_player-Bounded, in_table) depth 30

  unoccupied_sync-Bounded : Keeps InBounds (unoccupied_sync p)
  unfolding unoccupied_sync
  unoccupied_sync-Bounded = search (reads_keep, set_player-Bounded, in_table) depth 30

  aim_sync-Bounded : Keeps InBounds (aim_sync p)
  unfolding aim_sync
  aim_sync-Bounded = search (reads_keep, set_player-Bounded, in_table) depth 30

  vehicle_sync-Bounded : Keeps InBounds (vehicle_sync p)
  unfolding vehicle_sync
  vehicle_sync-Bounded = search (reads_keep, set_player-Bounded, in_both_tables) depth 30

  bullet_sync-Bounded : Keeps InBounds (bullet_sync p)
  unfolding bullet_sync
  bullet_sync-Bounded = search (reads_keep, set_player-Bounded, in_table) depth 30

  mark-Bounded :
      (id : ℕ) (active : Bool) (before : Vec)
      → id < max_players
      → Keeps InBounds (mark p id active before)
  unfolding mark
  mark-Bounded id active before h = search (reads_keep, set_player-Bounded) depth 30

  markers_sync-Bounded : Keeps InBounds (markers_sync p)
  unfolding markers_sync
  markers_sync-Bounded = search (reads_keep, mark_all-Keeps, mark-Bounded) depth 30

  run_on-Bounded :
      (h : Handler p Unit) (bytes : List ℕ) (w : World)
      → Keeps InBounds h
      → InBounds w
      → InBounds (run_on p h bytes w)
  unfolding run_on
  run_on-Bounded h bytes w k b = k.at w _ b

  answer_auth-Bounded :
      (key : Option (List ℕ)) (w : World) → InBounds w → InBounds (answer_auth key w)
  unfolding answer_auth
  answer_auth-Bounded none w b = b
  answer_auth-Bounded (some key) w b = emit-Bounded _ w b

  auth_key-Bounded : (bytes : List ℕ) (w : World) → InBounds w → InBounds (auth_key p bytes w)
  unfolding auth_key
  auth_key-Bounded bytes w b = answer_auth-Bounded _ w b

  -- From a world in which no write has left the player table or a name in it, and each name has its
  -- 24 bytes, a packet other than the acceptance of the connection leads to such a world, however
  -- it is cut or forged.
  pub on_packet-Bounded :
      (id : ℕ) (bytes : List ℕ) (w : World)
      → id ≢ 34
      → InBounds w
      → InBounds (on_packet p id bytes w)
  unfolding on_packet
  on_packet-Bounded id bytes w n b =
      if_cases InBounds (id == 34) (λ e. absurd (n ((==_iff id 34).0 e)))
        (λ e.
          search
            (
              if-Bounded, run_on-Bounded, auth_key-Bounded, player_sync-Bounded,
              vehicle_sync-Bounded, aim_sync-Bounded, unoccupied_sync-Bounded, markers_sync-Bounded,
              bullet_sync-Bounded,
            )
            depth 12)

  c_str-le : (s : List ℕ) → length (c_str s) ≤ length s
  unfolding c_str
  c_str-le [] = omega arith
  c_str-le (c ∷ cs) =
      let rest = c_str-le cs in
      if_cases (λ l. length l ≤ suc (length cs)) (c == 0) {x = []} {y = c ∷ c_str cs}
        (λ e. omega arith) (λ e. omega arith)

  -- What a read of characters gives has the length that was asked for.
  read_chars-Bounded :
      {B : Type 0} (n : ℕ) (old : List ℕ) (f : List ℕ → Handler p B)
      → length old ≡ n
      → ((cs : List ℕ) → length cs ≡ n → Keeps InBounds (f cs))
      → Keeps InBounds (read_chars p n old >>= f)
  unfolding read_chars reads ◌>>=◌
  read_chars-Bounded n old f h k = record {
    at = λ w t b.
        (k (get_or (p.read_chars n t).0 old)
            (got (p.read_chars n t).0 (λ cs e. p.read_chars-length n t e))).at
          w _ b;
  }
    where
      got :
          (o : Option (List ℕ))
          → ((cs : List ℕ) → o ≡ some cs → length cs ≡ n)
          → length (get_or o old) ≡ n
      got none g = h
      got (some cs) g = g cs refl

  short_name :
      (len : ℕ) (cs : List ℕ) → ltb 20 len ≡ false → length cs ≡ len → length (c_str cs) < 24
  short_name len cs e h = ground (arith, c_str-le cs)

  pub server_join-Bounded : Keeps InBounds (server_join p)
  unfolding server_join when_inited
  server_join-Bounded =
      search
        (
          read_chars-Bounded, p.stack_chars-length, reads_keep, set_player-Bounded,
          copy_name-Bounded, in_table, short_name,
        )
        depth 30
