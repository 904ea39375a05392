-- ===== src/Bridge/Join.antt =====
-- The handshake of native/sampraknet_bridge.cpp: the packets AUTH_KEY and
-- CONNECTION_REQUEST_ACCEPTED, and the RPCs InitGame and ConnectionRejected.
use Prim.Native.Nat.{bit_xor}
use opensamp.Prelude.{
  ℕ, ◌%◌, ◌^◌, Bool, true, false, ◌&&◌, List, [], ◌∷◌, ◌++◌, Option, none, some, take, length, drop,
  replicate, ltb, ◌==◌, if◌then◌else◌,
}
use opensamp.Prelude.Action.{pure, modify, gets, reads, ◌>>=◌, ◌>>◌}
use opensamp.Prelude.Bytes.{c_str, strcpy, fits}
use opensamp.World.{World, Session, zero_player, set_player, emit}
use opensamp.World.Wire.{Platform, Field, u8, u32, chars, rpc, send}
use opensamp.Bridge.Read.{
  Handler, when_some, ignore_bits, read_word, read_packed_bool, read_chars, try_bool, junk,
}
use opensamp.Bridge.Players.{copy_name}
use opensamp.Bridge.Gpci.{gpci}

-- The texts "0.3.7", and "_" of the name that replaces a bad one.
abbrev pub client_version : List ℕ
client_version = 48 ∷ 46 ∷ 51 ∷ 46 ∷ 55 ∷ []

abbrev pub underscore : ℕ
underscore = b'_'

abbrev pub netgame_version : ℕ
netgame_version = 4057

-- A change to the session's part of the state.
abbrev pub on_session : (Session → Session) → World → World
on_session f w = record w { session = f w.session }

-- resetPools: memset over sizeof(stPlayerInfo) bytes, which is the first entry.
unfoldable pub reset_pools : World → World
reset_pools = set_player 0 (λ q. zero_player)

same_text : List ℕ → List ℕ → Bool
same_text [] [] = true
same_text [] (d ∷ ds) = false
same_text (c ∷ cs) [] = false
same_text (c ∷ cs) (d ∷ ds) = (c == d) && same_text cs ds

-- The loop over AuthKeyTable: the last entry that matches.
unfoldable pub find_key : List ℕ → List (List ℕ × List ℕ) → Option (List ℕ) → Option (List ℕ)
unfolding same_text
find_key name [] found = found
find_key name ((k, v) ∷ es) found = find_key name es (if same_text name k then some v else found)

-- The reply of Packet_AUTH_KEY.
unfoldable pub answer_auth : Option (List ℕ) → World → World
answer_auth none w = w
answer_auth (some key) w =
    emit (send (u8 12 ∷ u8 (length key % 2 ^ 8) ∷ chars (take (length key % 2 ^ 8) key) ∷ [])) w

-- Packet_AUTH_KEY: the name stands behind the first two bytes of the packet.
unfoldable pub auth_key : Platform → List ℕ → World → World
auth_key p bytes w = answer_auth (find_key (c_str (drop 2 bytes)) p.auth_keys none) w

-- strcpy into g_szNickName.
unfoldable pub rename : List ℕ → World → World
rename name w =
    if fits w.nick name then record w { nick = strcpy w.nick name } else record w { overrun = true }

module _ (p : Platform) where
  -- The body of the ClientJoin RPC.
  unfoldable pub join_body : List ℕ → ℕ → List Field
  join_body nick challenge =
      u32 netgame_version
      ∷ u8 1
      ∷ u8 (length nick)
      ∷ chars nick
      ∷ u32 (bit_xor challenge netgame_version)
      ∷ u8 (length (gpci p.random_chars 0x3e9))
      ∷ chars (gpci p.random_chars 0x3e9)
      ∷ u8 (length client_version)
      ∷ chars client_version
      ∷ []

  -- Packet_ConnectionSucceeded. The id is used without a test.
  unfoldable pub connection_succeeded : Handler p Unit
  connection_succeeded = do
    ignore_bits p 8
    ignore_bits p 32
    ignore_bits p 16
    id ← read_word p 16 (junk p 0 16)
    modify (on_session (λ s. record s { my_id = some id }))
    modify (set_player id (λ q. record q { is_connected = true }))
    modify (λ w. copy_name id (c_str w.nick) w)
    challenge ← read_word p 32 (junk p 1 32)
    modify (λ w. emit (rpc 25 (join_body (c_str w.nick) challenge)) w)
    modify (on_session (λ s. record s { connected = true }))

  -- The reads of InitGame before the number of spawns; none is kept.
  unfoldable pub read_rules : Handler p Unit
  read_rules = do
    zone_names ← read_packed_bool p (p.stack_flag 0)
    cj_walk ← read_packed_bool p (p.stack_flag 1)
    allow_weapons ← read_packed_bool p (p.stack_flag 2)
    limit_chat ← read_packed_bool p (p.stack_flag 3)
    chat_radius ← read_word p 32 (junk p 0 32)
    stunt_bonus ← read_packed_bool p (p.stack_flag 4)
    tag_distance ← read_word p 32 (junk p 1 32)
    disable_exits ← read_packed_bool p (p.stack_flag 5)
    tag_los ← read_packed_bool p (p.stack_flag 6)
    manual_engine ← read_packed_bool p (p.stack_flag 7)
    pure tt

  -- The reads of InitGame between the player id and the bits that it skips; none is kept.
  unfoldable pub read_settings : Handler p Unit
  read_settings = do
    show_tags ← read_packed_bool p (p.stack_flag 8)
    show_markers ← read_word p 32 (junk p 3 32)
    time ← read_word p 8 (junk p 4 8)
    weather ← read_word p 8 (junk p 5 8)
    gravity ← read_word p 32 (junk p 6 32)
    lan_mode ← read_packed_bool p (p.stack_flag 9)
    drop_money ← read_word p 32 (junk p 7 32)
    instagib ← read_packed_bool p (p.stack_flag 10)
    pure tt

  -- The reads of InitGame up to the bits that it skips, with the player id that it keeps.
  unfoldable pub read_init : Handler p ℕ
  read_init = do
    read_rules
    available ← gets (λ w. w.spawns_available)
    spawns ← read_word p 32 available
    modify (λ w. record w { spawns_available = spawns })
    id ← read_word p 16 (junk p 2 16)
    read_settings
    pure id

  -- The server's name, in g_szHostName: cleared and read when it has a length.
  unfoldable pub read_host_name : ℕ → Handler p Unit
  read_host_name len =
      if len == 0 then modify (λ w. record w { host_name = strcpy w.host_name [] }) else (do
        name ← read_chars p len (replicate len 0)
        modify (λ w. record w { host_name = strcpy (replicate 256 0) name }))

  -- The rest of InitGame, behind the skipped bits.
  unfoldable pub finish_init : ℕ → Bool → Handler p Unit
  finish_init id lag = do
    modify (λ w. record w { lag_compensation = lag })
    unknown1 ← read_word p 8 (junk p 8 8)
    unknown2 ← read_word p 8 unknown1
    unknown3 ← read_word p 8 unknown2
    len ← read_word p 8 (junk p 9 8)
    read_host_name len
    models ← read_chars p 212 (p.stack_chars 0 212)
    modify (on_session (λ s. record s { my_id = some id; game_inited = true }))

  -- InitGame. Two ways out leave the game not inited: too few bits to skip, no lag flag behind.
  unfoldable pub init_game : Handler p Unit
  init_game = do
    kept ← read_init
    left ← reads (λ s. (p.unread_bits s, s))
    if ltb left 128
        then pure tt
        else do ignore_bits p 128; lag ← try_bool p; when_some p lag (finish_init kept)

  -- ConnectionRejected. A bad nickname is made longer by "_" and four random characters and put
  -- into g_szNickName with no test of its room; gen_random writes its terminator behind the four.
  unfoldable pub connection_rejected : Handler p Unit
  connection_rejected = do
    reason ← read_word p 8 (junk p 0 8)
    (if reason == 2
        then modify (λ w. reset_pools (rename (c_str w.nick ++ underscore ∷ p.random_suffix) w))
        else pure tt)
