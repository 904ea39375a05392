-- ===== src/Bridge/Players.antt =====
-- The RPC handlers of native/sampraknet_bridge.cpp that keep the player table, and the two that
-- show what players and the server say.
use opensamp.Prelude.{
  ℕ, zero, suc, ◌/◌, ◌^◌, true, false, ◌&&◌, not, List, [], replicate, ltb, leb, ◌==◌,
  if◌then◌else◌,
}
use opensamp.Prelude.Action.{pure, modify, ◌>>=◌, ◌>>◌}
use opensamp.Prelude.Bytes.{c_str, strcpy, strncpy, zero_first, fits}
use opensamp.World.{World, max_players, set_player, hang, say, client_message, chat}
use opensamp.Encoding.{cp1251_to_utf8}
use opensamp.World.Wire.{Platform, zero_vec}
use opensamp.Bridge.Read.{Handler, read_word, read_chars, read_floats, junk}
use opensamp.Bridge.Call.{when_inited}

-- strcpy into a player's name. Text with no room for it is recorded as an overrun.
unfoldable pub copy_name : ℕ → List ℕ → World → World
copy_name id name w =
    if fits (w.players id).name name
    then set_player id (λ q. record q { name = strcpy q.name name }) w
    else record w { overrun = true }

module _ (p : Platform) where
  -- ServerJoin.
  unfoldable pub server_join : Handler p Unit
  server_join = when_inited p (do
    id ← read_word p 16 (junk p 0 16)
    unknown ← read_word p 32 0
    is_npc ← read_word p 8 0
    len ← read_word p 8 0
    if ltb 20 len then pure tt else do
      name ← read_chars p len (p.stack_chars 0 len)
      if leb max_players id then pure tt else do
        modify (set_player id (λ q. record q { is_connected = true }))
        modify (copy_name id (c_str name)))

  -- ServerQuit.
  unfoldable pub server_quit : Handler p Unit
  server_quit = when_inited p (do
    id ← read_word p 16 (junk p 0 16)
    reason ← read_word p 8 (junk p 1 8)
    if leb max_players id
        then pure tt
        else modify
            (set_player id λ q. record q { is_connected = false; name = zero_first 20 q.name }))

  -- WorldPlayerAdd.
  unfoldable pub world_player_add : Handler p Unit
  world_player_add = when_inited p (do
    id ← read_word p 16 (junk p 0 16)
    team ← read_word p 8 0
    skin ← read_word p 32 0
    at ← read_floats p (record { x = junk p 1 32; y = junk p 2 32; z = junk p 3 32 })
    rotation ← read_word p 32 0
    color ← read_word p 32 0
    fighting_style ← read_word p 8 4
    if leb max_players id
        then pure tt
        else modify (
            set_player id λ q. record q {
              is_streamed_in = true;
              on_foot = record q.on_foot { pos = at };
              in_car = record q.in_car { pos = at };
            }))

  -- WorldPlayerRemove.
  unfoldable pub world_player_remove : Handler p Unit
  world_player_remove = when_inited p (do
    id ← read_word p 16 0
    if leb max_players id
        then pure tt
        else modify (
            set_player id λ q. record q {
              is_streamed_in = false;
              in_car = record q.in_car { pos = zero_vec };
            }))

  -- One entry of UpdateScoresPingsIPs. The three locals outlive the rounds: what a read leaves
  -- alone is what the round before had.
  unfoldable pub score_entries : ℕ → ℕ → ℕ → ℕ → Handler p Unit
  score_entries zero id score ping = pure tt
  score_entries (suc n) id score ping = do
    id' ← read_word p 16 id
    score' ← read_word p 32 score
    ping' ← read_word p 32 ping
    (if leb max_players id'
        then pure tt
        else modify (set_player id' (λ q. record q { score = score'; ping = ping' })))
    score_entries n id' score' ping'

  -- UpdateScoresPingsIPs. The counter of the loop is a PLAYERID of 16 bits, which never comes to a
  -- count of 2 ^ 16 or more.
  unfoldable pub update_scores : ℕ → Handler p Unit
  update_scores bits = when_inited p (
      let count = bits / 8 / 9 in
      if ltb count (2 ^ 16)
      then score_entries count (junk p 0 16) (junk p 1 32) (junk p 2 32)
      else modify hang)

  -- ScrSetPlayerName.
  unfoldable pub set_player_name : Handler p Unit
  set_player_name = do
    id ← read_word p 16 0
    len ← read_word p 8 0
    if leb 64 len then pure tt else do
      name ← read_chars p len []
      success ← read_word p 8 0
      if not (success == 0) && ltb id max_players
          then modify (
              set_player id λ q. record q {
                name = strncpy q.name (cp1251_to_utf8 p.code_pages (c_str name)) 23;
              })
          else pure tt

  -- ClientMessage. The text is converted with any zeros in it; a longer one is dropped.
  unfoldable pub show_client_message : Handler p Unit
  show_client_message = do
    color ← read_word p 32 (junk p 0 32)
    len ← read_word p 32 (junk p 1 32)
    if ltb 256 len then pure tt else do
      text ← read_chars p len (replicate len 0)
      modify (say (client_message (c_str (cp1251_to_utf8 p.code_pages text))))

  -- Chat.
  unfoldable pub show_chat : Handler p Unit
  show_chat = when_inited p (do
    id ← read_word p 16 (junk p 0 16)
    len ← read_word p 8 (junk p 1 8)
    text ← read_chars p len (replicate len 0)
    if leb max_players id
        then pure tt
        else modify (λ w.
          say (chat (c_str (w.players id).name) (c_str (cp1251_to_utf8 p.code_pages text))) w))
