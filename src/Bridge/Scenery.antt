-- ===== src/Bridge/Scenery.antt =====
-- The RPC handlers of native/sampraknet_bridge.cpp for the scene: checkpoint, weather, clock,
-- gravity, camera, texts on the screen, and the dialog.
use opensamp.Prelude.{
  ℕ, get_elem?, get_or, ◌+◌, Bool, ltb, not, ◌&&◌, true, false, List, ◌∷◌, ◌++◌, take, drop, leb,
  ◌==◌, if◌then◌else◌,
}
use opensamp.Prelude.Action.{pure, modify, gets, reads, ◌>>=◌, ◌>>◌}
use opensamp.Prelude.Bytes.{c_str}
use opensamp.Dialog.{show, hide, style_of}
use opensamp.World.{
  World, Line, DialogBox, Scene, call_engine, say, game_text, audio_stream, text_draw,
  selectable_text_draw, killed_by, died, unnamed_death, max_players, set_gravity, set_weather,
  set_time, camera_at, camera_restore,
}
use opensamp.Encoding.{cp1251_to_utf8}
use opensamp.World.Wire.{Platform, zero_vec}
use opensamp.Bridge.Read.{Handler, when_some, read_word, read_chars, try_chars, read_floats, junk}
use opensamp.Bridge.Call.{when_inited}

abbrev pub on_scene : (Scene → Scene) → World → World
on_scene f w = record w { scene = f w.scene }

-- ScrDeathMessage, whether an id is one of the player table.
abbrev has_name : ℕ → Bool
has_name id = ltb id max_players && not (id == 0xffff)

-- The line of ScrDeathMessage, with the names that the player table has for the two ids.
unfoldable pub death_line : ℕ → ℕ → ℕ → World → Line
death_line killer killed weapon w =
    if has_name killed
    then (if has_name killer
        then killed_by (c_str (w.players killer).name) (c_str (w.players killed).name) weapon
        else died (c_str (w.players killed).name) weapon)
    else unnamed_death killer killed weapon

module _ (p : Platform) where
  -- SetCheckpoint.
  unfoldable pub set_checkpoint : Handler p Unit
  set_checkpoint = when_inited p (do
    old ← gets (λ w. w.checkpoint)
    at ← read_floats p old.position
    size ← read_word p 32 old.size
    modify λ w. record w { checkpoint = record { is_active = true; position = at; size = size } })

  -- DisableCheckpoint.
  unfoldable pub disable_checkpoint : Handler p Unit
  disable_checkpoint =
      when_inited p
        (modify (λ w. record w { checkpoint = record w.checkpoint { is_active = false } }))

  -- ScrSetGravity.
  unfoldable pub change_gravity : Handler p Unit
  change_gravity = do
    g ← read_word p 32 0
    modify (on_scene (λ s. record s { gravity = g }))
    modify (call_engine (set_gravity g))

  -- ScrSetWorldBounds: maximum and minimum of x, then of y.
  unfoldable pub set_bounds : Handler p Unit
  set_bounds = do
    old ← gets (λ w. w.scene.bounds)
    x_max ← read_word p 32 old.x_max
    x_min ← read_word p 32 old.x_min
    y_max ← read_word p 32 old.y_max
    y_min ← read_word p 32 old.y_min
    modify (
        on_scene λ s. record s {
          bounds = record { x_max = x_max; x_min = x_min; y_max = y_max; y_min = y_min };
        })

  -- Weather.
  unfoldable pub change_weather : Handler p Unit
  change_weather = do
    v ← read_word p 8 0
    modify (on_scene (λ s. record s { weather = v }))
    modify (call_engine (set_weather v))

  -- WorldTime.
  unfoldable pub world_time : Handler p Unit
  world_time = do
    h ← read_word p 8 0
    modify (on_scene (λ s. record s { hour = h; time_known = true }))
    modify (λ w. call_engine (set_time h w.scene.minute) w)

  -- SetTimeEx.
  unfoldable pub set_time_ex : Handler p Unit
  set_time_ex = do
    h ← read_word p 8 0
    m ← read_word p 8 0
    modify (on_scene (λ s. record s { hour = h; minute = m; time_known = true }))
    modify (call_engine (set_time h m))

  -- ToggleClock.
  unfoldable pub toggle_clock : Handler p Unit
  toggle_clock = do c ← read_word p 8 0; modify (on_scene (λ s. record s { clock_enabled = c }))

  -- ScrSetCameraPos.
  unfoldable pub set_camera_pos : Handler p Unit
  set_camera_pos = do at ← read_floats p zero_vec; modify (call_engine (camera_at at))

  -- ScrSetCameraBehindPlayer.
  unfoldable pub camera_behind : Handler p Unit
  camera_behind = modify (call_engine camera_restore)

  -- ScrGameText. A length with its sign bit set is negative, and too large here as well.
  unfoldable pub show_game_text : Handler p Unit
  show_game_text = do
    type ← read_word p 32 (junk p 0 32)
    time ← read_word p 32 (junk p 1 32)
    len ← read_word p 32 (junk p 2 32)
    if leb 400 len
        then pure tt
        else do text ← read_chars p len (p.stack_chars 0 len); modify (say (game_text (c_str text)))

  -- ScrPlayAudioStream.
  unfoldable pub play_audio_stream : Handler p Unit
  play_audio_stream = do
    len ← read_word p 8 (junk p 0 8)
    url ← read_chars p len (p.stack_chars 0 len)
    modify (say (audio_stream (c_str url)))

  -- The text of ScrShowTextDraw and ScrEditTextDraw, in a buffer of 1024. One that can be selected is
  -- shown by a second line.
  unfoldable pub read_draw_text : Bool → ℕ → Handler p Unit
  read_draw_text selectable id = do
    len ← read_word p 16 0
    if leb 1024 len then pure tt else do
      text ← read_chars p len (p.stack_chars 0 len)
      modify (say (text_draw id (c_str text)))
      if selectable then modify (say (selectable_text_draw id (c_str text))) else pure tt

  -- ScrShowTextDraw: nothing for a packet with no room for the 63 bytes of TEXT_DRAW_TRANSMIT, of which
  -- the one at 32 is byteSelectable.
  unfoldable pub show_text_draw : Handler p Unit
  show_text_draw = do
    id ← read_word p 16 (junk p 0 16)
    style ← try_chars p 63
    when_some p style (λ bytes. read_draw_text (not (get_or (get_elem? bytes 32) 0 == 0)) id)

  -- ScrEditTextDraw.
  unfoldable pub edit_text_draw : Handler p Unit
  edit_text_draw = do id ← read_word p 16 (junk p 0 16); read_draw_text false id

  -- ScrDeathMessage.
  unfoldable pub death_message : Handler p Unit
  death_message = do
    killer ← read_word p 16 0
    killed ← read_word p 16 0
    weapon ← read_word p 8 0
    modify (λ w. say (death_line killer killed weapon w) w)

  -- A caption of ScrDialogBox: that many characters into its buffer, and a zero behind them. A
  -- failed read leaves in the buffer what stood there.
  unfoldable pub read_caption : ℕ → List ℕ → Handler p (List ℕ)
  read_caption len old = do
    cs ← read_chars p len (take len old)
    pure (cs ++ 0 ∷ drop (len + 1) old)

  -- The reads of ScrDialogBox.
  unfoldable pub read_dialog_box : DialogBox → Handler p DialogBox
  read_dialog_box old = do
    id ← read_word p 16 old.id
    style ← read_word p 8 old.style
    title_length ← read_word p 8 old.title_length
    title ← read_caption title_length old.title
    button1_length ← read_word p 8 old.button1_length
    button1 ← read_caption button1_length old.button1
    button2_length ← read_word p 8 old.button2_length
    button2 ← read_caption button2_length old.button2
    info ← reads (p.decode_string 4096)
    pure (record {
      id = id;
      style = style;
      title_length = title_length;
      title = title;
      button1_length = button1_length;
      button1 = button1;
      button2_length = button2_length;
      button2 = button2;
      info = info;
    })

  -- What Dialog::Show gets: the first bytes of a buffer in UTF-8, up to the first zero.
  unfoldable pub caption : ℕ → List ℕ → List ℕ
  caption len buffer = c_str (cp1251_to_utf8 p.code_pages (take len buffer))

  -- ScrDialogBox. Style 255 closes the dialog.
  unfoldable pub dialog_box_call : Handler p Unit
  dialog_box_call = do
    old ← gets (λ w. w.dialog_box)
    b ← read_dialog_box old
    modify (λ w. record w { dialog_box = b })
    if b.style == 255
        then modify (λ w. record w { dialog = hide w.dialog })
        else modify λ w. record w {
          dialog =
              show b.id (style_of b.style) (caption b.title_length b.title)
                (caption b.button1_length b.button1) (caption b.button2_length b.button2)
                (c_str (cp1251_to_utf8 p.code_pages (c_str b.info))) w.dialog;
        }
