-- ===== src/Bridge/Reads.antt =====
-- The reads of the handlers in native/sampraknet_bridge.cpp change no global, so each keeps every
-- property of the state.
use opensamp.Prelude.{ℕ, Bool, false, List, Option, none, some, zero, suc, leb, ◌≡◌, ◌<◌, arith}
use opensamp.Prelude.Action.{
  Keeps, keeps_rules, Keeps-bind, Keeps-then, Keeps-if, Keeps-pure, modify,
}
use opensamp.Bridge.Players.{score_entries}
use opensamp.World.{set_player, max_players}
use opensamp.World.{World}
use opensamp.World.Wire.{Platform, Vec, Quat}
use opensamp.Bridge.Read.{
  Handler, when_some, ignore_bits, read_word, read_bool, read_packed_bool, read_chars, try_chars,
  try_bool, read_quat, read_vec, read_floats,
}
use opensamp.Bridge.Sync.{
  packet_player, mark, mark_all, read_word_if, read_surf, read_on_foot, read_train, read_in_car,
}
use opensamp.Bridge.Join.{read_rules, read_settings}
use opensamp.Bridge.Scenery.{read_caption}

module _ (p : Platform) {P : World → Type 0} where
  pub ignore_bits-Keeps : (n : ℕ) → Keeps P (ignore_bits p n)
  unfolding ignore_bits
  ignore_bits-Keeps n = search keeps_rules

  pub read_word-Keeps : (n old : ℕ) → Keeps P (read_word p n old)
  unfolding read_word
  read_word-Keeps n old = search keeps_rules

  pub read_bool-Keeps : (old : Bool) → Keeps P (read_bool p old)
  unfolding read_bool
  read_bool-Keeps old = search keeps_rules

  pub read_packed_bool-Keeps : (old : Bool) → Keeps P (read_packed_bool p old)
  unfolding read_packed_bool
  read_packed_bool-Keeps old = search keeps_rules

  pub read_chars-Keeps : (n : ℕ) (old : List ℕ) → Keeps P (read_chars p n old)
  unfolding read_chars
  read_chars-Keeps n old = search keeps_rules

  pub try_chars-Keeps : (n : ℕ) → Keeps P (try_chars p n)
  unfolding try_chars
  try_chars-Keeps n = search keeps_rules

  pub try_bool-Keeps : Keeps P (try_bool p)
  unfolding try_bool
  try_bool-Keeps = search keeps_rules

  pub when_some-Keeps :
      {A : Type 0} (o : Option A) (h : A → Handler p Unit)
      → ((a : A) → Keeps P (h a))
      → Keeps P (when_some p o h)
  unfolding when_some
  when_some-Keeps none h k = Keeps-pure tt
  when_some-Keeps (some a) h k = k a

  pub read_quat-Keeps : (old : Quat) → Keeps P (read_quat p old)
  unfolding read_quat
  read_quat-Keeps old = search keeps_rules

  pub read_vec-Keeps : (old : Vec) → Keeps P (read_vec p old)
  unfolding read_vec
  read_vec-Keeps old = search keeps_rules

in_table : (id : ℕ) → leb max_players id ≡ false → id < max_players
in_table id e = ground arith

pub ruleset word_reads = (
  keeps_rules, ignore_bits-Keeps, read_word-Keeps, read_bool-Keeps, read_packed_bool-Keeps,
  read_chars-Keeps, try_chars-Keeps, try_bool-Keeps, when_some-Keeps, read_quat-Keeps,
  read_vec-Keeps,
)

module _ (p : Platform) {P : World → Type 0} where
  pub read_floats-Keeps : (old : Vec) → Keeps P (read_floats p old)
  unfolding read_floats
  read_floats-Keeps old = search word_reads depth 12

  pub packet_player-Keeps : Keeps P (packet_player p)
  unfolding packet_player
  packet_player-Keeps = search word_reads

  pub read_word_if-Keeps : (flag : Bool) (n : ℕ) → Keeps P (read_word_if p flag n)
  unfolding read_word_if
  read_word_if-Keeps flag n = search word_reads

  pub read_surf-Keeps : (flag : Bool) → Keeps P (read_surf p flag)
  unfolding read_surf
  read_surf-Keeps flag = search (word_reads, read_floats-Keeps) depth 12

  pub read_train-Keeps : (flag : Bool) → Keeps P (read_train p flag)
  unfolding read_train
  read_train-Keeps flag = search word_reads

pub ruleset field_reads =
    (word_reads, read_floats-Keeps, read_word_if-Keeps, read_surf-Keeps, read_train-Keeps)

module _ (p : Platform) {P : World → Type 0} where
  pub read_on_foot-Keeps : Keeps P (read_on_foot p)
  unfolding read_on_foot
  read_on_foot-Keeps = search field_reads depth 40

  pub read_in_car-Keeps : Keeps P (read_in_car p)
  unfolding read_in_car
  read_in_car-Keeps = search field_reads depth 40

  pub read_caption-Keeps : (len : ℕ) (old : List ℕ) → Keeps P (read_caption p len old)
  unfolding read_caption
  read_caption-Keeps len old = search word_reads

  pub read_rules-Keeps : Keeps P (read_rules p)
  unfolding read_rules
  read_rules-Keeps = search word_reads depth 40

  pub read_settings-Keeps : Keeps P (read_settings p)
  unfolding read_settings
  read_settings-Keeps = search word_reads depth 40

  -- The loops keep what one round keeps, at an id within the table.
  pub mark_all-Keeps :
      ((id : ℕ) (active : Bool) (before : Vec)
        → id < max_players
        → Keeps P (mark p id active before))
      → (n id : ℕ) (active : Bool) (before : Vec) → Keeps P (mark_all p n id active before)
  unfolding mark_all
  mark_all-Keeps round zero id active before = Keeps-pure tt
  mark_all-Keeps round (suc n) id active before = Keeps-bind _ _ (read_word-Keeps p 16 _) λ id'.
      Keeps-if (leb max_players id') _ _ (λ e. Keeps-pure tt)
        λ e. Keeps-bind _ _ (read_packed_bool-Keeps p _) λ active'.
          Keeps-bind _ _ (round id' active' before (in_table id' e))
            (λ at. mark_all-Keeps round n id' active' at)

  pub score_entries-Keeps :
      ((id score ping : ℕ)
        → id < max_players
        → Keeps {T = p.Stream} P
            (modify (set_player id (λ q. record q { score = score; ping = ping }))))
      → (n id score ping : ℕ) → Keeps P (score_entries p n id score ping)
  unfolding score_entries
  score_entries-Keeps round zero id score ping = Keeps-pure tt
  score_entries-Keeps round (suc n) id score ping = Keeps-bind _ _ (read_word-Keeps p 16 _) λ id'.
      Keeps-bind _ _ (read_word-Keeps p 32 _) λ score'.
        Keeps-bind _ _ (read_word-Keeps p 32 _) λ ping'.
          Keeps-then _ _
            (Keeps-if (leb max_players id') _ _ (λ e. Keeps-pure tt)
              (λ e. round id' score' ping' (in_table id' e)))
            (score_entries-Keeps round n id' score' ping')

pub ruleset reads_keep = (
  field_reads, read_rules-Keeps, read_settings-Keeps, packet_player-Keeps, read_on_foot-Keeps,
  read_in_car-Keeps, read_caption-Keeps,
)
