-- ===== src/Bridge/Senders.antt =====
-- What native/sampraknet_bridge.cpp sends: chat, commands, dialog answers, and the
-- synchronisation of the local player.
pub mod Notices
use opensamp.Prelude.{
  ℕ, ◌+◌, ◌-◌, ◌*◌, ◌/◌, ◌%◌, ◌^◌, Bool, false, ◌&&◌, not, List, [], ◌∷◌, ◌++◌, Option, none, some,
  get_elem?, get_or, length, take, drop, leb, ltb, ◌==◌, if◌then◌else◌,
}
use Prim.Native.Nat.{min}
use opensamp.Prelude.Bytes.{c_str}
use opensamp.Dialog.{Reply}
use opensamp.World.{World, Ped, max_players, max_vehicles, set_player, emit}
use opensamp.Encoding.{utf8_to_cp1251}
use opensamp.World.Wire.{
  Platform, Vec, Quat, Field, u8, u16, u32, packed_bool, chars, quat, vec, rpc, send,
}
use opensamp.Bridge.Sync.Nibble.{pack4}

-- A difference of two readings of GetTickCount.
abbrev pub sub32 : ℕ → ℕ → ℕ
sub32 a b = (a + 2 ^ 32 - b) % 2 ^ 32

module _ (p : Platform) where
  -- sendChat: at most 255 bytes of the converted text.
  unfoldable pub chat_call : List ℕ → World → World
  chat_call text w =
      let payload = utf8_to_cp1251 p.code_pages text in
      let len = min (length payload) 255 in
      emit (rpc 101 (u8 len ∷ (if ltb 0 len then chars (take len payload) ∷ [] else []))) w

  -- bridge::SendChat.
  unfoldable pub send_chat : List ℕ → World → World
  send_chat text w = if w.connected then chat_call text w else w

  -- bridge::SendCommand, with sendServerCommand.
  unfoldable pub send_command : List ℕ → World → World
  send_command text w =
      if w.connected
      then (let payload = c_str (utf8_to_cp1251 p.code_pages text) in
          emit (rpc 50 (u32 (length payload) ∷ chars payload ∷ [])) w)
      else w

  -- bridge::SendDialogResponse, with sendDialogResponse: at most 128 bytes of the input.
  unfoldable pub send_reply : Reply → World → World
  send_reply r w =
      if w.connected
      then (let payload = utf8_to_cp1251 p.code_pages r.text in
          let len = min (length payload) 128 in
          emit
            (rpc 62 (
              u16 r.id
              ∷ u8 r.button
              ∷ u16 r.list_item
              ∷ u8 len
              ∷ (if ltb 0 len then chars (take len payload) ∷ [] else [])))
            w)
      else w

-- The test by which SendOnFootFullSyncData and SendAimSyncData wait: the last time is not zero,
-- and smaller than the time less the rate.
abbrev pub is_due : ℕ → ℕ → ℕ → Bool
is_due last now rate = not (last == 0) && ltb last (sub32 now rate)

-- sampRequestClass, for the class 0 that iClassID holds.
unfoldable pub request_class_call : World → World
request_class_call = emit (rpc 128 (u32 0 ∷ []))

-- Four bytes written into a raw record, the lowest first.
unfoldable pub put_word : ℕ → ℕ → List ℕ → List ℕ
put_word i v bytes =
    take i bytes
    ++ (v % 2 ^ 8)
      ∷ (v / 2 ^ 8 % 2 ^ 8)
      ∷ (v / 2 ^ 16 % 2 ^ 8)
      ∷ (v / 2 ^ 24 % 2 ^ 8)
      ∷ drop (i + 4) bytes

unfoldable pub put_byte : ℕ → ℕ → List ℕ → List ℕ
put_byte i v bytes = take i bytes ++ v ∷ drop (i + 1) bytes

-- byteWeaponState: the upper two bits of byte 29 of AIM_SYNC_DATA.
unfoldable pub put_weapon_state : ℕ → List ℕ → List ℕ
unfolding put_byte
put_weapon_state v bytes = put_byte 29 (get_or (get_elem? bytes 29) 0 % 2 ^ 6 + v % 4 * 2 ^ 6) bytes

-- The index by which the code reaches its own entry; for -1 it is outside the table.
abbrev pub my_index : World → ℕ
my_index w = elim w.my_id [ none ↦ max_players | some id ↦ id ]

-- The readings of GetTickCount in one run of a sender: at its test, and at its end.
pub record Clock : Type 0 where
  pub test : ℕ
  pub stamp : ℕ

-- What inCarUpdate reads of the local player's vehicle.
pub record Vehicle : Type 0 where
  pub rotation : Quat
  pub position : Vec
  pub speed : Vec
  pub health : ℕ

-- The last part of SendAimSyncData for copyFromPlayer = -1, with WS_RELOADING and WS_MORE_BULLETS.
unfoldable pub send_aim : Clock → ℕ → Bool → World → World
send_aim t ammo reloading w =
    let state = if reloading then 3 else if ltb 1 ammo then 2 else ammo in
    let w' =
      set_player (my_index w)
        (λ q. record q { aim = put_byte 30 0x55 (put_weapon_state state q.aim) }) w in
    if is_due w.last_aim_tick t.test 40
    then record (emit (send (u8 203 ∷ chars (w'.players (my_index w)).aim ∷ [])) w') {
      last_aim_tick = t.stamp;
    }
    else w

-- The pattern of 0.1f.
abbrev pub float_tenth : ℕ
float_tenth = 0x3dcccccd

abbrev pub float_half : ℕ
float_half = 0x3f000000

-- The aim that onFootUpdateAtNormalPos and spectatorUpdate put into the local player's entry.
unfoldable pub aim_ahead : Vec → List ℕ → List ℕ
unfolding put_byte put_word
aim_ahead at bytes = put_word 21 at.z (
    put_word 17 at.y (
      put_word 13 at.x (
        put_word 9 float_tenth
          (put_word 5 float_tenth (put_word 1 float_tenth (put_byte 0 4 bytes))))))

module _ (p : Platform) where
  -- The record that SendOnFootFullSyncData sends for onFootUpdateAtNormalPos. Its position is
  -- taken from the own entry of the player table, and so replaces the one that was passed in.
  unfoldable pub on_foot_fields : World → List Field
  on_foot_fields w =
      let mine = (w.players (my_index w)).on_foot in
      u16 0
      ∷ u16 0
      ∷ u16 0
      ∷ u32 (p.add_half mine.pos.x)
      ∷ u32 (p.add_half mine.pos.y)
      ∷ u32 mine.pos.z
      ∷ u32 0
      ∷ u32 0
      ∷ u32 0
      ∷ u32 w.rot
      ∷ u8 (p.int_of_float w.health % 2 ^ 8)
      ∷ u8 (p.int_of_float w.armour % 2 ^ 8)
      ∷ u8 0
      ∷ u8 0
      ∷ u32 float_half
      ∷ u32 float_half
      ∷ u32 mine.move_speed.z
      ∷ u32 0
      ∷ u32 0
      ∷ u32 0
      ∷ u16 0
      ∷ u32 0
      ∷ []

  -- SendOnFootFullSyncData, without a death notice.
  unfoldable pub send_on_foot : Clock → World → World
  send_on_foot t w =
      if is_due w.last_on_foot_tick t.test 50
      then record (emit (send (u8 207 ∷ on_foot_fields w)) w) { last_on_foot_tick = t.stamp }
      else w

  -- onFootUpdateAtNormalPos.
  unfoldable pub on_foot_update : Clock → Clock → World → World
  on_foot_update t t' w =
      let w' = send_on_foot t w in
      send_aim t' 0 false
        (set_player (my_index w') (λ q. record q { aim = aim_ahead w'.pos q.aim }) w')

  -- The packet of inCarUpdate.
  unfoldable pub in_car_fields : ℕ → Vehicle → Ped → List Field
  in_car_fields id v q =
      u8 200
      ∷ u16 id
      ∷ u16 0
      ∷ u16 0
      ∷ u16 0
      ∷ quat v.rotation
      ∷ u32 v.position.x
      ∷ u32 v.position.y
      ∷ u32 v.position.z
      ∷ vec v.speed
      ∷ u16 (p.int_of_float v.health % 2 ^ 16)
      ∷ u8 (pack4 (p.int_of_float q.health) (p.int_of_float q.armour))
      ∷ u8 0
      ∷ packed_bool false
      ∷ packed_bool false
      ∷ packed_bool false
      ∷ packed_bool false
      ∷ u32 0
      ∷ packed_bool false
      ∷ []

  -- The guards of inCarUpdate on the rate, and the packet.
  unfoldable pub drive : Clock → Vehicle → Ped → World → World
  drive t v q w =
      if not (w.last_in_car_tick == 0) && leb (sub32 t.test 40) w.last_in_car_tick
      then w
      else record (emit (send (in_car_fields w.vehicle_id v q)) w) { last_in_car_tick = t.stamp }

  -- inCarUpdate.
  unfoldable pub in_car_update : Clock → Option Vehicle → World → World
  in_car_update t none w = w
  in_car_update t (some v) w =
      if leb max_vehicles w.vehicle_id then w else elim w.ped [ none ↦ w | some q ↦ drive t v q w ]
