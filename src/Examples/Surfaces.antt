-- ===== src/Examples/Surfaces.antt =====
-- A frame of the chat, and a device that is found, reset and presented.
use opensamp.Prelude.{ℕ, ◌+◌, ◌≡◌, ◌≢◌, refl, true, false, List, [], ◌∷◌, ◌++◌, none, some, arith}
use opensamp.Chat.{Route}
use opensamp.Chat.Window.{Window, Frame, draw_chat}
use opensamp.Chat.Window.History.{log, answers, draw_chat-log}
use opensamp.Engine.Device.{
  Device, Graphics, invalid_call, hk_reset, hk_present, hook_device, first_reset, call_reset,
  reset_done, capture_originals, capture_reset, capture_present, patch_slot, patch_ptr, put_slot,
  present_ui, watch,
}
use opensamp.Engine.Device.Linked.{IsDriver}
use opensamp.Engine.Device.Called.{
  Event, found, resets, presents, watches, writes, happen_all, IsFresh,
}
use opensamp.Engine.Device.Answered.{happen_all-answered}

abbrev open_chat : Window
open_chat = record {
  lines = record { text = b'a' ∷ []; ms = 1 } ∷ record { text = b'b' ∷ []; ms = 2 } ∷ [];
  out_commands = [];
  pending = (b'c' ∷ []) ∷ [];
  box = record {
    active = true;
    scroll_to_bottom = false;
    want_focus = true;
    input = [];
    unfocused = false;
  };
  visible_lines = 2;
}

abbrev typing : Frame
typing = record {
  clock = λ i. 100 + i;
  at_end = false;
  typed = b'/' ∷ b'/' ∷ b'c' ∷ b'o' ∷ b'n' ∷ b'n' ∷ b'e' ∷ b'c' ∷ b't' ∷ b' ' ∷ [];
  entered = true;
  deactivated = true;
}

abbrev silent : Route → List (List ℕ)
silent r = []

draw_chat-log_example :
    let r = draw_chat silent typing open_chat in
    (r.0 ≡ (b'b' ∷ []) ∷ (b'c' ∷ []) ∷ [])
    × (log r.2 ≡ log open_chat ++ answers silent r.1)
    × ((o : Route) → r.1 ≡ some o → (r.2.box.active ≡ false) × (r.2.box.input ≡ []))
draw_chat-log_example = draw_chat-log silent typing open_chat

abbrev card : Graphics
card = record {
  own_reset = 0x10000010;
  own_present = 0x10000020;
  table = λ d. d + 0x100;
  protects = λ t i. true;
  monitor = λ w. some (1920, 1080);
  iconic = λ w. false;
  focus_window = λ d. 0x30;
  reset = λ pp s. (true, s.slot);
}

card-IsDriver : IsDriver card
card-IsDriver = record {
  own_reset_there = omega arith;
  own_present_there = omega arith;
  fills = λ pp s h. h;
  leads_reset = λ pp s t h. h;
  leads_present = λ pp s t h. h;
}

abbrev fresh_device : Device
fresh_device = record {
  o_reset = 0;
  o_present = 0;
  dev = 0;
  hwnd = 0;
  hooked = false;
  borderless_applied = false;
  ui = false;
  in_reset = false;
  slot = λ t i. 0x5000;
  acts = [];
}

fresh_device-IsFresh : IsFresh card fresh_device
fresh_device-IsFresh = record {
  no_reset = refl;
  no_present = refl;
  no_device = refl;
  full = λ t i. omega arith;
  foreign = λ t i. (omega arith, omega arith);
}

abbrev device_events : List Event
device_events =
    found 1 ∷ resets 1 none ∷ writes 0x101 16 0x6000 ∷ presents 1 0x30 true ∷ watches 1 ∷ []

happen_all-answered_example :
    let k = happen_all card device_events fresh_device in
    ((hk_reset card 1 none k).0 ≢ invalid_call)
    × ((hk_present card 1 0x30 true k).0 ≢ invalid_call)
    × (k.o_reset ≢ 0x10000010)
    × (k.o_present ≢ 0x10000020)
unfolding hook_device hk_reset hk_present first_reset call_reset reset_done capture_originals
    capture_reset capture_present patch_slot patch_ptr put_slot present_ui watch
happen_all-answered_example =
    happen_all-answered card card-IsDriver device_events fresh_device 1 none 0x30 true
      fresh_device-IsFresh ((omega arith, omega arith, omega arith), tt) refl refl
