-- ===== src/Gui/Input.antt =====
-- Who gets the input: HookWndProc in native/gui/imgui_manager.cpp, native/input_guard.cpp, and
-- ImGuiChat::SetActive in native/gui/chat.hpp.
pub mod Silence
use opensamp.Prelude.{ℕ, Bool, true, false, not, ◌&&◌, ◌||◌, List, [], leb, ◌==◌, if◌then◌else◌}

-- The members of ImGuiChat that say whether it is open, and whether its window was unfocused.
pub record Chat : Type 0 where
  pub active : Bool
  pub scroll_to_bottom : Bool
  pub want_focus : Bool
  pub input : List ℕ
  pub unfocused : Bool

-- The chat, whether a dialog is up, and g_imgui_init.
pub record Surfaces : Type 0 where
  pub chat : Chat
  pub dialog_active : Bool
  pub imgui_init : Bool

-- ImGuiChat::SetActive.
unfoldable pub set_active : Bool → Chat → Chat
set_active true c =
    if c.active then c else record c { active = true; scroll_to_bottom = true; want_focus = true }
set_active false c =
    if c.active
    then record c { active = false; want_focus = false; input = []; unfocused = true }
    else c

-- ImGuiChat::RequestFocus.
unfoldable pub request_focus : Chat → Chat
request_focus c = record c { want_focus = true }

-- modal_active.
unfoldable pub modal_active : Surfaces → Bool
modal_active u = u.dialog_active || u.chat.active

-- hk_GetAsyncKeyState, for what the system's function answers, if it is there.
unfoldable pub get_async_key_state : Surfaces → Bool → ℕ → ℕ
get_async_key_state u there pressed = if modal_active u then 0 else if there then pressed else 0

-- What hk_SetCursorPos returns, and whether the system's function is called.
unfoldable pub set_cursor_pos : Surfaces → Bool → Bool → Bool × Bool
set_cursor_pos u there moved =
    if modal_active u then (true, false) else if there then (moved, true) else (false, false)

abbrev pub wm_keydown : ℕ
wm_keydown = 0x100

abbrev pub key_t : ℕ
key_t = 0x54

abbrev pub vk_escape : ℕ
vk_escape = 0x1b

-- The messages of the keyboard and of input methods.
abbrev pub is_keyboard : ℕ → Bool
is_keyboard msg =
    msg == 0x100
    || msg == 0x101
    || msg == 0x104
    || msg == 0x105
    || msg == 0x102
    || msg == 0x106
    || msg == 0x10d
    || msg == 0x10f
    || msg == 0x10e

-- WM_MOUSEFIRST to WM_MOUSELAST.
abbrev pub is_mouse : ℕ → Bool
is_mouse msg = leb 0x200 msg && leb msg 0x20e

-- The answer that HookWndProc gives itself, or the call of the game's own procedure.
pub data Verdict : Type 0 where
  answered : Bool → Verdict
  passed_on : Verdict

-- The part of HookWndProc behind the call of ImGui's handler, with what that has answered.
unfoldable pub swallow : Bool → ℕ → Surfaces → Verdict
swallow handled msg u =
    if (u.chat.active || u.dialog_active) && (is_keyboard msg || (u.dialog_active && is_mouse msg))
    then answered handled
    else passed_on

-- HookWndProc, where ImGui is there.
unfoldable pub route_message : (ℕ → ℕ → Bool) → ℕ → ℕ → Surfaces → Verdict × Surfaces
route_message handler msg w_param u =
    if msg == wm_keydown && (not u.dialog_active && not u.chat.active && w_param == key_t)
    then (answered false, record u { chat = request_focus (set_active true u.chat) })
    else if msg == wm_keydown && (u.chat.active && w_param == vk_escape)
    then (answered false, record u { chat = set_active false u.chat })
    else (swallow (handler msg w_param) msg u, u)

-- HookWndProc.
unfoldable pub hook_wnd_proc : (ℕ → ℕ → Bool) → ℕ → ℕ → Surfaces → Verdict × Surfaces
hook_wnd_proc handler msg w_param u =
    if u.imgui_init then route_message handler msg w_param u else (passed_on, u)
