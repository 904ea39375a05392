-- ===== src/Engine/Device.antt =====
-- native/d3d.cpp: the two functions of the Direct3D device that the library takes over. An address of 0 is
-- null; a device that is called is one that is there.
pub mod Linked
pub mod Called
pub mod Answered
use opensamp.Prelude.{
  ℕ, zero, suc, ◌+◌, Bool, true, false, not, ◌&&◌, ◌||◌, List, [], ◌∷◌, Option, none, some, ltb,
  ◌==◌, if◌then◌else◌,
}

-- The fields of D3DPRESENT_PARAMETERS that are changed.
pub record Present : Type 0 where
  pub windowed : Bool
  pub refresh_rate : ℕ
  pub width : ℕ
  pub height : ℕ
  pub window : ℕ

-- What is done around the two functions.
pub data Act : Type 0 where
  borderless : ℕ → Act
  hook_window : ℕ → Act
  start_ui draw_ui invalidate_objects create_objects tick : Act
  viewport : ℕ → ℕ → Act
  original_reset original_present : ℕ → Act

-- g_oReset, g_oPresent, g_dev, g_hwnd, g_hooked, g_borderlessApplied, g_imgui_init and inReset, the tables of
-- virtual functions, and the acts, the last one first.
pub record Device : Type 0 where
  pub o_reset : ℕ
  pub o_present : ℕ
  pub dev : ℕ
  pub hwnd : ℕ
  pub hooked : Bool
  pub borderless_applied : Bool
  pub ui : Bool
  pub in_reset : Bool
  pub slot : ℕ → ℕ → ℕ
  pub acts : List Act

-- Windows and Direct3D: the addresses of hkReset and hkPresent, the table of a device, whether
-- VirtualProtect lets a slot be written, the size of the monitor of a window, whether a window is minimised,
-- the focus window that a device was made with, and what a call of the original Reset returns and leaves in
-- the tables.
pub record Graphics : Type 0 where
  pub own_reset : ℕ
  pub own_present : ℕ
  pub table : ℕ → ℕ
  pub protects : ℕ → ℕ → Bool
  pub monitor : ℕ → Option (ℕ × ℕ)
  pub iconic : ℕ → Bool
  pub focus_window : ℕ → ℕ
  pub reset : Option Present → Device → Bool × (ℕ → ℕ → ℕ)

-- What the two functions return.
pub data Returned : Type 0 where
  from_original : Bool → Returned
  invalid_call device_lost : Returned

abbrev pub act : Act → Device → Device
act a s = record s { acts = a ∷ s.acts }

unfoldable pub put_slot : ℕ → ℕ → ℕ → (ℕ → ℕ → ℕ) → ℕ → ℕ → ℕ
put_slot t i v f u j = if u == t && j == i then v else f u j

module _ (lib : Graphics) where
  -- PatchPtr.
  unfoldable pub patch_ptr : ℕ → ℕ → ℕ → Device → Bool × Device
  patch_ptr t i v s =
      if lib.protects t i then (true, record s { slot = put_slot t i v s.slot }) else (false, s)

  -- CaptureOriginals: the one of Reset, and then that of Present.
  unfoldable pub capture_reset : ℕ → Device → Device
  capture_reset t s =
      if s.o_reset == 0 && not (s.slot t 16 == 0) && not (s.slot t 16 == lib.own_reset)
      then record s { o_reset = s.slot t 16 }
      else s

  unfoldable pub capture_present : ℕ → Device → Device
  capture_present t s =
      if s.o_present == 0 && not (s.slot t 17 == 0) && not (s.slot t 17 == lib.own_present)
      then record s { o_present = s.slot t 17 }
      else s

  unfoldable pub capture_originals : ℕ → Device → Device
  capture_originals d s =
      let t = lib.table d in if t == 0 then s else capture_present t (capture_reset t s)

  -- A slot that is patched unless it is already, as HookDevice and HookThread do it.
  unfoldable pub patch_slot : ℕ → ℕ → ℕ → Device → Bool × Device
  patch_slot t i v s = if s.slot t i == v then (true, s) else patch_ptr t i v s

  abbrev pub patch_both : ℕ → Device → Bool × Device
  patch_both t s =
      let first = patch_slot t 16 lib.own_reset s in
      let second = patch_slot t 17 lib.own_present first.1 in (first.0 && second.0, second.1)

  -- HookDevice.
  unfoldable pub hook_device : ℕ → Device → Device
  hook_device d s =
      let t = lib.table d in
      let patched = patch_both t (capture_originals d s) in
      if d == 0 then s else if t == 0 then s else record patched.1 { hooked = patched.0 }

  -- GetMonitorSizeForWindow and FixupPresentParamsForBorderless, without a forced size: nothing in the
  -- program sets one. A size that is not positive is none.
  abbrev with_size : Option (ℕ × ℕ) → Present → Present
  with_size none pp = pp
  with_size (some (w, h)) pp =
      if ltb 0 w && ltb 0 h then record pp { width = w; height = h } else pp

  unfoldable pub fixup_present_params : ℕ → Present → Present
  fixup_present_params hwnd pp =
      let sized = with_size (lib.monitor hwnd) pp in
      record sized {
        windowed = true;
        refresh_rate = 0;
        window = if hwnd == 0 then pp.window else hwnd;
      }

  -- ForceViewportToBackbuffer.
  unfoldable pub force_viewport : Present → Device → Device
  force_viewport pp s =
      if pp.width == 0 || pp.height == 0 then s else act (viewport pp.width pp.height) s

  abbrev pub with_viewport : Option Present → Device → Device
  with_viewport none s = s
  with_viewport (some pp) s = force_viewport pp s

  abbrev pub find_window : ℕ → Device → Device
  find_window d s = if s.hwnd == 0 then record s { hwnd = lib.focus_window d } else s

  -- hkReset behind the call of the original, where that succeeded.
  unfoldable pub reset_done : ℕ → Option Present → Device → Device
  reset_done d pp s =
      let created = if s.ui then act create_objects s else s in
      let again = hook_device d created in
      record (with_viewport pp again) { borderless_applied = false }

  -- hkReset from the call of the original on.
  unfoldable pub call_reset : ℕ → Option Present → Device → Returned × Device
  call_reset d pp s =
      let r = lib.reset pp s in
      let called = record (act (original_reset s.o_reset) s) { slot = r.1 } in
      let done = if r.0 then reset_done d pp called else called in
      if s.o_reset == 0
      then (invalid_call, record s { in_reset = false })
      else (from_original r.0, record done { in_reset = false })

  abbrev pub fixed : ℕ → Option Present → Option Present
  fixed hwnd none = none
  fixed hwnd (some pp) = some (fixup_present_params hwnd pp)

  -- hkReset where the original calls it again.
  unfoldable pub nested_reset : Option Present → Device → Returned × Device
  nested_reset pp s =
      let r = lib.reset pp s in
      if s.o_reset == 0
      then (invalid_call, s)
      else (from_original r.0, record (act (original_reset s.o_reset) s) { slot = r.1 })

  -- hkReset behind its test of inReset; g_borderlessEnabled and g_forceResEnabled stay on.
  unfoldable pub first_reset : ℕ → Option Present → Device → Returned × Device
  first_reset d pp s =
      let entered = record s { in_reset = true } in
      let invalid = if s.ui then act invalidate_objects entered else entered in
      let captured = if s.o_reset == 0 then capture_originals d invalid else invalid in
      let found = find_window d captured in
      if not (found.hwnd == 0) && lib.iconic found.hwnd
      then (device_lost, record found { in_reset = false })
      else call_reset d (fixed found.hwnd pp) found

  unfoldable pub hk_reset : ℕ → Option Present → Device → Returned × Device
  hk_reset d pp s = if s.in_reset then nested_reset pp s else first_reset d pp s

  -- hkPresent: the frame of the user interface.
  unfoldable pub present_ui : ℕ → Bool → Device → Device
  present_ui d allow_chat s =
      let found = find_window d s in
      if s.ui
      then act draw_ui s
      else if not allow_chat
      then s
      else if found.hwnd == 0
      then found
      else record (act start_ui (act (hook_window found.hwnd) found)) { ui = true }

  abbrev pub apply_borderless : Device → Device
  apply_borderless s =
      if not s.borderless_applied && not (s.hwnd == 0) && not (lib.iconic s.hwnd)
      then record (act (borderless s.hwnd) s) { borderless_applied = true }
      else s

  -- hkPresent, for a device, a window that may be 0, and allow_chat.
  unfoldable pub hk_present : ℕ → ℕ → Bool → Device → Returned × Device
  hk_present d window allow_chat s =
      let captured = if s.o_present == 0 then capture_originals d s else s in
      let known = record captured { dev = d } in
      let windowed = if s.hwnd == 0 then record known { hwnd = window } else known in
      let shown = present_ui d allow_chat (apply_borderless windowed) in
      let ticked = act tick shown in
      if ticked.o_present == 0
      then (invalid_call, ticked)
      else (from_original true, act (original_present ticked.o_present) ticked)

  -- One round of the loop of HookThread, for the device that the game has.
  unfoldable pub watch : ℕ → Device → Device
  watch cur s =
      let changed = not (cur == 0) && not (cur == s.dev) in
      let hooked = record (hook_device cur (record s { dev = cur })) {
        borderless_applied = false;
      } in
      let now = if changed then hooked else s in
      let t = lib.table now.dev in
      if now.dev == 0 then now else if t == 0 then now else (patch_both t now).1
