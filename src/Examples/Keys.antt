-- ===== src/Examples/Keys.antt =====
-- A key while a dialog is up.
use opensamp.Prelude.{◌≡◌, ◌↔◌, ◌⊎◌, refl, true, false, []}
use opensamp.Gui.Input.{
  passed_on, route_message, swallow, Surfaces, hook_wnd_proc, get_async_key_state, set_cursor_pos,
}
use opensamp.Gui.Input.Silence.{Kept, Typed, Pointed, hook_wnd_proc-Kept}

abbrev dialog_up : Surfaces
dialog_up = record {
  chat = record {
    active = false;
    scroll_to_bottom = false;
    want_focus = false;
    input = [];
    unfocused = false;
  };
  dialog_active = true;
  imgui_init = true;
}

hook_wnd_proc-Kept_example :
    Kept (hook_wnd_proc (λ m w. true) 0x200 0 dialog_up).0 ↔ (Typed 0x200 ⊎ Pointed dialog_up 0x200)
unfolding opensamp.Gui.Input.modal_active
hook_wnd_proc-Kept_example = hook_wnd_proc-Kept (λ m w. true) 0x200 0 dialog_up refl refl

-- A dead character reaches the game.
dead_char_run : (hook_wnd_proc (λ m w. true) 0x103 0 dialog_up).0 ≡ passed_on
unfolding hook_wnd_proc route_message swallow
dead_char_run = refl

-- No key counts as pressed, and the cursor stays.
asked_run :
    (get_async_key_state dialog_up true 0x8000 ≡ 0)
    × (set_cursor_pos dialog_up true true ≡ (true, false))
unfolding get_async_key_state set_cursor_pos opensamp.Gui.Input.modal_active
asked_run = (refl, refl)
