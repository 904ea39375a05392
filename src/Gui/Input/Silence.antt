-- ===== src/Gui/Input/Silence.antt =====
-- Which messages reach the game while the chat or a dialog is up.
use mathlib.Core.Path.{subst}
use opensamp.Prelude.{
  not, ◌==◌, ==_iff, if_cases, ℕ, ◌≡◌, ◌≢◌, ◌≤◌, refl, sym, Bool, Bool-cases, true, false, ◌&&◌,
  ◌||◌, leb, if◌then◌else◌, arith, ◌⊎◌, ◌↔◌, inl, inr,
}
use opensamp.Gui.Input.{
  set_active, answered, passed_on, wm_keydown, key_t, vk_escape, request_focus, Surfaces, Verdict,
  modal_active, is_keyboard, is_mouse, swallow, hook_wnd_proc, route_message,
}

-- The game's procedure is not called.
abbrev pub Kept : Verdict → Type 0
Kept (answered b) = Unit
Kept passed_on = ⊥

-- Presses and releases of keys, and the characters that they make, but for dead characters; and the
-- composition of an input method.
pub data Typed (msg : ℕ) : Type 0 where
  key : 0x100 ≤ msg → msg ≤ 0x106 → msg ≢ 0x103 → Typed msg
  composition : 0x10d ≤ msg → msg ≤ 0x10f → Typed msg

-- A message of the mouse, while a dialog is up.
pub record Pointed (u : Surfaces) (msg : ℕ) : Type 0 where
  pub dialog : u.dialog_active ≡ true
  pub first : 0x200 ≤ msg
  pub last : msg ≤ 0x20e

-- The test of HookWndProc behind its own keys, for a message while a surface is up.
abbrev taken : Surfaces → ℕ → Bool
taken u msg = is_keyboard msg || (u.dialog_active && is_mouse msg)

or_swap : (b c : Bool) → (b || c) ≡ true → (c || b) ≡ true
or_swap b c h = ground arith

or_left : (b c : Bool) → b ≡ true → (b || c) ≡ true
or_left b c h = ground arith

or_right : (b c : Bool) → c ≡ true → (b || c) ≡ true
or_right b c h = ground arith

and_both : (b c : Bool) → b ≡ true → c ≡ true → (b && c) ≡ true
and_both b c h k = ground arith

and_left : (b c : Bool) → (b && c) ≡ true → b ≡ true
and_left b c h = ground arith

and_right : (b c : Bool) → (b && c) ≡ true → c ≡ true
and_right b c h = ground arith

or_cases : (b c : Bool) → (b || c) ≡ true → (b ≡ true) ⊎ (c ≡ true)
or_cases true c h = inl refl
or_cases false c h = inr h

is_keyboard-key : (msg : ℕ) → 0x100 ≤ msg → msg ≤ 0x106 → msg ≢ 0x103 → is_keyboard msg ≡ true
is_keyboard-key msg h k l = ground arith

is_keyboard-composition : (msg : ℕ) → 0x10d ≤ msg → msg ≤ 0x10f → is_keyboard msg ≡ true
is_keyboard-composition msg h k = ground arith

composed : (msg : ℕ) → leb 0x10d msg ≡ true → is_keyboard msg ≡ true → (0x10d ≤ msg) × (msg ≤ 0x10f)
composed msg h k = (ground arith, ground arith)

pressed :
    (msg : ℕ)
    → leb 0x10d msg ≡ false
    → is_keyboard msg ≡ true
    → (0x100 ≤ msg) × (msg ≤ 0x106) × (msg ≢ 0x103)
pressed msg h k = (ground arith, ground arith, λ e. ground arith)

mouse : (msg : ℕ) → is_mouse msg ≡ true → (0x200 ≤ msg) × (msg ≤ 0x20e)
mouse msg h = (ground arith, ground arith)

is_mouse-range : (msg : ℕ) → 0x200 ≤ msg → msg ≤ 0x20e → is_mouse msg ≡ true
is_mouse-range msg h k = ground arith

is_keyboard-Typed : (msg : ℕ) → is_keyboard msg ≡ true → Typed msg
is_keyboard-Typed msg h = elim (Bool-cases (leb 0x10d msg)) [
  | inl e ↦ let r = composed msg e h in composition r.0 r.1
  | inr e ↦ let r = pressed msg e h in key r.0 r.1 r.2
]

taken-cases : (u : Surfaces) (msg : ℕ) → taken u msg ≡ true → Typed msg ⊎ Pointed u msg
taken-cases u msg h = elim (or_cases (is_keyboard msg) (u.dialog_active && is_mouse msg) h) [
  | inl k ↦ inl (is_keyboard-Typed msg k)
  | inr k ↦
      let r = mouse msg (and_right _ _ k) in
      inr (record { dialog = and_left _ _ k; first = r.0; last = r.1 })
]

Typed-taken : (u : Surfaces) (msg : ℕ) → Typed msg → taken u msg ≡ true
Typed-taken u msg (key h k l) = or_left _ _ (is_keyboard-key msg h k l)
Typed-taken u msg (composition h k) = or_left _ _ (is_keyboard-composition msg h k)

Pointed-taken : (u : Surfaces) (msg : ℕ) → Pointed u msg → taken u msg ≡ true
Pointed-taken u msg q =
    or_right (is_keyboard msg) _ (and_both _ _ q.dialog (is_mouse-range msg q.first q.last))

down : (msg : ℕ) (b : Bool) → (msg == wm_keydown && b) ≡ true → Typed msg
down msg b h =
    subst Typed (sym ((==_iff msg wm_keydown).0 (and_left _ b h)))
      (key (omega arith) (omega arith) (λ e. omega arith))

Kept-if : (b handled : Bool) → Kept (if b then answered handled else passed_on) → b ≡ true
Kept-if true handled k = refl
Kept-if false handled k = elim k [ ]

module _ (handler : ℕ → ℕ → Bool) (msg w_param : ℕ) (u : Surfaces)
    (up : modal_active u ≡ true) where
  swallow-Kept : (handled : Bool) → taken u msg ≡ true → Kept (swallow handled msg u)
  unfolding swallow modal_active
  swallow-Kept handled k =
      subst (λ b. Kept (if b then answered handled else passed_on))
        (sym (
          and_both (u.chat.active || u.dialog_active) (taken u msg)
            (or_swap u.dialog_active u.chat.active up) k))
        tt

  route_message-Kept : taken u msg ≡ true → Kept (route_message handler msg w_param u).0
  unfolding route_message
  route_message-Kept k =
      if_cases {A = Verdict × Surfaces} (λ r. Kept r.0)
        (msg == wm_keydown && (not u.dialog_active && not u.chat.active && w_param == key_t))
        {x = (answered false, record u { chat = request_focus (set_active true u.chat) })} (λ e. tt)
        (λ e.
          if_cases {A = Verdict × Surfaces} (λ r. Kept r.0)
            (msg == wm_keydown && (u.chat.active && w_param == vk_escape))
            {x = (answered false, record u { chat = set_active false u.chat })}
            {y = (swallow (handler msg w_param) msg u, u)} (λ f. tt)
            (λ f. swallow-Kept (handler msg w_param) k))

  swallow-taken : (handled : Bool) → Kept (swallow handled msg u) → Typed msg ⊎ Pointed u msg
  unfolding swallow
  swallow-taken handled k =
      taken-cases u msg
        (and_right (u.chat.active || u.dialog_active) (taken u msg) (Kept-if _ handled k))

  route_message-taken : Kept (route_message handler msg w_param u).0 → Typed msg ⊎ Pointed u msg
  unfolding route_message
  route_message-taken =
      if_cases {A = Verdict × Surfaces} (λ r. Kept r.0 → Typed msg ⊎ Pointed u msg)
        (msg == wm_keydown && (not u.dialog_active && not u.chat.active && w_param == key_t))
        {x = (answered false, record u { chat = request_focus (set_active true u.chat) })}
        (λ e k. inl (down msg _ e))
        (λ e.
          if_cases {A = Verdict × Surfaces} (λ r. Kept r.0 → Typed msg ⊎ Pointed u msg)
            (msg == wm_keydown && (u.chat.active && w_param == vk_escape))
            {x = (answered false, record u { chat = set_active false u.chat })}
            {y = (swallow (handler msg w_param) msg u, u)} (λ f k. inl (down msg _ f))
            (λ f. swallow-taken (handler msg w_param)))

-- While the chat or a dialog is up, HookWndProc keeps a message from the game's own procedure exactly if
-- it is a key press or release or a character (0x100 to 0x106, but for the dead characters of 0x103), one
-- of the composition of an input method (0x10D to 0x10F), or, with a dialog up, one of the mouse (0x200 to
-- 0x20E).
pub hook_wnd_proc-Kept :
    (handler : ℕ → ℕ → Bool) (msg w_param : ℕ) (u : Surfaces)
    → u.imgui_init ≡ true
    → modal_active u ≡ true
    → Kept (hook_wnd_proc handler msg w_param u).0 ↔ (Typed msg ⊎ Pointed u msg)
unfolding hook_wnd_proc
hook_wnd_proc-Kept handler msg w_param u i h =
    subst
      (λ b.
        Kept (if b then route_message handler msg w_param u else (passed_on, u)).0
        ↔ (Typed msg ⊎ Pointed u msg))
      (sym i)
      (
        route_message-taken handler msg w_param u h,
        λ r.
            route_message-Kept handler msg w_param u h
              (elim r [ inl t ↦ Typed-taken u msg t | inr q ↦ Pointed-taken u msg q ]),
      )
