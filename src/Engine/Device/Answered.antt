-- ===== src/Engine/Device/Answered.antt =====
-- native/d3d.cpp: over any history of a device, its slots lead to functions that can answer.
use opensamp.Prelude.{
  ℕ, ◌≡◌, ◌≢◌, sym, ◌∙◌, Bool, true, not, ◌&&◌, List, [], ◌∷◌, Option, ◌==◌, if_cases,
  if◌then◌else◌,
}
use opensamp.Engine.Device.{
  act, invalidate_objects, Present, Device, Graphics, Returned, invalid_call, put_slot,
  capture_originals, hook_device, find_window, call_reset, fixed, nested_reset, first_reset,
  hk_reset, present_ui, apply_borderless, hk_present, watch,
}
use opensamp.Engine.Device.Linked.{IsDriver, zero_of, Sound, hook_device-Sound}
use opensamp.Engine.Device.Called.{
  Event, found, resets, presents, watches, writes, happen_all, AllForeign, IsFresh, hk_reset-Sound,
  hk_present-Sound, watch-Sound,
}

module _ (lib : Graphics) (driver : IsDriver lib) where
  fresh-Sound : (s : Device) → IsFresh lib s → Sound lib driver s
  fresh-Sound s f = (
    record {
      full = f.full;
      other_reset = λ e. driver.own_reset_there (sym e ∙ f.no_reset);
      other_present = λ e. driver.own_present_there (sym e ∙ f.no_present);
      reset_known = λ t e. elim ((f.foreign t 16).0 e) [ ];
      present_known = λ t e. elim ((f.foreign t 17).1 e) [ ];
      paired = λ h. elim (h f.no_present) [ ];
    },
    λ h. elim (h f.no_device) [ ],
  )

  -- A slot that something else writes.
  writes-Sound :
      (t i v : ℕ) (s : Device)
      → (v ≢ 0) × (v ≢ lib.own_reset) × (v ≢ lib.own_present)
      → Sound lib driver s
      → Sound lib driver (record s { slot = put_slot t i v s.slot })
  unfolding put_slot
  writes-Sound t i v s other g = (
    record {
      full =
          λ u j. if_cases (λ (n : ℕ). n ≢ 0) (u == t && j == i) (λ e. other.0) (λ e. g.0.full u j);
      other_reset = g.0.other_reset;
      other_present = g.0.other_present;
      reset_known = λ u.
          if_cases (λ (n : ℕ). n ≡ lib.own_reset → s.o_reset ≢ 0) (u == t && 16 == i)
            (λ e h. elim (other.1 h) [ ]) (λ e. g.0.reset_known u);
      present_known = λ u.
          if_cases (λ (n : ℕ). n ≡ lib.own_present → s.o_present ≢ 0) (u == t && 17 == i)
            (λ e h. elim (other.2 h) [ ]) (λ e. g.0.present_known u);
      paired = g.0.paired;
    },
    g.1,
  )

  happen_all-Sound :
      (es : List Event) (s : Device)
      → AllForeign lib es
      → Sound lib driver s
      → Sound lib driver (happen_all lib es s)
  happen_all-Sound [] s a g = g
  happen_all-Sound (found d ∷ es) s a g =
      happen_all-Sound es (hook_device lib d s) a (hook_device-Sound lib driver d s g)
  happen_all-Sound (resets d pp ∷ es) s a g =
      happen_all-Sound es (hk_reset lib d pp s).1 a (hk_reset-Sound lib driver d pp s g)
  happen_all-Sound (presents d window allow_chat ∷ es) s a g =
      happen_all-Sound es (hk_present lib d window allow_chat s).1 a
        (hk_present-Sound lib driver d window allow_chat s g)
  happen_all-Sound (watches cur ∷ es) s a g =
      happen_all-Sound es (watch lib cur s) a (watch-Sound lib driver cur s g)
  happen_all-Sound (writes t i v ∷ es) s a g =
      happen_all-Sound es (record s { slot = put_slot t i v s.slot }) a.1
        (writes-Sound t i v s a.0 g)

  -- The two functions, where their originals are known.
  call_reset-answered :
      (d : ℕ) (pp : Option Present) (s : Device)
      → s.o_reset ≢ 0
      → (call_reset lib d pp s).0 ≢ invalid_call
  unfolding call_reset
  call_reset-answered d pp s known =
      if_cases (λ (r : Returned × Device). r.0 ≢ invalid_call) (s.o_reset == 0)
        (λ e. elim (known (zero_of s.o_reset e)) [ ]) (λ e. cc)

  hk_reset-answered :
      (d : ℕ) (pp : Option Present) (s : Device)
      → s.o_reset ≢ 0
      → (hk_reset lib d pp s).0 ≢ invalid_call
  unfolding hk_reset first_reset nested_reset
  hk_reset-answered d pp s known =
      let P = λ (r : Returned × Device). r.0 ≢ invalid_call in
      let entered : Device = record s { in_reset = true } in
      let invalid : Device = if s.ui then act invalidate_objects entered else entered in
      let captured : Device = if s.o_reset == 0 then capture_originals lib d invalid else invalid in
      let has = λ (k : Device). k.o_reset ≢ 0 in
      let hi : has invalid = if_cases has s.ui (λ e. known) (λ e. known) in
      let hc : has captured =
        if_cases has (s.o_reset == 0) (λ e. elim (known (zero_of s.o_reset e)) [ ]) (λ e. hi) in
      let found = find_window lib d captured in
      let hf : has found = if_cases has (captured.hwnd == 0) (λ e. hc) (λ e. hc) in
      if_cases P s.in_reset
        (λ e. if_cases P (s.o_reset == 0) (λ f. elim (known (zero_of s.o_reset f)) [ ]) (λ f. cc))
        (λ e.
          if_cases P (not (found.hwnd == 0) && lib.iconic found.hwnd) (λ f. cc)
            (λ f. call_reset-answered d (fixed lib found.hwnd pp) found hf))

  present_ui-known :
      (d : ℕ) (allow_chat : Bool) (s : Device)
      → s.o_present ≢ 0
      → (present_ui lib d allow_chat s).o_present ≢ 0
  unfolding present_ui
  present_ui-known d allow_chat s known =
      let has = λ (k : Device). k.o_present ≢ 0 in
      let hf : has (find_window lib d s) = if_cases has (s.hwnd == 0) (λ e. known) (λ e. known) in
      if_cases has s.ui (λ e. known)
        (λ e.
          if_cases has (not allow_chat) (λ f. known)
            (λ f. if_cases has ((find_window lib d s).hwnd == 0) (λ k. hf) (λ k. hf)))

  hk_present-answered :
      (d window : ℕ) (allow_chat : Bool) (s : Device)
      → s.o_present ≢ 0
      → (hk_present lib d window allow_chat s).0 ≢ invalid_call
  unfolding hk_present
  hk_present-answered d window allow_chat s known =
      let has = λ (k : Device). k.o_present ≢ 0 in
      let captured : Device = if s.o_present == 0 then capture_originals lib d s else s in
      let hc : has captured =
        if_cases has (s.o_present == 0) (λ e. elim (known (zero_of s.o_present e)) [ ])
          (λ e. known) in
      let named : Device = record captured { dev = d } in
      let windowed : Device = if s.hwnd == 0 then record named { hwnd = window } else named in
      let hw : has windowed = if_cases has (s.hwnd == 0) (λ e. hc) (λ e. hc) in
      let ready = apply_borderless lib windowed in
      let hr : has ready =
        if_cases has
          (not windowed.borderless_applied
            && not (windowed.hwnd == 0)
            && not (lib.iconic windowed.hwnd))
          (λ e. hw) (λ e. hw) in
      let shown = present_ui lib d allow_chat ready in
      if_cases (λ (r : Returned × Device). r.0 ≢ invalid_call) (shown.o_present == 0)
        (λ e. elim (present_ui-known d allow_chat ready hr (zero_of shown.o_present e)) [ ])
        (λ e. cc)

  -- Take a device as it is before the library has done anything, and any history of it: the thread finds
  -- it and looks after its slots, the game resets and presents it, and others write slots. If the slots of
  -- a device then lead to hkReset and hkPresent, a call of either is handed on or answered as a lost device,
  -- never refused for the want of an original, and neither original is the library's own function, which
  -- would call itself.
  pub happen_all-answered :
      (es : List Event) (s : Device) (d : ℕ) (pp : Option Present) (window : ℕ) (allow_chat : Bool)
      → IsFresh lib s
      → AllForeign lib es
      → (happen_all lib es s).slot (lib.table d) 16 ≡ lib.own_reset
      → (happen_all lib es s).slot (lib.table d) 17 ≡ lib.own_present
      → let k = happen_all lib es s in
        ((hk_reset lib d pp k).0 ≢ invalid_call)
        × ((hk_present lib d window allow_chat k).0 ≢ invalid_call)
        × (k.o_reset ≢ lib.own_reset)
        × (k.o_present ≢ lib.own_present)
  happen_all-answered es s d pp window allow_chat fresh foreign at_reset at_present =
      let k = happen_all lib es s in
      let g = (happen_all-Sound es s foreign (fresh-Sound s fresh)).0 in
      (
        hk_reset-answered d pp k (g.reset_known (lib.table d) at_reset),
        hk_present-answered d window allow_chat k (g.present_known (lib.table d) at_present),
        g.other_reset,
        g.other_present,
      )
