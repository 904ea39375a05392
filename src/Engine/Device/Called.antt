-- ===== src/Engine/Device/Called.antt =====
-- native/d3d.cpp: hkReset, hkPresent and the loop of HookThread keep the originals behind their slots.
use opensamp.Prelude.{
  ℕ, ◌≡◌, ◌≢◌, Bool, true, false, not, ◌&&◌, ◌||◌, List, [], ◌∷◌, Option, none, some, ◌==◌,
  if_cases, if◌then◌else◌,
}
use opensamp.Engine.Device.{
  act, invalidate_objects, Present, Device, Graphics, Returned, put_slot, capture_originals,
  hook_device, force_viewport, with_viewport, find_window, reset_done, call_reset, fixed,
  nested_reset, first_reset, hk_reset, present_ui, apply_borderless, hk_present, watch,
}
use opensamp.Engine.Device.Linked.{
  IsDriver, nonzero, zero_of, Sound, capture_originals-Sound, capture_originals-Known,
  hook_device-Sound, hooked-Sound, patch_both-Good,
}

module _ (lib : Graphics) (driver : IsDriver lib) where
  abbrev pub Fine : Device → Type 0
  Fine s = Sound lib driver s

  -- The call of the original Reset.
  reset_slots-Sound :
      (pp : Option Present) (s : Device) → Fine s → Fine (record s { slot = (lib.reset pp s).1 })
  reset_slots-Sound pp s g = (
    record {
      full = driver.fills pp s g.0.full;
      other_reset = g.0.other_reset;
      other_present = g.0.other_present;
      reset_known = λ t h. g.0.reset_known t (driver.leads_reset pp s t h);
      present_known = λ t h. g.0.present_known t (driver.leads_present pp s t h);
      paired = g.0.paired;
    },
    g.1,
  )

  with_viewport-Sound : (pp : Option Present) (s : Device) → Fine s → Fine (with_viewport lib pp s)
  unfolding force_viewport
  with_viewport-Sound none s g = g
  with_viewport-Sound (some pp) s g =
      if_cases Fine (pp.width == 0 || pp.height == 0) (λ e. g) (λ e. g)

  reset_done-Sound :
      (d : ℕ) (pp : Option Present) (s : Device) → Fine s → Fine (reset_done lib d pp s)
  unfolding reset_done
  reset_done-Sound d pp s g =
      with_viewport-Sound pp _
        (hook_device-Sound lib driver d _ (if_cases Fine s.ui (λ e. g) (λ e. g)))

  call_reset-Sound :
      (d : ℕ) (pp : Option Present) (s : Device) → Fine s → Fine (call_reset lib d pp s).1
  unfolding call_reset
  call_reset-Sound d pp s g =
      let P = λ (r : Returned × Device). Fine r.1 in
      let h = reset_slots-Sound pp s g in
      if_cases P (s.o_reset == 0) (λ e. g)
        (λ e. if_cases Fine (lib.reset pp s).0 (λ f. reset_done-Sound d pp _ h) (λ f. h))

  find_window-Sound : (d : ℕ) (s : Device) → Fine s → Fine (find_window lib d s)
  find_window-Sound d s g = if_cases Fine (s.hwnd == 0) (λ e. g) (λ e. g)

  first_reset-Sound :
      (d : ℕ) (pp : Option Present) (s : Device) → Fine s → Fine (first_reset lib d pp s).1
  unfolding first_reset
  first_reset-Sound d pp s g =
      let P = λ (r : Returned × Device). Fine r.1 in
      let entered : Device = record s { in_reset = true } in
      let invalid : Device = if s.ui then act invalidate_objects entered else entered in
      let gi : Fine invalid = if_cases Fine s.ui (λ e. g) (λ e. g) in
      let captured : Device = if s.o_reset == 0 then capture_originals lib d invalid else invalid in
      let gc : Fine captured =
        if_cases Fine (s.o_reset == 0) (λ e. capture_originals-Sound lib driver d invalid gi)
          (λ e. gi) in
      let found = find_window lib d captured in
      let gf = find_window-Sound d captured gc in
      if_cases P (not (found.hwnd == 0) && lib.iconic found.hwnd) (λ e. gf)
        (λ e. call_reset-Sound d (fixed lib found.hwnd pp) found gf)

  nested_reset-Sound : (pp : Option Present) (s : Device) → Fine s → Fine (nested_reset lib pp s).1
  unfolding nested_reset
  nested_reset-Sound pp s g =
      if_cases (λ (r : Returned × Device). Fine r.1) (s.o_reset == 0) (λ e. g)
        (λ e. reset_slots-Sound pp s g)

  pub hk_reset-Sound :
      (d : ℕ) (pp : Option Present) (s : Device) → Fine s → Fine (hk_reset lib d pp s).1
  unfolding hk_reset
  hk_reset-Sound d pp s g =
      if_cases (λ (r : Returned × Device). Fine r.1) s.in_reset (λ e. nested_reset-Sound pp s g)
        (λ e. first_reset-Sound d pp s g)

  apply_borderless-Sound : (s : Device) → Fine s → Fine (apply_borderless lib s)
  apply_borderless-Sound s g =
      if_cases Fine (not s.borderless_applied && not (s.hwnd == 0) && not (lib.iconic s.hwnd))
        (λ e. g) (λ e. g)

  present_ui-Sound :
      (d : ℕ) (allow_chat : Bool) (s : Device) → Fine s → Fine (present_ui lib d allow_chat s)
  unfolding present_ui
  present_ui-Sound d allow_chat s g =
      let h = find_window-Sound d s g in
      if_cases Fine s.ui (λ e. g)
        (λ e.
          if_cases Fine (not allow_chat) (λ f. g)
            (λ f. if_cases Fine ((find_window lib d s).hwnd == 0) (λ k. h) (λ k. h)))

  -- The device that hkPresent is called for becomes the one that is watched.
  shown-Sound :
      (d : ℕ) (s : Device)
      → Fine s
      → Fine (record (if s.o_present == 0 then capture_originals lib d s else s) { dev = d })
  shown-Sound d s g =
      if_cases (λ (k : Device). Fine (record k { dev = d })) (s.o_present == 0)
        (λ e. (
          (capture_originals-Sound lib driver d s g).0,
          λ h there. capture_originals-Known lib driver d s g.0 there,
        ))
        (λ e. let some = nonzero s.o_present e in (g.0, λ h there. (g.0.paired some, some)))

  pub hk_present-Sound :
      (d window : ℕ) (allow_chat : Bool) (s : Device)
      → Fine s
      → Fine (hk_present lib d window allow_chat s).1
  unfolding hk_present
  hk_present-Sound d window allow_chat s g =
      let known : Device = record (if s.o_present == 0 then capture_originals lib d s else s) {
        dev = d;
      } in
      let windowed : Device = if s.hwnd == 0 then record known { hwnd = window } else known in
      let gw : Fine windowed =
        if_cases Fine (s.hwnd == 0) (λ e. shown-Sound d s g) (λ e. shown-Sound d s g) in
      let shown = present_ui lib d allow_chat (apply_borderless lib windowed) in
      let gs =
        present_ui-Sound d allow_chat (apply_borderless lib windowed)
          (apply_borderless-Sound windowed gw) in
      if_cases (λ (r : Returned × Device). Fine r.1) (shown.o_present == 0) (λ e. gs) (λ e. gs)

  changed-Sound :
      (cur : ℕ) (s : Device) → Fine s → Fine (hook_device lib cur (record s { dev = cur }))
  unfolding hook_device
  changed-Sound cur s g =
      if_cases Fine (cur == 0) (λ e. (g.0, λ h. elim (h (zero_of cur e)) [ ]))
        (λ e.
          if_cases Fine (lib.table cur == 0)
            (λ f. (g.0, λ h there. elim (there (zero_of (lib.table cur) f)) [ ]))
            (λ f.
              hooked-Sound lib driver cur (record s { dev = cur }) (nonzero (lib.table cur) f) g.0))

  pub watch-Sound : (cur : ℕ) (s : Device) → Fine s → Fine (watch lib cur s)
  unfolding watch
  watch-Sound cur s g =
      let hooked : Device = record (hook_device lib cur (record s { dev = cur })) {
        borderless_applied = false;
      } in
      let changed = not (cur == 0) && not (cur == s.dev) in
      let now : Device = if changed then hooked else s in
      let gn : Fine now = if_cases Fine changed (λ e. changed-Sound cur s g) (λ e. g) in
      if_cases Fine (now.dev == 0) (λ e. gn)
        (λ e.
          if_cases Fine (lib.table now.dev == 0) (λ f. gn)
            (λ f.
              let r =
                patch_both-Good lib driver (lib.table now.dev) now gn.0
                  (gn.1 (nonzero now.dev e) (nonzero (lib.table now.dev) f)) in
              (r.0, λ h i. r.1)))

-- What happens to the device: the thread finds it, the game resets or presents it, the thread looks
-- whether it is still hooked, or something else writes a slot.
pub data Event : Type 0 where
  found : ℕ → Event
  resets : ℕ → Option Present → Event
  presents : ℕ → ℕ → Bool → Event
  watches : ℕ → Event
  writes : ℕ → ℕ → ℕ → Event

abbrev pub happen : Graphics → Event → Device → Device
happen lib (found d) s = hook_device lib d s
happen lib (resets d pp) s = (hk_reset lib d pp s).1
happen lib (presents d window allow_chat) s = (hk_present lib d window allow_chat s).1
happen lib (watches cur) s = watch lib cur s
happen lib (writes t i v) s = record s { slot = put_slot t i v s.slot }

abbrev pub happen_all : Graphics → List Event → Device → Device
happen_all lib [] s = s
happen_all lib (e ∷ es) s = happen_all lib es (happen lib e s)

-- What others write is an address, and no function of the library.
abbrev pub AllForeign : Graphics → List Event → Type 0
AllForeign lib [] = Unit
AllForeign lib (writes t i v ∷ es) =
    ((v ≢ 0) × (v ≢ lib.own_reset) × (v ≢ lib.own_present)) × AllForeign lib es
AllForeign lib (_ ∷ es) = AllForeign lib es

-- The device before the library has done anything: no slot is empty, and none leads to the library.
pub record IsFresh (lib : Graphics) (s : Device) : Type 0 where
  pub no_reset : s.o_reset ≡ 0
  pub no_present : s.o_present ≡ 0
  pub no_device : s.dev ≡ 0
  pub full : (t i : ℕ) → s.slot t i ≢ 0
  pub foreign : (t i : ℕ) → (s.slot t i ≢ lib.own_reset) × (s.slot t i ≢ lib.own_present)
