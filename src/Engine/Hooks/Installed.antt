-- ===== src/Engine/Hooks/Installed.antt =====
-- native/hooks.cpp: which hooks are on after GameReady_Install, whatever MinHook answers.
use opensamp.Prelude.{
  ℕ, ◌≡◌, refl, Bool, true, false, List, [], ◌∷◌, Option, none, some, if◌then◌else◌, if_cases,
}
use opensamp.Engine.Hooks.{
  Detour, on_script, on_process, on_key_state, on_cursor_pos, on_vis_get, on_vis_set, Hooks,
  MinHook, Attempt, ◌andthen◌, create_hook, enable_hook, install_clump_table_guards, call_target,
  with_original, hook_process, install_cgame_process_hook, install_guards, install_input_guards,
  install_rest, game_ready_install,
}

-- The original of the detour is known.
pub data HasOriginal (d : Detour) : List (Detour × ℕ) → Type 0 where
  newest : (o : ℕ) (os : List (Detour × ℕ)) → HasOriginal d ((d, o) ∷ os)
  older : (p : Detour × ℕ) (os : List (Detour × ℕ)) → HasOriginal d os → HasOriginal d (p ∷ os)

-- Those of all the detours are.
abbrev pub AllBacked : List Detour → List (Detour × ℕ) → Type 0
AllBacked [] os = Unit
AllBacked (d ∷ ds) os = HasOriginal d os × AllBacked ds os

AllBacked-older :
    (ds : List Detour) (p : Detour × ℕ) (os : List (Detour × ℕ))
    → AllBacked ds os
    → AllBacked ds (p ∷ os)
AllBacked-older [] p os h = tt
AllBacked-older (d ∷ ds) p os h = (older p os h.0, AllBacked-older ds p os h.1)

-- Every enabled detour has the original that it calls, and so have these, which are to be enabled.
record Ready (ds : List Detour) (h : Hooks) : Type 0 where
  backed : AllBacked h.enabled h.originals
  known : AllBacked ds h.originals

-- An attempt that makes the detours `es` ready where `ds` are, and that leaves every enabled detour with
-- its original also where it fails.
record Meets (ds es : List Detour) (a : Attempt) : Type 0 where
  at : (h : Hooks) → Ready ds h → ((a h).0 ≡ true → Ready es (a h).1) × Ready [] (a h).1

forget : (ds : List Detour) (h : Hooks) → Ready ds h → Ready [] h
forget ds h r = record { backed = r.backed; known = tt }

module _ (lib : MinHook) where
  andthen-Meets :
      (ds es fs : List Detour) (a b : Attempt)
      → Meets ds es a
      → Meets es fs b
      → Meets ds fs (a andthen b)
  unfolding ◌andthen◌
  andthen-Meets ds es fs a b p q = record {
    at = λ h r.
        let k = p.at h r in
        if_cases (λ (o : Bool × Hooks). (o.0 ≡ true → Ready fs o.1) × Ready [] o.1) (a h).0
          (λ e. q.at (a h).1 (k.0 e)) (λ e. (cc, k.1));
  }

  create_hook-Meets :
      (target : ℕ) (d : Detour) (ds : List Detour) → Meets ds (d ∷ ds) (create_hook lib target d)
  unfolding create_hook
  create_hook-Meets target d ds = record { at = λ h r. by (lib.creates h target) h r }
    where
      by :
          (o : Option ℕ) (h : Hooks)
          → Ready ds h
          → let r = with_original lib d o h in (r.0 ≡ true → Ready (d ∷ ds) r.1) × Ready [] r.1
      by none h r = (cc, forget ds h r)
      by (some o) h r =
          let b = AllBacked-older h.enabled (d, o) h.originals r.backed in
          (
            λ e. record {
              backed = b;
              known = (newest o h.originals, AllBacked-older ds (d, o) h.originals r.known);
            },
            record { backed = b; known = tt },
          )

  enable_hook-Meets :
      (target : ℕ) (d : Detour) (ds : List Detour)
      → ((os : List (Detour × ℕ)) → AllBacked ds os → HasOriginal d os)
      → Meets ds ds (enable_hook lib target d)
  unfolding enable_hook
  enable_hook-Meets target d ds has = record {
    at = λ h r.
        if_cases (λ (o : Bool × Hooks). (o.0 ≡ true → Ready ds o.1) × Ready [] o.1)
          (lib.enables h target)
          (λ e. (
            λ f. record { backed = (has h.originals r.known, r.backed); known = r.known },
            record { backed = (has h.originals r.known, r.backed); known = tt },
          ))
          (λ e. (cc, forget ds h r));
  }

  -- A hook that is created and then enabled, and two of them.
  hooked-Meets :
      (target : ℕ) (d : Detour)
      → Meets [] (d ∷ []) (create_hook lib target d andthen enable_hook lib target d)
  hooked-Meets target d =
      andthen-Meets [] (d ∷ []) (d ∷ []) _ _ (create_hook-Meets target d [])
        (enable_hook-Meets target d (d ∷ []) (λ os h. h.0))

  pair-Meets :
      (s t : ℕ) (d e : Detour)
      → Meets [] (e ∷ d ∷ []) (
          create_hook lib s d
          andthen create_hook lib t e
          andthen enable_hook lib s d
          andthen enable_hook lib t e)
  pair-Meets s t d e =
      let both = e ∷ d ∷ [] in
      andthen-Meets [] both both _ _
        (andthen-Meets [] both both _ _
          (andthen-Meets [] (d ∷ []) both _ _ (create_hook-Meets s d [])
            (create_hook-Meets t e (d ∷ [])))
          (enable_hook-Meets s d both (λ os h. h.1.0)))
        (enable_hook-Meets t e both (λ os h. h.0))

  hook_process-Meets : (o : Option ℕ) (h : Hooks) → Ready [] h → Ready [] (hook_process lib o h).1
  unfolding hook_process
  hook_process-Meets none h r = r
  hook_process-Meets (some target) h r = ((hooked-Meets target on_process).at h r).1

  input_guards-Meets :
      (p q : Option ℕ) (h : Hooks) → Ready [] h → Ready [] (install_guards lib p q h).1
  unfolding install_guards
  input_guards-Meets (some key) (some cursor) h r =
      ((pair-Meets key cursor on_key_state on_cursor_pos).at h r).1
  input_guards-Meets none q h r = r
  input_guards-Meets (some key) none h r = r

  install_rest-Meets : (code : ℕ → ℕ) (ds : List Detour) → Meets ds [] (install_rest lib code)
  unfolding install_rest install_input_guards install_clump_table_guards install_cgame_process_hook
  install_rest-Meets code ds = record {
    at = λ h r.
        let a = hook_process-Meets (call_target lib code) h (forget ds h r) in
        let b = input_guards-Meets lib.key_state_proc lib.cursor_pos_proc _ a in
        let c = ((pair-Meets 0x732b20 0x732b00 on_vis_get on_vis_set).at _ b).1 in
        (λ e. record { backed = c.backed; known = tt }, record { backed = c.backed; known = tt });
  }

  script_hook-Meets :
      Meets []
        (on_script ∷ [])
        (create_hook lib 0x469f00 on_script andthen enable_hook lib 0x469f00 on_script)
  script_hook-Meets = hooked-Meets 0x469f00 on_script

  enable_hook-failed :
      (target : ℕ) (d : Detour) (h : Hooks)
      → let r = enable_hook lib target d h in
        r.0 ≡ false → (r.1.enabled ≡ h.enabled) × (r.1.net_game ≡ h.net_game)
  unfolding enable_hook
  enable_hook-failed target d h =
      if_cases {A = Bool × Hooks}
        (λ r. r.0 ≡ false → (r.1.enabled ≡ h.enabled) × (r.1.net_game ≡ h.net_game))
        (lib.enables h target) (λ e. cc) (λ e f. (refl, refl))

  with_original-failed :
      (target : ℕ) (d : Detour) (h : Hooks) (o : Option ℕ)
      → let s = with_original lib d o h in
        let r = if s.0 then enable_hook lib target d s.1 else (false, s.1) in
        r.0 ≡ false → (r.1.enabled ≡ h.enabled) × (r.1.net_game ≡ h.net_game)
  with_original-failed target d h none = λ e. (refl, refl)
  with_original-failed target d h (some o) =
      enable_hook-failed target d (record h { originals = (d, o) ∷ h.originals })

  -- A hook that fails switches nothing on.
  hooked-failed :
      (target : ℕ) (d : Detour) (h : Hooks)
      → let r = (create_hook lib target d andthen enable_hook lib target d) h in
        r.0 ≡ false → (r.1.enabled ≡ h.enabled) × (r.1.net_game ≡ h.net_game)
  unfolding ◌andthen◌ create_hook
  hooked-failed target d h = with_original-failed target d h (lib.creates h target)

  rest-net_game :
      (first : Attempt) (code : ℕ → ℕ) (h : Hooks)
      → ((first h).0 ≡ false
          → ((first h).1.enabled ≡ h.enabled) × ((first h).1.net_game ≡ h.net_game))
      → let r = (first andthen install_rest lib code) h in
        (r.0 ≡ true → r.1.net_game ≡ true)
        × (r.0 ≡ false → (r.1.enabled ≡ h.enabled) × (r.1.net_game ≡ h.net_game))
  unfolding ◌andthen◌ install_rest
  rest-net_game first code h k =
      if_cases
        (λ (r : Bool × Hooks).
          (r.0 ≡ true → r.1.net_game ≡ true)
          × (r.0 ≡ false → (r.1.enabled ≡ h.enabled) × (r.1.net_game ≡ h.net_game)))
        (first h).0 (λ e. (λ f. refl, cc)) (λ e. (cc, λ f. k e))

  -- Whatever MinHook answers, and whichever step fails: every hook that is on after GameReady_Install has
  -- the original function that it calls. If the installation succeeds, CNetGame::Initialize was called; if
  -- it fails, nothing was switched on.
  pub game_ready_install-AllBacked :
      (code : ℕ → ℕ) (h : Hooks)
      → AllBacked h.enabled h.originals
      → let r = game_ready_install lib code h in
        AllBacked r.1.enabled r.1.originals
        × (r.0 ≡ true → r.1.net_game ≡ true)
        × (r.0 ≡ false → (r.1.enabled ≡ h.enabled) × (r.1.net_game ≡ h.net_game))
  unfolding game_ready_install
  game_ready_install-AllBacked code h backed =
      let first = create_hook lib 0x469f00 on_script andthen enable_hook lib 0x469f00 on_script in
      let whole =
        andthen-Meets [] (on_script ∷ []) [] first (install_rest lib code) script_hook-Meets
          (install_rest-Meets code (on_script ∷ [])) in
      let rest = rest-net_game first code h (hooked-failed 0x469f00 on_script h) in
      ((whole.at h (record { backed = backed; known = tt })).1.backed, rest.0, rest.1)
