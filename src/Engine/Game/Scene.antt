-- ===== src/Engine/Game/Scene.antt =====
-- native/game/game.h: the clock, the weather and the gravity, each kept in its own variables.
use opensamp.Prelude.{
  ℕ, ◌%◌, ◌^◌, ◌≤◌, ◌<◌, ◌≡◌, refl, ap, ◌∙◌, Bool, true, false, List, [], ◌∷◌, ltb, if◌then◌else◌,
  arith,
}
use opensamp.Prelude.Bytes.{word_bytes}
use opensamp.Engine.Memory.{store}
use opensamp.Engine.Game.{
  Game, value_of, read_at, half_bytes, var_time_minutes, var_time_hours, var_weather_forced,
  var_weather_old, var_weather_new, var_gravity, set_world_time, set_weather,
  release_forced_weather, set_gravity,
}

-- What the game is told about the scene.
pub data Setting : Type 0 where
  clock : ℕ → ℕ → Setting
  weather : ℕ → Setting
  unforced : Setting
  gravity : ℕ → Setting

abbrev pub set : Setting → Game → Game
set (clock h m) g = set_world_time h m g
set (weather w) g = set_weather w g
set unforced g = release_forced_weather g
set (gravity v) g = set_gravity v g

abbrev pub set_all : List Setting → Game → Game
set_all [] g = g
set_all (s ∷ ss) g = set_all ss (set s g)

-- The arguments have the width of their types: a byte for the weather, and a float for the gravity.
abbrev pub AllWide : List Setting → Type 0
AllWide [] = Unit
AllWide (weather w ∷ ss) = (w < 256) × AllWide ss
AllWide (gravity v ∷ ss) = (v < 2 ^ 32) × AllWide ss
AllWide (_ ∷ ss) = AllWide ss

-- The scene as numbers.
pub record View : Type 0 where
  pub hour : ℕ
  pub minute : ℕ
  pub forced : ℕ
  pub old : ℕ
  pub new : ℕ
  pub pull : ℕ

unfoldable pub view : Game → View
view g = record {
  hour = read_at var_time_hours 1 g.memory;
  minute = read_at var_time_minutes 1 g.memory;
  forced = read_at var_weather_forced 2 g.memory;
  old = read_at var_weather_old 2 g.memory;
  new = read_at var_weather_new 2 g.memory;
  pull = read_at var_gravity 4 g.memory;
}

-- What each setting means for them.
abbrev pub turn : Setting → View → View
turn (clock h m) v =
    if ltb 23 h then v else if ltb 59 m then v else record v { hour = h; minute = m }
turn (weather w) v = record v { old = w; new = w }
turn unforced v = record v { forced = 0xffff }
turn (gravity p) v = record v { pull = p }

abbrev pub turn_all : List Setting → View → View
turn_all [] v = v
turn_all (s ∷ ss) v = turn_all ss (turn s v)

one : (b : ℕ) → b ≤ 59 → value_of (b % 256 ∷ []) ≡ b
unfolding value_of
one b h = omega arith

two : (w : ℕ) → w < 65536 → value_of (half_bytes w) ≡ w
unfolding value_of
two w h = omega arith

four : (v : ℕ) → v < 2 ^ 32 → value_of (word_bytes v) ≡ v
unfolding value_of
four v h = omega arith

small_hour : (h : ℕ) → ltb 23 h ≡ false → h ≤ 59
small_hour h e = ground arith

small_minute : (m : ℕ) → ltb 59 m ≡ false → m ≤ 59
small_minute m e = ground arith

-- The view after a conditional, from its two branches.
if_split :
    (b : Bool) (x y : Game) (v w : View)
    → (b ≡ true → view x ≡ v)
    → (b ≡ false → view y ≡ w)
    → view (if b then x else y) ≡ (if b then v else w)
if_split true x y v w p q = p refl
if_split false x y v w p q = q refl

view-set : (s : Setting) (g : Game) → AllWide (s ∷ []) → view (set s g) ≡ turn s (view g)
unfolding view set_world_time set_weather release_forced_weather set_gravity store value_of
view-set (clock h m) g wide =
    if_split (ltb 23 h) _ _ _ _ (λ e. refl)
      (λ e.
        if_split (ltb 59 m) _ _ _ _ (λ f. refl)
          (λ f.
            ap (λ n. record (view g) { hour = n; minute = value_of (m % 256 ∷ []) })
              (one h (small_hour h e))
            ∙ ap (λ n. record (view g) { hour = h; minute = n }) (one m (small_minute m f))))
view-set (weather w) g wide =
    ap (λ n. record (view g) { old = n; new = n }) (two w (omega (arith, wide.0)))
view-set unforced g wide = refl
view-set (gravity v) g wide = ap (λ n. record (view g) { pull = n }) (four v wide.0)

wide_head : (s : Setting) (ss : List Setting) → AllWide (s ∷ ss) → AllWide (s ∷ [])
wide_head (clock h m) ss wide = tt
wide_head (weather w) ss wide = (wide.0, tt)
wide_head unforced ss wide = tt
wide_head (gravity v) ss wide = (wide.0, tt)

wide_tail : (s : Setting) (ss : List Setting) → AllWide (s ∷ ss) → AllWide ss
wide_tail (clock h m) ss wide = wide
wide_tail (weather w) ss wide = wide.1
wide_tail unforced ss wide = wide
wide_tail (gravity v) ss wide = wide.1

-- Any sequence of settings leaves in the game's own variables what each of them means: a time of the
-- day that is none changes nothing, a weather sets both ends of the blend and not the forced one, and
-- none of them changes another's variable.
pub view-set_all :
    (ss : List Setting) (g : Game) → AllWide ss → view (set_all ss g) ≡ turn_all ss (view g)
view-set_all [] g wide = refl
view-set_all (s ∷ ss) g wide =
    view-set_all ss (set s g) (wide_tail s ss wide)
    ∙ ap (turn_all ss) (view-set s g (wide_head s ss wide))
