-- ===== src/Engine/Device/Linked.antt =====
-- native/d3d.cpp: a slot of a device that leads to the library always has the original behind it.
use opensamp.Prelude.{
  ℕ, ◌≡◌, ◌≢◌, Bool, true, false, not, ◌&&◌, Option, ◌==◌, ==_iff, if_cases, arith,
}
use opensamp.Engine.Device.{
  Present, Device, Graphics, put_slot, patch_ptr, capture_reset, capture_present, capture_originals,
  patch_slot, patch_both, hook_device,
}

-- The part of the state that decides it.
pub record Links : Type 0 where
  pub o_reset : ℕ
  pub o_present : ℕ
  pub slot : ℕ → ℕ → ℕ

abbrev pub links : Device → Links
links s = record { o_reset = s.o_reset; o_present = s.o_present; slot = s.slot }

-- No slot is empty; an original that is known is not the library's own function; behind a slot that is,
-- the original is known; and the original of Present is known with that of Reset.
pub record IsLinked (lib : Graphics) (l : Links) : Type 0 where
  pub full : (t i : ℕ) → l.slot t i ≢ 0
  pub other_reset : l.o_reset ≢ lib.own_reset
  pub other_present : l.o_present ≢ lib.own_present
  pub reset_known : (t : ℕ) → l.slot t 16 ≡ lib.own_reset → l.o_reset ≢ 0
  pub present_known : (t : ℕ) → l.slot t 17 ≡ lib.own_present → l.o_present ≢ 0
  pub paired : l.o_present ≢ 0 → l.o_reset ≢ 0

-- Behind the slots of the device that is watched the originals are known.
abbrev pub IsWatched : Graphics → ℕ → Links → Type 0
IsWatched lib dev l = dev ≢ 0 → lib.table dev ≢ 0 → (l.o_reset ≢ 0) × (l.o_present ≢ 0)

-- The library's functions are somewhere, and a call of the original Reset neither empties a slot nor
-- leads one to the library.
pub record IsDriver (lib : Graphics) : Type 0 where
  pub own_reset_there : lib.own_reset ≢ 0
  pub own_present_there : lib.own_present ≢ 0
  pub fills :
      (pp : Option Present) (s : Device)
      → ((t i : ℕ) → s.slot t i ≢ 0)
      → (t i : ℕ) → (lib.reset pp s).1 t i ≢ 0
  pub leads_reset :
      (pp : Option Present) (s : Device) (t : ℕ)
      → (lib.reset pp s).1 t 16 ≡ lib.own_reset
      → s.slot t 16 ≡ lib.own_reset
  pub leads_present :
      (pp : Option Present) (s : Device) (t : ℕ)
      → (lib.reset pp s).1 t 17 ≡ lib.own_present
      → s.slot t 17 ≡ lib.own_present

pub nonzero : (n : ℕ) → (n == 0) ≡ false → n ≢ 0
nonzero n e = ground arith

pub zero_of : (n : ℕ) → (n == 0) ≡ true → n ≡ 0
zero_of n e = (==_iff n 0).0 e

not_taken :
    (o v own : ℕ)
    → v ≢ 0
    → (v ≡ own → o ≢ 0)
    → (o == 0 && not (v == 0) && not (v == own)) ≡ false
    → o ≢ 0
not_taken o v own full known e = ground arith

taken_other : (o v own : ℕ) → (o == 0 && not (v == 0) && not (v == own)) ≡ true → v ≢ own
taken_other o v own e = ground arith

module _ (lib : Graphics) (driver : IsDriver lib) where
  abbrev pub Good : Device → Type 0
  Good s = IsLinked lib (links s)

  abbrev pub Known : Device → Type 0
  Known s = (s.o_reset ≢ 0) × (s.o_present ≢ 0)

  capture_reset-Good :
      (t : ℕ) (s : Device)
      → Good s
      → Good (capture_reset lib t s) × ((capture_reset lib t s).o_reset ≢ 0)
  unfolding capture_reset
  capture_reset-Good t s g =
      if_cases (λ (k : Device). Good k × (k.o_reset ≢ 0))
        (s.o_reset == 0 && not (s.slot t 16 == 0) && not (s.slot t 16 == lib.own_reset))
        (λ e.
          let some = g.full t 16 in
          (
            record {
              full = g.full;
              other_reset = taken_other s.o_reset (s.slot t 16) lib.own_reset e;
              other_present = g.other_present;
              reset_known = λ u h. some;
              present_known = g.present_known;
              paired = λ h. some;
            },
            some,
          ))
        (λ e.
          (g, not_taken s.o_reset (s.slot t 16) lib.own_reset (g.full t 16) (g.reset_known t) e))

  capture_present-Good :
      (t : ℕ) (s : Device)
      → Good s
      → s.o_reset ≢ 0
      → Good (capture_present lib t s) × Known (capture_present lib t s)
  unfolding capture_present
  capture_present-Good t s g known =
      if_cases (λ (k : Device). Good k × Known k)
        (s.o_present == 0 && not (s.slot t 17 == 0) && not (s.slot t 17 == lib.own_present))
        (λ e.
          let there = g.full t 17 in
          (
            record {
              full = g.full;
              other_reset = g.other_reset;
              other_present = taken_other s.o_present (s.slot t 17) lib.own_present e;
              reset_known = g.reset_known;
              present_known = λ u h. there;
              paired = λ h. known;
            },
            (known, there),
          ))
        (λ e. (
          g,
          (
            known,
            not_taken s.o_present (s.slot t 17) lib.own_present (g.full t 17) (g.present_known t) e,
          ),
        ))

  capture_originals-Good : (d : ℕ) (s : Device) → Good s → Good (capture_originals lib d s)
  unfolding capture_originals
  capture_originals-Good d s g =
      if_cases Good (lib.table d == 0) (λ e. g)
        (λ e.
          let r = capture_reset-Good (lib.table d) s g in
          (capture_present-Good (lib.table d) (capture_reset lib (lib.table d) s) r.0 r.1).0)

  pub capture_originals-Known :
      (d : ℕ) (s : Device) → Good s → lib.table d ≢ 0 → Known (capture_originals lib d s)
  unfolding capture_originals
  capture_originals-Known d s g there =
      if_cases Known (lib.table d == 0) (λ e. elim (there (zero_of (lib.table d) e)) [ ])
        (λ e.
          let r = capture_reset-Good (lib.table d) s g in
          (capture_present-Good (lib.table d) (capture_reset lib (lib.table d) s) r.0 r.1).1)

  -- A slot that is written with an address, once the originals are known.
  put_slot-Good :
      (t i v : ℕ) (s : Device)
      → v ≢ 0
      → Good s
      → Known s
      → Good (record s { slot = put_slot t i v s.slot })
  unfolding put_slot
  put_slot-Good t i v s there g known = record {
    full = λ u j. if_cases (λ (n : ℕ). n ≢ 0) (u == t && j == i) (λ e. there) (λ e. g.full u j);
    other_reset = g.other_reset;
    other_present = g.other_present;
    reset_known = λ u h. known.0;
    present_known = λ u h. known.1;
    paired = λ h. known.0;
  }

  patch_slot-Good :
      (t i v : ℕ) (s : Device)
      → v ≢ 0
      → Good s
      → Known s
      → Good (patch_slot lib t i v s).1 × Known (patch_slot lib t i v s).1
  unfolding patch_slot patch_ptr
  patch_slot-Good t i v s there g known =
      let P = λ (r : Bool × Device). Good r.1 × Known r.1 in
      if_cases P (s.slot t i == v) (λ e. (g, known))
        (λ e.
          if_cases P (lib.protects t i) (λ f. (put_slot-Good t i v s there g known, known))
            (λ f. (g, known)))

  pub patch_both-Good :
      (t : ℕ) (s : Device)
      → Good s
      → Known s
      → Good (patch_both lib t s).1 × Known (patch_both lib t s).1
  patch_both-Good t s g known =
      let a = patch_slot-Good t 16 lib.own_reset s driver.own_reset_there g known in
      patch_slot-Good t 17 lib.own_present (patch_slot lib t 16 lib.own_reset s).1
        driver.own_present_there a.0 a.1

  abbrev pub Sound : Device → Type 0
  Sound s = Good s × IsWatched lib s.dev (links s)

  -- Once its table is there, a device is hooked from any state, also one in which it has just become the
  -- one that is watched.
  pub hooked-Sound :
      (d : ℕ) (s : Device)
      → lib.table d ≢ 0
      → Good s
      → Sound (patch_both lib (lib.table d) (capture_originals lib d s)).1
  hooked-Sound d s there g =
      let r =
        patch_both-Good (lib.table d) (capture_originals lib d s) (capture_originals-Good d s g)
          (capture_originals-Known d s g there) in
      (r.0, λ h i. r.1)

  pub hook_device-Sound : (d : ℕ) (s : Device) → Sound s → Sound (hook_device lib d s)
  unfolding hook_device
  hook_device-Sound d s g =
      if_cases Sound (d == 0) (λ e. g)
        (λ e.
          if_cases Sound (lib.table d == 0) (λ f. g)
            (λ f. hooked-Sound d s (nonzero (lib.table d) f) g.0))

  pub capture_originals-Sound : (d : ℕ) (s : Device) → Sound s → Sound (capture_originals lib d s)
  unfolding capture_originals
  capture_originals-Sound d s g =
      if_cases Sound (lib.table d == 0) (λ e. g)
        (λ e.
          let r = capture_reset-Good (lib.table d) s g.0 in
          let k = capture_present-Good (lib.table d) (capture_reset lib (lib.table d) s) r.0 r.1 in
          (k.0, λ h i. k.1))
